-- ===== src/Filepath.antt =====
-- The functions of Go's package path/filepath that the program calls, on Unix paths.
use osfp.Base.{
  Bytes, codes, Bool, false, not, ◌&&◌, ◌||◌, List, [], ◌∷◌, ◌++◌, ◌==◌, bytes_eq, if◌then◌else◌,
}
use osfp.Text.{split_on, join}
use osfp.Canon.{slash}
use mathlib.Core.List.{reverse}

abbrev pub rooted : Bytes → Bool
rooted [] = false
rooted (c ∷ s) = c == slash

-- One element of a path, over the elements kept so far, the last one first.
abbrev clean_step : Bool → List Bytes → Bytes → List Bytes
clean_step root [] n =
    if bytes_eq n [] || bytes_eq n (codes ".") || (bytes_eq n (codes "..") && root)
    then []
    else n ∷ []
clean_step root (k ∷ ks) n =
    if bytes_eq n [] || bytes_eq n (codes ".")
    then k ∷ ks
    else if bytes_eq n (codes "..") && not (bytes_eq k (codes ".."))
    then ks
    else n ∷ k ∷ ks

unfoldable pub clean_all : Bool → List Bytes → List Bytes → List Bytes
clean_all root kept [] = reverse kept
clean_all root kept (n ∷ ns) = clean_all root (clean_step root kept n) ns

abbrev pub or_dot : Bytes → Bytes
or_dot [] = codes "."
or_dot (c ∷ s) = c ∷ s

-- filepath.Clean
unfoldable pub clean : Bytes → Bytes
unfolding clean_all split_on join
clean path =
    let names = clean_all (rooted path) [] (split_on slash path) in
    if rooted path then slash ∷ join (slash ∷ []) names else or_dot (join (slash ∷ []) names)

abbrev last_or : Bytes → List Bytes → Bytes
last_or d [] = d
last_or d (n ∷ ns) = last_or (if bytes_eq n [] then d else n) ns

-- filepath.Base: the last element that is not empty
unfoldable pub base : Bytes → Bytes
unfolding split_on
base path = last_or (if rooted path then slash ∷ [] else codes ".") (split_on slash path)

-- A path that `filepath.Join` leaves out in front of a name: it drops an empty one, and cleans "."
-- away.
abbrev pub is_here : Bytes → Bool
is_here p = bytes_eq p [] || bytes_eq p (codes ".")

-- filepath.Join of a clean directory and a name of one element
unfoldable pub join_path : Bytes → Bytes → Bytes
join_path dir name =
    if bytes_eq dir (slash ∷ [])
    then slash ∷ name
    else if is_here dir
    then name
    else dir ++ slash ∷ name
