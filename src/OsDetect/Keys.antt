-- ===== src/OsDetect/Keys.antt =====
-- The keys that `Key` and `NormalizeKey` give.
use mathlib.Core.List.{append_assoc}
use mathlib.Core.Path.{subst}
use osfp.Base.{
  ◌*◌, ◌≤◌, Bytes, codes, false, List, [], ◌∷◌, ◌++◌, some, if◌then◌else◌, length, length-append,
  All, All-append, ◌≡◌, ◌≢◌, inl, inr, refl, sym, ap, arith, Bool-cases,
}
use osfp.Text.{split_on, join, equal_fold}
use osfp.OsDetect.Key.{
  Info, is_empty, scan_bytes, trim_start, normalize_component, add_part, parts_of, key_fields,
  joined, or_unknown, key, normalize_key,
}
use osfp.OsDetect.Spelling.{
  IsKeyByte, Starts, Ends, IsKey, scan_bytes-bytes, scan_bytes-length, trim_start-bytes,
  trim_start-Starts, trim_start-length, trim_end-bytes, trim_end-Starts, trim_end-Ends,
  trim_end-length,
}

-- A component, unless nothing is left of it.
record IsPart (s : Bytes) : Type 0 where
  bytes : All IsKeyByte s
  starts : Starts s
  ends : Ends s
  short : length s ≤ 33

normalize_component-IsPart : (s : Bytes) → IsPart (normalize_component s)
unfolding normalize_component
normalize_component-IsPart s =
    let scanned = scan_bytes false [] s in
    record {
      bytes =
          trim_end-bytes (trim_start scanned)
            (trim_start-bytes scanned (scan_bytes-bytes s false [] tt));
      starts = trim_end-Starts (trim_start scanned) (trim_start-Starts scanned);
      ends = trim_end-Ends (trim_start scanned);
      short = omega (
        arith,
        trim_end-length (trim_start scanned),
        trim_start-length scanned,
        scan_bytes-length s false [] (omega arith),
      );
    }

-- A component of which something is left.
abbrev IsWholePart : Bytes → Type 0
IsWholePart s = (s ≢ []) × IsPart s

parts_of-IsWholePart : (ss : List Bytes) → All IsWholePart (parts_of ss)
unfolding parts_of add_part
parts_of-IsWholePart [] = tt
parts_of-IsWholePart (s ∷ ss) =
    with_part (normalize_component s) (normalize_component-IsPart s) (parts_of ss)
      (parts_of-IsWholePart ss)
  where
    with_part :
        (c : Bytes)
        → IsPart c
        → (parts : List Bytes) → All IsWholePart parts
        → All IsWholePart (if is_empty c then parts else c ∷ parts)
    with_part [] p parts h = h
    with_part (x ∷ c) p parts h = (((λ e. cc e), p), h)

Starts-append : (s t : Bytes) → s ≢ [] → Starts s → Starts (s ++ t)
Starts-append [] t n h = absurd (n refl)
Starts-append (c ∷ s) t n h = h

Ends-append : (s t : Bytes) → t ≢ [] → Ends t → Ends (s ++ t)
Ends-append [] t n h = h
Ends-append (c ∷ []) [] n h = absurd (n refl)
Ends-append (c ∷ []) (d ∷ t) n h = h
Ends-append (c ∷ d ∷ s) t n h = Ends-append (d ∷ s) t n h

append-nonempty : (s t : Bytes) → s ≢ [] → s ++ t ≢ []
append-nonempty [] t n = absurd (n refl)
append-nonempty (c ∷ s) t n = λ h. cc h

join_cons :
    (p q : Bytes) (qs : List Bytes)
    → join (b'-' ∷ []) (p ∷ q ∷ qs) ≡ p ++ b'-' ∷ join (b'-' ∷ []) (q ∷ qs)
unfolding join
join_cons p q qs = append_assoc p (b'-' ∷ []) (join (b'-' ∷ []) (q ∷ qs))

join-IsKey :
    (p : Bytes) (ps : List Bytes) → All IsWholePart (p ∷ ps) → IsKey (join (b'-' ∷ []) (p ∷ ps))
unfolding join
join-IsKey p [] ((n, h), hs) = record {
  nonempty = n;
  bytes = h.bytes;
  starts = h.starts;
  ends = h.ends;
}
join-IsKey p (q ∷ qs) ((n, h), hs) =
    let rest = join-IsKey q qs hs in
    let tail = join (b'-' ∷ []) (q ∷ qs) in
    subst IsKey (sym (join_cons p q qs)) (record {
      nonempty = append-nonempty p (b'-' ∷ tail) n;
      bytes = All-append IsKeyByte p (b'-' ∷ tail) h.bytes (refl, rest.bytes);
      starts = Starts-append p (b'-' ∷ tail) n h.starts;
      ends =
          Ends-append p (b'-' ∷ tail) (λ e. cc e)
            (Ends-append (b'-' ∷ []) tail rest.nonempty rest.ends);
    })

join-length : (ps : List Bytes) → All IsWholePart ps → length (join (b'-' ∷ []) ps) ≤ length ps * 34
unfolding join
join-length [] h = omega arith
join-length (p ∷ []) h = omega (arith, h.0.1.short)
join-length (p ∷ q ∷ qs) h = omega (
  arith,
  h.0.1.short,
  length-append p (b'-' ∷ join (b'-' ∷ []) (q ∷ qs)),
  ap (length {0}) (join_cons p q qs),
  join-length (q ∷ qs) h.1,
)

key_fields-length : (i : Info) → length (key_fields i) ≤ 4
key_fields-length i = elim (Bool-cases (equal_fold i.distro i.os)) [
  | inl same ↦ rw same (omega arith)
  | inr other ↦ rw other (omega arith)
]

parts_of-length : (ss : List Bytes) → length (parts_of ss) ≤ length ss
unfolding parts_of add_part
parts_of-length [] = omega arith
parts_of-length (s ∷ ss) = elim (Bool-cases (is_empty (normalize_component s))) [
  | inl nothing ↦ rw nothing (omega (arith, parts_of-length ss))
  | inr something ↦ rw something (omega (arith, parts_of-length ss))
]

unknown-IsKey : IsKey (codes "unknown")
unknown-IsKey = record {
  nonempty = λ h. cc h;
  bytes = (refl, (refl, (refl, (refl, (refl, (refl, (refl, tt)))))));
  starts = refl;
  ends = refl;
}

-- The key of any description of a system is a plain name: it is not empty, has only small letters,
-- digits, dots and dashes, starts and ends with a letter or a digit, and has 136 bytes at most.
pub key-IsKey : (i : Info) → IsKey (key i) × (length (key i) ≤ 136)
unfolding key
key-IsKey i =
    of_parts (parts_of (key_fields i)) (parts_of-IsWholePart (key_fields i))
      (omega (arith, parts_of-length (key_fields i), key_fields-length i))
  where
    of_parts :
        (ps : List Bytes)
        → All IsWholePart ps
        → length ps ≤ 4
        → IsKey (or_unknown (joined ps)) × (length (or_unknown (joined ps)) ≤ 136)
    of_parts [] h n = (unknown-IsKey, omega arith)
    of_parts (p ∷ ps) h n = (join-IsKey p ps h, omega (arith, join-length (p ∷ ps) h))

-- A key that a user gives is refused or made a plain name of the same spelling.
pub normalize_key-IsKey : (s k : Bytes) → normalize_key s ≡ some k → IsKey k
unfolding normalize_key
normalize_key-IsKey s k =
    of_parts (parts_of (split_on b'-' s)) (parts_of-IsWholePart (split_on b'-' s))
  where
    of_parts : (ps : List Bytes) → All IsWholePart ps → joined ps ≡ some k → IsKey k
    of_parts [] h e = absurd (cc e)
    of_parts (p ∷ ps) h e =
        let same : join (b'-' ∷ []) (p ∷ ps) ≡ k = cc e in subst IsKey same (join-IsKey p ps h)
