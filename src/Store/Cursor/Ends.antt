-- ===== src/Store/Cursor/Ends.antt =====
-- The loops over a cursor come to an end, whatever the bytes of the file are.
use osfp.Base.{
  ℕ, zero, suc, ◌+◌, ◌<◌, ◌≤◌, Bytes, List, [], ◌∷◌, Option, none, some, if◌then◌else◌, length, ◌≡◌,
  refl, ap, arith,
}
use osfp.Entry.{Entry}
use osfp.Store.Decode.{BlockDecoder, Next, got, eof, corrupt, reset, next}
use osfp.Store.Decode.Shorter.{Shortens, next-Shortens}
use osfp.Store.Reader.{BlockRef, ReadError, Result, ok, err}
use osfp.Store.Cursor.{
  Cursor, Step, entry, done, failed, cursor_at, step, open_block, next_entry, give, cursor_next,
  more, go_on, iterate,
}
use osfp.Store.Cursor.Iterate.{reads}
use osfp.Store.Cursor.Seek.{reaches, land, seek_from}

abbrev bytes_in : Result Bytes → ℕ
bytes_in (err e) = 0
bytes_in (ok buf) = length buf

abbrev held : Option Entry → ℕ
held none = 0
held (some e) = 1

module _ (decompress : Bytes → Option Bytes) (file : Bytes) where
  -- How many bytes the blocks ahead unpack to.
  abbrev pub bytes_ahead : List BlockRef → ℕ
  bytes_ahead [] = 0
  bytes_ahead (r ∷ rs) = bytes_in (reads decompress file r) + bytes_ahead rs

  -- The bytes that a cursor has before it, and one for an entry that it will give again.
  abbrev pub weight : Cursor → ℕ
  weight c = held c.pending + (length c.dec.br.rest + bytes_ahead c.ahead)

  -- An entry leaves less before the cursor than `n`.
  abbrev Leaves : ℕ → Step → Type 0
  Leaves n (entry e c) = weight c < n
  Leaves n (done c) = Unit
  Leaves n (failed x) = Unit

  Leaves-mono : (n m : ℕ) (s : Step) → n ≤ m → Leaves n s → Leaves m s
  Leaves-mono n m (entry e c) h k = omega (arith, h, k)
  Leaves-mono n m (done c) h k = tt
  Leaves-mono n m (failed x) h k = tt

  Leaves-step :
      (rs : List BlockRef) (d : BlockDecoder) (n : Next) (later : Step)
      → Shortens d n
      → Leaves (length d.br.rest + bytes_ahead rs) later
      → Leaves (length d.br.rest + bytes_ahead rs) (step decompress file rs d n later)
  Leaves-step rs d (got e d') later h k = omega (arith, h)
  Leaves-step rs d eof later h k = k
  Leaves-step rs d corrupt later h k = tt

  Leaves-next_entry :
      (rs : List BlockRef) (d : BlockDecoder)
      → Leaves (length d.br.rest + bytes_ahead rs) (next_entry decompress file rs d)
  unfolding next_entry
  Leaves-next_entry [] d = Leaves-step [] d (next d) (done (cursor_at [] d)) (next-Shortens d) tt
  Leaves-next_entry (r ∷ rs) d =
      Leaves-step (r ∷ rs) d (next d)
        (open_block decompress file (next_entry decompress file rs) (reads decompress file r))
        (next-Shortens d) (opened (reads decompress file r) refl (Leaves-next_entry rs))
    where
      opened :
          (b : Result Bytes)
          → b ≡ reads decompress file r
          → ((d : BlockDecoder)
              → Leaves (length d.br.rest + bytes_ahead rs) (next_entry decompress file rs d))
          → Leaves
              (length d.br.rest + bytes_ahead (r ∷ rs))
              (open_block decompress file (next_entry decompress file rs) b)
      opened (err e) same h = tt
      opened (ok buf) same h =
          unfold reset in
          Leaves-mono (length buf + bytes_ahead rs) (length d.br.rest + bytes_ahead (r ∷ rs))
            (next_entry decompress file rs (reset buf)) (omega (arith, ap bytes_in same))
            (h (reset buf))

  Leaves-cursor_next : (c : Cursor) → Leaves (weight c) (cursor_next decompress file c)
  unfolding cursor_next
  Leaves-cursor_next c = given c.pending refl
    where
      given : (p : Option Entry) → p ≡ c.pending → Leaves (weight c) (give decompress file p c)
      given none same =
          Leaves-mono (length c.dec.br.rest + bytes_ahead c.ahead) (weight c)
            (next_entry decompress file c.ahead c.dec) (omega arith)
            (Leaves-next_entry c.ahead c.dec)
      given (some e) same = omega (arith, ap held same)

  -- The runs of `Iterate` that come to an end, without any fuel: at the end of the cursor, at an error
  -- of it, or behind an entry with the run from there on.
  pub data Iterated : Cursor → Result (List Entry) → Type 0 where
    ended : {c c' : Cursor} → cursor_next decompress file c ≡ done c' → Iterated c (ok [])
    stopped :
        {c : Cursor} {x : ReadError} → cursor_next decompress file c ≡ failed x → Iterated c (err x)
    passed :
        {c c' : Cursor} {e : Entry} {r : Result (List Entry)}
        → cursor_next decompress file c ≡ entry e c'
        → Iterated c' r
        → Iterated c (more decompress file e r)

  -- The loop of `Iterate` comes to an end, whatever the bytes of the file are: from every cursor there
  -- is a run of it that ends, and on any fuel above what the cursor has before it the loop has the
  -- result of that run.
  pub iterate-Iterated :
      (c : Cursor) (n : ℕ) → weight c < n → Iterated c (iterate decompress file n c)
  unfolding iterate
  iterate-Iterated c zero h = absurd (omega arith)
  iterate-Iterated c (suc n) h =
      run (cursor_next decompress file c) refl (Leaves-cursor_next c)
        (λ c' l. iterate-Iterated c' n (omega (arith, l)))
    where
      run :
          (s : Step)
          → cursor_next decompress file c ≡ s
          → Leaves (weight c) s
          → ((c' : Cursor) → weight c' < weight c → Iterated c' (iterate decompress file n c'))
          → Iterated c (go_on decompress file (iterate decompress file n) s)
      run (entry e c') same l rest = passed same (rest c' l)
      run (done c') same l rest = ended same
      run (failed x) same l rest = stopped same

  -- On any fuel above what the cursor has before it, the loop over its entries has the same result.
  pub iterate-weight :
      (c : Cursor) (n m : ℕ)
      → weight c < n
      → weight c < m
      → iterate decompress file n c ≡ iterate decompress file m c
  unfolding iterate
  iterate-weight c zero m h k = absurd (omega arith)
  iterate-weight c (suc n) zero h k = absurd (omega arith)
  iterate-weight c (suc n) (suc m) h k =
      same (cursor_next decompress file c) (Leaves-cursor_next c)
        (λ c' l. iterate-weight c' n m (omega (arith, l)) (omega (arith, l)))
    where
      same :
          (s : Step)
          → Leaves (weight c) s
          → ((c' : Cursor)
              → weight c' < weight c
              → iterate decompress file n c' ≡ iterate decompress file m c')
          → go_on decompress file (iterate decompress file n) s
            ≡ go_on decompress file (iterate decompress file m) s
      same (entry e c') l rest = ap (more decompress file e) (rest c' l)
      same (done c') l rest = refl
      same (failed x) l rest = refl

  -- So has the loop of a search for a path.
  pub seek_from-weight :
      (path : Bytes) (c : Cursor) (n m : ℕ)
      → weight c < n
      → weight c < m
      → seek_from decompress file path n c ≡ seek_from decompress file path m c
  unfolding seek_from
  seek_from-weight path c zero m h k = absurd (omega arith)
  seek_from-weight path c (suc n) zero h k = absurd (omega arith)
  seek_from-weight path c (suc n) (suc m) h k =
      same (cursor_next decompress file c) (Leaves-cursor_next c)
        (λ c' l. seek_from-weight path c' n m (omega (arith, l)) (omega (arith, l)))
    where
      same :
          (s : Step)
          → Leaves (weight c) s
          → ((c' : Cursor)
              → weight c' < weight c
              → seek_from decompress file path n c' ≡ seek_from decompress file path m c')
          → land decompress file path (seek_from decompress file path n) s
            ≡ land decompress file path (seek_from decompress file path m) s
      same (entry e c') l rest =
          ap (λ later. if reaches e.path path then ok (record c' { pending = some e }) else later)
            (rest c' l)
      same (done c') l rest = refl
      same (failed x) l rest = refl
