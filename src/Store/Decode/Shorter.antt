-- ===== src/Store/Decode/Shorter.antt =====
-- Reading takes bytes: whatever the bytes are, an entry that is decoded leaves fewer of them.
use osfp.Base.{
  ℕ, ◌<◌, Bytes, Bool, true, false, not, ◌&&◌, [], ◌++◌, ltb, bytes_eq, if◌then◌else◌, length, take,
  ◌≡◌, refl, sym, arith,
}
use osfp.Entry.{Entry}
use osfp.Store.Format.{max_string_size}
use osfp.Store.Decode.{
  ByteReader, fail, uvarint, str, BlockDecoder, Next, got, eof, corrupt, read_fields, finish,
  check_shared, out_of_order, next,
}
use osfp.Store.Decode.Falls.{
  Descends, Descends-refl, Descends-trans, Descends-fail, Strict, Strict-uvarint, Falls-str,
  Falls-read_fields,
}

-- An entry leaves fewer bytes than there were.
abbrev pub Shortens : BlockDecoder → Next → Type 0
Shortens d (got e d') = length d'.br.rest < length d.br.rest
Shortens d eof = Unit
Shortens d corrupt = Unit

Shortens-if :
    (d : BlockDecoder) (t : Bool) (x y : Next)
    → Shortens d x
    → Shortens d y
    → Shortens d (if t then x else y)
Shortens-if d true x y h k = h
Shortens-if d false x y h k = k

Falls-check_shared :
    (shared : ℕ) (prev : Bytes) (b : ByteReader) → Descends b (check_shared shared prev b)
Falls-check_shared shared prev b = latched (not b.failed && ltb (length prev) shared)
  where
    latched : (t : Bool) → Descends b (if t then fail b else b)
    latched true = Descends-fail b
    latched false = Descends-refl b

Shortens-finish :
    (d : BlockDecoder) (path : Bytes) (x : Entry × ByteReader)
    → Strict d.br x.1
    → Shortens d (finish path x)
Shortens-finish d path (e, b) h = settled b.failed refl
  where
    settled :
        (t : Bool)
        → t ≡ b.failed
        → Shortens d (if t then corrupt else got e (record { br = b; prev = path }))
    settled true same = tt
    settled false same = h.fewer (sym same)

Strict-then : (a b c : ByteReader) → Strict a b → Descends b c → Strict a c
Strict-then a b c h k = record {
  falls = Descends-trans a b c h.falls k;
  fewer = λ e. let some_read = h.fewer (k.sound e) in omega (arith, some_read, k.fewer);
}

-- Whatever the bytes of a block are, an entry that the decoder finds leaves fewer of them.
pub next-Shortens : (d : BlockDecoder) → Shortens d (next d)
unfolding next
next-Shortens d =
    let (shared, b1) = uvarint d.br in
    let b1' = check_shared shared d.prev b1 in
    let (suffix, b2) = str max_string_size b1' in
    let path = take shared d.prev ++ suffix in
    Shortens-if d d.br.failed corrupt _ tt (
      Shortens-if d (bytes_eq d.br.rest []) eof _ tt (
        Shortens-if d b2.failed corrupt _ tt (
          Shortens-if d (bytes_eq path []) corrupt _ tt (
            Shortens-if d (out_of_order d.prev path) corrupt _ tt (
              Shortens-finish d path (read_fields path b2) (
                Strict-then d.br b2 (read_fields path b2).1
                  (Strict-then d.br b1' b2
                    (Strict-then d.br b1 b1' (Strict-uvarint d.br)
                      (Falls-check_shared shared d.prev b1))
                    (Falls-str max_string_size b1'))
                  (Falls-read_fields path b2)))))))
