-- ===== src/Store/Writer/Puts.antt =====
-- What the writer does on a file that takes every write, without the error paths.
use osfp.Base.{
  ℕ, ◌+◌, ◌-◌, Bytes, false, [], ◌∷◌, ◌++◌, Option, none, some, ◌==◌, length, take, ◌≡◌, refl, ap,
  ◌∙◌,
}
use osfp.Store.Writer.{
  Writer, Outcome, ◌and_then◌, put_le, write, write_unless, write_packed, write_raw, end_block,
  flush_block,
}

take_whole : (p : Bytes) → take (length p) p ≡ p
take_whole [] = refl
take_whole (c ∷ p) = ap (λ r. c ∷ r) (take_whole p)

-- The bytes, put behind those of the file.
abbrev pub put : Bytes → Writer → Writer
put p w = record w {
  file = w.file ++ p;
  digest = w.digest ++ p;
  off = w.off + length p;
  err = none;
}

abbrev pub words : (Bytes → Bytes) → Bytes → Bytes
words compress raw = put_le 4 (length raw) ++ put_le 4 (length (compress raw))

abbrev pub put_packed : (Bytes → Bytes) → Bytes → Writer → Writer
put_packed compress raw w = put (compress raw) (put (words compress raw) w)

-- The writer behind a block that it has flushed.
abbrev pub flushed : (Bytes → Bytes) → Writer → Writer
flushed compress w =
    let v = put_packed compress w.block w in
    record v {
      index =
          v.index
          ++ record { first_key = v.block_first; offset = w.off; size = v.off - w.off } ∷ [];
      block = [];
      block_count = 0;
    }

module _ (sink : Bytes → Bytes → ℕ × Option Bytes) (compress sha256 : Bytes → Bytes)
    (accepts : (f p : Bytes) → sink f p ≡ (length p, none)) where
  pub write-put :
      (p : Bytes) (w : Writer) → w.err ≡ none → write sink compress sha256 p w ≡ (put p w, none)
  unfolding write
  write-put p w h = unless w.err h
    where
      unless :
          (err : Option Bytes)
          → err ≡ none
          → write_unless sink compress sha256 err p w ≡ (put p w, none)
      unless none e = rw (accepts w.file p, take_whole p) refl
      unless (some x) e = absurd (cc e)

  pub write_packed-put :
      (raw : Bytes) (w : Writer)
      → w.err ≡ none
      → write_packed sink compress sha256 raw w ≡ (put_packed compress raw w, none)
  unfolding write_packed
  write_packed-put raw w h =
      ap (λ (o : Outcome). o and_then write sink compress sha256 (compress raw))
        (write-put (words compress raw) w h)
      ∙ write-put (compress raw) (put (words compress raw) w) refl

  pub flush_block-flushed :
      (w : Writer)
      → w.err ≡ none
      → (w.block_count == 0) ≡ false
      → flush_block sink compress sha256 w ≡ (flushed compress w, none)
  unfolding flush_block
  flush_block-flushed w h k = rw k (
      ap (λ (o : Outcome). o and_then end_block sink compress sha256 w.off)
        (write_packed-put w.block w h))

  pub write_raw-put :
      (p : Bytes) (w : Writer)
      → write_raw sink compress sha256 p w ≡ (record w { file = w.file ++ p }, none)
  unfolding write_raw
  write_raw-put p w = rw (accepts w.file p, take_whole p) refl
