-- ===== src/Store/Writer/Offsets.antt =====
-- The offset and the digest that the writer of internal/store/writer.go keeps, and its file.
use osfp.Base.{
  ℕ, zero, suc, ◌==◌, bytes_eq, ◌+◌, ◌≤◌, Bytes, Bool, true, false, List, [], ◌∷◌, ◌++◌, Option,
  none, some, if◌then◌else◌, length, length-append, take, ◌≡◌, refl, ap, ◌∙◌, arith, Bool-cases,
  inl, inr,
}
use osfp.Entry.{Entry}
use osfp.Store.Writer.{
  Writer, Outcome, ◌and_then◌, write, write_packed, flush_block, start_block, put_entry,
  is_misplaced, add, new_writer, add_all, blank, header, accept, write_unless, add_unless, put_meta,
  end_meta,
}

-- The offset is the number of bytes in the file, the hash was given the bytes of the file, and the
-- writer is closed or not.
pub record Sound (closed : Bool) (w : Writer) : Type 0 where
  pub counted : w.off ≡ length w.file
  pub hashed : w.digest ≡ w.file
  pub closed_is : w.closed ≡ closed

length-take_le : (n : ℕ) (p : Bytes) → n ≤ length p → length (take n p) ≡ n
length-take_le zero p h = refl
length-take_le (suc n) [] h = absurd (omega arith)
length-take_le (suc n) (c ∷ p) h = omega (arith, length-take_le n p (omega arith))

Sound-then :
    (b : Bool) (o : Outcome) (f : Writer → Outcome)
    → Sound b o.0
    → ((w : Writer) → Sound b w → Sound b (f w).0)
    → Sound b (o and_then f).0
Sound-then b (w, none) f h k = k w h
Sound-then b (w, some e) f h k = h

module _ (sink : Bytes → Bytes → ℕ × Option Bytes) (compress sha256 : Bytes → Bytes)
    (bounded : (f p : Bytes) → (sink f p).0 ≤ length p) (b : Bool) where
  Sound-accept :
      (p : Bytes) (n : ℕ) (e : Option Bytes) (w : Writer)
      → n ≤ length p
      → Sound b w
      → Sound b (accept sink compress sha256 p (n, e) w).0
  Sound-accept p n e w le h = record {
    counted =
        ap (λ k. k + n) h.counted
        ∙ omega (arith, length-append w.file (take n p), length-take_le n p le);
    hashed = ap (λ d. d ++ take n p) h.hashed;
    closed_is = h.closed_is;
  }

  pub Sound-write :
      (p : Bytes) (w : Writer) → Sound b w → Sound b (write sink compress sha256 p w).0
  unfolding write
  Sound-write p w h = unless w.err
    where
      unless : (err : Option Bytes) → Sound b (write_unless sink compress sha256 err p w).0
      unless none = Sound-accept p (sink w.file p).0 (sink w.file p).1 w (bounded w.file p) h
      unless (some e) = h

  pub Sound-write_packed :
      (raw : Bytes) (w : Writer) → Sound b w → Sound b (write_packed sink compress sha256 raw w).0
  unfolding write_packed
  Sound-write_packed raw w h =
      Sound-then b _ _ (Sound-write _ w h) (λ v k. Sound-write (compress raw) v k)

  Sound-if :
      (t : Bool) (o o' : Outcome) → Sound b o.0 → Sound b o'.0 → Sound b (if t then o else o').0
  Sound-if true o o' h k = h
  Sound-if false o o' h k = k

  pub Sound-flush_block : (w : Writer) → Sound b w → Sound b (flush_block sink compress sha256 w).0
  unfolding flush_block
  Sound-flush_block w h =
      Sound-if (w.block_count == 0) (w, none) _ h
        (Sound-then b _ _ (Sound-write_packed w.block w h)
          (λ v k. record { counted = k.counted; hashed = k.hashed; closed_is = k.closed_is }))

  Sound-put_entry :
      (e : Entry) (w : Writer)
      → Sound b w
      → Sound b (put_entry sink compress sha256 e (start_block sink compress sha256 e w))
  Sound-put_entry e w h = elim (Bool-cases (w.block_count == 0)) [
    | inl fresh ↦
        rw fresh (record { counted = h.counted; hashed = h.hashed; closed_is = h.closed_is })
    | inr going ↦
        rw going (record { counted = h.counted; hashed = h.hashed; closed_is = h.closed_is })
  ]

  Sound-add : (e : Entry) (w : Writer) → Sound b w → Sound b (add sink compress sha256 e w).0
  unfolding add
  Sound-add e w h = unless w.err
    where
      unless : (err : Option Bytes) → Sound b (add_unless sink compress sha256 err e w).0
      unless (some x) = h
      unless none =
          let next = put_entry sink compress sha256 e (start_block sink compress sha256 e w) in
          let put : Sound b next = Sound-put_entry e w h in
          Sound-if w.closed (w, _) _ h
            (Sound-if (bytes_eq e.path []) (w, _) _ h
              (Sound-if (is_misplaced sink compress sha256 w e) (w, _) _ h
                (Sound-if _ _ (next, none) (Sound-flush_block next put) put)))

  Sound-add_all :
      (es : List Entry) (w : Writer) → Sound b w → Sound b (add_all sink compress sha256 es w).0
  unfolding add_all
  Sound-add_all [] w h = h
  Sound-add_all (e ∷ es) w h =
      Sound-then b (add sink compress sha256 e w) _ (Sound-add e w h) (Sound-add_all es)

module _ (sink : Bytes → Bytes → ℕ × Option Bytes) (compress sha256 : Bytes → Bytes)
    (bounded : (f p : Bytes) → (sink f p).0 ≤ length p) where
  Sound-new_writer : (payload : Bytes) → Sound false (new_writer sink compress sha256 payload).0
  unfolding new_writer
  Sound-new_writer payload =
      Sound-then false
        (write sink compress sha256 (header sink compress sha256) (blank sink compress sha256))
        (put_meta sink compress sha256 payload)
        (Sound-write sink compress sha256 bounded false (header sink compress sha256)
          (blank sink compress sha256) (record { counted = refl; hashed = refl; closed_is = refl }))
        (λ w h.
          let at_meta = record w { meta_offset = w.off } in
          Sound-then false (write sink compress sha256 payload at_meta)
            (end_meta sink compress sha256 payload)
            (Sound-write sink compress sha256 bounded false payload at_meta
              (record { counted = h.counted; hashed = h.hashed; closed_is = h.closed_is }))
            (λ v k. record { counted = k.counted; hashed = k.hashed; closed_is = k.closed_is }))

  -- Whatever the file accepts of each write, while entries are added the running offset is the
  -- number of bytes in the file, and the hash has been given the bytes of the file, no more and no
  -- fewer.
  pub add_all-Sound :
      (payload : Bytes) (es : List Entry)
      → Sound false
          (new_writer sink compress sha256 payload and_then add_all sink compress sha256 es).0
  add_all-Sound payload es =
      Sound-then false (new_writer sink compress sha256 payload) _ (Sound-new_writer payload)
        (Sound-add_all sink compress sha256 bounded false es)
