-- ===== src/Store/Writer/Sealed.antt =====
-- The end of the file that `Close` of internal/store/writer.go leaves.
use mathlib.Core.List.{append_assoc}
use osfp.Base.{
  ℕ, ◌≤◌, Bytes, Bool, true, false, List, [], ◌∷◌, ◌++◌, Option, none, some, if◌then◌else◌, length,
  take, ◌≡◌, refl, ap, ◌∙◌,
}
use osfp.Entry.{Entry}
use osfp.Store.Format.{footer_magic}
use osfp.Store.Writer.{
  Writer, Outcome, ◌and_then◌, write, write_raw, flush_block, write_index, close, new_writer,
  add_all, failed, seal, write_tail, close_unless, footer, end_file,
}
use osfp.Store.Writer.Offsets.{
  Sound, Sound-write, Sound-write_packed, Sound-flush_block, add_all-Sound,
}

-- The file ends with the digest of all that stands before it, and the closing magic.
abbrev pub IsSealed : (Bytes → Bytes) → Bytes → Type 0
IsSealed sha256 file = (body : Bytes) × (file ≡ body ++ (sha256 body ++ footer_magic))

-- A row of calls that ends without an error.
then-none :
    (o : Outcome) (f : Writer → Outcome)
    → (o and_then f).1 ≡ none
    → (o.1 ≡ none) × ((o and_then f) ≡ f o.0)
then-none (w, none) f h = (refl, refl)
then-none (w, some e) f h = cc

module _ (sink : Bytes → Bytes → ℕ × Option Bytes) (compress sha256 : Bytes → Bytes)
    (bounded : (f p : Bytes) → (sink f p).0 ≤ length p)
    (complete : (f p : Bytes) → (sink f p).1 ≡ none → (sink f p).0 ≡ length p) where
  take_all : (n : ℕ) (p : Bytes) → n ≡ length p → take n p ≡ p
  take_all n [] h = rw h refl
  take_all n (c ∷ p) h = rw h (ap (λ r. c ∷ r) (take_all (length p) p refl))

  failed-none : (e : Option Bytes) → failed e ≡ none → e ≡ none
  failed-none none h = refl
  failed-none (some x) h = cc

  raw-file :
      (p : Bytes) (w : Writer)
      → (write_raw sink compress sha256 p w).1 ≡ none
      → ((write_raw sink compress sha256 p w).0.file ≡ w.file ++ p)
        × ((write_raw sink compress sha256 p w).0.digest ≡ w.digest)
  unfolding write_raw
  raw-file p w h = (
    ap (λ r. w.file ++ r)
        (take_all (sink w.file p).0 p (complete w.file p (failed-none (sink w.file p).1 h))),
    refl,
  )

  seal-file :
      (w : Writer)
      → Sound true w
      → (seal sink compress sha256 w).1 ≡ none
      → (seal sink compress sha256 w).0.file ≡ w.file ++ (sha256 w.file ++ footer_magic)
  seal-file w s h =
      let sum = write_raw sink compress sha256 (sha256 w.digest) w in
      let (first, whole) = then-none sum (write_raw sink compress sha256 footer_magic) h in
      let last = raw-file footer_magic sum.0 (rw whole at h) in
      ap (λ (o : Outcome). o.0.file) whole
      ∙ last.0
      ∙ ap (λ r. r ++ footer_magic) ((raw-file (sha256 w.digest) w first).0)
      ∙ append_assoc w.file (sha256 w.digest) footer_magic
      ∙ ap (λ d. w.file ++ (sha256 d ++ footer_magic)) s.hashed

  IsSealed-then :
      (o : Outcome) (f : Writer → Outcome)
      → Sound true o.0
      → ((w : Writer) → Sound true w → (f w).1 ≡ none → IsSealed sha256 (f w).0.file)
      → (o and_then f).1 ≡ none
      → IsSealed sha256 (o and_then f).0.file
  IsSealed-then (w, none) f s k h = k w s h
  IsSealed-then (w, some e) f s k h = cc

  IsSealed-tail :
      (w : Writer)
      → Sound true w
      → (write_tail sink compress sha256 w).1 ≡ none
      → IsSealed sha256 (write_tail sink compress sha256 w).0.file
  unfolding write_index
  IsSealed-tail w s h =
      IsSealed-then (write_index sink compress sha256 w) (end_file sink compress sha256 w)
        (Sound-write_packed sink compress sha256 bounded true _ w s)
        (λ v t k.
          let fields = write sink compress sha256 (footer sink compress sha256 w.off v) v in
          IsSealed-then fields (seal sink compress sha256)
            (Sound-write sink compress sha256 bounded true (footer sink compress sha256 w.off v) v
              t)
            (λ u r q. (u.file, seal-file u r q)) k)
        h

  open-if :
      (c : Bool) (o o' : Outcome)
      → c ≡ false
      → (if c then o else o').1 ≡ none
      → (o'.1 ≡ none → IsSealed sha256 o'.0.file)
      → IsSealed sha256 (if c then o else o').0.file
  open-if true o o' e h k = cc
  open-if false o o' e h k = k h

  IsSealed-close :
      (w : Writer)
      → Sound false w
      → (close sink compress sha256 w).1 ≡ none
      → IsSealed sha256 (close sink compress sha256 w).0.file
  unfolding close
  IsSealed-close w s h = open-if w.closed (w, none) _ s.closed_is h (unless w.err)
    where
      unless :
          (err : Option Bytes)
          → (close_unless sink compress sha256 err (record w { closed = true })).1 ≡ none
          → IsSealed sha256
              (close_unless sink compress sha256 err (record w { closed = true })).0.file
      unless (some x) q = cc
      unless none q =
          let w' = record w { closed = true } in
          IsSealed-then (flush_block sink compress sha256 w') (write_tail sink compress sha256)
            (Sound-flush_block sink compress sha256 bounded true w'
              (record { counted = s.counted; hashed = s.hashed; closed_is = refl }))
            IsSealed-tail q

  open-then :
      (o : Outcome)
      → Sound false o.0
      → (o and_then close sink compress sha256).1 ≡ none
      → IsSealed sha256 (o and_then close sink compress sha256).0.file
  open-then (w, none) s h = IsSealed-close w s h
  open-then (w, some e) s h = cc

  -- Where the file takes the whole of every write that does not fail, a writer that is made, given
  -- any entries and closed, all without an error, leaves a file that ends with the digest of
  -- everything before it and the closing magic.
  pub close-IsSealed :
      (payload : Bytes) (es : List Entry)
      → (new_writer sink compress sha256 payload
          and_then add_all sink compress sha256 es
          and_then close sink compress sha256).1
        ≡ none
      → IsSealed sha256
          (new_writer sink compress sha256 payload
            and_then add_all sink compress sha256 es
            and_then close sink compress sha256).0.file
  close-IsSealed payload es h =
      open-then (new_writer sink compress sha256 payload and_then add_all sink compress sha256 es)
        (add_all-Sound sink compress sha256 bounded payload es) h
