-- ===== src/Scan/Ring/Coming.antt =====
-- The entries that the consumer of `Walk` in internal/scan/walk.go has yet to pass on, and how they
-- stay the same while cells are filled and hashed.
use mathlib.Core.List.{append_assoc, map-append}
use osfp.Base.{
  ℕ, ◌+◌, ◌-◌, ◌≤◌, Bytes, true, false, List, [], ◌∷◌, ◌++◌, ◌==◌, if◌then◌else◌, map, ◌≡◌, refl,
  sym, ap, ◌∙◌, arith,
}
use osfp.Entry.{Entry}
use osfp.Scan.Tree.{Answer}
use osfp.Scan.Walk.{hash_entry}
use osfp.Scan.Settings.{Options}
use osfp.Scan.Walk.Hashed.{hashed}
use osfp.Scan.Ring.{Slot, Reading, waiting, got, spent, Pipeline, put_cell, hashes}
use osfp.Scan.Ring.Cells.{occurs, occurs-append, held, read, Cells}

-- The cells that the consumer has not passed on yet.
abbrev pub unread : Reading → List ℕ
unread waiting = []
unread (got k) = k ∷ []
unread (spent k) = []

-- A cell of the walk, or a free one, is not before the consumer.
pub unread_le : (r : Reading) (k : ℕ) → occurs k (unread r) ≤ occurs k (read r)
unread_le waiting k = omega arith
unread_le (got j) k = omega arith
unread_le (spent j) k = omega arith

pub absent :
    (s : Pipeline) (k : ℕ)
    → Cells s
    → 1 ≤ occurs k (held s.walking) + occurs k s.free
    → occurs k (unread s.reading ++ s.ordered) ≡ 0
absent s k c h =
    let a = c k in
    omega (arith, a.single, unread_le s.reading k, occurs-append k (unread s.reading) s.ordered)

pub worked :
    (s : Pipeline) (k : ℕ) (before behind : List ℕ)
    → Cells s
    → s.work ≡ before ++ k ∷ behind
    → (s.cells k).pending ≡ 1
worked s k before behind c w = ground (arith, c k, occurs-append k before (k ∷ behind))

pub put_same : (k : ℕ) (v : Slot) (cells : ℕ → Slot) → put_cell k v cells k ≡ v
put_same k v cells = ground arith

module _ (opts : Options) (contents : Bytes → Answer) where
  -- The entry that a cell will have.
  abbrev pub settled : Slot → Entry
  settled c =
      if c.pending == 0
      then c.entry
      else hash_entry opts.max_file_size (contents c.entry.path) c.entry

  -- The entries that are still to be passed on.
  abbrev pub coming : (ℕ → Slot) → List ℕ → List Entry → List Entry
  coming cells ks es = map (λ k. settled (cells k)) ks ++ map (hashed opts contents) es

  pub map-put :
      (k : ℕ) (v : Slot) (cells : ℕ → Slot) (ks : List ℕ)
      → occurs k ks ≡ 0
      → map (λ j. settled (put_cell k v cells j)) ks ≡ map (λ j. settled (cells j)) ks
  map-put k v cells [] h = refl
  map-put k v cells (j ∷ ks) h = ground (arith, map-put k v cells ks)

  pub settled-hash :
      (k : ℕ) (cells : ℕ → Slot) (j : ℕ)
      → (cells k).pending ≡ 1
      → settled (
          put_cell k
            (record {
              entry = hash_entry opts.max_file_size (contents (cells k).entry.path) (cells k).entry;
              pending = (cells k).pending - 1;
            })
            cells
            j)
        ≡ settled (cells j)
  settled-hash k cells j h = ground arith

  pub coming-put :
      (k : ℕ) (v : Slot) (cells : ℕ → Slot) (ks : List ℕ) (es : List Entry)
      → occurs k ks ≡ 0
      → coming (put_cell k v cells) ks es ≡ coming cells ks es
  coming-put k v cells ks es h =
      ap (λ r. r ++ map (hashed opts contents) es) (map-put k v cells ks h)

  pub coming_snoc :
      (k : ℕ) (cells : ℕ → Slot) (ks os : List ℕ) (e : Entry) (es : List Entry)
      → settled (cells k) ≡ hashed opts contents e
      → coming cells (ks ++ (os ++ k ∷ [])) es ≡ coming cells (ks ++ os) (e ∷ es)
  coming_snoc k cells ks os e es h =
      let f = λ (j : ℕ). settled (cells j) in
      ap (λ r. map f r ++ map (hashed opts contents) es) (sym (append_assoc ks os (k ∷ [])))
      ∙ ap (λ r. r ++ map (hashed opts contents) es) (map-append f (ks ++ os) (k ∷ []))
      ∙ append_assoc (map f (ks ++ os)) (f k ∷ []) (map (hashed opts contents) es)
      ∙ ap (λ x. map f (ks ++ os) ++ x ∷ map (hashed opts contents) es) h

  pub settled-offered :
      (c : Slot) (e : Entry)
      → c ≡ record { entry = e; pending = 0 }
      → hashes opts c.entry ≡ true
      → settled (record c { pending = c.pending + 1 }) ≡ hashed opts contents e
  settled-offered c e h x = ground arith

  pub settled-skipped :
      (c : Slot) (e : Entry)
      → c ≡ record { entry = e; pending = 0 }
      → hashes opts c.entry ≡ false
      → settled c ≡ hashed opts contents e
  settled-skipped c e h x = ground arith

  pub settled_done : (c : Slot) → c.pending ≡ 0 → settled c ≡ c.entry
  settled_done c h = ground arith
