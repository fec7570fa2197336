-- ===== src/Diff/Classify/Meaning.antt =====
-- What each verdict of the classifier says of the two entries.
use osfp.Base.{
  ◌⊎◌, ℕ, Bytes, codes, Bool, true, false, not, ◌&&◌, [], ◌∷◌, ◌++◌, ◌==◌, bytes_eq, bytes_eq→eq,
  bytes_eq_iff, int_eq→eq, int_eq_refl, if◌then◌else◌, ◌≡◌, ◌≢◌, ◌↔◌, refl, inl, inr, arith, ℤ,
}
use osfp.Text.{join}
use osfp.Entry.{Entry, type_dir, type_file, type_symlink}
use osfp.Diff.Op.{Op, op_none, op_eq, op_changed_dir, op_changed_meta}
use osfp.Diff.Classify.{compare_attributes, compare_unhashed, classify, when}

bytes_eq_nil : (s : Bytes) → bytes_eq s [] ≡ true → s ≡ []
bytes_eq_nil s h = bytes_eq→eq s [] h

-- A joined text of parts that are not empty is empty only if no part is there.
join-when :
    (sep : Bytes) (a b c : Bool) (x y z : ℕ) (r s t : Bytes)
    → bytes_eq (join sep (when a (x ∷ r) ++ when b (y ∷ s) ++ when c (z ∷ t))) []
      ≡ (not a && not b && not c)
unfolding join
join-when sep false false false x y z r s t = refl
join-when sep false false true x y z r s t = refl
join-when sep false true false x y z r s t = refl
join-when sep false true true x y z r s t = refl
join-when sep true false false x y z r s t = refl
join-when sep true false true x y z r s t = refl
join-when sep true true false x y z r s t = refl
join-when sep true true true x y z r s t = refl

pub compare_attributes-nil :
    (old live : Entry)
    → (bytes_eq (compare_attributes old live) [] ≡ true)
      ↔ ((old.mode ≡ live.mode) × (old.uid ≡ live.uid) × (old.gid ≡ live.gid))
unfolding compare_attributes
compare_attributes-nil old live =
    rw
      (join-when (codes ", ") (not (old.mode == live.mode)) (not (old.uid == live.uid))
        (not (old.gid == live.gid)))
      (ground arith)

-- A branch that is not `op_none` was not taken.
not_taken :
    (b : Bool) (x y : Op × Bytes)
    → op_eq x.0 op_none ≡ false
    → (if b then x else y).0 ≡ op_none
    → (b ≡ false) × (y.0 ≡ op_none)
not_taken true x y n h = cc
not_taken false x y n h = (refl, h)

-- The shape of `Classify`: it answers `op_none` exactly if each of its tests fails to fire.
chain-none :
    (a b c d e f g k : Bool) (u v w x y z p q : Op × Bytes)
    → op_eq u.0 op_none ≡ false
    → op_eq v.0 op_none ≡ false
    → op_eq w.0 op_none ≡ false
    → op_eq x.0 op_none ≡ false
    → op_eq y.0 op_none ≡ false
    → op_eq z.0 op_none ≡ false
    → op_eq p.0 op_none ≡ false
    → op_eq q.0 op_none ≡ false
    → ((if a
          then u
          else if b
          then v
          else if c
          then w
          else if d
          then x
          else if e
          then y
          else if f
          then z
          else if g
          then (if k then p else q)
          else (op_none, [])).0
        ≡ op_none)
      ↔ ((a ≡ false)
          × (b ≡ false)
          × (c ≡ false)
          × (d ≡ false)
          × (e ≡ false)
          × (f ≡ false)
          × (g ≡ false))
chain-none a b c d e f g k u v w x y z p q nu nv nw nx ny nz np nq = (
  λ h.
      let (ha, h1) = not_taken a u _ nu h in
      let (hb, h2) = not_taken b v _ nv h1 in
      let (hc, h3) = not_taken c w _ nw h2 in
      let (hd, h4) = not_taken d x _ nx h3 in
      let (he, h5) = not_taken e y _ ny h4 in
      let (hf, h6) = not_taken f z _ nz h5 in (ha, hb, hc, hd, he, hf, last_taken k g h6),
  λ (ha, hb, hc, hd, he, hf, hg). rw (ha, hb, hc, hd, he, hf, hg),
)
  where
    last_taken :
        (k g : Bool) → (if g then (if k then p else q) else (op_none, [])).0 ≡ op_none → g ≡ false
    last_taken true true h = cc
    last_taken false true h = cc
    last_taken k false h = refl

-- The two entries agree in all that the classifier compares.
pub record Unchanged (old live : Entry) : Type 0 where
  pub read_old : old.err ≡ []
  pub read_live : live.err ≡ []
  pub same_type : old.type ≡ live.type
  pub same_link : live.type ≡ type_symlink → old.link ≡ live.link
  pub same_hash : live.type ≡ type_file → old.hashed && live.hashed ≡ true → old.hash ≡ live.hash
  pub same_size : live.type ≡ type_file → old.hashed && live.hashed ≡ false → old.size ≡ live.size
  pub same_mtime :
      live.type ≡ type_file → old.hashed && live.hashed ≡ false → old.mtime ≡ live.mtime
  pub same_mode : old.mode ≡ live.mode
  pub same_uid : old.uid ≡ live.uid
  pub same_gid : old.gid ≡ live.gid

module _ (ratio : ℕ → ℕ → Bytes) where
  pub compare_unhashed-nil :
      (old live : Entry)
      → (bytes_eq (compare_unhashed ratio old live) [] ≡ true)
        ↔ ((old.size ≡ live.size) × (old.mtime ≡ live.mtime))
  unfolding compare_unhashed join
  compare_unhashed-nil old live = (
    λ h. ground (arith, int_eq→eq old.size live.size, int_eq→eq old.mtime live.mtime),
    λ (p, q). rw (p, q) (ground (arith, int_eq_refl live.size, int_eq_refl live.mtime)),
  )

  -- The tests of `Classify`, each of which fails to fire.
  abbrev Quiet : Entry → Entry → Type 0
  Quiet old live =
      (not (bytes_eq live.err []) ≡ false)
      × (not (bytes_eq old.err []) ≡ false)
      × (not (old.type == live.type) ≡ false)
      × (live.type == type_symlink && not (bytes_eq old.link live.link) ≡ false)
      × (live.type == type_file && (old.hashed && live.hashed) && not (bytes_eq old.hash live.hash)
          ≡ false)
      × (live.type == type_file
            && not (old.hashed && live.hashed)
            && not (bytes_eq (compare_unhashed ratio old live) [])
          ≡ false)
      × (not (bytes_eq (compare_attributes old live) []) ≡ false)

  none_iff_Quiet : (old live : Entry) → ((classify ratio old live).0 ≡ op_none) ↔ Quiet old live
  unfolding classify
  none_iff_Quiet old live =
      chain-none _ _ _ _ _ _ _ (live.type == type_dir) _ _ _ _ _ _
        (op_changed_dir, compare_attributes old live) (op_changed_meta, compare_attributes old live)
        refl refl refl refl refl refl refl refl

  Quiet→Unchanged : (old live : Entry) → Quiet old live → Unchanged old live
  Quiet→Unchanged old live (a, b, c, d, e, f, g) = record {
    read_old = ground (arith, bytes_eq→eq old.err []);
    read_live = ground (arith, bytes_eq→eq live.err []);
    same_type = ground arith;
    same_link = λ h. ground (arith, bytes_eq→eq old.link live.link);
    same_hash = λ h k. ground (arith, bytes_eq→eq old.hash live.hash);
    same_size = λ h k. ground (arith, compare_unhashed-nil old live);
    same_mtime = λ h k. ground (arith, compare_unhashed-nil old live);
    same_mode = ground (arith, compare_attributes-nil old live);
    same_uid = ground (arith, compare_attributes-nil old live);
    same_gid = ground (arith, compare_attributes-nil old live);
  }

  Unchanged→Quiet : (old live : Entry) → Unchanged old live → Quiet old live
  Unchanged→Quiet old live u = (
    ground arith,
    ground arith,
    ground arith,
    ground (arith, bytes_eq_iff old.link live.link),
    ground (arith, bytes_eq_iff old.hash live.hash),
    ground (arith, compare_unhashed-nil old live),
    ground (arith, compare_attributes-nil old live),
  )

  -- The classifier reports no difference exactly if both entries were read and agree in type, in
  -- mode, owner and group, in the target of a symlink, and in the content of a file: in its hash
  -- where both sides are hashed, in its size and date where one is not.
  pub classify-none_iff :
      (old live : Entry) → ((classify ratio old live).0 ≡ op_none) ↔ Unchanged old live
  classify-none_iff old live = (
    λ h. Quiet→Unchanged old live ((none_iff_Quiet old live).0 h),
    λ u. (none_iff_Quiet old live).1 (Unchanged→Quiet old live u),
  )

  unhashed_off :
      (old live : Entry)
      → (live.type ≢ type_file) ⊎ (old.hashed && live.hashed ≡ true)
      → (t : Bool) → (live.type == type_file && not (old.hashed && live.hashed) && t) ≡ false
  unhashed_off old live (inl h) t = ground arith
  unhashed_off old live (inr h) t = ground arith

  -- Unless the entry is a file that one side did not hash, its modification time on either side
  -- changes neither the verdict nor the detail.
  pub classify-mtime :
      (old live : Entry) (m n : ℤ)
      → (live.type ≢ type_file) ⊎ (old.hashed && live.hashed ≡ true)
      → classify ratio (record old { mtime = m }) (record live { mtime = n })
        ≡ classify ratio old live
  unfolding classify compare_attributes
  classify-mtime old live m n h = rw (unhashed_off old live h _, unhashed_off old live h _)
