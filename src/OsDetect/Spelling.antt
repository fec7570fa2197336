-- ===== src/OsDetect/Spelling.antt =====
-- How a key is spelled.
use osfp.Base.{
  ℕ, ◌+◌, ◌≤◌, Bytes, Bool, true, false, not, ◌&&◌, ◌||◌, [], ◌∷◌, ◌++◌, leb, ◌==◌, length,
  length-append, All, All-append, ◌≡◌, ◌≢◌, ◌⊎◌, inl, inr, refl, arith, Bool-cases,
}
use osfp.Text.{lower}
use osfp.OsDetect.Key.{
  max_component, is_empty, is_kept, write_byte, scan_byte, scan_bytes, is_edge, trim_start,
  trim_end,
}

-- The bytes of a key: small letters, digits, the dot and the dash.
abbrev pub IsKeyByte : ℕ → Type 0
IsKeyByte c = (is_kept c || c == b'-') ≡ true

-- The first byte, if there is one, is neither a dot nor a dash; and so the last one.
abbrev pub Starts : Bytes → Type 0
Starts [] = Unit
Starts (c ∷ s) = is_edge c ≡ false

abbrev pub Ends : Bytes → Type 0
Ends [] = Unit
Ends (c ∷ []) = is_edge c ≡ false
Ends (c ∷ d ∷ s) = Ends (d ∷ s)

pub record IsKey (k : Bytes) : Type 0 where
  pub nonempty : k ≢ []
  pub bytes : All IsKeyByte k
  pub starts : Starts k
  pub ends : Ends k

kept_byte : (c : ℕ) → is_kept c ≡ true → IsKeyByte c
kept_byte c h = rw h refl

write_byte-bytes :
    (dash : Bool) (b : Bytes) (c : ℕ)
    → All IsKeyByte b
    → is_kept c ≡ true
    → All IsKeyByte (write_byte dash b c)
write_byte-bytes dash b c h k = elim (Bool-cases (dash && not (is_empty b))) [
  | inl due ↦ rw due (
      All-append IsKeyByte (b ++ b'-' ∷ []) (c ∷ [])
        (All-append IsKeyByte b (b'-' ∷ []) h (refl, tt)) (kept_byte c k, tt))
  | inr none_due ↦ rw none_due (All-append IsKeyByte b (c ∷ []) h (kept_byte c k, tt))
]

write_byte-length : (dash : Bool) (b : Bytes) (c : ℕ) → length (write_byte dash b c) ≤ length b + 2
write_byte-length dash b c = elim (Bool-cases (dash && not (is_empty b))) [
  | inl due ↦
      rw due (omega (arith, length-append (b ++ b'-' ∷ []) (c ∷ []), length-append b (b'-' ∷ [])))
  | inr none_due ↦ rw none_due (omega (arith, length-append b (c ∷ [])))
]

scan_byte-bytes :
    (dash : Bool) (b : Bytes) (c : ℕ) → All IsKeyByte b → All IsKeyByte (scan_byte dash b c).1
scan_byte-bytes dash b c h = elim (Bool-cases (is_kept (lower c))) [
  | inl kept ↦ rw kept (write_byte-bytes dash b (lower c) h kept)
  | inr other ↦ rw other h
]

scan_byte-length : (dash : Bool) (b : Bytes) (c : ℕ) → length (scan_byte dash b c).1 ≤ length b + 2
scan_byte-length dash b c = elim (Bool-cases (is_kept (lower c))) [
  | inl kept ↦ rw kept (write_byte-length dash b (lower c))
  | inr other ↦ rw other (omega arith)
]

pub scan_bytes-bytes :
    (s : Bytes) (dash : Bool) (b : Bytes) → All IsKeyByte b → All IsKeyByte (scan_bytes dash b s)
unfolding scan_bytes
scan_bytes-bytes [] dash b h = h
scan_bytes-bytes (c ∷ s) dash b h =
    let (dash', b') = scan_byte dash b c in
    let step = scan_byte-bytes dash b c h in
    elim (Bool-cases (leb max_component (length b'))) [
      | inl full ↦ rw full step
      | inr room ↦ rw room (scan_bytes-bytes s dash' b' step)
    ]

pub scan_bytes-length :
    (s : Bytes) (dash : Bool) (b : Bytes) → length b ≤ 31 → length (scan_bytes dash b s) ≤ 33
unfolding scan_bytes
scan_bytes-length [] dash b h = omega arith
scan_bytes-length (c ∷ s) dash b h =
    let (dash', b') = scan_byte dash b c in
    let step = scan_byte-length dash b c in
    elim (Bool-cases (leb max_component (length b'))) [
      | inl full ↦ rw full (omega arith)
      | inr room ↦ rw room (scan_bytes-length s dash' b' (ground arith))
    ]

pub trim_start-bytes : (s : Bytes) → All IsKeyByte s → All IsKeyByte (trim_start s)
unfolding trim_start
trim_start-bytes [] h = tt
trim_start-bytes (c ∷ s) h = elim (Bool-cases (is_edge c)) [
  | inl edge ↦ rw edge (trim_start-bytes s h.1)
  | inr inner ↦ rw inner h
]

pub trim_start-Starts : (s : Bytes) → Starts (trim_start s)
unfolding trim_start
trim_start-Starts [] = tt
trim_start-Starts (c ∷ s) = elim (Bool-cases (is_edge c)) [
  | inl edge ↦ rw edge (trim_start-Starts s)
  | inr inner ↦ rw inner inner
]

pub trim_start-length : (s : Bytes) → length (trim_start s) ≤ length s
unfolding trim_start
trim_start-length [] = omega arith
trim_start-length (c ∷ s) = elim (Bool-cases (is_edge c)) [
  | inl edge ↦ rw edge (omega (arith, trim_start-length s))
  | inr inner ↦ rw inner (omega arith)
]

pub trim_end-cases :
    (c : ℕ) (s : Bytes)
    → ((trim_end s ≡ []) × (is_edge c ≡ true) × (trim_end (c ∷ s) ≡ []))
      ⊎ ((is_edge c ≡ false) × (trim_end s ≡ []) × (trim_end (c ∷ s) ≡ c ∷ []))
      ⊎ ((d : ℕ) × (r : Bytes) × (trim_end s ≡ d ∷ r) × (trim_end (c ∷ s) ≡ c ∷ d ∷ r))
unfolding trim_end
trim_end-cases c s = from_tail (trim_end s) refl
  where
    from_tail :
        (t : Bytes)
        → trim_end s ≡ t
        → ((t ≡ []) × (is_edge c ≡ true) × (trim_end (c ∷ s) ≡ []))
          ⊎ ((is_edge c ≡ false) × (t ≡ []) × (trim_end (c ∷ s) ≡ c ∷ []))
          ⊎ ((d : ℕ) × (r : Bytes) × (t ≡ d ∷ r) × (trim_end (c ∷ s) ≡ c ∷ d ∷ r))
    from_tail [] e = elim (Bool-cases (is_edge c)) [
      | inl edge ↦ inl (refl, edge, rw (e, edge) refl)
      | inr inner ↦ inr (inl (inner, refl, rw (e, inner) refl))
    ]
    from_tail (d ∷ r) e = inr (inr (d, r, refl, rw e refl))

pub trim_end-bytes : (s : Bytes) → All IsKeyByte s → All IsKeyByte (trim_end s)
trim_end-bytes [] h = unfold trim_end in tt
trim_end-bytes (c ∷ s) h = elim (trim_end-cases c s) [
  | inl (e, edge, f) ↦ rw f tt
  | inr (inl (inner, e, f)) ↦ rw f (h.0, tt)
  | inr (inr (d, r, e, f)) ↦ rw f (h.0, rw e at (trim_end-bytes s h.1))
]

pub trim_end-Starts : (s : Bytes) → Starts s → Starts (trim_end s)
trim_end-Starts [] h = unfold trim_end in tt
trim_end-Starts (c ∷ s) h = elim (trim_end-cases c s) [
  | inl (e, edge, f) ↦ rw f tt
  | inr (inl (inner, e, f)) ↦ rw f h
  | inr (inr (d, r, e, f)) ↦ rw f h
]

pub trim_end-Ends : (s : Bytes) → Ends (trim_end s)
trim_end-Ends [] = unfold trim_end in tt
trim_end-Ends (c ∷ s) = elim (trim_end-cases c s) [
  | inl (e, edge, f) ↦ rw f tt
  | inr (inl (inner, e, f)) ↦ rw f inner
  | inr (inr (d, r, e, f)) ↦ rw f (rw e at (trim_end-Ends s))
]

pub trim_end-length : (s : Bytes) → length (trim_end s) ≤ length s
trim_end-length [] = unfold trim_end in omega arith
trim_end-length (c ∷ s) = elim (trim_end-cases c s) [
  | inl (e, edge, f) ↦ rw f (omega arith)
  | inr (inl (inner, e, f)) ↦ rw f (omega arith)
  | inr (inr (d, r, e, f)) ↦ rw f (omega (arith, rw e at (trim_end-length s)))
]
