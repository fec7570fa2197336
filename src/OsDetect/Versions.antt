-- ===== src/OsDetect/Versions.antt =====
-- What the detectors take for a version.
use osfp.Base.{
  ℕ, suc, ◌+◌, ◌≤◌, Bytes, Bool, true, false, ◌||◌, List, [], ◌∷◌, ◌++◌, some, ◌==◌, if◌then◌else◌,
  All, All-append, ◌≡◌, ◌≢◌, ◌⊎◌, inl, inr, refl, arith, Bool-cases,
}
use osfp.Text.{cut, fields_of}
use osfp.OsDetect.Key.{Info, is_empty, is_digit, is_numeric_version, key}
use osfp.OsDetect.Host.{Env, Utsname}
use osfp.OsDetect.Host.Linux.{trim_dot, series_from, kernel_series}
use osfp.OsDetect.Host.Bsd.{release_base, numeric_base, bsd_version_from_line, detect_bsd}

-- A digit or a dot.
abbrev pub IsVersionByte : ℕ → Type 0
IsVersionByte c = (is_digit c || c == b'.') ≡ true

-- The number of dots.
abbrev pub dots : Bytes → ℕ
dots [] = 0
dots (c ∷ s) = if c == b'.' then suc (dots s) else dots s

trim_dot-bytes : (s : Bytes) → All IsVersionByte s → All IsVersionByte (trim_dot s)
trim_dot-bytes [] h = tt
trim_dot-bytes (c ∷ []) h = elim (Bool-cases (c == b'.')) [
  | inl dot ↦ rw dot tt
  | inr other ↦ rw other h
]
trim_dot-bytes (c ∷ d ∷ s) h = (h.0, trim_dot-bytes (d ∷ s) h.1)

trim_dot-dots : (s : Bytes) → dots (trim_dot s) ≤ dots s
trim_dot-dots [] = omega arith
trim_dot-dots (c ∷ []) = elim (Bool-cases (c == b'.')) [
  | inl dot ↦ rw dot (omega arith)
  | inr other ↦ rw (other, other) (omega arith)
]
trim_dot-dots (c ∷ d ∷ s) = ground (arith, trim_dot-dots (d ∷ s))

dots-append : (s t : Bytes) → dots (s ++ t) ≡ dots s + dots t
dots-append [] t = omega arith
dots-append (c ∷ s) t = ground (arith, dots-append s t)

-- Digits and dots, with one dot at most.
abbrev pub IsSeries : Bytes → Type 0
IsSeries s = All IsVersionByte s × (dots s ≤ 1)

stopped :
    (f : Bytes)
    → All IsVersionByte f
    → dots f ≤ 1
    → IsSeries (if is_empty f then [] else trim_dot f)
stopped [] h n = (tt, omega arith)
stopped (c ∷ f) h n = (trim_dot-bytes (c ∷ f) h, omega (arith, trim_dot-dots (c ∷ f)))

at_most_one : (b : Bool) (n : ℕ) → n ≤ (if b then 1 else 0) → n ≤ 1
at_most_one true n h = h
at_most_one false n h = omega arith

one_dot : (c : ℕ) → dots (c ∷ []) ≤ 1
one_dot c = ground arith

series_from-IsSeries :
    (s front : Bytes) (dotted : Bool)
    → All IsVersionByte front
    → dots front ≤ (if dotted then 1 else 0)
    → IsSeries (series_from dotted front s)
unfolding series_from
series_from-IsSeries [] front dotted h n = (h, at_most_one dotted (dots front) n)
series_from-IsSeries (c ∷ s) front dotted h n = elim (Bool-cases (is_digit c)) [
  | inl digit ↦ rw digit (
      series_from-IsSeries s (front ++ c ∷ []) dotted
        (All-append IsVersionByte front (c ∷ []) h (rw digit refl, tt))
        (ground (arith, n, digit, dots-append front (c ∷ []))))
  | inr other ↦ elim (Bool-cases (c == b'.')) [
    | inl dot ↦
        rw (other, dot)
          (at_dot dotted n (
            series_from-IsSeries s (front ++ c ∷ []) true
              (All-append IsVersionByte front (c ∷ []) h (rw (other, dot) refl, tt))))
    | inr stop ↦ rw (other, stop) (stopped front h (at_most_one dotted (dots front) n))
  ]
]
  where
    at_dot :
        (b : Bool)
        → dots front ≤ (if b then 1 else 0)
        → (dots (front ++ c ∷ []) ≤ 1 → IsSeries (series_from true (front ++ c ∷ []) s))
        → IsSeries (if b then front else series_from true (front ++ c ∷ []) s)
    at_dot true k later = (h, k)
    at_dot false k later = later (omega (arith, k, dots-append front (c ∷ []), one_dot c))

-- The series that names a kernel has only digits and dots, and one dot at most, whatever the release.
pub kernel_series-IsSeries : (release : Bytes) → IsSeries (kernel_series release)
unfolding kernel_series
kernel_series-IsSeries release = series_from-IsSeries release [] false tt (omega arith)

numeric_base-cases :
    (fs : List Bytes) → (numeric_base fs ≡ []) ⊎ (is_numeric_version (numeric_base fs) ≡ true)
unfolding numeric_base
numeric_base-cases [] = inl refl
numeric_base-cases (f ∷ fs) = elim (Bool-cases (is_numeric_version (release_base f))) [
  | inl numeric ↦ rw numeric (inr numeric)
  | inr other ↦ rw other (numeric_base-cases fs)
]

-- A version that is taken from the output of a helper is a number with dots, or none was found.
pub bsd_version_from_line-numeric :
    (line : Bytes)
    → (bsd_version_from_line line ≡ []) ⊎ (is_numeric_version (bsd_version_from_line line) ≡ true)
unfolding bsd_version_from_line
bsd_version_from_line-numeric line = numeric_base-cases (fields_of line)

-- The text holds no dash.
abbrev pub NoDash : Bytes → Type 0
NoDash = All (λ c. (c == b'-') ≡ false)

cut-level :
    (base level : Bytes) → NoDash base → cut b'-' (base ++ b'-' ∷ level) ≡ some (base, level)
unfolding cut
cut-level [] level h = refl
cut-level (c ∷ base) level h = rw (h.0, cut-level base level h.1) refl

release_base-level : (base level : Bytes) → NoDash base → release_base (base ++ b'-' ∷ level) ≡ base
unfolding release_base
release_base-level base level h = rw (cut-level base level h) refl

-- A system of which uname gives a release.
abbrev pub with_release : Env → Utsname → Bytes → Env
with_release e u release = record e { uname = some (record u { release = release }) }

append-nonempty : (s t : Bytes) → s ≢ [] → is_empty (s ++ t) ≡ false
append-nonempty [] t n = absurd (n refl)
append-nonempty (c ∷ s) t n = refl

-- The build that a BSD puts behind a dash in its release makes no difference to the key.
pub detect_bsd-level :
    (e : Env) (u : Utsname) (info : Info) (base level level' : Bytes)
    → NoDash base
    → base ≢ []
    → key (detect_bsd (with_release e u (base ++ b'-' ∷ level)) info)
      ≡ key (detect_bsd (with_release e u (base ++ b'-' ∷ level')) info)
unfolding detect_bsd key
detect_bsd-level e u info base level level' h n =
    rw
      (
        append-nonempty base (b'-' ∷ level) n,
        append-nonempty base (b'-' ∷ level') n,
        release_base-level base level h,
        release_base-level base level' h,
      )
      refl
