-- ===== src/OsDetect/Release/Quote.antt =====
-- Values in double quotes.
use osfp.Base.{
  ℕ, Bytes, false, ◌||◌, [], ◌∷◌, ◌++◌, ◌==◌, if◌then◌else◌, ◌≡◌, refl, ap, ◌∙◌, Bool-cases, inl,
  inr,
}
use osfp.OsDetect.Release.{last_byte, before_last, unescape, unquote}

-- The value, with a backslash before every backslash and double quote.
abbrev pub escape : Bytes → Bytes
escape [] = []
escape (c ∷ s) = if c == b'\\' || c == b'"' then b'\\' ∷ c ∷ escape s else c ∷ escape s

unescape-cons : (c : ℕ) (s : Bytes) → (c == b'\\') ≡ false → unescape (c ∷ s) ≡ c ∷ unescape s
unfolding unescape
unescape-cons c [] h = refl
unescape-cons c (d ∷ s) h = rw h refl

unescape-escape : (s : Bytes) → unescape (escape s) ≡ s
unfolding unescape
unescape-escape [] = refl
unescape-escape (c ∷ s) = elim (Bool-cases (c == b'\\')) [
  | inl slash ↦ rw slash (ap (λ r. c ∷ r) (unescape-escape s))
  | inr plain ↦ elim (Bool-cases (c == b'"')) [
    | inl quote ↦ rw (plain, quote) (ap (λ r. c ∷ r) (unescape-escape s))
    | inr other ↦
        rw (plain, other) (unescape-cons c (escape s) plain ∙ ap (λ r. c ∷ r) (unescape-escape s))
  ]
]

last_byte-append : (c : ℕ) (s : Bytes) (q : ℕ) → last_byte c (s ++ q ∷ []) ≡ q
last_byte-append c [] q = refl
last_byte-append c (d ∷ s) q = last_byte-append d s q

before_last-append : (c : ℕ) (s : Bytes) (q : ℕ) → before_last c (s ++ q ∷ []) ≡ c ∷ s
before_last-append c [] q = refl
before_last-append c (d ∷ s) q = ap (λ r. c ∷ r) (before_last-append d s q)

unquote_double : (t : Bytes) → unquote (b'"' ∷ (t ++ b'"' ∷ [])) ≡ unescape t
unfolding unquote
unquote_double [] = unfold unescape in refl
unquote_double (c ∷ t) = rw (last_byte-append c t b'"', before_last-append c t b'"') refl

-- A value that is escaped and put in double quotes is read back as it was.
pub unquote-escape : (s : Bytes) → unquote (b'"' ∷ (escape s ++ b'"' ∷ [])) ≡ s
unquote-escape s = unquote_double (escape s) ∙ unescape-escape s
