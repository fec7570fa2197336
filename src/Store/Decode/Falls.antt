-- ===== src/Store/Decode/Falls.antt =====
-- A step of the byte reader takes bytes and gives none back, whatever they are.
use osfp.Base.{
  ℕ, zero, suc, ◌+◌, ◌*◌, ◌%◌, ◌<◌, ◌≤◌, Bytes, Bool, true, false, ◌&&◌, [], ◌∷◌, Option, none,
  some, ltb, ◌==◌, if◌then◌else◌, length, take, drop, length-drop, ◌≡◌, refl, ap, ◌∙◌, arith, pos,
}
use osfp.Store.Varint.{get_groups, get_uvarint, unzigzag}
use osfp.Store.Decode.{
  ByteReader, fail, Read, ◌>>=◌, pure, is_good, uvarint, varint, u8, take_bytes, str, read_if,
  read_hash, read_links, read_fields,
}

-- No byte comes back, and no error is taken back.
pub record Descends (b b' : ByteReader) : Type 0 where
  pub fewer : length b'.rest ≤ length b.rest
  pub sound : b'.failed ≡ false → b.failed ≡ false

pub Descends-refl : (b : ByteReader) → Descends b b
Descends-refl b = record { fewer = omega arith; sound = λ h. h }

pub Descends-trans : (a b c : ByteReader) → Descends a b → Descends b c → Descends a c
Descends-trans a b c h k = record {
  fewer = omega (arith, h.fewer, k.fewer);
  sound = λ e. h.sound (k.sound e);
}

pub Descends-fail : (b : ByteReader) → Descends b (fail b)
Descends-fail b = record { fewer = omega arith; sound = λ h. absurd (cc h) }

abbrev Falls {ℓ} : {A : Type ℓ} → Read A → Type 0
Falls m = (b : ByteReader) → Descends b (m b).1

Falls-pure : {A : Type 0} (a : A) → Falls (pure a)
unfolding pure
Falls-pure a b = Descends-refl b

Falls-bind :
    {A B : Type 0} (m : Read A) (f : A → Read B)
    → Falls m
    → ((a : A) → Falls (f a))
    → Falls (m >>= f)
unfolding ◌>>=◌
Falls-bind m f h k b = Descends-trans b (m b).1 (f (m b).0 (m b).1).1 (h b) (k (m b).0 (m b).1)

Falls-read_if : {A : Type 0} (t : Bool) (a : A) (m : Read A) → Falls m → Falls (read_if t a m)
Falls-read_if true a m h = h
Falls-read_if false a m h = Falls-pure a

-- What is left, where there is a result, is shorter than `n`.
abbrev Leaves : ℕ → Option (ℕ × Bytes) → Type 0
Leaves n none = Unit
Leaves n (some (v, r)) = length r < n

Leaves-if :
    (last over : Bool) (n : ℕ) (here more : Option (ℕ × Bytes))
    → Leaves n here
    → Leaves n more
    → Leaves n (if last then (if over then none else here) else more)
Leaves-if true true n here more h k = tt
Leaves-if true false n here more h k = h
Leaves-if false over n here more h k = k

Leaves-suc : (n : ℕ) (o : Option (ℕ × Bytes)) → Leaves n o → Leaves (suc n) o
Leaves-suc n none h = tt
Leaves-suc n (some (v, r)) h = omega (arith, h)

get_groups-Leaves : (k m x : ℕ) (bs : Bytes) → Leaves (length bs) (get_groups k m x bs)
unfolding get_groups
get_groups-Leaves zero m x bs = tt
get_groups-Leaves (suc k) m x [] = tt
get_groups-Leaves (suc k) m x (b ∷ bs) =
    Leaves-if (ltb b 128) (k == 0 && ltb 1 b) (suc (length bs)) (some (x + b * m, bs))
      (get_groups k (m * 128) (x + b % 128 * m) bs) (omega arith)
      (Leaves-suc (length bs) (get_groups k (m * 128) (x + b % 128 * m) bs)
        (get_groups-Leaves k (m * 128) (x + b % 128 * m) bs))

get_uvarint-Leaves : (bs : Bytes) → Leaves (length bs) (get_uvarint bs)
unfolding get_uvarint
get_uvarint-Leaves bs = get_groups-Leaves 10 1 0 bs

-- Where no error is latched, a byte was read.
pub record Strict (b b' : ByteReader) : Type 0 where
  pub falls : Descends b b'
  pub fewer : b'.failed ≡ false → length b'.rest < length b.rest

abbrev number {ℓ} : {A : Type ℓ} → A → (ℕ → A) → ByteReader → Option (ℕ × Bytes) → A × ByteReader
number zeroth f b none = (zeroth, fail b)
number zeroth f b (some (v, r)) = (f v, record b { rest = r })

Strict-number :
    {A : Type 0} (zeroth : A) (f : ℕ → A) (b : ByteReader) (o : Option (ℕ × Bytes))
    → Leaves (length b.rest) o
    → Strict b (number zeroth f b o).1
Strict-number zeroth f b none h = record { falls = Descends-fail b; fewer = λ e. absurd (cc e) }
Strict-number zeroth f b (some (v, r)) h = record {
  falls = record { fewer = omega (arith, h); sound = λ e. e };
  fewer = λ e. h;
}

differ : ¬ (true ≡ false)
differ e = cc e

-- Behind a latched error a step leaves the reader alone.
Strict-unless :
    {A : Type 0} (t : Bool) (zeroth : A) (b : ByteReader) (x : A × ByteReader)
    → t ≡ b.failed
    → Strict b x.1
    → Strict b (if t then (zeroth, b) else x).1
Strict-unless true zeroth b x e h = record {
  falls = Descends-refl b;
  fewer = λ k. absurd (differ (e ∙ k));
}
Strict-unless false zeroth b x e h = h

pub Strict-uvarint : (b : ByteReader) → Strict b (uvarint b).1
unfolding uvarint
Strict-uvarint b =
    Strict-unless b.failed 0 b (number 0 (λ v. v) b (get_uvarint b.rest)) refl
      (Strict-number 0 (λ v. v) b (get_uvarint b.rest) (get_uvarint-Leaves b.rest))

Falls-uvarint : Falls uvarint
Falls-uvarint b = (Strict-uvarint b).falls

Falls-varint : Falls varint
unfolding varint
Falls-varint b =
    (Strict-unless b.failed (pos 0) b (number (pos 0) unzigzag b (get_uvarint b.rest)) refl
      (Strict-number (pos 0) unzigzag b (get_uvarint b.rest) (get_uvarint-Leaves b.rest))).falls

Falls-unless :
    {A : Type 0} (t : Bool) (zeroth : A) (b : ByteReader) (x : A × ByteReader)
    → Descends b x.1
    → Descends b (if t then (zeroth, b) else x).1
Falls-unless true zeroth b x h = Descends-refl b
Falls-unless false zeroth b x h = h

abbrev first_of : ByteReader → Bytes → ℕ × ByteReader
first_of b [] = (0, fail b)
first_of b (c ∷ r) = (c, record b { rest = r })

Falls-u8 : Falls u8
unfolding u8
Falls-u8 b = Falls-unless b.failed 0 b (first_of b b.rest) (first b b.rest refl)
  where
    first : (b : ByteReader) (r : Bytes) → r ≡ b.rest → Descends b (first_of b r).1
    first b [] e = Descends-fail b
    first b (c ∷ r) e = record { fewer = omega (arith, ap (length {0}) e); sound = λ h. h }

abbrev bytes_or : Bool → ℕ → ByteReader → Bytes × ByteReader
bytes_or t n b = if t then ([], fail b) else (take n b.rest, record b { rest = drop n b.rest })

Falls-bytes_or : (t : Bool) (n : ℕ) (b : ByteReader) → Descends b (bytes_or t n b).1
Falls-bytes_or true n b = Descends-fail b
Falls-bytes_or false n b = record { fewer = omega (arith, length-drop n b.rest); sound = λ h. h }

Falls-take_bytes : (n : ℕ) → Falls (take_bytes n)
unfolding take_bytes
Falls-take_bytes n b =
    Falls-unless b.failed [] b (bytes_or (ltb (length b.rest) n) n b)
      (Falls-bytes_or (ltb (length b.rest) n) n b)

pub Falls-str : (max : ℕ) → Falls (str max)
unfolding str
Falls-str max b =
    let (n, b') = uvarint b in
    Descends-trans b b' _ (Falls-uvarint b) (
      Falls-unless b'.failed [] b' (if ltb max n then ([], fail b') else take_bytes n b')
        (long (ltb max n) n b'))
  where
    long :
        (t : Bool) (n : ℕ) (b' : ByteReader)
        → Descends b' (if t then ([], fail b') else take_bytes n b').1
    long true n b' = Descends-fail b'
    long false n b' = Falls-take_bytes n b'

Falls-read_hash : Falls read_hash
unfolding read_hash
Falls-read_hash b = Falls-take_bytes 32 b

Falls-is_good : Falls is_good
unfolding is_good
Falls-is_good b = Descends-refl b

Falls-read_links : Falls read_links
unfolding read_links
Falls-read_links = Falls-bind _ _ Falls-uvarint (λ dev.
    Falls-bind _ _ Falls-uvarint (λ ino. Falls-bind _ _ Falls-uvarint (λ nlink. Falls-pure _)))

pub Falls-read_fields : (path : Bytes) → Falls (read_fields path)
unfolding read_fields
Falls-read_fields path = Falls-bind _ _ Falls-u8 (λ type. Falls-bind _ _ Falls-u8 (λ flags.
    Falls-bind _ _ Falls-uvarint (λ mode. Falls-bind _ _ Falls-uvarint (λ uid.
      Falls-bind _ _ Falls-uvarint (λ gid. Falls-bind _ _ Falls-uvarint (λ size.
        Falls-bind _ _ Falls-varint (λ mtime.
          Falls-bind _ _ (Falls-read_if _ _ _ Falls-read_hash) (λ hash.
            Falls-bind _ _ Falls-is_good (λ good.
              Falls-bind _ _ (Falls-read_if _ _ _ (Falls-str _)) (λ link.
                Falls-bind _ _ (Falls-read_if _ _ _ Falls-read_links) (λ links.
                  Falls-bind _ _ (Falls-read_if _ _ _ (Falls-str _))
                    (λ err. Falls-pure _))))))))))))
