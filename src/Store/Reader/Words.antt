-- ===== src/Store/Reader/Words.antt =====
-- Little-endian words, written and read back.
use osfp.Base.{ℕ, zero, suc, ◌/◌, ◌^◌, ◌<◌, Bytes, ◌++◌, length, drop, ◌≡◌, refl, ap, arith}
use native.Mathlib.Nat.{pow-suc}
use osfp.Store.Writer.{put_le}
use osfp.Store.Reader.{get_le}

pub length-put_le : (k x : ℕ) → length (put_le k x) ≡ k
unfolding put_le
length-put_le zero x = refl
length-put_le (suc k) x = ap suc (length-put_le k (x / 256))

pub get_le-put_le : (k x : ℕ) (r : Bytes) → x < 256 ^ k → get_le k (put_le k x ++ r) ≡ x
unfolding put_le get_le
get_le-put_le zero x r h = omega arith
get_le-put_le (suc k) x r h =
    let high : x / 256 < 256 ^ k = omega (arith, pow-suc 256 k) in
    omega (arith, get_le-put_le k (x / 256) r high)

-- Behind a word stands what was written behind it.
pub drop-put_le : (k x : ℕ) (r : Bytes) → drop k (put_le k x ++ r) ≡ r
unfolding put_le
drop-put_le zero x r = refl
drop-put_le (suc k) x r = drop-put_le k (x / 256) r
