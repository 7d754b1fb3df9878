-- ===== src/Bytestring/Numeric.antt =====
-- common/edna_bytestring.cpp: the constructor from an unsigned long, and big-endian shorts.
use Prim.Native.Nat.{bit_and, digits, bit_and-bitwise}
use edna.Base.{
  ℕ, zero, suc, ◌+◌, ◌*◌, ◌/◌, ◌%◌, ◌^◌, ◌<◌, ◌≤◌, min, ◌≡◌, refl, sym, ap, ◌∙◌, List, [], ◌∷◌,
  length, arith,
}
use native.Mathlib.Nat.{pow-suc}
use edna.Bytestring.{to_byte, ulong_bytes, of_ulong}

-- The number that a byte string stands for, the most significant byte first.
unfoldable pub value_from : ℕ → List ℕ → ℕ
value_from acc [] = acc
value_from acc (x ∷ b) = value_from (acc * 256 + x) b

unfoldable pub value : List ℕ → ℕ
unfolding value_from
value b = value_from 0 b

-- The lowest `k` digits of a number, and the mask that has them set.
abbrev low : ℕ → ℕ → ℕ
low zero v = 0
low (suc k) v = low k (v / 2) * 2 + v % 2

abbrev ones : ℕ → ℕ
ones zero = 0
ones (suc k) = ones k * 2 + 1

low-zero : (k : ℕ) → low k 0 ≡ 0
low-zero zero = refl
low-zero (suc k) = omega (arith, low-zero k)

-- The digit-wise minimum with the mask, for every fuel that is enough.
masked : (k fuel v : ℕ) → v ≤ fuel → digits (λ _. zero) min fuel v (ones k) ≡ low k v
masked k zero zero h = sym (low-zero k)
masked k zero (suc v) h = absurd (omega arith)
masked k (suc fuel) zero h = sym (low-zero k)
masked zero (suc fuel) (suc v) h = omega (arith, masked 0 fuel (suc v / 2) (omega arith))
masked (suc k) (suc fuel) (suc v) h =
    let half : (ones k * 2 + 1) / 2 ≡ ones k = omega arith in
    rw half (omega (arith, masked k fuel (suc v / 2) (omega arith)))

-- `& 0xff` keeps the lowest byte.
pub mask_byte : (v : ℕ) → bit_and v 0xff ≡ v % 256
mask_byte v = bit_and-bitwise v 0xff ∙ masked 8 v v (omega arith) ∙ (omega arith)

value_from-ulong_bytes :
    (n v : ℕ) (out : List ℕ) → v < 256 ^ n → value_from 0 (ulong_bytes n v out) ≡ value_from v out
unfolding value_from ulong_bytes
value_from-ulong_bytes zero v out h = let e : v ≡ 0 = omega arith in rw e
value_from-ulong_bytes (suc n) v out h =
    value_from-ulong_bytes n (v / 256) (to_byte (bit_and v 255) ∷ out)
      (omega (arith, pow-suc 256 n))
    ∙ ap (λ (k : ℕ). value_from k out) (omega (arith, mask_byte v))

-- The bytes that the constructor writes for a 64-bit number stand for it, the most significant first.
pub value-of_ulong : (v : ℕ) → v < 2 ^ 64 → value (of_ulong v) ≡ v
unfolding value of_ulong
value-of_ulong v h = value_from-ulong_bytes 8 v [] h

length-ulong_bytes : (n v : ℕ) (out : List ℕ) → length (ulong_bytes n v out) ≡ n + length out
unfolding ulong_bytes
length-ulong_bytes zero v out = omega arith
length-ulong_bytes (suc n) v out =
    omega (arith, length-ulong_bytes n (v / 256) (to_byte (bit_and v 255) ∷ out))

pub length-of_ulong : (v : ℕ) → length (of_ulong v) ≡ 8
unfolding of_ulong
length-of_ulong v = length-ulong_bytes 8 v []
