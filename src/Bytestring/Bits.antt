-- ===== src/Bytestring/Bits.antt =====
-- common/edna_bytestring.cpp: the method bits, the length of a byte string in bits.
use Prim.Native.Nat.{bit_and}
use edna.Base.{
  ℕ, zero, suc, ◌+◌, ◌-◌, ◌*◌, ◌^◌, ◌<◌, ◌≤◌, ◌≡◌, ◌↔◌, refl, ap, ◌∙◌, ◌⊎◌, inl, inr, Bool, true,
  false, not, ◌||◌, List, [], ◌∷◌, ltb, ◌==◌, length, All, Bool-cases, passes, passes_at, ltb→lt,
  ltb_false→le, arith,
}
use native.Mathlib.Nat.{add-zero, pow-suc, pow-le-pow_right, mul-le-mul_right, add_assoc}
use native.Mathlib.Numerals.{add-one, towards_suc}
use edna.Bytestring.{IsByte, scan_byte, scan_bytes, bits}
use edna.Bytestring.Numeric.{value, value_from}

bool_eq : Bool → Bool → Bool
bool_eq true b = b
bool_eq false b = not b

mask_table :
    passes
      (λ k.
        passes
          (λ x. not (ltb x (2 ^ (k + 1))) || bool_eq (bit_and x (2 ^ k) == 0) (ltb x (2 ^ k)))
          256)
      8
    ≡ true
unfolding passes bool_eq
mask_table = refl

-- A byte below 2 ^ (k + 1) has bit k clear exactly if it is below 2 ^ k.
top_mask : (k x : ℕ) → k < 8 → x < 256 → x < 2 ^ (k + 1) → (bit_and x (2 ^ k) == 0) ≡ ltb x (2 ^ k)
unfolding bool_eq
top_mask k x hk hx h = ground (arith, passes_at _ 256 (passes_at _ 8 mask_table k hk) x hx)

pow_eight : (k : ℕ) → 2 ^ (k + 8) ≡ 256 * 2 ^ k
pow_eight k = simp towards_suc (omega arith)

-- One byte: the bits counted are those up to the highest that is set.
scan_byte_lem :
    (k x m : ℕ)
    → k ≤ 8
    → x < 2 ^ k
    → x < 256
    → ((x ≡ 0) × (scan_byte k x (m + k) ≡ (m, false)))
      ⊎ ((j : ℕ) × (2 ^ j ≤ x) × (x < 2 ^ (j + 1)) × (scan_byte k x (m + k) ≡ (m + j + 1, true)))
unfolding scan_byte
scan_byte_lem zero x m hk h hx = inl (omega arith, rw add-zero)
scan_byte_lem (suc k) x m hk h hx = elim (Bool-cases (ltb x (2 ^ k))) [
  | inl e ↦
      let q : (bit_and x (2 ^ k) == 0) ≡ true = top_mask k x hk hx h' ∙ e in
      let s : m + suc k - 1 ≡ m + k = omega arith in
      rw (q, s) (scan_byte_lem k x m (omega arith) (ltb→lt _ _ e) hx)
  | inr e ↦
      let q : (bit_and x (2 ^ k) == 0) ≡ false = top_mask k x hk hx h' ∙ e in
      let s : m + suc k ≡ m + k + 1 = omega arith in
      rw q (inr (k, ltb_false→le _ _ e, h', ap (λ (n : ℕ). (n, true)) s))
]
  where
    h' : x < 2 ^ (k + 1)
    h' = rw add-one h

pow_bytes : (n j : ℕ) → 2 ^ (n * 8 + j) ≡ 256 ^ n * 2 ^ j
pow_bytes zero j = let e : 0 * 8 + j ≡ j = omega arith in rw e (omega arith)
pow_bytes (suc n) j =
    let e : suc n * 8 + j ≡ n * 8 + j + 8 = omega arith in
    rw e (
      pow_eight (n * 8 + j)
      ∙ omega (arith, pow_bytes n j, ap (λ (t : ℕ). t * 2 ^ j) (pow-suc 256 n)))

value_from_split : (acc : ℕ) (b : List ℕ) → value_from acc b ≡ acc * 256 ^ length b + value_from 0 b
unfolding value_from
value_from_split acc [] = omega arith
value_from_split acc (x ∷ b) = omega (
  arith,
  value_from_split (acc * 256 + x) b,
  value_from_split (0 * 256 + x) b,
  ap (λ (t : ℕ). acc * t) (pow-suc 256 (length b)),
)

value_lt : (b : List ℕ) → All IsByte b → value_from 0 b < 256 ^ length b
unfolding value_from
value_lt [] h = omega arith
value_lt (x ∷ b) h = omega (
  arith,
  value_lt b h.1,
  value_from_split (0 * 256 + x) b,
  mul-le-mul_right {m = x} {n = 255} (256 ^ length b) (omega (arith, h.0)),
  pow-suc 256 (length b),
)

scan_bytes_lem :
    (b : List ℕ)
    → All IsByte b
    → ((value_from 0 b ≡ 0) × (scan_bytes b (length b * 8) ≡ 0))
      ⊎ ((j : ℕ) × (2 ^ j ≤ value_from 0 b)
          × (value_from 0 b < 2 ^ (j + 1))
          × (scan_bytes b (length b * 8) ≡ j + 1))
unfolding scan_bytes value_from
scan_bytes_lem [] h = inl (refl, refl)
scan_bytes_lem (x ∷ b) h =
    let s : suc (length b) * 8 ≡ length b * 8 + 8 = omega arith in
    let v : value_from (0 * 256 + x) b ≡ (0 * 256 + x) * 256 ^ length b + value_from 0 b =
      value_from_split (0 * 256 + x) b in
    elim (scan_byte_lem 8 x (length b * 8) (omega arith) h.0 h.0) [
      | inl (z, e) ↦
          let v' : value_from (0 * 256 + x) b ≡ value_from 0 b =
            omega (arith, v, ap (λ (t : ℕ). t * 256 ^ length b) z) in
          rw (s, e, v') (scan_bytes_lem b h.1)
      | inr (j, lo, hi, e) ↦
          rw (s, e)
            (inr (
              length b * 8 + j,
              omega (arith, v, pow_bytes (length b) j, mul-le-mul_right (256 ^ length b) lo),
              rw (add_assoc (length b * 8) j 1) (
                  omega (
                    arith,
                    v,
                    value_lt b h.1,
                    pow_bytes (length b) (j + 1),
                    mul-le-mul_right (256 ^ length b) hi,
                  )),
              refl,
            ))
    ]

bits-scan_bytes : (b : List ℕ) → bits b ≡ scan_bytes b (length b * 8)
unfolding bits
bits-scan_bytes [] = refl
bits-scan_bytes (x ∷ b) = ground arith

-- `bits` is the least number of bits that hold the number which a string of bytes stands for, the
-- most significant byte first: the number is below 2 ^ k exactly if `bits` is at most k.
pub bits_least : (b : List ℕ) (k : ℕ) → All IsByte b → (value b < 2 ^ k) ↔ (bits b ≤ k)
unfolding value
bits_least b k h = elim (scan_bytes_lem b h) [
  | inl (z, e) ↦
      rw (bits-scan_bytes b, e, z)
        (λ v. omega arith, λ v. omega (arith, pow-le-pow_right {n = 2} (omega arith) (zero_le k)))
  | inr (j, lo, hi, e) ↦
      rw (bits-scan_bytes b, e)
        (λ v. below j lo v, λ v. omega (arith, hi, pow-le-pow_right {n = 2} (omega arith) v))
]
  where
    zero_le : (m : ℕ) → 0 ≤ m
    zero_le m = omega arith

    below : (j : ℕ) → 2 ^ j ≤ value_from 0 b → value_from 0 b < 2 ^ k → j + 1 ≤ k
    below j lo v = elim (Bool-cases (ltb j k)) [
      | inl p ↦ omega (arith, ltb→lt j k p)
      | inr p ↦ absurd (omega (arith, pow-le-pow_right {n = 2} (omega arith) (ltb_false→le j k p)))
    ]
