-- ===== src/Bytestring/Xor.antt =====
-- common/edna_bytestring.cpp: operator^= and operator^.
use Prim.Native.Nat.{bit_xor}
use edna.Base.{
  ℕ, zero, suc, ◌<◌, ◌≤◌, ◌≡◌, refl, ap, ap₂, min, true, ◌&&◌, List, [], ◌∷◌, ◌==◌, ltb, length,
  take, All, passes, passes_at, arith,
}
use edna.Bytestring.{IsByte, xor_into, xor_assign, xor_prefix, xor_bytes}

xor_table :
    passes (λ x. passes (λ y. ltb (bit_xor x y) 256 && (bit_xor (bit_xor x y) y == x)) 256) 256
    ≡ true
unfolding passes
xor_table = refl

xor_pair :
    (x y : ℕ) → x < 256 → y < 256 → (ltb (bit_xor x y) 256 && (bit_xor (bit_xor x y) y == x)) ≡ true
xor_pair x y h k = passes_at _ 256 (passes_at _ 256 xor_table x h) y k

pub xor_byte : (x y : ℕ) → x < 256 → y < 256 → (bit_xor x y < 256) × (bit_xor (bit_xor x y) y ≡ x)
xor_byte x y h k = ground (arith, xor_pair x y h k)

xor_into_twice :
    (n : ℕ) (b c : List ℕ) → All IsByte b → All IsByte c → xor_into n (xor_into n b c) c ≡ b
unfolding xor_into
xor_into_twice zero b c h k = refl
xor_into_twice (suc n) [] c h k = refl
xor_into_twice (suc n) (x ∷ b) [] h k = refl
xor_into_twice (suc n) (x ∷ b) (y ∷ c) h k =
    ap₂ ◌∷◌ (xor_byte x y h.0 k.0).1 (xor_into_twice n b c h.1 k.1)

length-xor_into : (n : ℕ) (b c : List ℕ) → length (xor_into n b c) ≡ length b
unfolding xor_into
length-xor_into zero b c = refl
length-xor_into (suc n) [] c = refl
length-xor_into (suc n) (x ∷ b) [] = refl
length-xor_into (suc n) (x ∷ b) (y ∷ c) = ap suc (length-xor_into n b c)

-- On strings of bytes, `^=` with the same operand, done twice, restores the object, whatever the two
-- lengths are.
xor_assign_twice : (b c : List ℕ) → All IsByte b → All IsByte c → xor_assign (xor_assign b c) c ≡ b
unfolding xor_assign
xor_assign_twice b c h k =
    rw (length-xor_into (min (length b) (length c)) b c)
      (xor_into_twice (min (length b) (length c)) b c h k)

xor_prefix-take :
    (n : ℕ) (b c : List ℕ)
    → n ≤ length b
    → n ≤ length c
    → All IsByte b
    → All IsByte c
    → xor_prefix n b c ≡ take n (xor_into n b c)
unfolding xor_prefix xor_into
xor_prefix-take zero b c p q h k = refl
xor_prefix-take (suc n) [] c p q h k = refl
xor_prefix-take (suc n) (x ∷ b) [] p q h k = absurd (omega arith)
xor_prefix-take (suc n) (x ∷ b) (y ∷ c) p q h k =
    ap₂ ◌∷◌ (omega (arith, (xor_byte x y h.0 k.0).0))
      (xor_prefix-take n b c (omega arith) (omega arith) h.1 k.1)

-- On strings of bytes, the operator `^` gives what `^=` leaves in the object, cut to the shorter operand.
xor_bytes-xor_assign :
    (b c : List ℕ)
    → All IsByte b
    → All IsByte c
    → xor_bytes b c ≡ take (min (length b) (length c)) (xor_assign b c)
unfolding xor_bytes xor_assign
xor_bytes-xor_assign b c h k =
    xor_prefix-take (min (length b) (length c)) b c (omega arith) (omega arith) h k
