-- ===== src/Bytestring/Order.antt =====
-- common/edna_bytestring.cpp: operator< and the equality tests. std::map keeps the application
-- registry by operator<, which compares hexadecimal texts.
use edna.Base.{
  ℕ, ◌/◌, ◌%◌, ◌<◌, ◌≡◌, refl, ap, ◌∙◌, sym, ◌↔◌, inl, inr, true, false, not, List, [], ◌∷◌, ltb,
  ◌==◌, length, All, Bool-cases, arith,
}
use edna.Bytestring.{IsByte, hex_digit, hex_str, text_lt, less, same_bytes, equal, not_equal}

-- The digits stand in the order of their characters.
hex_digit_mono : (d e : ℕ) → d < 16 → e < 16 → ltb (hex_digit d) (hex_digit e) ≡ ltb d e
unfolding hex_digit
hex_digit_mono d e h k = ground arith

text_lt-hex_str :
    (b c : List ℕ) → All IsByte b → All IsByte c → text_lt (hex_str b) (hex_str c) ≡ text_lt b c
unfolding hex_str text_lt
text_lt-hex_str [] [] h k = refl
text_lt-hex_str [] (y ∷ c) h k = refl
text_lt-hex_str (x ∷ b) [] h k = refl
text_lt-hex_str (x ∷ b) (y ∷ c) h k =
    rw
      (
        hex_digit_mono (x / 16) (y / 16) (omega arith) (omega arith),
        hex_digit_mono (y / 16) (x / 16) (omega arith) (omega arith),
        hex_digit_mono (x % 16) (y % 16) (omega arith) (omega arith),
        hex_digit_mono (y % 16) (x % 16) (omega arith) (omega arith),
        text_lt-hex_str b c h.1 k.1,
      )
      (ground arith)

-- On strings of bytes, operator<, which compares their hexadecimal texts, is the comparison of the
-- bytes: the first that differs decides, then the length.
pub less_lem : (b c : List ℕ) → All IsByte b → All IsByte c → less b c ≡ text_lt b c
unfolding less
less_lem b c h k = text_lt-hex_str b c h k

text_lt_irrefl : (s : List ℕ) → text_lt s s ≡ false
unfolding text_lt
text_lt_irrefl [] = refl
text_lt_irrefl (x ∷ s) = ground (arith, text_lt_irrefl s)

text_lt_trans : (s t u : List ℕ) → text_lt s t ≡ true → text_lt t u ≡ true → text_lt s u ≡ true
unfolding text_lt
text_lt_trans [] [] u p q = cc
text_lt_trans [] (y ∷ t) [] p q = cc
text_lt_trans [] (y ∷ t) (z ∷ u) p q = refl
text_lt_trans (x ∷ s) [] u p q = cc
text_lt_trans (x ∷ s) (y ∷ t) [] p q = cc
text_lt_trans (x ∷ s) (y ∷ t) (z ∷ u) p q = ground (arith, text_lt_trans s t u)

pub text_lt_connex : (s t : List ℕ) → text_lt s t ≡ false → text_lt t s ≡ false → s ≡ t
unfolding text_lt
text_lt_connex [] [] p q = refl
text_lt_connex [] (y ∷ t) p q = cc
text_lt_connex (x ∷ s) [] p q = cc
text_lt_connex (x ∷ s) (y ∷ t) p q = ground (arith, text_lt_connex s t)

-- What std::map asks of its comparison, and that keys which neither precedes are equal.
pub record IsStrictOrder (b c d : List ℕ) : Type 0 where
  pub irrefl : less b b ≡ false
  pub trans : less b c ≡ true → less c d ≡ true → less b d ≡ true
  pub connex : less b c ≡ false → less c b ≡ false → b ≡ c

pub less-IsStrictOrder :
    (b c d : List ℕ) → All IsByte b → All IsByte c → All IsByte d → IsStrictOrder b c d
less-IsStrictOrder b c d h k l = record {
  irrefl = less_lem b b h h ∙ text_lt_irrefl b;
  trans = λ p q.
      less_lem b d h l
      ∙ text_lt_trans b c d (sym (less_lem b c h k) ∙ p) (sym (less_lem c d k l) ∙ q);
  connex = λ p q. text_lt_connex b c (sym (less_lem b c h k) ∙ p) (sym (less_lem c b k h) ∙ q);
}

pub less_irrefl : (b : List ℕ) → less b b ≡ false
unfolding less
less_irrefl b = text_lt_irrefl (hex_str b)

pub less_trans : (b c d : List ℕ) → less b c ≡ true → less c d ≡ true → less b d ≡ true
unfolding less
less_trans b c d = text_lt_trans (hex_str b) (hex_str c) (hex_str d)

same_bytes_iff : (b c : List ℕ) → length c ≡ length b → (same_bytes b c ≡ true) ↔ (b ≡ c)
unfolding same_bytes
same_bytes_iff [] [] h = (λ _. refl, λ _. refl)
same_bytes_iff [] (y ∷ c) h = absurd (omega arith)
same_bytes_iff (x ∷ b) [] h = absurd (omega arith)
same_bytes_iff (x ∷ b) (y ∷ c) h = ground (arith, same_bytes_iff b c (omega arith))

-- operator== holds exactly if the two byte strings are equal.
pub equal_iff : (b c : List ℕ) → (equal b c ≡ true) ↔ (b ≡ c)
unfolding equal
equal_iff b c = elim (Bool-cases (length c == length b)) [
  | inl e ↦ rw e (same_bytes_iff b c (ground arith))
  | inr e ↦ rw e ((λ p. cc), λ p. absurd (omega (arith, ap (λ (l : List ℕ). length l) p, ne e)))
]
  where
    ne : (length c == length b) ≡ false → length c ≡ length b → ⊥
    ne e p = ground arith

pub not_equal_lem : (b c : List ℕ) → not_equal b c ≡ not (equal b c)
unfolding equal not_equal
not_equal_lem b c = ground arith

-- Keys that neither precedes are alike to every other key.
pub less_same :
    (b c d : List ℕ)
    → less b c ≡ false
    → less c b ≡ false
    → (less b d ≡ less c d) × (less d b ≡ less d c)
unfolding less
less_same b c d p q =
    let e : hex_str b ≡ hex_str c = text_lt_connex (hex_str b) (hex_str c) p q in rw e (refl, refl)
