-- ===== src/Bytestring/Slice.antt =====
-- common/edna_bytestring.cpp: substr and split against take and drop, the 64-bit difference of
-- `substr` included.
use edna.Base.{
  ◌++◌, ℕ, zero, suc, ◌+◌, ◌-◌, ◌<◌, ◌≤◌, min, ◌≡◌, refl, ap, ◌∙◌, sym, inl, inr, true, List, [],
  ◌∷◌, some, ltb, leb, length, take, drop, get_elem?, replicate, Bool-cases, length-take,
  length-drop, length-replicate, take_all, drop_all, length-append, append-nil, arith,
}
use edna.Bytestring.{
  join, append, copy, size_mod, size_max, resize, wipe, size_sub, substr, substr_from, shift_down,
  split,
}

take-min : (n : ℕ) (xs : List ℕ) → take (min n (length xs)) xs ≡ take n xs
take-min n xs = elim (Bool-cases (ltb (length xs) n)) [
  | inl e ↦
      let m : min n (length xs) ≡ length xs = ground arith in
      rw m (take_all (length xs) xs (omega arith) ∙ sym (take_all n xs (ground arith)))
  | inr e ↦ let m : min n (length xs) ≡ n = ground arith in rw m
]

pub size_sub_lem : (a b : ℕ) → a < size_mod → b ≤ a → size_sub a b ≡ a - b
unfolding size_sub
size_sub_lem a b h k = omega arith

-- On a vector that fits the address space `substr` takes `len` bytes from `start` on, as many as
-- there are, and nothing behind the end.
pub substr_lem :
    (b : List ℕ) (start len : ℕ)
    → length b < size_mod
    → substr b start len ≡ take len (drop start b)
unfolding substr
substr_lem b start len h = elim (Bool-cases (leb (length b) start)) [
  | inl e ↦ rw (e, drop_all start b (ground arith)) (sym (take_all len [] (omega arith)))
  | inr e ↦
      rw (e, size_sub_lem (length b) start h (ground arith), ← length-drop start b)
        (take-min len (drop start b))
]

pub substr_from_lem :
    (b : List ℕ) (start : ℕ) → length b < size_mod → substr_from b start ≡ drop start b
unfolding substr_from
substr_from_lem b start h =
    substr_lem b start size_max h
    ∙ take_all size_max (drop start b) (omega (arith, length-drop start b))

drop-get_elem? :
    (xs : List ℕ) (i : ℕ)
    → i < length xs
    → (y : ℕ) × (get_elem? xs i ≡ some y) × (drop i xs ≡ y ∷ drop (suc i) xs)
drop-get_elem? [] i h = absurd (omega arith)
drop-get_elem? (x ∷ xs) zero h = (x, refl, refl)
drop-get_elem? (x ∷ xs) (suc i) h = drop-get_elem? xs i (omega arith)

take-shift_down :
    (n len : ℕ) (b : List ℕ)
    → n + len ≤ length b
    → take n (shift_down n len b) ≡ take n (drop len b)
unfolding shift_down
take-shift_down zero len b h = refl
take-shift_down (suc n) len [] h = absurd (omega arith)
take-shift_down (suc n) len (x ∷ b) h =
    let (y, e, d) = drop-get_elem? (x ∷ b) len (omega arith) in
    rw (e, d) (ap (◌∷◌ y) (take-shift_down n len b (omega arith)))

length-shift_down : (n len : ℕ) (b : List ℕ) → length (shift_down n len b) ≡ length b
unfolding shift_down
length-shift_down zero len b = refl
length-shift_down (suc n) len [] = refl
length-shift_down (suc n) len (x ∷ b) = ap suc (length-shift_down n len b)

pub resize_down : (b : List ℕ) (n : ℕ) → n ≤ length b → resize b n ≡ take n b
unfolding resize
resize_down b n h = let e : n - length b ≡ 0 = omega arith in rw e (append-nil (take n b))

pub length-resize : (b : List ℕ) (n : ℕ) → length (resize b n) ≡ n
unfolding resize
length-resize b n = omega (
  arith,
  length-append (take n b) (replicate (n - length b) 0),
  length-take n b,
  length-replicate {A = ℕ} (n - length b) 0,
)

-- `split` cuts the object in two: it returns the first `len` bytes and keeps the others.
split_lem : (b : List ℕ) (len : ℕ) → length b < size_mod → split b len ≡ (take len b, drop len b)
unfolding split
split_lem b len h = elim (Bool-cases (ltb len (length b))) [
  | inl e ↦
      let p : ltb 0 (length b - len) ≡ true = ground arith in
      rw (
        e,
        p,
        substr_lem b 0 len h,
        resize_down (shift_down (length b - len) len b) (length b - len)
            (omega (arith, length-shift_down (length b - len) len b)),
        take-shift_down (length b - len) len b (ground arith),
        take_all (length b - len) (drop len b) (omega (arith, length-drop len b)),
      )
  | inr e ↦
      rw (e, substr_lem b 0 len h, resize_down b 0 (omega arith), drop_all len b (ground arith))
]

take-drop : (n : ℕ) (b : List ℕ) → take n b ++ drop n b ≡ b
take-drop zero b = refl
take-drop (suc n) [] = refl
take-drop (suc n) (x ∷ b) = ap (◌∷◌ x) (take-drop n b)

-- On a vector that fits the address space, `split` loses no byte and changes no order: what it returns
-- has the `len` first bytes, or all if there are fewer, and operator+ of that and of what is left in the
-- object is the byte string that there was.
pub join-split :
    (b : List ℕ) (len : ℕ)
    → length b < size_mod
    → (join (split b len).0 (split b len).1 ≡ b) × (length (split b len).0 ≡ min len (length b))
unfolding join append copy
join-split b len h = rw (split_lem b len h) (take-drop len b, length-take len b)

-- `wipe` leaves a vector of the asked size that holds only zeroes.
pub wipe_lem : (b : List ℕ) (n : ℕ) → wipe b n ≡ replicate n 0
unfolding wipe
wipe_lem b n = ap (λ k. replicate k 0) (length-resize b n)
