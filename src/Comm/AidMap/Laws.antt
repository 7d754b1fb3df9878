-- ===== src/Comm/AidMap/Laws.antt =====
-- bin/edna_comm.cpp: the registry as a map by AID and as a set of sockets.
use edna.Base.{
  ℕ, ◌≡◌, inl, inr, Bool, true, not, ◌&&◌, List, [], ◌∷◌, some, ℤ, if◌then◌else◌, All, Bool-cases,
  arith,
}
use edna.Bytestring.{less}
use edna.Bytestring.Order.{less_irrefl, less_trans, less_same}
use edna.Comm.AidMap.{Registry, find, assign}

-- Neither key stands before the other.
abbrev pub same_key : List ℕ → List ℕ → Bool
same_key k j = not (less k j) && not (less j k)

-- One entry for each key, in the order of operator<.
abbrev pub IsSorted : Registry → Type 0
IsSorted [] = Unit {0}
IsSorted ((k, fd) ∷ m) = All (λ e. less k e.0 ≡ true) m × IsSorted m

-- After `application_registry[k] = fd`, `find` gives `fd` for `k`, and for every other key what it
-- gave before. This holds of every list of entries.
pub find-assign :
    (j k : List ℕ) (fd : ℤ) (m : Registry)
    → find j (assign k fd m) ≡ (if same_key k j then some fd else find j m)
unfolding find assign
find-assign j k fd [] = ground arith
find-assign j k fd ((a, s) ∷ m) = elim (Bool-cases (less a k)) [
  | inl p ↦ rw p (ground (arith, find-assign j k fd m, less_trans a k j, less_same k j a))
  | inr p ↦ elim (Bool-cases (less k a)) [
    | inl q ↦ rw (p, q) (ground (arith, less_trans j k a, less_trans k a j, less_same k j a))
    | inr q ↦ rw (p, q) (ground (arith, less_same a k j p q, less_irrefl k))
  ]
]

abbrev pub Above : List ℕ → Registry → Type 0
Above a m = All (λ e. less a e.0 ≡ true) m

Above-assign :
    (a k : List ℕ) (fd : ℤ) (m : Registry) → less a k ≡ true → Above a m → Above a (assign k fd m)
unfolding assign
Above-assign a k fd [] h p = (h, tt)
Above-assign a k fd ((b, s) ∷ m) h p = elim (Bool-cases (less b k)) [
  | inl q ↦ rw q (p.0, Above-assign a k fd m h p.1)
  | inr q ↦ elim (Bool-cases (less k b)) [ inl r ↦ rw (q, r) (h, p) | inr r ↦ rw (q, r) p ]
]

Above-trans : (k a : List ℕ) (m : Registry) → less k a ≡ true → Above a m → Above k m
Above-trans k a [] h p = tt
Above-trans k a ((b, s) ∷ m) h p = (less_trans k a b h p.0, Above-trans k a m h p.1)

-- The registry stays sorted.
pub assign-IsSorted : (k : List ℕ) (fd : ℤ) (m : Registry) → IsSorted m → IsSorted (assign k fd m)
unfolding assign
assign-IsSorted k fd [] h = (tt, tt)
assign-IsSorted k fd ((a, s) ∷ m) h = elim (Bool-cases (less a k)) [
  | inl q ↦ rw q (Above-assign a k fd m q h.0, assign-IsSorted k fd m h.1)
  | inr q ↦ elim (Bool-cases (less k a)) [
    | inl r ↦ rw (q, r) ((r, Above-trans k a m r h.0), h)
    | inr r ↦ rw (q, r) h
  ]
]
