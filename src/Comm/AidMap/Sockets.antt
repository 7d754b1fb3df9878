-- ===== src/Comm/AidMap/Sockets.antt =====
-- bin/edna_comm.cpp: the registry as a set of sockets, and what unregister_by_socket does to it.
use edna.Base.{
  ℕ, ◌≡◌, refl, subst, ◌∙◌, inl, inr, Bool, true, false, ◌||◌, List, [], ◌∷◌, Option, none, some, ℤ,
  int_eq, int_eq_iff, int_eq_comm, done, if◌then◌else◌, Bool-cases, arith,
}
use edna.Bytestring.{less}
use edna.Bytestring.Order.{less_trans, less_same}
use edna.Os.{Os}
use edna.Comm.AidMap.{Registry, find, assign, unregister_by_socket}
use edna.Comm.AidMap.Laws.{IsSorted, Above}

abbrev pub has_socket : ℤ → Registry → Bool
has_socket fd [] = false
has_socket fd ((k, s) ∷ m) = int_eq s fd || has_socket fd m

-- No socket serves two AIDs.
abbrev pub IsInjective : Registry → Type 0
IsInjective [] = Unit {0}
IsInjective ((k, s) ∷ m) = (has_socket s m ≡ false) × IsInjective m

-- The registry without the first entry of a socket.
abbrev pub erase_socket : ℤ → Registry → Registry
erase_socket fd [] = []
erase_socket fd ((k, s) ∷ m) = if int_eq s fd then m else ((k, s) ∷ erase_socket fd m)

-- `unregister_by_socket` closes the socket exactly if it is registered, and forgets its entry.
pub unregister_lem :
    {W : Type 0} (os : Os W) (fd : ℤ) (m : Registry) (w : W)
    → unregister_by_socket os fd m w
      ≡ done (erase_socket fd m, if has_socket fd m then os.close fd w else w)
unfolding unregister_by_socket
unregister_lem os fd [] w = refl
unregister_lem os fd ((k, s) ∷ m) w = elim (Bool-cases (int_eq s fd)) [
  | inl e ↦ rw e
  | inr e ↦ rw (e, unregister_lem os fd m w)
]

abbrev pub without : ℤ → Option ℤ → Option ℤ
without fd none = none
without fd (some s) = if int_eq s fd then none else some s

find_absent :
    (j : List ℕ) (fd : ℤ) (m : Registry)
    → has_socket fd m ≡ false
    → without fd (find j m) ≡ find j m
unfolding find
find_absent j fd [] h = refl
find_absent j fd ((a, s) ∷ m) h = ground (arith, find_absent j fd m)

find-Above : (j a : List ℕ) (m : Registry) → less a j ≡ false → Above a m → find j m ≡ none
unfolding find
find-Above j a [] h p = refl
find-Above j a ((b, s) ∷ m) h p =
    ground (arith, p.0, less_trans a b j, less_trans j a b, less_same a j b)

Above-erase : (k : List ℕ) (fd : ℤ) (m : Registry) → Above k m → Above k (erase_socket fd m)
Above-erase k fd [] h = tt
Above-erase k fd ((a, s) ∷ m) h = elim (Bool-cases (int_eq s fd)) [
  | inl e ↦ rw e h.1
  | inr e ↦ rw e (h.0, Above-erase k fd m h.1)
]

pub erase-IsSorted : (fd : ℤ) (m : Registry) → IsSorted m → IsSorted (erase_socket fd m)
erase-IsSorted fd [] h = tt
erase-IsSorted fd ((a, s) ∷ m) h = elim (Bool-cases (int_eq s fd)) [
  | inl e ↦ rw e h.1
  | inr e ↦ rw e (Above-erase a fd m h.0, erase-IsSorted fd m h.1)
]

-- After a socket is unregistered, its AID is found no more, and every other AID as before.
pub find-erase_socket :
    (j : List ℕ) (fd : ℤ) (m : Registry)
    → IsSorted m
    → IsInjective m
    → find j (erase_socket fd m) ≡ without fd (find j m)
unfolding find
find-erase_socket j fd [] h i = refl
find-erase_socket j fd ((a, s) ∷ m) h i = elim (Bool-cases (int_eq s fd)) [
  | inl e ↦
      let same : s ≡ fd = (int_eq_iff s fd).0 e in
      let gone : has_socket fd m ≡ false = subst (λ t. has_socket t m ≡ false) same i.0 in
      rw e (
        ground
          (arith, e, find_absent j fd m gone, λ (q : less a j ≡ false). find-Above j a m q h.0))
  | inr e ↦ rw e (ground (arith, e, find-erase_socket j fd m h.1 i.1))
]

pub has_socket-erase_socket :
    (s fd : ℤ) (m : Registry) → has_socket s m ≡ false → has_socket s (erase_socket fd m) ≡ false
has_socket-erase_socket s fd [] h = refl
has_socket-erase_socket s fd ((a, t) ∷ m) h = ground (arith, has_socket-erase_socket s fd m)

-- Erasing keeps the sockets distinct, and the erased one is gone.
pub erase-IsInjective :
    (fd : ℤ) (m : Registry)
    → IsInjective m
    → IsInjective (erase_socket fd m) × (has_socket fd (erase_socket fd m) ≡ false)
erase-IsInjective fd [] i = (tt, refl)
erase-IsInjective fd ((a, s) ∷ m) i = elim (Bool-cases (int_eq s fd)) [
  | inl e ↦ rw e (i.1, subst (λ t. has_socket t m ≡ false) ((int_eq_iff s fd).0 e) i.0)
  | inr e ↦
      let (rest, gone) = erase-IsInjective fd m i.1 in
      rw (e) ((has_socket-erase_socket s fd m i.0, rest), rw e gone)
]

pub has_socket-assign :
    (s : ℤ) (k : List ℕ) (fd : ℤ) (m : Registry)
    → has_socket s m ≡ false
    → int_eq fd s ≡ false
    → has_socket s (assign k fd m) ≡ false
unfolding assign
has_socket-assign s k fd [] h e = rw e
has_socket-assign s k fd ((a, t) ∷ m) h e = elim (Bool-cases (less a k)) [
  | inl p ↦ rw p (ground (arith, has_socket-assign s k fd m))
  | inr p ↦ elim (Bool-cases (less k a)) [
    | inl q ↦ rw (p, q) (ground arith)
    | inr q ↦ rw (p, q) (ground arith)
  ]
]

-- So does entering a socket that was not registered.
pub assign-IsInjective :
    (k : List ℕ) (fd : ℤ) (m : Registry)
    → IsInjective m
    → has_socket fd m ≡ false
    → IsInjective (assign k fd m)
unfolding assign
assign-IsInjective k fd [] i h = (refl, tt)
assign-IsInjective k fd ((a, s) ∷ m) i h = elim (Bool-cases (less a k)) [
  | inl p ↦ rw p (
    has_socket-assign s k fd m i.0 (int_eq_comm fd s ∙ (ground arith)),
    assign-IsInjective k fd m i.1 (ground arith),
  )
  | inr p ↦ elim (Bool-cases (less k a)) [
    | inl q ↦ rw (p, q) (h, i)
    | inr q ↦ rw (p, q) (ground arith, i.1)
  ]
]

-- An entry at a free AID takes no socket out of the registry, and puts the new one in.
pub has_socket-assign_free :
    (s : ℤ) (k : List ℕ) (fd : ℤ) (m : Registry)
    → find k m ≡ none
    → (has_socket s (assign k fd m) ≡ (int_eq fd s || has_socket s m))
unfolding find assign
has_socket-assign_free s k fd [] e = refl
has_socket-assign_free s k fd ((a, t) ∷ m) e = elim (Bool-cases (less a k)) [
  | inl p ↦ rw p (ground (arith, has_socket-assign_free s k fd m (rw p at e)))
  | inr p ↦ elim (Bool-cases (less k a)) [ inl q ↦ rw (p, q) | inr q ↦ cc (rw (p, q) at e) ]
]

-- What a look-up finds is registered.
pub find-has_socket :
    (k : List ℕ) (s : ℤ) (m : Registry) → find k m ≡ some s → has_socket s m ≡ true
unfolding find
find-has_socket k s [] e = cc
find-has_socket k s ((a, t) ∷ m) e = ground (arith, find-has_socket k s m, (int_eq_iff t s).1)

-- On a registry that is sorted and has no socket twice, unregister_by_socket returns; it closes the
-- socket exactly if it is registered, and then its AID is found no more, and every other AID as
-- before. The registry is sorted again, has no socket twice, and the socket is none of it.
unregister_by_socket_lem :
    {W : Type 0} (os : Os W) (fd : ℤ) (m : Registry) (w : W)
    → IsSorted m
    → IsInjective m
    → (m' : Registry) × (unregister_by_socket os fd m w
        ≡ done (m', if has_socket fd m then os.close fd w else w))
      × ((aid : List ℕ) → find aid m' ≡ without fd (find aid m))
      × IsSorted m'
      × IsInjective m'
      × (has_socket fd m' ≡ false)
unregister_by_socket_lem os fd m w h i =
    let (inj, gone) = erase-IsInjective fd m i in
    (
      erase_socket fd m,
      unregister_lem os fd m w,
      λ aid. find-erase_socket aid fd m h i,
      erase-IsSorted fd m h,
      inj,
      gone,
    )
