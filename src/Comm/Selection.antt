-- ===== src/Comm/Selection.antt =====
-- bin/edna_comm.cpp: what a SELECT by name does to the selection.
use edna.Base.{
  ℕ, ◌<◌, ◌≡◌, refl, subst, inl, inr, Bool, true, false, List, [], ◌∷◌, ◌&&◌, ◌==◌, length, take,
  Option, none, some, ℤ, get_elem?, if◌then◌else◌, Bool-cases, Option-cases,
}
use edna.Bytestring.{size_mod, substr, equal, of_hex}
use edna.Bytestring.Slice.{substr_lem}
use edna.Comm.{Comm, select_header, select_by_aid}
use edna.Comm.AidMap.{find}
use edna.Comm.AidMap.Sockets.{find-has_socket}
use edna.Comm.Invariant.{IsValid, IsWellFormed}

-- The object after the selection that an APDU asks for, if it is a SELECT by name.
unfoldable pub chosen : Comm → List ℕ → Comm
chosen c apdu =
    if equal (substr apdu 0 3) select_header
    then elim (get_elem? apdu 4) [
      | none ↦ c
      | some aid_len ↦ select_by_aid c (substr apdu 5 aid_len)
    ]
    else c

pub chosen_other :
    (c : Comm) (apdu : List ℕ) → equal (substr apdu 0 3) select_header ≡ false → c ≡ chosen c apdu
unfolding chosen
chosen_other c apdu e = rw e

pub chosen_select :
    (c : Comm) (apdu : List ℕ) (aid_len : ℕ)
    → equal (substr apdu 0 3) select_header ≡ true
    → get_elem? apdu 4 ≡ some aid_len
    → select_by_aid c (substr apdu 5 aid_len) ≡ chosen c apdu
unfolding chosen
chosen_select c apdu aid_len e f = rw (e, f)

pub chosen_short :
    (c : Comm) (apdu : List ℕ)
    → equal (substr apdu 0 3) select_header ≡ true
    → get_elem? apdu 4 ≡ none
    → c ≡ chosen c apdu
unfolding chosen
chosen_short c apdu e f = rw (e, f)

-- The AID that an APDU asks for, if it is a SELECT by name: 00 a4 04, a byte that does not matter,
-- the length, and that many bytes, or what there is of them.
abbrev pub asked_aid : List ℕ → Option (List ℕ)
asked_aid (cla ∷ ins ∷ p1 ∷ p2 ∷ lc ∷ rest) =
    if (cla == 0x00) && ((ins == 0xa4) && (p1 == 0x04)) then some (take lc rest) else none
asked_aid _ = none

abbrev pub selecting : Comm → Option (List ℕ) → Comm
selecting c none = c
selecting c (some aid) = select_by_aid c aid

no_more : (a b c : Bool) → (a && (b && (c && true))) ≡ (a && (b && c))
no_more true true true = refl
no_more true true false = refl
no_more true false c = refl
no_more false b c = refl

header_lem :
    (cla ins p1 : ℕ) (rest : List ℕ)
    → length (cla ∷ ins ∷ p1 ∷ rest) < size_mod
    → equal (substr (cla ∷ ins ∷ p1 ∷ rest) 0 3) select_header
      ≡ ((cla == 0x00) && ((ins == 0xa4) && (p1 == 0x04)))
unfolding equal of_hex
header_lem cla ins p1 rest h =
    rw (substr_lem (cla ∷ ins ∷ p1 ∷ rest) 0 3 h) (no_more (cla == 0x00) (ins == 0xa4) (p1 == 0x04))

either_way : (b : Bool) (c : Comm) → (if b then c else c) ≡ c
either_way true c = refl
either_way false c = refl

-- What the code chooses is the AID asked for.
pub chosen_asked :
    (c : Comm) (apdu : List ℕ)
    → length apdu < size_mod
    → chosen c apdu ≡ selecting c (asked_aid apdu)
unfolding chosen
chosen_asked c [] h = either_way (equal (substr [] 0 3) select_header) c
chosen_asked c (x ∷ []) h = either_way (equal (substr (x ∷ []) 0 3) select_header) c
chosen_asked c (x ∷ y ∷ []) h = either_way (equal (substr (x ∷ y ∷ []) 0 3) select_header) c
chosen_asked c (x ∷ y ∷ z ∷ []) h = either_way (equal (substr (x ∷ y ∷ z ∷ []) 0 3) select_header) c
chosen_asked c (x ∷ y ∷ z ∷ p2 ∷ []) h =
    either_way (equal (substr (x ∷ y ∷ z ∷ p2 ∷ []) 0 3) select_header) c
chosen_asked c (x ∷ y ∷ z ∷ p2 ∷ lc ∷ rest) h =
    rw (header_lem x y z (p2 ∷ lc ∷ rest) h, substr_lem (x ∷ y ∷ z ∷ p2 ∷ lc ∷ rest) 5 lc h)
      (on_test ((x == 0x00) && ((y == 0xa4) && (z == 0x04))))
  where
    on_test :
        (b : Bool)
        → (if b then select_by_aid c (take lc rest) else c)
          ≡ selecting c (if b then some (take lc rest) else none)
    on_test true = refl
    on_test false = refl

-- The object after a selection: as it was, or with the socket of a registered AID selected.
pub data Chooses (c : Comm) : Comm → Type 0 where
  stays : Chooses c c
  turns :
      (aid : List ℕ) (fd : ℤ)
      → find aid c.application_registry ≡ some fd
      → Chooses c (record c { selected_application = fd })

select_by_aid-Chooses : (c : Comm) (aid : List ℕ) → Chooses c (select_by_aid c aid)
unfolding select_by_aid
select_by_aid-Chooses c aid = elim (Option-cases (find aid c.application_registry)) [
  | inl e ↦ rw (e, select_by_aid) stays
  | inr (fd, e) ↦ rw (e, select_by_aid) (turns aid fd e)
]

pub chosen-Chooses : (c : Comm) (apdu : List ℕ) → Chooses c (chosen c apdu)
chosen-Chooses c apdu = elim (Bool-cases (equal (substr apdu 0 3) select_header)) [
  | inr e ↦ subst (Chooses c) (chosen_other c apdu e) stays
  | inl e ↦ elim (Option-cases (get_elem? apdu 4)) [
    | inl f ↦ subst (Chooses c) (chosen_short c apdu e f) stays
    | inr (n, f) ↦ subst (Chooses c) (chosen_select c apdu n e f) (select_by_aid-Chooses c _)
  ]
]

pub Chooses-IsValid : {c d : Comm} → Chooses c d → IsValid c → IsValid d
Chooses-IsValid stays v = v
Chooses-IsValid {c} (turns aid fd e) v = record {
  well_formed = record {
    sorted = v.well_formed.sorted;
    injective = v.well_formed.injective;
    sockets = v.well_formed.sockets;
  };
  selected = inr (find-has_socket aid fd c.application_registry e);
}

pub selects-IsWellFormed :
    (c : Comm) (fd : ℤ) → IsWellFormed c → IsWellFormed (record c { selected_application = fd })
selects-IsWellFormed c fd v = record {
  sorted = v.sorted;
  injective = v.injective;
  sockets = v.sockets;
}

pub Chooses-IsWellFormed : {c d : Comm} → Chooses c d → IsWellFormed c → IsWellFormed d
Chooses-IsWellFormed stays v = v
Chooses-IsWellFormed {c} (turns aid fd e) v = selects-IsWellFormed c fd v
