-- ===== src/Comm/Invariant.antt =====
-- bin/edna_comm.cpp: the registry stays well formed, and the selected socket is one of it, through
-- the handshake, an exchange and the power calls.
use edna.Base.{
  ℕ, ◌≡◌, refl, ◌∙◌, ◌⊎◌, inl, inr, true, false, not, ◌||◌, List, [], Option, none, some, ℤ, int_eq,
  Ensures, done-Ensures, then-Ensures, if-Ensures, ltb, ◌==◌, length, arith,
}
use edna.Bytestring.{substr_from}
use edna.Proto.{get_api_version, register_aid}
use edna.Os.{Os}
use edna.Comm.Frame.{recv_from_client, send_to_client}
use edna.Comm.AidMap.{find, assign}
use edna.Comm.AidMap.Laws.{IsSorted, assign-IsSorted}
use edna.Comm.AidMap.Sockets.{
  IsInjective, has_socket, assign-IsInjective, has_socket-assign, has_socket-assign_free,
}
use edna.Comm.{
  init, Comm, no_app_selected, starts_with, refuse, answer, register, greet, new_client,
}

-- The registry: one entry for each AID, in order, and one AID for each socket; -1 is no socket.
pub record IsWellFormed (c : Comm) : Type 0 where
  pub sorted : IsSorted c.application_registry
  pub injective : IsInjective c.application_registry
  pub sockets : has_socket no_app_selected c.application_registry ≡ false

-- Nothing is selected, or a registered socket is.
abbrev pub IsSelectedKnown : Comm → Type 0
IsSelectedKnown c =
    (int_eq c.selected_application no_app_selected ≡ true)
    ⊎ (has_socket c.selected_application c.application_registry ≡ true)

pub record IsValid (c : Comm) : Type 0 where
  pub well_formed : IsWellFormed c
  pub selected : IsSelectedKnown c

-- What a handshake may do to the object: nothing, or enter the new socket at an AID that was free.
pub data Admits (c : Comm) (fd : ℤ) : Comm → Type 0 where
  refused : Admits c fd c
  entered :
      (aid : List ℕ)
      → find aid c.application_registry ≡ none
      → Admits c fd (record c { application_registry = assign aid fd c.application_registry })

module _ {W : Type 0} (os : Os W) (c : Comm) (fd : ℤ) where
  abbrev Admitted : Comm → W → Type 0
  Admitted c' w = Admits c fd c'

  refuse-Admits : (w : W) → Ensures Admitted (refuse os c fd w)
  unfolding refuse
  refuse-Admits w = done-Ensures Admitted c (os.close fd w) refused

  answer-Admits :
      (aid : List ℕ) (o : Option ℤ) (w : W)
      → find aid c.application_registry ≡ o
      → Ensures Admitted (answer os c fd aid o w)
  unfolding answer
  answer-Admits aid (some other) w e =
      then-Ensures Admitted (send_to_client os fd _) (λ _. refuse os c fd) w
        (λ _ w'. refuse-Admits w')
  answer-Admits aid none w e = then-Ensures Admitted (send_to_client os fd _) _ w (λ sent w'.
      if-Ensures Admitted sent _ _ w' (done-Ensures Admitted _ w' (entered aid e))
        (refuse-Admits w'))

  register-Admits : (o : Option (List ℕ)) (w : W) → Ensures Admitted (register os c fd o w)
  unfolding register
  register-Admits none w = refuse-Admits w
  register-Admits (some reg_aid) w =
      let aid : List ℕ = substr_from reg_aid 1 in
      let o : Option ℤ = find aid c.application_registry in
      if-Ensures Admitted (ltb (length reg_aid) 2 || not (starts_with register_aid reg_aid))
        (refuse os c fd) (answer os c fd aid o) w (refuse-Admits w) (answer-Admits aid o w refl)

  greet-Admits :
      (fuel : ℕ) (o : Option (List ℕ)) (w : W) → Ensures Admitted (greet os fuel c fd o w)
  unfolding greet
  greet-Admits fuel none w = refuse-Admits w
  greet-Admits fuel (some req) w =
      if-Ensures Admitted (not (length req == 1) || not (starts_with get_api_version req))
        (refuse os c fd) _ w (refuse-Admits w)
        (then-Ensures Admitted (send_to_client os fd _) _ w (λ sent w1.
          if-Ensures Admitted sent _ _ w1
            (then-Ensures Admitted (recv_from_client os fuel fd []) _ w1 register-Admits)
            (refuse-Admits w1)))

  -- A handshake leaves the object alone, or it enters the new socket at an AID that nobody had.
  pub new_client-Admits :
      (fuel : ℕ) (w : W) → Ensures (λ c' w'. Admits c fd c') (new_client os fuel c fd w)
  unfolding new_client
  new_client-Admits fuel w =
      then-Ensures Admitted (recv_from_client os fuel fd []) _ w (greet-Admits fuel)

pub Admits-IsValid :
    {c : Comm} {fd : ℤ} {c' : Comm}
    → Admits c fd c'
    → int_eq fd no_app_selected ≡ false
    → has_socket fd c.application_registry ≡ false
    → IsValid c
    → IsValid c'
Admits-IsValid refused real fresh v = v
Admits-IsValid {c} {fd} (entered aid free) real fresh v = record {
  well_formed = record {
    sorted = assign-IsSorted aid fd c.application_registry v.well_formed.sorted;
    injective = assign-IsInjective aid fd c.application_registry v.well_formed.injective fresh;
    sockets =
        has_socket-assign no_app_selected aid fd c.application_registry v.well_formed.sockets real;
  };
  selected = elim v.selected [
    | inl unselected ↦ inl unselected
    | inr known ↦ inr (
        has_socket-assign_free c.selected_application aid fd c.application_registry free
        ∙ rw known (ground arith))
  ];
}

pub init-IsWellFormed : IsWellFormed init
unfolding init
init-IsWellFormed = record { sorted = tt; injective = tt; sockets = refl }

pub init-IsValid : IsValid init
unfolding init
init-IsValid = record { well_formed = init-IsWellFormed; selected = inl refl }
