-- ===== src/Comm/Serve.antt =====
-- bin/edna_comm.cpp: a round of the loop of threadproc, and a selection that goes stale in it.
use edna.Base.{
  Bool-cases, inl, inr, negsuc, mono-Ensures, ℕ, ◌≡◌, refl, ◌∙◌, Bool, true, false, List, [], ◌∷◌,
  Option, none, some, ℤ, pos, int_eq, is_neg, Run, done, pure, Ensures, done-Ensures, then-Ensures,
  if-Ensures, if◌then◌else◌,
}
use edna.Proto.{disconnect}
use edna.Os.{Os}
use edna.Comm.Frame.{recv_from_client}
use edna.Comm.AidMap.{Registry, find}
use edna.Comm.AidMap.Laws.{assign-IsSorted}
use edna.Comm.AidMap.Sockets.{
  has_socket, erase_socket, without, find-erase_socket, erase-IsSorted, erase-IsInjective,
  unregister_lem, has_socket-erase_socket, has_socket-assign, assign-IsInjective,
}
use edna.Comm.{
  Comm, no_app_selected, starts_with, application_selected, new_client, unregister, client_message,
  serve_client, serve,
}
use edna.Comm.Invariant.{IsWellFormed, IsValid, Admits, refused, entered, new_client-Admits}

-- A client that hangs up, or that asks to be disconnected.
abbrev pub Leaves : Option (List ℕ) → Type 0
Leaves none = Unit {0}
Leaves (some rx) = starts_with disconnect rx ≡ true

pub unregister_object :
    {W : Type 0} (os : Os W) (c : Comm) (fd : ℤ) (w : W)
    → unregister os c fd w
      ≡ done (
        record c { application_registry = erase_socket fd c.application_registry },
        if has_socket fd c.application_registry then os.close fd w else w,
      )
unfolding unregister
unregister_object os c fd w = rw (unregister_lem os fd c.application_registry w)

is_registered :
    (c : Comm)
    → IsValid c
    → application_selected c ≡ true
    → has_socket c.selected_application c.application_registry ≡ true
unfolding application_selected
is_registered c v sel = elim v.selected [
  | inl unselected ↦ cc (rw unselected at sel)
  | inr known ↦ known
]

-- The object after its selected client has left.
abbrev Stale : {W : Type 0} → Os W → Comm → W → Run (Comm × W) → Type 0
Stale os c w r =
    (c' : Comm) × (r ≡ done (c', os.close c.selected_application w))
    × (application_selected c' ≡ true)
    × (has_socket c'.selected_application c'.application_registry ≡ false)
    × ((aid : List ℕ)
        → find aid c'.application_registry
          ≡ without c.selected_application (find aid c.application_registry))

unregister_selected :
    {W : Type 0} (os : Os W) (c : Comm) (w : W)
    → IsValid c
    → application_selected c ≡ true
    → Stale os c w (unregister os c c.selected_application w)
unfolding application_selected
unregister_selected os c w v sel =
    let gone = erase_socket c.selected_application c.application_registry in
    (
      record c { application_registry = gone },
      unregister_object os c c.selected_application w ∙ rw (is_registered c v sel),
      sel,
      (erase-IsInjective c.selected_application c.application_registry v.well_formed.injective).1,
      λ aid.
          find-erase_socket aid c.selected_application c.application_registry v.well_formed.sorted
            v.well_formed.injective,
    )

-- In a valid object, when the selected client leaves between two exchanges, by hanging up or by DISCONNECT, its
-- socket is closed and its AID, but no other, is out of the registry; yet the object goes on to
-- say that an application is selected, under the closed socket.
pub stale_selection :
    {W : Type 0} (os : Os W) (c : Comm) (msg : Option (List ℕ)) (w : W)
    → IsValid c
    → application_selected c ≡ true
    → Leaves msg
    → (c' : Comm) × (client_message os c c.selected_application msg w
        ≡ done (c', os.close c.selected_application w))
      × (application_selected c' ≡ true)
      × (has_socket c'.selected_application c'.application_registry ≡ false)
      × ((aid : List ℕ)
          → find aid c'.application_registry
            ≡ without c.selected_application (find aid c.application_registry))
unfolding client_message
stale_selection os c none w v sel h = unregister_selected os c w v sel
stale_selection os c (some rx) w v sel h = rw h (unregister_selected os c w v sel)

-- What a round of the loop may do to the object: nothing, let a client in under the descriptor that
-- `accept` gave, or take a client out.
pub data Round (c : Comm) (fd : ℤ) : Comm → Type 0 where
  idle : Round c fd c
  joined : {c' : Comm} → is_neg fd ≡ false → Admits c fd c' → Round c fd c'
  left :
      (s : ℤ)
      → Round c fd (record c { application_registry = erase_socket s c.application_registry })

module _ {W : Type 0} (os : Os W) (fuel : ℕ) (c : Comm) (new_fd : ℤ) where
  abbrev Rounds : Comm → W → Type 0
  Rounds c' w' = Round c new_fd c'

  unregister-Round : (fd : ℤ) (w : W) → Ensures Rounds (unregister os c fd w)
  unregister-Round fd w = rw (unregister_object os c fd w) (done-Ensures Rounds _ _ (left fd))

  client_message-Round :
      (fd : ℤ) (o : Option (List ℕ)) (w : W) → Ensures Rounds (client_message os c fd o w)
  unfolding client_message
  client_message-Round fd none w = unregister-Round fd w
  client_message-Round fd (some rx) w =
      if-Ensures Rounds (starts_with disconnect rx) (unregister os c fd) (pure c) w
        (unregister-Round fd w) (done-Ensures Rounds c w idle)

  serve_client-Round :
      (ready : ℤ → Bool) (m : Registry) (w : W) → Ensures Rounds (serve_client os fuel c ready m w)
  unfolding serve_client
  serve_client-Round ready [] w = done-Ensures Rounds c w idle
  serve_client-Round ready ((k, fd) ∷ m) w =
      if-Ensures Rounds (ready fd) _ (serve_client os fuel c ready m) w
        (then-Ensures Rounds (recv_from_client os fuel fd []) _ w (client_message-Round fd))
        (serve_client-Round ready m w)

  accepted-Round :
      (w : W) → Ensures Rounds ((if is_neg new_fd then pure c else new_client os fuel c new_fd) w)
  accepted-Round w = elim (Bool-cases (is_neg new_fd)) [
    | inl e ↦ rw e (done-Ensures Rounds c w idle)
    | inr e ↦ rw e (
        mono-Ensures (λ c' w'. Admits c new_fd c') Rounds (new_client os fuel c new_fd w)
          (λ c' w' a. joined e a) (new_client-Admits os c new_fd fuel w))
  ]

module _ {W : Type 0} (os : Os W) (fuel : ℕ) (c : Comm) where
  pub serve-Round :
      (socket_fd : ℤ) (ready : ℤ → Bool) (w : W)
      → Ensures (λ c' w'. Round c (os.accept socket_fd w).0 c') (serve os fuel c socket_fd ready w)
  unfolding serve
  serve-Round socket_fd ready w =
      let fd : ℤ = (os.accept socket_fd w).0 in
      if-Ensures (λ c' w'. Round c fd c') (ready socket_fd) _
        (serve_client os fuel c ready c.application_registry) w
        (accepted-Round os fuel c fd (os.accept socket_fd w).1)
        (serve_client-Round os fuel c fd ready c.application_registry w)

-- The registry is well formed, and the selection the same.
abbrev pub Served : Comm → Comm → Type 0
Served c c' = IsWellFormed c' × (c'.selected_application ≡ c.selected_application)

pub Admits-Served :
    {c : Comm} {fd : ℤ} {c' : Comm}
    → Admits c fd c'
    → int_eq fd no_app_selected ≡ false
    → has_socket fd c.application_registry ≡ false
    → IsWellFormed c
    → Served c c'
Admits-Served refused real fresh v = (v, refl)
Admits-Served {c} {fd} (entered aid free) real fresh v = (
  record {
    sorted = assign-IsSorted aid fd c.application_registry v.sorted;
    injective = assign-IsInjective aid fd c.application_registry v.injective fresh;
    sockets = has_socket-assign no_app_selected aid fd c.application_registry v.sockets real;
  },
  refl,
)

pub erase-IsWellFormed :
    (c : Comm) (fd : ℤ)
    → IsWellFormed c
    → IsWellFormed (record c { application_registry = erase_socket fd c.application_registry })
erase-IsWellFormed c fd v = record {
  sorted = erase-IsSorted fd c.application_registry v.sorted;
  injective = (erase-IsInjective fd c.application_registry v.injective).0;
  sockets = has_socket-erase_socket no_app_selected fd c.application_registry v.sockets;
}

not_minus_one : (fd : ℤ) → is_neg fd ≡ false → int_eq fd no_app_selected ≡ false
not_minus_one (pos n) e = refl
not_minus_one (negsuc n) e = cc

pub Round-Served :
    {c : Comm} {fd : ℤ} {c' : Comm}
    → Round c fd c'
    → (is_neg fd ≡ false → has_socket fd c.application_registry ≡ false)
    → IsWellFormed c
    → Served c c'
Round-Served idle fresh v = (v, refl)
Round-Served {c} {fd} (joined e a) fresh v = Admits-Served a (not_minus_one fd e) (fresh e) v
Round-Served {c} (left s) fresh v = (erase-IsWellFormed c s v, refl)

-- If `accept` gives a descriptor that is not in use, or a negative number, a round of the loop
-- keeps the registry well formed, and it never changes the selection.
pub serve_keeps :
    {W : Type 0} (os : Os W) (fuel : ℕ) (c : Comm)
    → IsWellFormed c
    → (socket_fd : ℤ) (ready : ℤ → Bool) (w : W)
    → (is_neg (os.accept socket_fd w).0 ≡ false
        → has_socket (os.accept socket_fd w).0 c.application_registry ≡ false)
    → Ensures (λ c' w'. Served c c') (serve os fuel c socket_fd ready w)
serve_keeps os fuel c v socket_fd ready w fresh =
    mono-Ensures (λ c' w'. Round c (os.accept socket_fd w).0 c') (λ c' w'. Served c c') _
      (λ c' w' r. Round-Served r fresh v) (serve-Round os fuel c socket_fd ready w)
