-- ===== src/Comm/Descriptors/Handshake.antt =====
-- bin/edna_comm.cpp: the handshake, and a round of the loop, against the table of open descriptors.
use edna.Base.{
  ℕ, ◌≡◌, refl, ◌∙◌, inl, inr, Bool, true, false, not, ◌||◌, List, [], ◌∷◌, Option, none, some, ℤ,
  int_eq_iff, is_neg, pure, Ensures, done-Ensures, bind-Ensures, if-Ensures, ltb, ◌==◌,
  if◌then◌else◌, length, Bool-cases,
}
use edna.Proto.{get_api_version, register_aid, disconnect}
use edna.Os.{Os, IsTable, ReadsKeep, WritesKeep}
use edna.Comm.Frame.{recv_from_client, send_to_client}
use edna.Comm.Frame.Keeps.{recv_from_client-After, send_to_client-After}
use edna.Comm.AidMap.{Registry, find}
use edna.Comm.AidMap.Sockets.{has_socket, unregister_lem}
use edna.Comm.{
  Comm, starts_with, refuse, answer, register, greet, new_client, unregister, client_message,
  serve_client, serve,
}
use edna.Comm.Invariant.{IsWellFormed}
use edna.Comm.Descriptors.{
  HasOpen, same-AreOpen, close-AreOpen, unregistered-AreOpen, assign-AreOpen,
}

still_open : (b x : Bool) → x ≡ true → (if b then true else x) ≡ true
still_open true x e = refl
still_open false x e = e

module _ {W : Type 0} (os : Os W) (is_open : ℤ → W → Bool) (table : IsTable os is_open) (fuel : ℕ)
    (c : Comm) where
  abbrev Opens : Comm → W → Type 0
  Opens d w = HasOpen is_open d w

  -- During a handshake the new socket is open, and not in the registry.
  module _ (fd : ℤ) (out : has_socket fd c.application_registry ≡ false) where
    abbrev Greeted : W → Type 0
    Greeted w = HasOpen is_open c w × (is_open fd w ≡ true)

    reads : ReadsKeep os Greeted
    reads s n w h = (
      same-AreOpen os is_open table c.application_registry w _ (λ k. table.read_same k s n w) h.0,
      table.read_same fd s n w ∙ h.1,
    )

    writes : WritesKeep os Greeted
    writes s bytes w h = (
      same-AreOpen os is_open table c.application_registry w _ (λ k. table.write_same k s bytes w)
          h.0,
      table.write_same fd s bytes w ∙ h.1,
    )

    refuse-Opens : (w : W) → Greeted w → Ensures Opens (refuse os c fd w)
    unfolding refuse
    refuse-Opens w h =
        done-Ensures Opens c _ (close-AreOpen os is_open table c.application_registry fd w out h.0)

    answer-Opens :
        (aid : List ℕ) (o : Option ℤ) (w : W)
        → find aid c.application_registry ≡ o
        → Greeted w
        → Ensures Opens (answer os c fd aid o w)
    unfolding answer
    answer-Opens aid (some other) w e h =
        bind-Ensures (λ _. Greeted) Opens (send_to_client os fd _) (λ _. refuse os c fd) w
          (send_to_client-After os Greeted writes fd _ w h) (λ _. refuse-Opens)
    answer-Opens aid none w e h =
        bind-Ensures (λ _. Greeted) Opens (send_to_client os fd _) _ w
          (send_to_client-After os Greeted writes fd _ w h)
          (λ sent w' h'.
            if-Ensures Opens sent _ (refuse os c fd) w'
              (done-Ensures Opens _ w'
                (assign-AreOpen os is_open table c.application_registry aid fd w' e h'.1 h'.0))
              (refuse-Opens w' h'))

    register-Opens :
        (o : Option (List ℕ)) (w : W) → Greeted w → Ensures Opens (register os c fd o w)
    unfolding register
    register-Opens none w h = refuse-Opens w h
    register-Opens (some reg_aid) w h =
        if-Ensures Opens (ltb (length reg_aid) 2 || not (starts_with register_aid reg_aid))
          (refuse os c fd) _ w (refuse-Opens w h) (answer-Opens _ _ w refl h)

    greet-Opens : (o : Option (List ℕ)) (w : W) → Greeted w → Ensures Opens (greet os fuel c fd o w)
    unfolding greet
    greet-Opens none w h = refuse-Opens w h
    greet-Opens (some req) w h =
        if-Ensures Opens (not (length req == 1) || not (starts_with get_api_version req))
          (refuse os c fd) _ w (refuse-Opens w h)
          (bind-Ensures (λ _. Greeted) Opens (send_to_client os fd _) _ w
            (send_to_client-After os Greeted writes fd _ w h)
            (λ sent w1 h1.
              if-Ensures Opens sent _ (refuse os c fd) w1
                (bind-Ensures (λ _. Greeted) Opens (recv_from_client os fuel fd []) _ w1
                  (recv_from_client-After os Greeted reads fuel fd [] w1 h1) register-Opens)
                (refuse-Opens w1 h1)))

    new_client-Opens : (w : W) → Greeted w → Ensures Opens (new_client os fuel c fd w)
    unfolding new_client
    new_client-Opens w h =
        bind-Ensures (λ _. Greeted) Opens (recv_from_client os fuel fd []) _ w
          (recv_from_client-After os Greeted reads fuel fd [] w h) greet-Opens

  module _ (v : IsWellFormed c) where
    unregister-Opens : (fd : ℤ) (w : W) → Opens c w → Ensures Opens (unregister os c fd w)
    unfolding unregister
    unregister-Opens fd w h = rw (unregister_lem os fd c.application_registry w) (
        done-Ensures Opens _ _
          (unregistered-AreOpen os is_open table c.application_registry fd w v.injective h))

    client_message-Opens :
        (fd : ℤ) (o : Option (List ℕ)) (w : W)
        → Opens c w
        → Ensures Opens (client_message os c fd o w)
    unfolding client_message
    client_message-Opens fd none w h = unregister-Opens fd w h
    client_message-Opens fd (some rx) w h =
        if-Ensures Opens (starts_with disconnect rx) (unregister os c fd) (pure c) w
          (unregister-Opens fd w h) (done-Ensures Opens c w h)

    serve_client-Opens :
        (ready : ℤ → Bool) (m : Registry) (w : W)
        → Opens c w
        → Ensures Opens (serve_client os fuel c ready m w)
    unfolding serve_client
    serve_client-Opens ready [] w h = done-Ensures Opens c w h
    serve_client-Opens ready ((k, fd) ∷ m) w h =
        if-Ensures Opens (ready fd) _ (serve_client os fuel c ready m) w
          (bind-Ensures (λ _. Opens c) Opens (recv_from_client os fuel fd []) _ w
            (recv_from_client-After os (Opens c)
              (λ s n u.
                same-AreOpen os is_open table c.application_registry u _
                  (λ k. table.read_same k s n u))
              fuel fd [] w h)
            (client_message-Opens fd))
          (serve_client-Opens ready m w h)

    -- accept gives no descriptor of the registry, for these are open.
    pub accept_out :
        (socket_fd : ℤ) (w : W)
        → Opens c w
        → is_neg (os.accept socket_fd w).0 ≡ false
        → has_socket (os.accept socket_fd w).0 c.application_registry ≡ false
    accept_out socket_fd w h e =
        elim (Bool-cases (has_socket (os.accept socket_fd w).0 c.application_registry)) [
          | inl there ↦ cc (h (os.accept socket_fd w).0 there, table.accept_fresh socket_fd w e)
          | inr out ↦ out
        ]

    accepted-Greeted :
        (socket_fd : ℤ) (w : W)
        → Opens c w
        → is_neg (os.accept socket_fd w).0 ≡ false
        → HasOpen is_open c (os.accept socket_fd w).1
          × (is_open (os.accept socket_fd w).0 (os.accept socket_fd w).1 ≡ true)
    accepted-Greeted socket_fd w h e = (
      λ k there. table.accept_opens k socket_fd w e ∙ still_open _ (is_open k w) (h k there),
      table.accept_opens (os.accept socket_fd w).0 socket_fd w e
          ∙ rw ((int_eq_iff (os.accept socket_fd w).0 (os.accept socket_fd w).0).1 refl) refl,
    )

    accepted-Opens :
        (socket_fd : ℤ) (w : W)
        → Opens c w
        → Ensures Opens (
            (if is_neg (os.accept socket_fd w).0
                then pure c
                else new_client os fuel c (os.accept socket_fd w).0)
              (os.accept socket_fd w).1)
    accepted-Opens socket_fd w h = elim (Bool-cases (is_neg (os.accept socket_fd w).0)) [
      | inl e ↦ rw e (
          done-Ensures Opens c _ (
            same-AreOpen os is_open table c.application_registry w _
              (λ k. table.accept_fails k socket_fd w e) h))
      | inr e ↦ rw e (
          new_client-Opens (os.accept socket_fd w).0 (accept_out socket_fd w h e) _
            (accepted-Greeted socket_fd w h e))
    ]

    pub serve-Opens :
        (socket_fd : ℤ) (ready : ℤ → Bool) (w : W)
        → Opens c w
        → Ensures Opens (serve os fuel c socket_fd ready w)
    unfolding serve
    serve-Opens socket_fd ready w h =
        if-Ensures Opens (ready socket_fd) _ (serve_client os fuel c ready c.application_registry) w
          (accepted-Opens socket_fd w h) (serve_client-Opens ready c.application_registry w h)
