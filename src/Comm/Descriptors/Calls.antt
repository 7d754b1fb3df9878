-- ===== src/Comm/Descriptors/Calls.antt =====
-- bin/edna_comm.cpp: an exchange and the power calls against the table of open descriptors.
use edna.Base.{
  ℕ, ◌≡◌, refl, sym, subst, Bool, List, [], ◌∷◌, Option, none, some, ℤ, int_eq, pure, Ensures,
  done-Ensures, bind-Ensures, if-Ensures, After, done-After, bind-After, if-After, if◌then◌else◌,
  get_elem?,
}
use edna.Bytestring.{substr, equal}
use edna.Proto.{edna_ok}
use edna.Os.{Os, IsTable, ReadsKeep, WritesKeep}
use edna.Comm.Frame.{recv_from_client, send_to_client}
use edna.Comm.Frame.Keeps.{recv_from_client-After, send_to_client-After}
use edna.Comm.AidMap.{Registry, find}
use edna.Comm.AidMap.Sockets.{IsInjective, unregister_lem}
use edna.Comm.{
  Comm, no_app_selected, starts_with, select_header, select_by_aid, give_up, rapdu, exchange,
  select_and_exchange, transceive, notify, broadcast,
}
use edna.Comm.Descriptors.{AreOpen, HasOpen, same-AreOpen, unregistered-AreOpen}

module _ {W : Type 0} (os : Os W) (is_open : ℤ → W → Bool) (table : IsTable os is_open)
    (fuel : ℕ) where
  abbrev Answered : Bool × List ℕ × Comm → W → Type 0
  Answered r w = HasOpen is_open r.2 w

  module _ (m : Registry) where
    abbrev Held : W → Type 0
    Held w = AreOpen is_open m w

    reads : ReadsKeep os Held
    reads s n w = same-AreOpen os is_open table m w _ (λ k. table.read_same k s n w)

    writes : WritesKeep os Held
    writes s bytes w = same-AreOpen os is_open table m w _ (λ k. table.write_same k s bytes w)

    locks : (w : W) → Held w → Held (os.lock w)
    locks w = same-AreOpen os is_open table m w _ (λ k. table.lock_same k w)

    unlocks : (w : W) → Held w → Held (os.unlock w)
    unlocks w = same-AreOpen os is_open table m w _ (λ k. table.unlock_same k w)

    notify-Held :
        (cmd : List ℕ) (clients : Registry) (w : W)
        → Held w
        → After Held (notify os fuel cmd clients w)
    unfolding notify
    notify-Held cmd [] w h = done-After Held tt w h
    notify-Held cmd ((k, fd) ∷ clients) w h =
        bind-After Held (send_to_client os fd cmd) _ w
          (send_to_client-After os Held writes fd cmd w h)
          (λ sent w1 h1.
            bind-After Held (if sent then recv_from_client os fuel fd [] else pure none)
              (λ _. notify os fuel cmd clients) w1
              (if-After Held sent (recv_from_client os fuel fd []) (pure none) w1
                (recv_from_client-After os Held reads fuel fd [] w1 h1)
                (done-After Held none w1 h1))
              (λ _. notify-Held cmd clients))

  pub broadcast-HasOpen :
      (cmd : List ℕ) (c : Comm) (w : W)
      → HasOpen is_open c w
      → Ensures (λ d v. HasOpen is_open d v) (broadcast os fuel cmd c w)
  unfolding broadcast
  broadcast-HasOpen cmd c w h =
      bind-Ensures (λ _. Held c.application_registry) (λ d v. HasOpen is_open d v)
        (notify os fuel cmd c.application_registry) _ (os.lock w)
        (notify-Held c.application_registry cmd c.application_registry (os.lock w)
          (locks c.application_registry w h))
        (λ _ v h'.
          done-Ensures (λ d u. HasOpen is_open d u) _ _ (unlocks c.application_registry v h'))

  module _ (c : Comm) (i : IsInjective c.application_registry) where
    give_up-Answered : (w : W) → HasOpen is_open c w → Ensures Answered (give_up os c w)
    unfolding give_up
    give_up-Answered w h =
        rw (unregister_lem os c.selected_application c.application_registry (os.unlock w)) (
          done-Ensures Answered _ _ (
            unregistered-AreOpen os is_open table c.application_registry c.selected_application
              (os.unlock w) i (unlocks c.application_registry w h)))

    rapdu-Answered :
        (o : Option (List ℕ)) (w : W) → HasOpen is_open c w → Ensures Answered (rapdu os c o w)
    unfolding rapdu
    rapdu-Answered none w h = give_up-Answered w h
    rapdu-Answered (some rsp) w h =
        if-Ensures Answered (starts_with edna_ok rsp) _ (give_up os c) w
          (done-Ensures Answered _ _ (unlocks c.application_registry w h)) (give_up-Answered w h)

    exchange-Answered :
        (apdu : List ℕ) (w : W) → HasOpen is_open c w → Ensures Answered (exchange os fuel c apdu w)
    unfolding exchange
    exchange-Answered apdu w h =
        if-Ensures Answered (int_eq c.selected_application no_app_selected) _ _ w
          (done-Ensures Answered _ w h)
          (bind-Ensures (λ _. Held c.application_registry) Answered
            (send_to_client os c.selected_application _) _ (os.lock w)
            (send_to_client-After os (Held c.application_registry) (writes c.application_registry)
              c.selected_application _ (os.lock w) (locks c.application_registry w h))
            (λ sent w1 h1.
              if-Ensures Answered sent _ (give_up os c) w1
                (bind-Ensures (λ _. Held c.application_registry) Answered
                  (recv_from_client os fuel c.selected_application []) _ w1
                  (recv_from_client-After os (Held c.application_registry)
                    (reads c.application_registry) fuel c.selected_application [] w1 h1)
                  rapdu-Answered)
                (give_up-Answered w1 h1)))

  selected_registry :
      (c : Comm) (aid : List ℕ)
      → (select_by_aid c aid).application_registry ≡ c.application_registry
  unfolding select_by_aid
  selected_registry c aid = on_find (find aid c.application_registry)
    where
      on_find :
          (o : Option ℤ)
          → (elim o as (λ k. Comm) [
            | some fd ↦ record c { selected_application = fd }
            | none ↦ c
          ]).application_registry
            ≡ c.application_registry
      on_find none = refl
      on_find (some fd) = refl

  pub transceive-HasOpen :
      (c : Comm) (apdu : List ℕ) (w : W)
      → IsInjective c.application_registry
      → HasOpen is_open c w
      → Ensures (λ r v. HasOpen is_open r.2 v) (transceive os fuel c apdu w)
  unfolding transceive select_and_exchange
  transceive-HasOpen c apdu w i h =
      if-Ensures Answered (equal (substr apdu 0 3) select_header)
        (select_and_exchange os fuel c apdu (get_elem? apdu 4)) (exchange os fuel c apdu) w
        (on_length (get_elem? apdu 4)) (exchange-Answered c i apdu w h)
    where
      on_length : (o : Option ℕ) → Ensures Answered (select_and_exchange os fuel c apdu o w)
      on_length none = done-Ensures Answered _ w h
      on_length (some n) =
          exchange-Answered (select_by_aid c (substr apdu 5 n))
            (subst IsInjective (sym (selected_registry c (substr apdu 5 n))) i) apdu w
            (subst (λ m. AreOpen is_open m w) (sym (selected_registry c (substr apdu 5 n))) h)
