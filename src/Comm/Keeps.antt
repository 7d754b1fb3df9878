-- ===== src/Comm/Keeps.antt =====
-- bin/edna_comm.cpp: what the calls of the system leave alone, the operations of the object leave alone.
use edna.Base.{
  ℕ, Bool, not, ◌||◌, List, [], ◌∷◌, Option, none, some, ℤ, int_eq, is_neg, pure, After, done-After,
  bind-After, if-After, ltb, ◌==◌, if◌then◌else◌, length, get_elem?,
}
use edna.Bytestring.{substr, equal}
use edna.Proto.{get_api_version, register_aid, edna_ok, disconnect}
use edna.Os.{Os, OsKeeps}
use edna.Comm.Frame.{recv_from_client, send_to_client}
use edna.Comm.Frame.Keeps.{recv_from_client-After, send_to_client-After}
use edna.Comm.AidMap.{Registry, unregister_by_socket}
use edna.Comm.{
  Comm, no_app_selected, starts_with, select_header, select_by_aid, refuse, answer, register, greet,
  new_client, give_up, rapdu, exchange, select_and_exchange, transceive, notify, broadcast,
  unregister, client_message, serve_client, serve,
}

module _ {W : Type 0} (os : Os W) (P : W → Type 0) (keeps : OsKeeps os P) (fuel : ℕ) where
  recv : (fd : ℤ) (w : W) → P w → After P (recv_from_client os fuel fd [] w)
  recv fd w h = recv_from_client-After os P keeps.reads_keep fuel fd [] w h

  send : (fd : ℤ) (tx : List ℕ) (w : W) → P w → After P (send_to_client os fd tx w)
  send fd tx w h = send_to_client-After os P keeps.writes_keep fd tx w h

  unregister_by_socket-After :
      (fd : ℤ) (m : Registry) (w : W) → P w → After P (unregister_by_socket os fd m w)
  unfolding unregister_by_socket
  unregister_by_socket-After fd [] w h = done-After P [] w h
  unregister_by_socket-After fd ((k, s) ∷ m) w h =
      if-After P (int_eq s fd) _ _ w (done-After P m _ (keeps.closes_keep fd w h)) (
        bind-After P (unregister_by_socket os fd m) _ w (unregister_by_socket-After fd m w h)
          (λ m' w' h'. done-After P _ w' h'))

  refuse-After : (c : Comm) (fd : ℤ) (w : W) → P w → After P (refuse os c fd w)
  unfolding refuse
  refuse-After c fd w h = done-After P c _ (keeps.closes_keep fd w h)

  answer-After :
      (c : Comm) (fd : ℤ) (aid : List ℕ) (o : Option ℤ) (w : W)
      → P w
      → After P (answer os c fd aid o w)
  unfolding answer
  answer-After c fd aid (some other) w h =
      bind-After P (send_to_client os fd _) _ w (send fd _ w h) (λ _. refuse-After c fd)
  answer-After c fd aid none w h =
      bind-After P (send_to_client os fd _) _ w (send fd _ w h)
        (λ sent w' h'. if-After P sent _ _ w' (done-After P _ w' h') (refuse-After c fd w' h'))

  register-After :
      (c : Comm) (fd : ℤ) (o : Option (List ℕ)) (w : W) → P w → After P (register os c fd o w)
  unfolding register
  register-After c fd none w h = refuse-After c fd w h
  register-After c fd (some reg_aid) w h =
      if-After P (ltb (length reg_aid) 2 || not (starts_with register_aid reg_aid)) (refuse os c fd)
        _ w (refuse-After c fd w h) (answer-After c fd _ _ w h)

  greet-After :
      (c : Comm) (fd : ℤ) (o : Option (List ℕ)) (w : W) → P w → After P (greet os fuel c fd o w)
  unfolding greet
  greet-After c fd none w h = refuse-After c fd w h
  greet-After c fd (some req) w h =
      if-After P (not (length req == 1) || not (starts_with get_api_version req)) (refuse os c fd) _
        w (refuse-After c fd w h)
        (bind-After P (send_to_client os fd _) _ w (send fd _ w h) (λ sent w1 h1.
          if-After P sent _ _ w1
            (bind-After P (recv_from_client os fuel fd []) _ w1 (recv fd w1 h1)
              (register-After c fd))
            (refuse-After c fd w1 h1)))

  pub new_client-After : (c : Comm) (fd : ℤ) (w : W) → P w → After P (new_client os fuel c fd w)
  unfolding new_client
  new_client-After c fd w h =
      bind-After P (recv_from_client os fuel fd []) _ w (recv fd w h) (greet-After c fd)

  give_up-After : (c : Comm) (w : W) → P w → After P (give_up os c w)
  unfolding give_up
  give_up-After c w h =
      bind-After P (unregister_by_socket os c.selected_application c.application_registry) _
        (os.unlock w)
        (unregister_by_socket-After c.selected_application c.application_registry (os.unlock w)
          (keeps.unlock_keeps w h))
        (λ m w' h'. done-After P _ w' h')

  rapdu-After : (c : Comm) (o : Option (List ℕ)) (w : W) → P w → After P (rapdu os c o w)
  unfolding rapdu
  rapdu-After c none w h = give_up-After c w h
  rapdu-After c (some rsp) w h =
      if-After P (starts_with edna_ok rsp) _ (give_up os c) w
        (done-After P _ _ (keeps.unlock_keeps w h)) (give_up-After c w h)

  exchange-After : (c : Comm) (apdu : List ℕ) (w : W) → P w → After P (exchange os fuel c apdu w)
  unfolding exchange
  exchange-After c apdu w h =
      if-After P (int_eq c.selected_application no_app_selected) _ _ w (done-After P _ w h) (
        bind-After P (send_to_client os c.selected_application _) _ (os.lock w)
          (send c.selected_application _ (os.lock w) (keeps.lock_keeps w h))
          (λ sent w1 h1.
            if-After P sent _ (give_up os c) w1
              (bind-After P (recv_from_client os fuel c.selected_application []) _ w1
                (recv c.selected_application w1 h1) (rapdu-After c))
              (give_up-After c w1 h1)))

  select_and_exchange-After :
      (c : Comm) (apdu : List ℕ) (o : Option ℕ) (w : W)
      → P w
      → After P (select_and_exchange os fuel c apdu o w)
  unfolding select_and_exchange
  select_and_exchange-After c apdu none w h = done-After P _ w h
  select_and_exchange-After c apdu (some n) w h = exchange-After (select_by_aid c _) apdu w h

  pub transceive-After :
      (c : Comm) (apdu : List ℕ) (w : W) → P w → After P (transceive os fuel c apdu w)
  unfolding transceive
  transceive-After c apdu w h =
      if-After P (equal (substr apdu 0 3) select_header)
        (select_and_exchange os fuel c apdu (get_elem? apdu 4)) (exchange os fuel c apdu) w
        (select_and_exchange-After c apdu (get_elem? apdu 4) w h) (exchange-After c apdu w h)

  notify-After : (cmd : List ℕ) (m : Registry) (w : W) → P w → After P (notify os fuel cmd m w)
  unfolding notify
  notify-After cmd [] w h = done-After P tt w h
  notify-After cmd ((k, fd) ∷ m) w h =
      bind-After P (send_to_client os fd cmd) _ w (send fd cmd w h) (λ sent w1 h1.
        bind-After P (if sent then recv_from_client os fuel fd [] else pure none)
          (λ _. notify os fuel cmd m) w1
          (if-After P sent (recv_from_client os fuel fd []) (pure none) w1 (recv fd w1 h1)
            (done-After P none w1 h1))
          (λ _. notify-After cmd m))

  pub broadcast-After :
      (cmd : List ℕ) (c : Comm) (w : W) → P w → After P (broadcast os fuel cmd c w)
  unfolding broadcast
  broadcast-After cmd c w h =
      bind-After P (notify os fuel cmd c.application_registry) _ (os.lock w)
        (notify-After cmd c.application_registry (os.lock w) (keeps.lock_keeps w h))
        (λ _ w' h'. done-After P _ _ (keeps.unlock_keeps w' h'))

  unregister-After : (c : Comm) (fd : ℤ) (w : W) → P w → After P (unregister os c fd w)
  unfolding unregister
  unregister-After c fd w h =
      bind-After P (unregister_by_socket os fd c.application_registry) _ w
        (unregister_by_socket-After fd c.application_registry w h) (λ m w' h'. done-After P _ w' h')

  client_message-After :
      (c : Comm) (fd : ℤ) (o : Option (List ℕ)) (w : W) → P w → After P (client_message os c fd o w)
  unfolding client_message
  client_message-After c fd none w h = unregister-After c fd w h
  client_message-After c fd (some rx) w h =
      if-After P (starts_with disconnect rx) (unregister os c fd) (pure c) w
        (unregister-After c fd w h) (done-After P c w h)

  serve_client-After :
      (c : Comm) (ready : ℤ → Bool) (m : Registry) (w : W)
      → P w
      → After P (serve_client os fuel c ready m w)
  unfolding serve_client
  serve_client-After c ready [] w h = done-After P c w h
  serve_client-After c ready ((k, fd) ∷ m) w h =
      if-After P (ready fd) _ (serve_client os fuel c ready m) w
        (bind-After P (recv_from_client os fuel fd []) _ w (recv fd w h)
          (client_message-After c fd))
        (serve_client-After c ready m w h)

  pub serve-After :
      (c : Comm) (socket_fd : ℤ) (ready : ℤ → Bool) (w : W)
      → P w
      → After P (serve os fuel c socket_fd ready w)
  unfolding serve
  serve-After c socket_fd ready w h =
      let h' : P (os.accept socket_fd w).1 = keeps.accept_keeps socket_fd w h in
      if-After P (ready socket_fd) _ (serve_client os fuel c ready c.application_registry) w
        (if-After P (is_neg (os.accept socket_fd w).0) (pure c) (new_client os fuel c _) _
          (done-After P c _ h') (new_client-After c _ _ h'))
        (serve_client-After c ready c.application_registry w h)
