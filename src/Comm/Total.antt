-- ===== src/Comm/Total.antt =====
-- bin/edna_comm.cpp: the operations of the communications object return, as long as no client
-- closes its end inside a message.
use edna.Base.{
  ℕ, ◌≤◌, refl, Bool, not, ◌||◌, List, [], ◌∷◌, Option, none, some, ℤ, int_eq, pure, Returns,
  bind-Returns, if-Returns, if◌then◌else◌, ltb, ◌==◌, length, get_elem?, is_neg,
}
use edna.Bytestring.{substr, substr_from, equal}
use edna.Proto.{get_api_version, register_aid, edna_ok, disconnect}
use edna.Os.{Os, IsBounded, IsLively}
use edna.Comm.Frame.{recv_from_client, send_to_client}
use edna.Comm.Frame.Send.{send_to_client_total}
use edna.Comm.Frame.Stall.{recv_from_client-Returns}
use edna.Comm.AidMap.{Registry, find, unregister_by_socket}
use edna.Comm.AidMap.Sockets.{unregister_lem}
use edna.Comm.{
  Comm, no_app_selected, starts_with, select_header, select_by_aid, refuse, answer, register, greet,
  new_client, give_up, rapdu, exchange, select_and_exchange, transceive, notify, broadcast,
  unregister, client_message, serve_client, serve,
}

module _ {W : Type 0} (os : Os W) (bounded : IsBounded os) (lively : IsLively os) (fuel : ℕ)
    (enough : 0xffff ≤ fuel) where
  recv-Returns : (fd : ℤ) (w : W) → Returns (recv_from_client os fuel fd [] w)
  recv-Returns fd w = recv_from_client-Returns os fd bounded lively fuel [] w enough

  send-Returns : (fd : ℤ) (tx : List ℕ) (w : W) → Returns (send_to_client os fd tx w)
  send-Returns fd tx w = let (b, w', e) = send_to_client_total os fd tx w in ((b, w'), e)

  unregister_by_socket-Returns :
      (fd : ℤ) (m : Registry) (w : W) → Returns (unregister_by_socket os fd m w)
  unregister_by_socket-Returns fd m w = (_, unregister_lem os fd m w)

  refuse-Returns : (c : Comm) (fd : ℤ) (w : W) → Returns (refuse os c fd w)
  unfolding refuse
  refuse-Returns c fd w = (_, refl)

  answer-Returns :
      (c : Comm) (fd : ℤ) (aid : List ℕ) (o : Option ℤ) (w : W) → Returns (answer os c fd aid o w)
  unfolding answer
  answer-Returns c fd aid (some other) w =
      bind-Returns (send_to_client os fd _) _ w (send-Returns fd _ w) (λ _. refuse-Returns c fd)
  answer-Returns c fd aid none w =
      bind-Returns (send_to_client os fd _) _ w (send-Returns fd _ w)
        (λ sent w'. if-Returns sent _ _ w' (_, refl) (refuse-Returns c fd w'))

  register-Returns :
      (c : Comm) (fd : ℤ) (o : Option (List ℕ)) (w : W) → Returns (register os c fd o w)
  unfolding register
  register-Returns c fd none w = refuse-Returns c fd w
  register-Returns c fd (some reg_aid) w =
      let aid : List ℕ = substr_from reg_aid 1 in
      if-Returns (ltb (length reg_aid) 2 || not (starts_with register_aid reg_aid)) (refuse os c fd)
        (answer os c fd aid (find aid c.application_registry)) w (refuse-Returns c fd w)
        (answer-Returns c fd aid _ w)

  greet-Returns :
      (c : Comm) (fd : ℤ) (o : Option (List ℕ)) (w : W) → Returns (greet os fuel c fd o w)
  unfolding greet
  greet-Returns c fd none w = refuse-Returns c fd w
  greet-Returns c fd (some req) w =
      if-Returns (not (length req == 1) || not (starts_with get_api_version req)) (refuse os c fd) _
        w (refuse-Returns c fd w)
        (bind-Returns (send_to_client os fd _) _ w (send-Returns fd _ w) (λ sent w1.
          if-Returns sent _ _ w1
            (bind-Returns (recv_from_client os fuel fd []) _ w1 (recv-Returns fd w1)
              (register-Returns c fd))
            (refuse-Returns c fd w1)))

  pub new_client-Returns : (c : Comm) (fd : ℤ) (w : W) → Returns (new_client os fuel c fd w)
  unfolding new_client
  new_client-Returns c fd w =
      bind-Returns (recv_from_client os fuel fd []) _ w (recv-Returns fd w) (greet-Returns c fd)

  give_up-Returns : (c : Comm) (w : W) → Returns (give_up os c w)
  unfolding give_up
  give_up-Returns c w =
      bind-Returns (unregister_by_socket os c.selected_application c.application_registry) _
        (os.unlock w)
        (unregister_by_socket-Returns c.selected_application c.application_registry (os.unlock w))
        (λ _ _. (_, refl))

  rapdu-Returns : (c : Comm) (o : Option (List ℕ)) (w : W) → Returns (rapdu os c o w)
  unfolding rapdu
  rapdu-Returns c none w = give_up-Returns c w
  rapdu-Returns c (some rsp) w =
      if-Returns (starts_with edna_ok rsp) _ (give_up os c) w (_, refl) (give_up-Returns c w)

  exchange-Returns : (c : Comm) (apdu : List ℕ) (w : W) → Returns (exchange os fuel c apdu w)
  unfolding exchange
  exchange-Returns c apdu w =
      if-Returns (int_eq c.selected_application no_app_selected) _ _ w (_, refl)
        (bind-Returns (send_to_client os c.selected_application _) _ (os.lock w)
          (send-Returns c.selected_application _ (os.lock w))
          (λ sent w1.
            if-Returns sent _ (give_up os c) w1
              (bind-Returns (recv_from_client os fuel c.selected_application []) _ w1
                (recv-Returns c.selected_application w1) (rapdu-Returns c))
              (give_up-Returns c w1)))

  select_and_exchange-Returns :
      (c : Comm) (apdu : List ℕ) (o : Option ℕ) (w : W)
      → Returns (select_and_exchange os fuel c apdu o w)
  unfolding select_and_exchange
  select_and_exchange-Returns c apdu none w = (_, refl)
  select_and_exchange-Returns c apdu (some n) w = exchange-Returns (select_by_aid c _) apdu w

  pub transceive-Returns :
      (c : Comm) (apdu : List ℕ) (w : W) → Returns (transceive os fuel c apdu w)
  unfolding transceive
  transceive-Returns c apdu w =
      if-Returns (equal (substr apdu 0 3) select_header)
        (select_and_exchange os fuel c apdu (get_elem? apdu 4)) (exchange os fuel c apdu) w
        (select_and_exchange-Returns c apdu (get_elem? apdu 4) w) (exchange-Returns c apdu w)

  notify-Returns : (cmd : List ℕ) (m : Registry) (w : W) → Returns (notify os fuel cmd m w)
  unfolding notify
  notify-Returns cmd [] w = (_, refl)
  notify-Returns cmd ((k, fd) ∷ m) w =
      bind-Returns (send_to_client os fd cmd) _ w (send-Returns fd cmd w) (λ sent w1.
        bind-Returns (if sent then recv_from_client os fuel fd [] else pure none)
          (λ _. notify os fuel cmd m) w1
          (if-Returns sent (recv_from_client os fuel fd []) (pure none) w1 (recv-Returns fd w1)
            (_, refl))
          (λ _. notify-Returns cmd m))

  pub power-Returns : (cmd : List ℕ) (c : Comm) (w : W) → Returns (broadcast os fuel cmd c w)
  unfolding broadcast
  power-Returns cmd c w =
      bind-Returns (notify os fuel cmd c.application_registry) _ (os.lock w)
        (notify-Returns cmd c.application_registry (os.lock w)) (λ _ _. (_, refl))

  unregister-Returns : (c : Comm) (fd : ℤ) (w : W) → Returns (unregister os c fd w)
  unfolding unregister
  unregister-Returns c fd w =
      bind-Returns (unregister_by_socket os fd c.application_registry) _ w
        (unregister_by_socket-Returns fd c.application_registry w) (λ _ _. (_, refl))

  client_message-Returns :
      (c : Comm) (fd : ℤ) (o : Option (List ℕ)) (w : W) → Returns (client_message os c fd o w)
  unfolding client_message
  client_message-Returns c fd none w = unregister-Returns c fd w
  client_message-Returns c fd (some rx) w =
      if-Returns (starts_with disconnect rx) (unregister os c fd) (pure c) w
        (unregister-Returns c fd w) (_, refl)

  serve_client-Returns :
      (c : Comm) (ready : ℤ → Bool) (m : Registry) (w : W)
      → Returns (serve_client os fuel c ready m w)
  unfolding serve_client
  serve_client-Returns c ready [] w = (_, refl)
  serve_client-Returns c ready ((k, fd) ∷ m) w =
      if-Returns (ready fd) _ (serve_client os fuel c ready m) w
        (bind-Returns (recv_from_client os fuel fd []) _ w (recv-Returns fd w)
          (client_message-Returns c fd))
        (serve_client-Returns c ready m w)

  pub serve-Returns :
      (c : Comm) (socket_fd : ℤ) (ready : ℤ → Bool) (w : W)
      → Returns (serve os fuel c socket_fd ready w)
  unfolding serve
  serve-Returns c socket_fd ready w =
      if-Returns (ready socket_fd) _ (serve_client os fuel c ready c.application_registry) w
        (if-Returns (is_neg (os.accept socket_fd w).0) (pure c) (new_client os fuel c _) _ (_, refl)
          (new_client-Returns c _ _))
        (serve_client-Returns c ready c.application_registry w)
