-- ===== src/Session/Power.antt =====
-- From the two power calls of bin/edna_comm.cpp to the application behind the client.
use edna.Base.{
  ℕ, ◌≤◌, ◌≡◌, refl, sym, ap, ◌∙◌, true, false, List, [], ◌∷◌, ◌++◌, none, some, pos, int_eq_iff,
  done, length, append-nil, arith,
}
use edna.Proto.{power_up, power_down, edna_ok}
use edna.Comm.{Comm, no_app_selected, notify, broadcast, powerup_on_select, powerdown_on_deselect}
use edna.Comm.Frame.{frame, recv_from_client, send_to_client}
use edna.Comm.Frame.Send.{send_to_client-frame}
use edna.Client.{respond, command, serve_command, recv_from_daemon, send_to_daemon, received}
use edna.Session.{Net, App, callbacks, client_os, served_os, react}
use edna.Session.Ends.{client_recv, daemon_recv, served-IsStream}
use edna.Session.Card.{IsIdle}

module _ {A : Type 0} (app : App A) where
  -- A command of one byte that calls the application, and is answered by EDNA_OK.
  abbrev Calls : ℕ → (A → A) → Type 0
  Calls cmd f =
      (w : Net A)
      → respond client_os (callbacks app) cmd [] w ≡ done (edna_ok ∷ [], record w { app = f w.app })

  up-Calls : Calls power_up app.up
  unfolding respond
  up-Calls w = refl

  down-Calls : Calls power_down app.down
  unfolding respond
  down-Calls w = refl

  -- The connection after a power call: all that has changed is the state of the application.
  abbrev pub powered : (A → A) → Net A → Net A
  powered f n = record n { app = f n.app; locked = false; ended = none }

  module _ (cmd : ℕ) (f : A → A) (calls : Calls cmd f) where
    serve_power :
        (n : Net A) (k : ℕ)
        → n.client.connected ≡ true
        → n.client.daemon_socket ≡ pos k
        → n.to_client ≡ frame (cmd ∷ [])
        → serve_command client_os (callbacks app) 0xffff n.client n
          ≡ done (
            (none, n.client),
            record n {
              to_client = [];
              app = f n.app;
              to_daemon = n.to_daemon ++ frame (edna_ok ∷ []);
            },
          )
    unfolding serve_command command recv_from_daemon received send_to_daemon
    serve_power n k up socket waits =
        let got : recv_from_client client_os 0xffff (pos k) [] n
            ≡ done (some (cmd ∷ []), record n { to_client = [] }) =
          client_recv 0xffff (pos k) (cmd ∷ []) [] n (omega arith) (omega arith)
            (waits ∙ sym (append-nil (frame (cmd ∷ [])))) in
        simp (
          up,
          socket,
          got,
          calls (record n { to_client = [] }),
          (int_eq_iff (pos (length (frame (edna_ok ∷ [])))) _).1 refl,
        )

    react_power :
        (n : Net A) (k : ℕ)
        → n.client.connected ≡ true
        → n.client.daemon_socket ≡ pos k
        → n.to_client ≡ frame (cmd ∷ [])
        → react app n ≡ record n {
          to_client = [];
          app = f n.app;
          to_daemon = n.to_daemon ++ frame (edna_ok ∷ []);
          ended = none;
        }
    unfolding react
    react_power n k up socket waits = rw (serve_power n k up socket waits, react)

    module _ (fuel : ℕ) (enough : 0xffff ≤ fuel) (fd k : ℕ) (n : Net A) (idle : IsIdle n k) where
      abbrev told : Net A
      told = record n {
        to_client = [];
        app = f n.app;
        to_daemon = frame (edna_ok ∷ []);
        locked = true;
        ended = none;
      }

      sent_power :
          send_to_client (served_os app) (pos fd) (cmd ∷ []) (record n { locked = true })
          ≡ done (true, told)
      sent_power =
          send_to_client-frame (served_os app) (pos fd) (cmd ∷ []) (record n { locked = true })
            (omega arith)
          ∙ rw (
            (int_eq_iff (pos (length (frame (cmd ∷ [])))) _).1 refl,
            react_power (record n { locked = true; to_client = n.to_client ++ frame (cmd ∷ []) }) k
                idle.up idle.socket
                (ap (λ (l : List ℕ). l ++ frame (cmd ∷ [])) idle.nothing_for_client),
            idle.nothing_for_daemon,
          )

      got_ok :
          recv_from_client (served_os app) fuel (pos fd) [] told
          ≡ done (some (edna_ok ∷ []), record told { to_daemon = [] })
      got_ok =
          daemon_recv (served_os app) (pos fd) (served-IsStream app (pos fd)) (λ m s j v h. h) fuel
            (edna_ok ∷ []) [] told (omega arith) enough (sym (append-nil (frame (edna_ok ∷ []))))

      at_rest : record told { to_daemon = []; locked = false } ≡ powered f n
      at_rest =
          ap (λ (l : List ℕ). record told { to_daemon = l; locked = false })
            (sym idle.nothing_for_daemon)
          ∙ ap (λ (l : List ℕ). record (powered f n) { to_client = l })
              (sym idle.nothing_for_client)

      broadcast_reaches :
          (c : Comm) (aid : List ℕ)
          → c.application_registry ≡ (aid, pos fd) ∷ []
          → broadcast (served_os app) fuel (cmd ∷ []) c n
            ≡ done (record c { selected_application = no_app_selected }, powered f n)
      unfolding broadcast notify
      broadcast_reaches c aid one = rw (one, sent_power, got_ok, at_rest) refl

  -- The daemon has one client, which is connected and idle, and 0xffff reads are enough for a message.
  -- At a power-up and at a power-down, the application is called once, by its callback for that event; the daemon has read the answer, so nothing is left on the connection; nothing is
  -- selected then, the registry is as before, the mutex is free, and the client's event loop goes on.
  pub power_reaches_application :
      (fuel : ℕ)
      → 0xffff ≤ fuel
      → (fd k : ℕ) (n : Net A) → IsIdle n k
      → (c : Comm) (aid : List ℕ) → c.application_registry ≡ (aid, pos fd) ∷ []
      → (powerup_on_select (served_os app) fuel c n
          ≡ done (record c { selected_application = no_app_selected }, powered app.up n))
        × (powerdown_on_deselect (served_os app) fuel c n
            ≡ done (record c { selected_application = no_app_selected }, powered app.down n))
  unfolding powerup_on_select powerdown_on_deselect
  power_reaches_application fuel enough fd k n idle c aid one = (
    broadcast_reaches power_up app.up up-Calls fuel enough fd k n idle c aid one,
    broadcast_reaches power_down app.down down-Calls fuel enough fd k n idle c aid one,
  )
