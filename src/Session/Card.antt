-- ===== src/Session/Card.antt =====
-- From the reader to the application and back: bin/edna_emu.cpp, bin/edna_comm.cpp and
-- lib/edna_lib_export.cpp together.
use edna.Base.{
  ℕ, ◌≤◌, ◌<◌, ◌≡◌, refl, sym, ap, ◌∙◌, true, false, List, [], ◌∷◌, ◌++◌, none, some, pos, int_eq,
  int_eq_iff, done, le→ltb_false, length, append-nil, arith,
}
use edna.Bytestring.{append, resize}
use edna.Bytestring.Slice.{length-resize, substr_from_lem}
use edna.Proto.{transceive_apdu, edna_ok}
use edna.Comm.{Comm, no_app_selected, rapdu, exchange}
use edna.Comm.Selection.{chosen}
use edna.Comm.Exchange.{transceive-chosen}
use edna.Comm.Frame.{frame, recv_from_client, send_to_client}
use edna.Comm.Frame.Send.{send_to_client-frame}
use edna.Client.{respond, command, serve_command, recv_from_daemon, send_to_daemon, received}
use edna.Emulator.{Reader, Settings, get_capdu, command_received}
use edna.Emulator.Answer.{paused, after_send, command_received_answers}
use edna.Session.{Net, App, callbacks, client_os, served_os, react}
use edna.Session.Ends.{client_recv, daemon_recv, served-IsStream}

-- Nothing is under way, and the client is connected, as descriptor `k` of its process.
pub record IsIdle {A : Type 0} (n : Net A) (k : ℕ) : Type 0 where
  pub nothing_for_daemon : n.to_daemon ≡ []
  pub nothing_for_client : n.to_client ≡ []
  pub up : n.client.connected ≡ true
  pub socket : n.client.daemon_socket ≡ pos k

module _ {A : Type 0} (app : App A) where
  -- What the application answers to a C-APDU, and its state after it.
  abbrev pub r_apdu : List ℕ → A → List ℕ
  r_apdu apdu a = resize (app.process apdu a).0.0 (app.process apdu a).0.1

  abbrev pub next_state : List ℕ → A → A
  next_state apdu a = (app.process apdu a).1

  -- The client's part: the command is taken, the application called, the answer sent.
  serve_apdu :
      (n : Net A) (k : ℕ) (apdu : List ℕ)
      → n.client.connected ≡ true
      → n.client.daemon_socket ≡ pos k
      → n.to_client ≡ frame (transceive_apdu ∷ apdu)
      → length apdu < 0xffff
      → (app.process apdu n.app).0.1 < 0xffff
      → serve_command client_os (callbacks app) 0xffff n.client n
        ≡ done (
          (none, n.client),
          record n {
            to_client = [];
            app = next_state apdu n.app;
            to_daemon = n.to_daemon ++ frame (edna_ok ∷ r_apdu apdu n.app);
          },
        )
  unfolding serve_command command respond recv_from_daemon received send_to_daemon
  serve_apdu n k apdu up socket waits short fits =
      let got : recv_from_client client_os 0xffff (pos k) [] n
          ≡ done (some (transceive_apdu ∷ apdu), record n { to_client = [] }) =
        client_recv 0xffff (pos k) (transceive_apdu ∷ apdu) [] n (omega arith) (omega arith)
          (waits ∙ sym (append-nil (frame (transceive_apdu ∷ apdu)))) in
      let small : length (r_apdu apdu n.app) < 0xffff =
        omega
          (arith, fits, length-resize (app.process apdu n.app).0.0 (app.process apdu n.app).0.1) in
      simp (
        up,
        socket,
        got,
        le→ltb_false 0xffff (length (edna_ok ∷ r_apdu apdu n.app)) (omega (arith, small)),
        (int_eq_iff (pos (length (frame (edna_ok ∷ r_apdu apdu n.app)))) _).1 refl,
      )

  -- The connection after an exchange: all that has changed is the state of the application.
  abbrev pub exchanged : List ℕ → Net A → Net A
  exchanged apdu n = record n { app = next_state apdu n.app; locked = false; ended = none }

  react_lem :
      (n : Net A) (k : ℕ) (apdu : List ℕ)
      → n.client.connected ≡ true
      → n.client.daemon_socket ≡ pos k
      → n.to_client ≡ frame (transceive_apdu ∷ apdu)
      → length apdu < 0xffff
      → (app.process apdu n.app).0.1 < 0xffff
      → react app n ≡ record n {
        to_client = [];
        app = next_state apdu n.app;
        to_daemon = n.to_daemon ++ frame (edna_ok ∷ r_apdu apdu n.app);
        ended = none;
      }
  unfolding react
  react_lem n k apdu up socket waits short fits =
      rw (serve_apdu n k apdu up socket waits short fits, react)

  module _ (fuel : ℕ) (enough : 0xffff ≤ fuel) (c : Comm) (fd k : ℕ) (apdu : List ℕ) (n : Net A)
      (idle : IsIdle n k) (short : length apdu < 0xffff)
      (fits : (app.process apdu n.app).0.1 < 0xffff) where
    -- The world after the daemon has sent the request, and the client has answered it.
    abbrev answered : Net A
    answered = record n {
      to_client = [];
      app = next_state apdu n.app;
      to_daemon = frame (edna_ok ∷ r_apdu apdu n.app);
      locked = true;
      ended = none;
    }

    sent_request :
        send_to_client
          (served_os app)
          (pos fd)
          (transceive_apdu ∷ apdu)
          (record n { locked = true })
        ≡ done (true, answered)
    sent_request =
        send_to_client-frame (served_os app) (pos fd) (transceive_apdu ∷ apdu)
          (record n { locked = true }) (omega (arith, short))
        ∙ rw (
          (int_eq_iff (pos (length (frame (transceive_apdu ∷ apdu)))) _).1 refl,
          react_lem
              (record n {
                locked = true;
                to_client = n.to_client ++ frame (transceive_apdu ∷ apdu);
              })
              k apdu idle.up idle.socket
              (ap (λ (l : List ℕ). l ++ frame (transceive_apdu ∷ apdu)) idle.nothing_for_client)
              short fits,
          idle.nothing_for_daemon,
        )

    got_answer :
        recv_from_client (served_os app) fuel (pos fd) [] answered
        ≡ done (some (edna_ok ∷ r_apdu apdu n.app), record answered { to_daemon = [] })
    got_answer =
        let small : length (r_apdu apdu n.app) < 0xffff =
          omega (
            arith,
            fits,
            length-resize (app.process apdu n.app).0.0 (app.process apdu n.app).0.1,
          ) in
        daemon_recv (served_os app) (pos fd) (served-IsStream app (pos fd)) (λ m s j v h. h) fuel
          (edna_ok ∷ r_apdu apdu n.app) [] answered (omega (arith, small)) enough
          (sym (append-nil (frame (edna_ok ∷ r_apdu apdu n.app))))

    rejoined : record answered { to_daemon = []; locked = false } ≡ exchanged apdu n
    rejoined =
        ap (λ (l : List ℕ). record answered { to_daemon = l; locked = false })
          (sym idle.nothing_for_daemon)
        ∙ ap (λ (l : List ℕ). record (exchanged apdu n) { to_client = l })
            (sym idle.nothing_for_client)

    exchange_answers :
        c.selected_application ≡ pos fd
        → exchange (served_os app) fuel c apdu n
          ≡ done ((true, r_apdu apdu n.app, c), exchanged apdu n)
    unfolding exchange rapdu append
    exchange_answers sel =
        let small : length (r_apdu apdu n.app) < 0xffff =
          omega (
            arith,
            fits,
            length-resize (app.process apdu n.app).0.0 (app.process apdu n.app).0.1,
          ) in
        let real : int_eq (pos fd) no_app_selected ≡ false = refl in
        rw (
          sel,
          real,
          sent_request,
          got_answer,
          rejoined,
          substr_from_lem (edna_ok ∷ r_apdu apdu n.app) 1 (omega (arith, small)),
        )

  -- The daemon's reader hands over a C-APDU of 5 to 65534 bytes behind a zero status byte; the socket
  -- of the application that is selected, once a SELECT by name has been looked at, leads to a client
  -- that is connected and idle; and the application answers with less than 0xffff bytes. Then the
  -- application is asked exactly that C-APDU, once, and the one command that the reader gets next is
  -- its answer behind 84, after the pause of the settings. The mutex is free, nothing is left on the
  -- connection, and the client's event loop goes on. 0xffff reads are enough for a message.
  pub reader_to_application :
      (reader : Reader (Net A)) (settings : Settings) (fuel : ℕ) (c : Comm) (fd k : ℕ)
      (apdu : List ℕ) (w n : Net A)
      → 0xffff ≤ fuel
      → reader.control get_capdu w ≡ (some (0x00 ∷ apdu), n)
      → 5 ≤ length apdu
      → length apdu < 0xffff
      → (chosen c apdu).selected_application ≡ pos fd
      → IsIdle n k
      → (app.process apdu n.app).0.1 < 0xffff
      → command_received (served_os app) reader settings fuel c w
        ≡ after_send (served_os app) reader settings fuel (chosen c apdu) (
            reader.control
              (0x84 ∷ r_apdu apdu n.app)
              (paused (served_os app) reader settings fuel (r_apdu apdu n.app) (exchanged apdu n)))
  reader_to_application reader settings fuel c fd k apdu w n enough got long short sel idle fits =
      let (answer, e, f) =
        command_received_answers (served_os app) reader settings fuel c (chosen c apdu) apdu
          (r_apdu apdu n.app) true w n (exchanged apdu n) (omega (arith, short)) got
          (transceive-chosen (served_os app) fuel c apdu n long
            ∙ exchange_answers fuel enough (chosen c apdu) fd k apdu n idle short fits sel) in
      f
      ∙ ap
          (λ (a : List ℕ). after_send (served_os app) reader settings fuel (chosen c apdu) (
            reader.control (0x84 ∷ a)
              (paused (served_os app) reader settings fuel a (exchanged apdu n))))
          e
