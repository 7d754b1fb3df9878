-- ===== src/Session/Opening.antt =====
-- The registration: what edna_lib_connect (lib/edna_lib_export.cpp) and new_client
-- (bin/edna_comm.cpp) say to each other.
use edna.Base.{
  ℕ, ◌≤◌, ◌<◌, ◌≡◌, refl, sym, ◌∙◌, true, false, List, [], ◌∷◌, ◌++◌, Option, none, some, ℤ, pos,
  int_eq_iff, done, le→ltb_false, length, take_all, append-nil, arith,
}
use edna.Bytestring.{of_bytes, push_byte}
use edna.Bytestring.Slice.{substr_from_lem}
use edna.Proto.{api_version, get_api_version, register_aid, edna_ok, aid_exists}
use edna.Codes.{EdnaRv, ok, already_registered}
use edna.Comm.{Comm, refuse, answer, register, greet, new_client}
use edna.Comm.AidMap.{find, assign}
use edna.Comm.Frame.{frame, send_to_client}
use edna.Comm.Frame.Send.{send_to_client-frame}
use edna.Client.{
  message, ClientState, dropped, hang_up, registered, versioned, request_version, connect_socket,
  lib_connect, send_to_daemon, recv_from_daemon, received,
}
use edna.Session.{Net, client_os, daemon_os}
use edna.Session.Ends.{client_recv, daemon_recv, daemon-IsStream}

-- What the client says, and what the daemon says, by what the registry has for the AID.
abbrev pub client_says : List ℕ → List ℕ
client_says aid = frame (get_api_version ∷ []) ++ frame (register_aid ∷ aid)

abbrev pub status_byte : Option ℤ → ℕ
status_byte none = edna_ok
status_byte (some other) = aid_exists

abbrev pub daemon_says : Option ℤ → List ℕ
daemon_says o = frame (api_version ∷ []) ++ frame (status_byte o ∷ [])

-- How it ends for the daemon's object, and for the client.
abbrev pub object_after : Comm → List ℕ → ℤ → Option ℤ → Comm
object_after c aid fd none = record c {
  application_registry = assign aid fd c.application_registry;
}
object_after c aid fd (some other) = c

abbrev pub client_after : ClientState → Option ℤ → EdnaRv × ClientState
client_after l none = (ok, record l { connected = true; daemon_socket = pos 4 })
client_after l (some other) = (already_registered, dropped l)

module _ {A : Type 0} (fuel : ℕ) (enough : 0xffff ≤ fuel) (n : Net A) (aid : List ℕ)
    (some_aid : 0 < length aid) (short : length aid < 0xffff) where
  daemon_sends :
      (fd : ℤ) (tx : List ℕ) (w : Net A)
      → length tx ≤ 0xffff
      → send_to_client daemon_os fd tx w
        ≡ done (true, record w { to_client = w.to_client ++ frame tx })
  daemon_sends fd tx w h =
      send_to_client-frame daemon_os fd tx w h
      ∙ rw ((int_eq_iff (pos (length (frame tx))) _).1 refl)

  answers_lem :
      (c : Comm) (fd : ℤ) (o : Option ℤ) (w : Net A)
      → answer daemon_os c fd aid o w
        ≡ done (
          object_after c aid fd o,
          record w { to_client = w.to_client ++ frame (status_byte o ∷ []) },
        )
  unfolding answer refuse push_byte
  answers_lem c fd none w = rw (daemon_sends fd (edna_ok ∷ []) w (omega arith))
  answers_lem c fd (some other) w = rw (daemon_sends fd (aid_exists ∷ []) w (omega arith))

  daemon_side :
      (c : Comm) (fd : ℤ)
      → new_client daemon_os fuel c fd (record n { to_daemon = client_says aid; to_client = [] })
        ≡ done (
          object_after c aid fd (find aid c.application_registry),
          record n { to_daemon = []; to_client = daemon_says (find aid c.application_registry) },
        )
  unfolding new_client greet register push_byte
  daemon_side c fd =
      let first =
        daemon_recv (daemon_os {A = A}) fd (daemon-IsStream fd) (λ m s j v h. h) fuel
          (get_api_version ∷ []) (frame (register_aid ∷ aid))
          (record n { to_daemon = client_says aid; to_client = [] }) (omega arith) enough refl in
      let second =
        daemon_recv (daemon_os {A = A}) fd (daemon-IsStream fd) (λ m s j v h. h) fuel
          (register_aid ∷ aid) []
          (record n {
            to_daemon = frame (register_aid ∷ aid);
            to_client = frame (api_version ∷ []);
          })
          (omega (arith, short)) enough (sym (append-nil (frame (register_aid ∷ aid)))) in
      rw
        (
          first,
          daemon_sends fd (api_version ∷ []) _ (omega arith),
          second,
          le→ltb_false (length (register_aid ∷ aid)) 2 (omega (arith, some_aid)),
          substr_from_lem (register_aid ∷ aid) 1 (omega (arith, short)),
        )
        (answers_lem c fd (find aid c.application_registry) _)

  client_sends :
      (l : ClientState) (tx : List ℕ) (w : Net A)
      → l.connected ≡ true
      → l.daemon_socket ≡ pos 4
      → length tx ≤ 0xffff
      → send_to_daemon client_os l tx w
        ≡ done ((pos 0, l), record w { to_daemon = w.to_daemon ++ frame tx })
  unfolding send_to_daemon
  client_sends l tx w up socket h = simp (
    up,
    socket,
    le→ltb_false 0xffff (length tx) h,
    (int_eq_iff (pos (length (frame tx))) _).1 refl,
  )

  client_gets :
      (l : ClientState) (msg rest : List ℕ) (w : Net A)
      → l.connected ≡ true
      → l.daemon_socket ≡ pos 4
      → length msg ≤ 0xffff
      → w.to_client ≡ frame msg ++ rest
      → recv_from_daemon client_os fuel l w ≡ done ((message msg, l), record w { to_client = rest })
  unfolding recv_from_daemon received
  client_gets l msg rest w up socket h e =
      simp (up, socket, client_recv fuel (pos 4) msg rest w h enough e)

  verdict :
      (l : ClientState) (o : Option ℤ) (w : Net A)
      → l.connected ≡ false
      → registered client_os
          (record l { connected = true; daemon_socket = pos 4 })
          (message (status_byte o ∷ []))
          w
        ≡ done (client_after l o, w)
  unfolding registered hang_up
  verdict l none w down = refl
  verdict l (some other) w down = refl

  client_side :
      (l : ClientState) (o : Option ℤ)
      → l.connected ≡ false
      → lib_connect client_os fuel aid
          (length aid)
          l
          (record n { to_client = daemon_says o; to_daemon = [] })
        ≡ done (client_after l o, record n { to_client = []; to_daemon = client_says aid })
  unfolding lib_connect connect_socket request_version versioned of_bytes
  client_side l o down =
      let up : ClientState = record l { connected = true; daemon_socket = pos 4 } in
      rw
        (
          down,
          client_sends up (get_api_version ∷ []) _ refl refl (omega arith),
          client_gets up (api_version ∷ []) (frame (status_byte o ∷ []))
              (record n { to_client = daemon_says o; to_daemon = frame (get_api_version ∷ []) })
              refl refl (omega arith) refl,
          take_all (length aid) aid (omega arith),
          client_sends up (register_aid ∷ aid) _ refl refl (omega (arith, short)),
          client_gets up (status_byte o ∷ []) []
              (record n { to_client = frame (status_byte o ∷ []); to_daemon = client_says aid })
              refl refl (omega arith) (sym (append-nil (frame (status_byte o ∷ [])))),
        )
        (verdict l o _ down)

  -- A client that is not connected registers an AID of 1 to 65534 bytes, and 0xffff reads are enough
  -- for a message. The two ends agree: what edna_lib_connect writes is what new_client reads to the
  -- end, and what new_client writes is what edna_lib_connect reads to the end. If nobody had the AID,
  -- the daemon enters the socket at it, and the client is connected with ERV_OK; if it was taken, the
  -- daemon's object stays, and the client gets ERV_ALREADY_REGISTERED and no connection.
  pub opening_agrees :
      (c : Comm) (fd : ℤ) (l : ClientState)
      → l.connected ≡ false
      → let o = find aid c.application_registry in
        (lib_connect client_os fuel aid
            (length aid)
            l
            (record n { to_client = daemon_says o; to_daemon = [] })
          ≡ done (client_after l o, record n { to_client = []; to_daemon = client_says aid }))
        × (new_client daemon_os fuel c fd (record n { to_daemon = client_says aid; to_client = [] })
            ≡ done
                (object_after c aid fd o, record n { to_daemon = []; to_client = daemon_says o }))
  opening_agrees c fd l down =
      (client_side l (find aid c.application_registry) down, daemon_side c fd)
