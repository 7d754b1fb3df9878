-- ===== src/Client/Connect.antt =====
-- lib/edna_lib_export.cpp: edna_lib_connect returns, and what it leaves.
use edna.Base.{
  ℕ, ◌≤◌, ◌≡◌, refl, true, false, not, ◌||◌, List, [], Option, none, some, ℤ, pos, minus_one,
  int_eq, is_neg, done, pure, Returns, bind-Returns, if-Returns, Returns-Ensures, ltb, ◌==◌, length,
}
use edna.Proto.{api_version, edna_ok}
use edna.Codes.{EdnaRv, ok, disconnected, version_mismatch, already_connected, already_registered}
use edna.Os.{Os, IsBounded, IsLively}
use edna.Comm.{starts_with}
use edna.Comm.Frame.{frame, recv_from_client}
use edna.Comm.Frame.Stall.{recv_from_client-Returns}
use edna.Client.{
  ClientState, Received, failure, message, lose, send_to_daemon, received, recv_from_daemon,
  hang_up, registered, versioned, request_version, connect_socket, lib_connect,
}
use edna.Client.State.{Connected, lib_connect-Connected}

module _ {W : Type 0} (os : Os W) (bounded : IsBounded os) (lively : IsLively os) (fuel : ℕ)
    (enough : 0xffff ≤ fuel) where
  send_to_daemon-Returns :
      (l : ClientState) (tx : List ℕ) (w : W) → Returns (send_to_daemon os l tx w)
  unfolding send_to_daemon lose
  send_to_daemon-Returns l tx w =
      if-Returns (not l.connected || is_neg l.daemon_socket) (pure (minus_one, l)) _ w (_, refl)
        (if-Returns (ltb 0xffff (length tx)) (pure (minus_one, l)) _ w (_, refl)
          (if-Returns (int_eq (os.write l.daemon_socket (frame tx) w).0 (pos (length (frame tx))))
            (pure (pos 0, l)) _ _ (_, refl) (_, refl)))

  received-Returns : (l : ClientState) (o : Option (List ℕ)) (w : W) → Returns (received os l o w)
  unfolding received lose
  received-Returns l none w = (_, refl)
  received-Returns l (some m) w = (_, refl)

  recv_from_daemon-Returns : (l : ClientState) (w : W) → Returns (recv_from_daemon os fuel l w)
  unfolding recv_from_daemon
  recv_from_daemon-Returns l w =
      if-Returns (not l.connected || is_neg l.daemon_socket) (pure (failure minus_one, l)) _ w
        (_, refl)
        (bind-Returns (recv_from_client os fuel l.daemon_socket []) (received os l) w
          (recv_from_client-Returns os l.daemon_socket bounded lively fuel [] w enough)
          (received-Returns l))

  hang_up-Returns : (l : ClientState) (rv : EdnaRv) (w : W) → Returns (hang_up os l rv w)
  unfolding hang_up
  hang_up-Returns l rv w = (_, refl)

  registered-Returns : (l : ClientState) (r : Received) (w : W) → Returns (registered os l r w)
  unfolding registered
  registered-Returns l (failure e) w = hang_up-Returns l disconnected w
  registered-Returns l (message m) w =
      if-Returns (not (length m == 1) || not (starts_with edna_ok m))
        (hang_up os l already_registered) (pure (ok, l)) w (hang_up-Returns l _ w) (_, refl)

  versioned-Returns :
      (aid : List ℕ) (n : ℕ) (l : ClientState) (r : Received) (w : W)
      → Returns (versioned os fuel aid n l r w)
  unfolding versioned
  versioned-Returns aid n l (failure e) w = hang_up-Returns l disconnected w
  versioned-Returns aid n l (message m) w =
      if-Returns (not (length m == 1) || not (starts_with api_version m))
        (hang_up os l version_mismatch) _ w (hang_up-Returns l _ w)
        (bind-Returns (send_to_daemon os l _) _ w (send_to_daemon-Returns l _ w) (λ p w1.
          if-Returns (int_eq p.0 (pos 0)) _ (hang_up os p.1 disconnected) w1
            (bind-Returns (recv_from_daemon os fuel p.1) _ w1 (recv_from_daemon-Returns p.1 w1)
              (λ q w2. registered-Returns q.1 q.0 w2))
            (hang_up-Returns p.1 _ w1)))

  request_version-Returns :
      (aid : List ℕ) (n : ℕ) (l : ClientState) (w : W) → Returns (request_version os fuel aid n l w)
  unfolding request_version
  request_version-Returns aid n l w =
      bind-Returns (send_to_daemon os l _) _ w (send_to_daemon-Returns l _ w) (λ p w1.
        if-Returns (int_eq p.0 (pos 0)) _ (hang_up os p.1 disconnected) w1
          (bind-Returns (recv_from_daemon os fuel p.1) _ w1 (recv_from_daemon-Returns p.1 w1)
            (λ q w2. versioned-Returns aid n q.1 q.0 w2))
          (hang_up-Returns p.1 _ w1))

  connect_socket-Returns :
      (aid : List ℕ) (n : ℕ) (l : ClientState) (fd : ℤ) (w : W)
      → Returns (connect_socket os fuel aid n l fd w)
  unfolding connect_socket
  connect_socket-Returns aid n l fd w =
      if-Returns (is_neg fd) _ _ w (_, refl)
        (if-Returns (int_eq (os.connect fd w).0 (pos 0))
          (request_version os fuel aid n (record l { connected = true; daemon_socket = fd })) _ _
          (request_version-Returns aid n _ _) (_, refl))

  lib_connect-Returns :
      (aid : List ℕ) (n : ℕ) (l : ClientState) (w : W) → Returns (lib_connect os fuel aid n l w)
  unfolding lib_connect
  lib_connect-Returns aid n l w =
      if-Returns l.connected (pure (already_connected, l)) _ w (_, refl)
        (connect_socket-Returns aid n l _ _)

  -- If reads give no more than was asked for, and something when they succeed, 0xffff reads are
  -- enough for each message, and edna_lib_connect, called while not connected, returns, whatever
  -- the daemon answers. With ERV_OK the connection is up under the socket that the system gave,
  -- which is no error value; with any other code nothing is connected and no socket is kept. The
  -- other variables are as before.
  pub lib_connect_correct :
      (aid : List ℕ) (n : ℕ) (l : ClientState) (w : W)
      → l.connected ≡ false
      → (p : EdnaRv × ClientState) × (w' : W) × (lib_connect os fuel aid n l w ≡ done (p, w'))
        × Connected l (os.socket w).0 p w'
  lib_connect_correct aid n l w down =
      Returns-Ensures (Connected l (os.socket w).0) (lib_connect os fuel aid n l w)
        (lib_connect-Returns aid n l w) (lib_connect-Connected os fuel aid n l w down)
