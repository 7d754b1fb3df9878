-- ===== src/Client/State.antt =====
-- lib/edna_lib_export.cpp: what the operations do to the static variables of the client library.
use edna.Base.{
  ℕ, ◌≡◌, ◌≢◌, refl, ap, ◌⊎◌, inl, inr, Bool, true, false, not, ◌||◌, List, [], ◌∷◌, Option, none,
  some, ℤ, pos, negsuc, minus_one, int_eq, is_neg, Io, pure, Ensures, done-Ensures, then-Ensures,
  bind-Ensures, if-Ensures, else-Ensures, mono-Ensures, if◌then◌else◌, ltb, ◌==◌, length,
}
use edna.Bytestring.{of_bytes}
use edna.Proto.{get_api_version, register_aid, api_version, edna_ok}
use edna.Codes.{EdnaRv, ok, disconnected, version_mismatch, already_connected, already_registered}
use edna.Os.{Os}
use edna.Comm.{starts_with}
use edna.Comm.Frame.{frame, recv_from_client}
use edna.Client.{
  ClientState, dropped, Received, failure, message, lose, send_to_daemon, received,
  recv_from_daemon, hang_up, registered, versioned, request_version, connect_socket, lib_connect,
}

-- After a message has been sent: success leaves the state; a failure, at most gives up the connection.
abbrev pub Sent : {W : Type 0} → ClientState → ℤ × ClientState → W → Type 0
Sent l p w =
    ((int_eq p.0 (pos 0) ≡ true) × (p.1 ≡ l))
    ⊎ ((int_eq p.0 (pos 0) ≡ false) × (dropped p.1 ≡ dropped l))

abbrev pub Got : {W : Type 0} → ClientState → Received × ClientState → W → Type 0
Got l p w =
    ((m : List ℕ) × (p.0 ≡ message m) × (p.1 ≡ l))
    ⊎ ((e : ℤ) × (p.0 ≡ failure e) × (dropped p.1 ≡ dropped l))

module _ {W : Type 0} (os : Os W) (l : ClientState) where
  pub send_to_daemon-Sent : (tx : List ℕ) (w : W) → Ensures (Sent l) (send_to_daemon os l tx w)
  unfolding send_to_daemon lose
  send_to_daemon-Sent tx w =
      if-Ensures (Sent l) (not l.connected || is_neg l.daemon_socket) (pure (minus_one, l)) _ w
        (done-Ensures (Sent l) _ w (inr (refl, refl)))
        (if-Ensures (Sent l) (ltb 0xffff (length tx)) (pure (minus_one, l)) _ w
          (done-Ensures (Sent l) _ w (inr (refl, refl)))
          (if-Ensures (Sent l)
            (int_eq (os.write l.daemon_socket (frame tx) w).0 (pos (length (frame tx))))
            (pure (pos 0, l)) _ _ (done-Ensures (Sent l) _ _ (inl (refl, refl)))
            (done-Ensures (Sent l) _ _ (inr (refl, refl)))))

  received-Got : (o : Option (List ℕ)) (w : W) → Ensures (Got l) (received os l o w)
  unfolding received lose
  received-Got none w = done-Ensures (Got l) _ _ (inr (negsuc 1, refl, refl))
  received-Got (some m) w = done-Ensures (Got l) _ w (inl (m, refl, refl))

  pub recv_from_daemon-Got : (fuel : ℕ) (w : W) → Ensures (Got l) (recv_from_daemon os fuel l w)
  unfolding recv_from_daemon
  recv_from_daemon-Got fuel w =
      if-Ensures (Got l) (not l.connected || is_neg l.daemon_socket) (pure (failure minus_one, l)) _
        w (done-Ensures (Got l) _ w (inr (minus_one, refl, refl)))
        (then-Ensures (Got l) (recv_from_client os fuel l.daemon_socket []) (received os l) w
          received-Got)

  -- Success with the connection up, or an error with the connection given up.
  abbrev pub Settled : EdnaRv × ClientState → W → Type 0
  Settled p w = ((p.0 ≡ ok) × (p.1 ≡ l)) ⊎ ((p.0 ≢ ok) × (p.1 ≡ dropped l))

  hang_up-Settled :
      (l1 : ClientState) (rv : EdnaRv) (w : W)
      → rv ≢ ok
      → dropped l1 ≡ dropped l
      → Ensures Settled (hang_up os l1 rv w)
  unfolding hang_up
  hang_up-Settled l1 rv w ne e = done-Ensures Settled _ _ (inr (ne, e))

  registered-Settled :
      (r : Received) (l1 : ClientState) (w : W)
      → Got l (r, l1) w
      → Ensures Settled (registered os l1 r w)
  unfolding registered
  registered-Settled (failure e) l1 w (inl (m, p, q)) = cc
  registered-Settled (failure e) l1 w (inr (x, p, q)) =
      hang_up-Settled l1 disconnected w (λ z. cc) q
  registered-Settled (message m) l1 w (inr (x, p, q)) = cc
  registered-Settled (message m) l1 w (inl (x, p, q)) =
      if-Ensures Settled (not (length m == 1) || not (starts_with edna_ok m))
        (hang_up os l1 already_registered) (pure (ok, l1)) w
        (hang_up-Settled l1 already_registered w (λ z. cc) (ap dropped q))
        (done-Ensures Settled _ w (inl (refl, q)))

  recv_again :
      (fuel : ℕ) (l1 : ClientState) (w : W)
      → l1 ≡ l
      → Ensures (Got l) (recv_from_daemon os fuel l1 w)
  recv_again fuel l1 w e = rw e (recv_from_daemon-Got fuel w)

  -- The exit after a message: go on if it was sent, hang up if not.
  after_send :
      (p : ℤ × ClientState) (w : W) (next : Io W (EdnaRv × ClientState))
      → Sent l p w
      → (p.1 ≡ l → Ensures Settled (next w))
      → Ensures Settled ((if int_eq p.0 (pos 0) then next else hang_up os p.1 disconnected) w)
  after_send p w next (inl (e, q)) k = rw e (k q)
  after_send p w next (inr (e, q)) k = rw e (hang_up-Settled p.1 disconnected w (λ z. cc) q)

  versioned-Settled :
      (fuel : ℕ) (aid : List ℕ) (n : ℕ) (r : Received) (l1 : ClientState) (w : W)
      → Got l (r, l1) w
      → Ensures Settled (versioned os fuel aid n l1 r w)
  unfolding versioned
  versioned-Settled fuel aid n (failure e) l1 w (inl (m, p, q)) = cc
  versioned-Settled fuel aid n (failure e) l1 w (inr (x, p, q)) =
      hang_up-Settled l1 disconnected w (λ z. cc) q
  versioned-Settled fuel aid n (message m) l1 w (inr (x, p, q)) = cc
  versioned-Settled fuel aid n (message m) l1 w (inl (x, p, q)) =
      if-Ensures Settled (not (length m == 1) || not (starts_with api_version m))
        (hang_up os l1 version_mismatch) _ w
        (hang_up-Settled l1 version_mismatch w (λ z. cc) (ap dropped q))
        (bind-Ensures (Sent l) Settled (send_to_daemon os l1 _) _ w (again w) (λ sent w1 s.
          after_send sent w1 _ s (λ same.
            bind-Ensures (Got l) Settled (recv_from_daemon os fuel sent.1) _ w1
              (recv_again fuel sent.1 w1 same) (λ g w2 h. registered-Settled g.0 g.1 w2 h))))
    where
      again : (w : W) → Ensures (Sent l) (send_to_daemon os l1 (register_aid ∷ of_bytes aid n) w)
      again w = rw q (send_to_daemon-Sent (register_aid ∷ of_bytes aid n) w)

  request_version-Settled :
      (fuel : ℕ) (aid : List ℕ) (n : ℕ) (w : W)
      → Ensures Settled (request_version os fuel aid n l w)
  unfolding request_version
  request_version-Settled fuel aid n w =
      bind-Ensures (Sent l) Settled (send_to_daemon os l (get_api_version ∷ [])) _ w
        (send_to_daemon-Sent (get_api_version ∷ []) w)
        (λ sent w1 s. after_send sent w1 _ s (λ same.
          bind-Ensures (Got l) Settled (recv_from_daemon os fuel sent.1) _ w1
            (recv_again fuel sent.1 w1 same) (λ g w2 h. versioned-Settled fuel aid n g.0 g.1 w2 h)))

-- How a call of edna_lib_connect ends: connected under the new socket, or with an error and no
-- socket at all. The other variables stay.
abbrev pub Connected : {W : Type 0} → ClientState → ℤ → EdnaRv × ClientState → W → Type 0
Connected l fd p w =
    ((p.0 ≡ ok) × (is_neg fd ≡ false) × (p.1 ≡ record l { connected = true; daemon_socket = fd }))
    ⊎ ((p.0 ≢ ok) × (p.1 ≡ dropped l))

module _ {W : Type 0} (os : Os W) (fuel : ℕ) (aid : List ℕ) (n : ℕ) (l : ClientState) where
  never_up : l.connected ≡ false → record l { daemon_socket = minus_one } ≡ dropped l
  never_up e = ap (λ (b : Bool). record l { connected = b; daemon_socket = minus_one }) e

  connect_socket-Connected :
      (fd : ℤ) (w : W)
      → l.connected ≡ false
      → Ensures (Connected l fd) (connect_socket os fuel aid n l fd w)
  unfolding connect_socket
  connect_socket-Connected (negsuc k) w e =
      done-Ensures (Connected l (negsuc k)) _ w (inr ((λ z. cc), never_up e))
  connect_socket-Connected (pos k) w e =
      let up = record l { connected = true; daemon_socket = pos k } in
      if-Ensures (Connected l (pos k)) (int_eq (os.connect (pos k) w).0 (pos 0))
        (request_version os fuel aid n up) _ _
        (mono-Ensures (Settled os up) (Connected l (pos k)) _
          (λ p w'. elim [ inl (r, s) ↦ inl (r, refl, s) | inr (r, s) ↦ inr (r, s) ])
          (request_version-Settled os up fuel aid n _))
        (done-Ensures (Connected l (pos k)) _ _ (inr ((λ z. cc), never_up e)))

  -- From a state that is not connected, edna_lib_connect returns ERV_OK exactly with the connection
  -- up under the socket that it has got from the system, which is no error value; after any other
  -- result nothing is connected and no socket is kept.
  pub lib_connect-Connected :
      (w : W)
      → l.connected ≡ false
      → Ensures (Connected l (os.socket w).0) (lib_connect os fuel aid n l w)
  unfolding lib_connect
  lib_connect-Connected w e =
      else-Ensures (Connected l (os.socket w).0) l.connected (pure (already_connected, l)) _ w e
        (connect_socket-Connected (os.socket w).0 (os.socket w).1 e)
