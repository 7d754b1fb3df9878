-- ===== src/Client.antt =====
-- lib/edna_lib_export.cpp, under src: the client library. Its static variables are a record; the
-- socket calls are those of `Os`. What a callback, a signal handler or another thread does to the
-- static variables while the event loop waits is a parameter.
pub mod State
pub mod Connect
pub mod Serve
pub mod Cancel
mod Runs
use edna.Base.{
  ℕ, zero, suc, ◌+◌, Bool, true, false, not, ◌&&◌, ◌||◌, List, [], ◌∷◌, Option, none, some, ℤ, pos,
  negsuc, minus_one, int_eq, is_neg, Io, pure, run, call, spin, ◌>>=◌, ◌>>◌, ltb, ◌==◌,
  if◌then◌else◌, length,
}
use edna.Bytestring.{of_bytes, resize}
use edna.Proto.{
  api_version, get_api_version, register_aid, disconnect, power_up, power_down, transceive_apdu,
  edna_ok, unknown_command,
}
use edna.Codes.{
  EdnaRv, ok, already_initialised, param_invalid, not_initialised, connect_failed, disconnected,
  not_connected, version_mismatch, already_connected, already_registered,
}
use edna.Os.{Os}
use edna.Comm.Frame.{frame, recv_from_client}
use edna.Comm.{starts_with}

pub record ClientState : Type 0 where
  pub initialised : Bool
  pub connected : Bool
  pub must_cancel : Bool
  pub daemon_socket : ℤ

-- The static initialisers.
unfoldable pub start : ClientState
start = record {
  initialised = false;
  connected = false;
  must_cancel = false;
  daemon_socket = minus_one;
}

unfoldable pub lib_init : ClientState → EdnaRv × ClientState
lib_init l =
    if l.initialised
    then (already_initialised, l)
    else (ok, record l { initialised = true; connected = false; daemon_socket = minus_one })

unfoldable pub lib_cancel : ClientState → ClientState
lib_cancel l = record l { must_cancel = true }

-- The connection is given up.
abbrev pub dropped : ClientState → ClientState
dropped l = record l { connected = false; daemon_socket = minus_one }

-- `recv_from_daemon` returns -1 or -2, or 0 with the message in its argument.
pub data Received : Type 0 where
  failure : ℤ → Received
  message : List ℕ → Received

-- One call of the three callbacks. `process` gets the C-APDU, and leaves a buffer and a length.
pub record Callbacks (W : Type 0) : Type 0 where
  pub process_cb : List ℕ → W → (List ℕ × ℕ) × W
  pub power_up_cb : W → W
  pub power_down_cb : W → W

module _ {W : Type 0} (os : Os W) where
  unfoldable pub lib_uninit : ClientState → Io W (EdnaRv × ClientState)
  lib_uninit l = if not l.initialised then pure (not_initialised, l) else do
    _ ←
        run (λ w.
          if not (is_neg l.daemon_socket) && l.connected then os.close l.daemon_socket w else w)
    pure (ok, record l { initialised = false; connected = false; daemon_socket = minus_one })

  -- Close the socket, forget it, return -2.
  unfoldable pub lose : ClientState → Io W ClientState
  lose l = do run (os.close l.daemon_socket); pure (dropped l)

  unfoldable pub send_to_daemon : ClientState → List ℕ → Io W (ℤ × ClientState)
  send_to_daemon l tx =
      if not l.connected || is_neg l.daemon_socket
      then pure (minus_one, l)
      else if ltb 0xffff (length tx)
      then pure (minus_one, l)
      else do
        tx_sent ← call (os.write l.daemon_socket (frame tx))
        if int_eq tx_sent (pos (length (frame tx)))
            then pure (pos 0, l)
            else (do l' ← lose l; pure (negsuc 1, l'))

  unfoldable pub received : ClientState → Option (List ℕ) → Io W (Received × ClientState)
  received l none = do l' ← lose l; pure (failure (negsuc 1), l')
  received l (some rx) = pure (message rx, l)

  -- The reads are those of recv_from_client, with the same buffer; where that returns false, this
  -- closes the socket and returns -2.
  unfoldable pub recv_from_daemon : ℕ → ClientState → Io W (Received × ClientState)
  recv_from_daemon fuel l =
      if not l.connected || is_neg l.daemon_socket
      then pure (failure minus_one, l)
      else do rx ← recv_from_client os fuel l.daemon_socket []; received l rx

  -- The error exits of edna_lib_connect and of the event loop.
  unfoldable pub hang_up : ClientState → EdnaRv → Io W (EdnaRv × ClientState)
  hang_up l rv = do run (os.close l.daemon_socket); pure (rv, dropped l)

  unfoldable pub registered : ClientState → Received → Io W (EdnaRv × ClientState)
  registered l (failure e) = hang_up l disconnected
  registered l (message register_aid_rv) =
      if not (length register_aid_rv == 1) || not (starts_with edna_ok register_aid_rv)
      then hang_up l already_registered
      else pure (ok, l)

  unfoldable pub versioned : ℕ → List ℕ → ℕ → ClientState → Received → Io W (EdnaRv × ClientState)
  versioned fuel aid_data aid_len l (failure e) = hang_up l disconnected
  versioned fuel aid_data aid_len l (message api_version_info) =
      if not (length api_version_info == 1) || not (starts_with api_version api_version_info)
      then hang_up l version_mismatch
      else do
        (sent, l1) ← send_to_daemon l (register_aid ∷ of_bytes aid_data aid_len)
        if int_eq sent (pos 0)
            then (do (r, l2) ← recv_from_daemon fuel l1; registered l2 r)
            else hang_up l1 disconnected

  -- From the connected socket on.
  unfoldable pub request_version : ℕ → List ℕ → ℕ → ClientState → Io W (EdnaRv × ClientState)
  request_version fuel aid_data aid_len l = do
    (sent, l1) ← send_to_daemon l (get_api_version ∷ [])
    if int_eq sent (pos 0)
        then (do (r, l2) ← recv_from_daemon fuel l1; versioned fuel aid_data aid_len l2 r)
        else hang_up l1 disconnected

  unfoldable pub connect_socket : ℕ → List ℕ → ℕ → ClientState → ℤ → Io W (EdnaRv × ClientState)
  connect_socket fuel aid_data aid_len l fd =
      if is_neg fd then pure (connect_failed, record l { daemon_socket = minus_one }) else do
        rv ← call (os.connect fd)
        if int_eq rv (pos 0)
            then request_version fuel aid_data aid_len
                (record l { connected = true; daemon_socket = fd })
            else (do
              run (os.close fd)
              pure (connect_failed, record l { daemon_socket = minus_one }))

  unfoldable pub lib_connect : ℕ → List ℕ → ℕ → ClientState → Io W (EdnaRv × ClientState)
  lib_connect fuel aid_data aid_len l =
      if l.connected
      then pure (already_connected, l)
      else do fd ← call os.socket; connect_socket fuel aid_data aid_len l fd

  -- The socket is closed, and its number stays in `daemon_socket`.
  unfoldable pub lib_disconnect : ClientState → Io W (EdnaRv × ClientState)
  lib_disconnect l = if not l.connected then pure (not_connected, l) else do
    (sent, l1) ← send_to_daemon l (disconnect ∷ [])
    run (os.close l1.daemon_socket)
    pure (ok, record l1 { connected = false })

  module _ (cb : Callbacks W) where
    -- The answer to the command in byte `c`, with the bytes behind it.
    unfoldable pub respond : ℕ → List ℕ → Io W (List ℕ)
    respond c args =
        if c == power_up
        then (do run cb.power_up_cb; pure (edna_ok ∷ []))
        else if c == power_down
        then (do run cb.power_down_cb; pure (edna_ok ∷ []))
        else if c == transceive_apdu
        then (do
          (r_apdu, rdata_len) ← call (cb.process_cb args)
          pure (edna_ok ∷ resize r_apdu rdata_len))
        else pure (unknown_command ∷ [])

    -- A command of the daemon: `some rv` ends the event loop.
    unfoldable pub command : ClientState → Received → Io W (Option EdnaRv × ClientState)
    command l (failure e) = do (rv, l') ← hang_up l disconnected; pure (some rv, l')
    command l (message []) = do (rv, l') ← hang_up l disconnected; pure (some rv, l')
    command l (message (c ∷ args)) = do
      rsp ← respond c args
      (sent, l1) ← send_to_daemon l rsp
      if int_eq sent (pos 0)
          then pure (none, l1)
          else (do (rv, l') ← hang_up l1 disconnected; pure (some rv, l'))

    unfoldable pub serve_command : ℕ → ClientState → Io W (Option EdnaRv × ClientState)
    serve_command fuel l = do (cmd, l1) ← recv_from_daemon fuel l; command l1 cmd

    module _ (others : ClientState → Io W ClientState) where
      -- After the event loop.
      unfoldable pub cancelled : ClientState → Io W (EdnaRv × ClientState)
      cancelled l = pure (ok, record l { must_cancel = false })

      -- The two nested loops; `rounds` bounds the calls of select.
      unfoldable pub event_loop : ℕ → ℕ → ClientState → Io W (EdnaRv × ClientState)
      event_loop zero fuel l w = spin
      event_loop (suc rounds) fuel l w =
          (do
            (_, ready) ← call (os.select (l.daemon_socket ∷ []))
            l1 ← others l
            if l1.must_cancel
                then cancelled l1
                else if ready l1.daemon_socket
                then (do
                  (stop, l2) ← serve_command fuel l1
                  elim stop [
                    | some rv ↦ pure (rv, l2)
                    | none ↦ λ w'.
                        let rest = event_loop rounds fuel l2 w' in
                        if l2.must_cancel then cancelled l2 w' else rest
                  ])
                else (λ w'. event_loop rounds fuel l1 w'))
            w

      -- A missing callback is refused, and the flag is cleared before the first round.
      unfoldable pub loop_and_process : Bool → ℕ → ℕ → ClientState → Io W (EdnaRv × ClientState)
      loop_and_process callbacks_given rounds fuel l =
          if not callbacks_given
          then pure (param_invalid, l)
          else event_loop rounds fuel (record l { must_cancel = false })
