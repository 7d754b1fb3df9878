-- ===== src/Client/Serve.antt =====
-- lib/edna_lib_export.cpp: the event loop answers each command of the daemon.
use edna.Base.{
  ℕ, ◌≤◌, ◌<◌, ◌≡◌, ◌≢◌, refl, false, ==_iff, inl, inr, true, List, [], ◌∷◌, ◌++◌, Option, none,
  some, pos, minus_one, int_eq_iff, Run, done, ltb, ◌==◌, if◌then◌else◌, length, Bool-cases,
  le→ltb_false, lt→ltb, ltb→lt, ltb_false→le, arith,
}
use edna.Bytestring.{resize}
use edna.Proto.{power_up, power_down, transceive_apdu, edna_ok, unknown_command}
use edna.Codes.{EdnaRv, disconnected}
use edna.Os.{Os, IsStream, IsOpen}
use edna.Comm.Frame.{frame}
use edna.Comm.Frame.Receive.{recv_from_client-frame}
use edna.Client.{
  ClientState, dropped, message, Callbacks, send_to_daemon, received, recv_from_daemon, hang_up,
  respond, command, serve_command,
}

-- What the protocol promises for the command in byte `c`: its answer, and what its callback does to the
-- world. A C-APDU goes to the application in full, and of the buffer that the application gives back, as
-- many bytes are answered as it says; any other byte is refused, and calls nothing.
pub data Answered {W : Type 0} (cb : Callbacks W) (c : ℕ) (args rsp : List ℕ) (w w' : W)
    : Type 0 where
  powered_up :
      c ≡ power_up → rsp ≡ edna_ok ∷ [] → w' ≡ cb.power_up_cb w → Answered cb c args rsp w w'
  powered_down :
      c ≡ power_down → rsp ≡ edna_ok ∷ [] → w' ≡ cb.power_down_cb w → Answered cb c args rsp w w'
  exchanged :
      (r_apdu : List ℕ) (rdata_len : ℕ)
      → c ≡ transceive_apdu
      → cb.process_cb args w ≡ ((r_apdu, rdata_len), w')
      → rsp ≡ edna_ok ∷ resize r_apdu rdata_len
      → Answered cb c args rsp w w'
  refused :
      c ≢ power_up
      → c ≢ power_down
      → c ≢ transceive_apdu
      → rsp ≡ unknown_command ∷ []
      → w' ≡ w
      → Answered cb c args rsp w w'

differs : (a b : ℕ) → (a == b) ≡ false → a ≢ b
differs a b h e = cc ((==_iff a b).1 e, h)

respond-Answered :
    {W : Type 0} (cb : Callbacks W) (os : Os W) (c : ℕ) (args : List ℕ) (w : W)
    → (rsp : List ℕ) × (w' : W) × (respond os cb c args w ≡ done (rsp, w'))
      × Answered cb c args rsp w w'
unfolding respond
respond-Answered cb os c args w = elim (Bool-cases (c == power_up)) [
  | inl e ↦
      rw e (edna_ok ∷ [], cb.power_up_cb w, refl, powered_up ((==_iff c power_up).0 e) refl refl)
  | inr e ↦ elim (Bool-cases (c == power_down)) [
    | inl f ↦
        rw (e, f)
          (
            edna_ok ∷ [],
            cb.power_down_cb w,
            refl,
            powered_down ((==_iff c power_down).0 f) refl refl,
          )
    | inr f ↦ elim (Bool-cases (c == transceive_apdu)) [
      | inl g ↦
          rw (e, f, g)
            (
              edna_ok ∷ resize _ _,
              (cb.process_cb args w).1,
              refl,
              exchanged _ _ ((==_iff c transceive_apdu).0 g) refl refl,
            )
      | inr g ↦
          rw (e, f, g)
            (
              unknown_command ∷ [],
              w,
              refl,
              refused (differs c power_up e) (differs c power_down f) (differs c transceive_apdu g)
                  refl refl,
            )
    ]
  ]
]

module _ {W : Type 0} (os : Os W) (cb : Callbacks W) (fd : ℕ) (pending : W → List ℕ)
    (stream : IsStream os (pos fd) pending) (writable : IsOpen os (pos fd) pending)
    (l : ClientState) (up : l.connected ≡ true) (same : l.daemon_socket ≡ pos fd) where
  sent_answer :
      (tx : List ℕ) (w : W)
      → length tx ≤ 0xffff
      → send_to_daemon os l tx w ≡ done ((pos 0, l), (os.write (pos fd) (frame tx) w).1)
  unfolding send_to_daemon
  sent_answer tx w h = simp (
    up,
    same,
    le→ltb_false 0xffff (length tx) h,
    writable.write_whole (frame tx) w,
    (int_eq_iff (pos (length (frame tx))) _).1 refl,
  )

  refused_answer :
      (tx : List ℕ) (w : W)
      → 0xffff < length tx
      → send_to_daemon os l tx w ≡ done ((minus_one, l), w)
  unfolding send_to_daemon
  refused_answer tx w h = simp (up, same, lt→ltb 0xffff (length tx) h)

  recv_command :
      (fuel : ℕ) (msg rest : List ℕ) (w : W)
      → length msg ≤ 0xffff
      → 0xffff ≤ fuel
      → pending w ≡ frame msg ++ rest
      → (w' : W) × (recv_from_daemon os fuel l w ≡ done ((message msg, l), w'))
        × (pending w' ≡ rest)
  unfolding recv_from_daemon received
  recv_command fuel msg rest w h k p =
      let (w1, e, q) =
        recv_from_client-frame os (pos fd) pending stream fuel [] msg rest w (omega arith)
          (omega arith) p in
      (w1, simp (up, same, e), q)

  -- What follows the answer: it is sent, and the loop goes on with the same state; or it is too
  -- long, nothing is sent, the connection is closed, and the loop ends.
  abbrev pub finished : List ℕ → W → Run ((Option EdnaRv × ClientState) × W)
  finished rsp w =
      if ltb 0xffff (length rsp)
      then done ((some disconnected, dropped l), os.close (pos fd) w)
      else done ((none, l), (os.write (pos fd) (frame rsp) w).1)

  send_answer :
      (c : ℕ) (args rsp : List ℕ) (w1 w2 : W)
      → respond os cb c args w1 ≡ done (rsp, w2)
      → command os cb l (message (c ∷ args)) w1 ≡ finished rsp w2
  unfolding command hang_up
  send_answer c args rsp w1 w2 f = elim (Bool-cases (ltb 0xffff (length rsp))) [
    | inl e ↦ simp (f, e, refused_answer rsp w2 (ltb→lt 0xffff (length rsp) e), same)
    | inr e ↦ simp (f, e, sent_answer rsp w2 (ltb_false→le 0xffff (length rsp) e))
  ]

  -- With the connection up under a socket that takes what is written, a command that waits on it is
  -- taken off it and answered. To POWER_UP and to POWER_DOWN, the callback of that name is called, and
  -- the answer is EDNA_OK; to TRANSCEIVE_APDU, process_cb is called with all the bytes behind the
  -- command, and the answer is EDNA_OK and as many bytes of the R-APDU as it says; to any other
  -- command, no callback is called, and the answer is UNKNOWN_COMMAND. The answer is written as one
  -- frame, and the loop goes on with the same state; only if it has more than 0xffff bytes, nothing is
  -- sent, the connection is closed and given up, and the loop ends with ERV_DISCONNECTED. 0xffff reads
  -- are enough for the command.
  pub serve_command_answers :
      (fuel c : ℕ) (args rest : List ℕ) (w : W)
      → length args < 0xffff
      → 0xffff ≤ fuel
      → pending w ≡ frame (c ∷ args) ++ rest
      → (rsp : List ℕ) × (w1 w2 : W) × (pending w1 ≡ rest)
        × Answered cb c args rsp w1 w2
        × (serve_command os cb fuel l w ≡ finished rsp w2)
  unfolding serve_command
  serve_command_answers fuel c args rest w h k p =
      let (w1, e, q) = recv_command fuel (c ∷ args) rest w (omega arith) k p in
      let (rsp, w2, f, g) = respond-Answered cb os c args w1 in
      (rsp, w1, w2, q, g, rw e (send_answer c args rsp w1 w2 f))
