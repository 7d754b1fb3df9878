-- ===== src/Client/Runs.antt =====
-- Runs of lib/edna_lib_export.cpp: the theorems at example values. The daemon's socket is 3.
use edna.Base.{
  ℕ, zero, suc, ◌≡◌, refl, true, false, List, [], ◌∷◌, ◌++◌, pos, negsuc, Io, done, Succeeds, arith,
}
use edna.Proto.{api_version, edna_ok, transceive_apdu}
use edna.Codes.{EdnaRv, ok}
use edna.Os.{Os, failed}
use edna.Os.Script.{
  Script, script_os, waiting, script-IsStream, script-IsBounded, script-IsLively, script-IsOpen,
}
use edna.Bytestring.{of_bytes, resize}
use edna.Comm.Frame.{
  frame, frame_size, overwrite, recv_from_client, with_high, with_low, recv_loop, read_byte,
}
use edna.Client.{
  ClientState, start, lib_init, lib_cancel, loop_and_process, Callbacks, serve_command, lib_connect,
  connect_socket, request_version, versioned, registered, send_to_daemon, recv_from_daemon,
  received,
}
use edna.Client.Cancel.{IsQuiet, loop_and_process_cancelled}
use edna.Client.State.{Connected}
use edna.Client.Connect.{lib_connect_correct}
use edna.Client.Serve.{Answered, finished, serve_command_answers}

abbrev os : Os Script
os = script_os failed

abbrev aid : List ℕ
aid = 0xf0 ∷ 0x01 ∷ []

-- The daemon accepts the version and the AID.
abbrev accepting : Script
accepting = waiting (pos 3) (frame (api_version ∷ []) ++ frame (edna_ok ∷ []))

abbrev up : ClientState
up = record { initialised = true; connected = true; must_cancel = false; daemon_socket = pos 3 }

-- The application answers every C-APDU with 9000.
abbrev callbacks : Callbacks Script
callbacks = record {
  process_cb = λ apdu w. ((0x90 ∷ 0x00 ∷ [], 2), w);
  power_up_cb = λ w. w;
  power_down_cb = λ w. w;
}

abbrev commanded : Script
commanded = waiting (pos 3) (frame (transceive_apdu ∷ 0x00 ∷ 0xb0 ∷ []) ++ [])

connects :
    (w' : Script) × (lib_connect os 0xffff aid 2 (lib_init start).1 accepting ≡ done ((ok, up), w'))
unfolding lib_connect connect_socket request_version versioned registered send_to_daemon
    recv_from_daemon received recv_from_client with_high with_low recv_loop read_byte frame of_bytes
    frame_size resize overwrite start lib_init
connects = (_, refl)

not_up : start.connected ≡ false
unfolding start
not_up = refl

lib_connect_correct_example :
    (p : EdnaRv × ClientState) × (w' : Script) × (lib_connect os 0xffff aid 2 start accepting
      ≡ done (p, w'))
    × Connected start (pos 3) p w'
lib_connect_correct_example =
    lib_connect_correct os script-IsBounded script-IsLively 0xffff (omega arith) aid 2 start
      accepting not_up

serve_command_answers_example :
    (rsp : List ℕ) × (w1 w2 : Script) × (w1.inbox (pos 3) ≡ [])
    × Answered callbacks transceive_apdu (0x00 ∷ 0xb0 ∷ []) rsp w1 w2
    × (serve_command os callbacks 0xffff up commanded
        ≡ finished os callbacks 3
            (λ w. w.inbox (pos 3))
            (script-IsStream failed 3)
            (script-IsOpen failed 3)
            up
            refl
            refl
            rsp
            w2)
serve_command_answers_example =
    serve_command_answers os callbacks 3 (λ w. w.inbox (pos 3)) (script-IsStream failed 3)
      (script-IsOpen failed 3) up refl refl 0xffff transceive_apdu (0x00 ∷ 0xb0 ∷ []) [] commanded
      (omega arith) (omega arith) refl

-- A daemon that says nothing: the world counts the time-outs that are left, and then another thread
-- calls edna_lib_cancel.
abbrev silent : Os ℕ
silent = record {
  read = λ fd n w. (failed, w);
  write = λ fd bytes w. (negsuc 0, w);
  close = λ fd w. w;
  lock = λ w. w;
  unlock = λ w. w;
  accept = λ fd w. (negsuc 0, w);
  select = λ fds w. ((pos 0, λ fd. false), w);
  socket = λ w. (negsuc 0, w);
  bind = λ fd w. (negsuc 0, w);
  listen = λ fd n w. (negsuc 0, w);
  connect = λ fd w. (negsuc 0, w);
  unlink = λ w. w;
}

abbrev patient : ClientState → Io ℕ ClientState
patient l zero = done (lib_cancel l, zero)
patient l (suc n) = done (l, n)

patient-waits :
    (l : ClientState) (w n : ℕ) → w ≡ suc n → (v : ℕ) × (patient l w ≡ done (l, v)) × (v ≡ n)
patient-waits l zero n e = absurd (omega (arith, e))
patient-waits l (suc m) n e = (m, refl, omega (arith, e))

patient-cancels : (l : ClientState) (w : ℕ) → w ≡ 0 → patient l w ≡ done (lib_cancel l, w)
patient-cancels l zero e = refl
patient-cancels l (suc n) e = absurd (omega (arith, e))

silent-IsQuiet : IsQuiet silent patient (λ w. w)
silent-IsQuiet = record {
  select_idle = λ fd w. refl;
  select_keeps = λ fd w. refl;
  waits = patient-waits;
  cancels = patient-cancels;
}

abbrev ignoring : Callbacks ℕ
ignoring = record {
  process_cb = λ apdu w. (([], 0), w);
  power_up_cb = λ w. w;
  power_down_cb = λ w. w;
}

loop_and_process_cancelled_example :
    Succeeds (λ r v. r ≡ (ok, up)) (loop_and_process silent ignoring patient true 4 0xffff up 3)
loop_and_process_cancelled_example =
    loop_and_process_cancelled silent patient ignoring (λ w. w) silent-IsQuiet 0xffff 4 up 3
      (omega arith)
