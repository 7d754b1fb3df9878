-- ===== src/Emulator/Runs.antt =====
-- Runs of bin/edna_emu.cpp: the theorems at example values. One application, on socket 5, is
-- registered and selected; the reader hands over one C-APDU.
use edna.Base.{
  ℕ, ◌≡◌, refl, inr, true, false, List, [], ◌∷◌, none, some, pos, negsuc, ◌==◌, if◌then◌else◌,
  length, done, arith, fault,
}
use edna.Bytestring.{
  append, substr, substr_from, size_sub, of_bytes, resize, equal, of_hex, push_ushort,
}
use edna.Proto.{edna_ok}
use edna.Os.{Os, failed}
use edna.Os.Script.{Script, script_os, waiting}
use edna.Comm.{unregister, Comm, transceive, exchange, rapdu}
use edna.Comm.AidMap.{unregister_by_socket}
use edna.Comm.Frame.{
  frame, frame_size, overwrite, recv_from_client, with_high, with_low, recv_loop, read_byte,
  send_to_client,
}
use edna.Comm.Invariant.{IsValid}
use edna.Emulator.{Reader, Settings, set_atq_sak, delays, command_received, emulate}
use edna.Emulator.Events.{IsApart}
use edna.Emulator.Answer.{paused, after_send, command_received_answers}
use edna.Emulator.Release.{closed, wait_fails}

abbrev aid : List ℕ
aid = 0xf0 ∷ 0x01 ∷ []

abbrev daemon : Comm
daemon = record {
  application_registry = (aid, pos 5) ∷ [];
  selected_application = pos 5;
  should_run = true;
}

daemon-IsValid : IsValid daemon
daemon-IsValid = record {
  well_formed = record { sorted = (tt, tt); injective = (refl, tt); sockets = refl };
  selected = inr refl;
}

abbrev os : Os Script
os = script_os failed

abbrev read_apdu : List ℕ
read_apdu = 0x00 ∷ 0xb0 ∷ 0x00 ∷ 0x00 ∷ 0x04 ∷ []

-- A command of one byte gets the C-APDU behind its status byte; any other, an empty response.
abbrev reader : Reader Script
reader = record {
  establish = λ w. (true, w);
  connect = λ w. (true, w);
  control = λ cmd w. (some (if length cmd == 1 then 0x00 ∷ read_apdu else []), w);
  disconnect = λ w. w;
  release = λ w. record w { closed = negsuc 0 ∷ w.closed };
  cancel_requested = λ w. (false, w);
  sleep = λ n w. w;
  delay = λ t w. w;
}

-- A reader that is gone.
abbrev broken : Reader Script
broken = record reader { control = λ cmd w. (none, w) }

abbrev settings : Settings
settings = record { cmd_delay = pos 20; delay_success_only = true }

abbrev answering : Script
answering = waiting (pos 5) (frame (edna_ok ∷ 0x90 ∷ 0x00 ∷ []))

default_command : set_atq_sak (pos 4) (pos 0x28) ≡ fault
unfolding set_atq_sak push_ushort
default_command = refl

success_delays : delays settings (0xab ∷ 0x90 ∷ 0x00 ∷ []) ≡ true
unfolding delays equal substr_from substr size_sub of_bytes
success_delays = refl

reader-IsApart : IsApart reader (λ w. w.locked)
reader-IsApart = record {
  control_keeps = λ cmd w. refl;
  disconnect_keeps = λ w. refl;
  release_keeps = λ w. refl;
  sleep_keeps = λ n w. refl;
  delay_keeps = λ t w. refl;
}

abbrev exchanged : Script
exchanged =
    os.unlock
      (os.read (pos 5) 3
        (os.read (pos 5) 1
          (os.read (pos 5) 1
            (os.write (pos 5) (frame (0x03 ∷ read_apdu)) (os.lock answering)).1).1).1).1

exchange_returns :
    transceive os 4 daemon read_apdu answering ≡ done ((true, 0x90 ∷ 0x00 ∷ [], daemon), exchanged)
unfolding transceive exchange rapdu send_to_client recv_from_client with_high with_low recv_loop
    read_byte frame frame_size resize overwrite append substr equal of_hex substr_from size_sub
    of_bytes
exchange_returns = refl

command_received_answers_example :
    (answer : List ℕ) × (answer ≡ 0x90 ∷ 0x00 ∷ [])
    × (command_received os reader settings 4 daemon answering
        ≡ after_send os reader settings 4 daemon
            (reader.control (0x84 ∷ answer) (paused os reader settings 4 answer exchanged)))
command_received_answers_example =
    command_received_answers os reader settings 4 daemon daemon read_apdu (0x90 ∷ 0x00 ∷ []) true
      answering answering exchanged (omega arith) refl exchange_returns

-- Meanwhile the client hangs up.
abbrev alone : Comm
alone = record daemon { application_registry = [] }

abbrev released : Script
released = closed os broken settings 0xffff answering

abbrev after_close : Script
after_close = os.close (pos 5) released

hung_up : unregister os daemon (pos 5) released ≡ done (alone, after_close)
unfolding unregister unregister_by_socket
hung_up = refl

wait_fails_example :
    emulate os broken settings 0xffff (λ c. unregister os c (pos 5)) 9 9 [] daemon answering
    ≡ done (alone, closed os broken settings 0xffff after_close)
wait_fails_example =
    wait_fails os broken settings 0xffff (λ c. unregister os c (pos 5)) 8 8 [] daemon alone
      answering answering answering after_close after_close none refl refl hung_up refl
