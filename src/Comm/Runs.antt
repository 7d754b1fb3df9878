-- ===== src/Comm/Runs.antt =====
-- Runs of bin/edna_comm.cpp: two applications, a daemon between them and a reader, and the theorems
-- at example values. Client sockets are 5 and 7.
use edna.Base.{
  Io, pure, ℕ, ◌≡◌, refl, inr, Bool, true, false, List, [], ◌∷◌, ◌++◌, some, pos, done, ◌>>=◌,
  length-replicate, replicate, arith,
}
use edna.Bytestring.{substr, of_hex, equal, less, hex_str}
use edna.Proto.{get_api_version, register_aid, edna_ok, disconnect}
use edna.Os.{Os, failed}
use edna.Os.Script.{
  Script, script_os, empty_script, waiting, script-IsStream, script-IsBounded, script-IsLively,
  script-IsMutex, script-IsOpen,
}
use edna.Comm.Frame.{frame, recv_from_client}
use edna.Comm.AidMap.{Registry, find}
use edna.Comm.AidMap.Laws.{IsSorted}
use edna.Comm.AidMap.Sockets.{has_socket, without}
use edna.Comm.{
  Comm, application_selected, select_header, rapdu, exchange, transceive, new_client,
  powerup_on_select, powerdown_on_deselect, client_message,
}
use edna.Comm.Invariant.{IsWellFormed, IsValid, Admits}
use edna.Comm.Exchange.{IsExchange}
use edna.Comm.Handshake.{concluded, new_client_handshake}
use edna.Comm.Delivery.{select_apdu, Answers, transceive_select, transceive_forward, exchange_long}
use edna.Comm.Power.{PowerDone}
use edna.Comm.Serve.{stale_selection}
use edna.Comm.Correct.{transceive_correct, new_client_correct, power_correct}

abbrev one : List ℕ
one = 0xf0 ∷ 0x01 ∷ []

abbrev two : List ℕ
two = 0xf0 ∷ 0x02 ∷ []

abbrev both : Registry
both = (one, pos 5) ∷ (two, pos 7) ∷ []

-- Both applications are registered, and the second one is selected.
abbrev daemon : Comm
daemon = record { application_registry = both; selected_application = pos 7; should_run = true }

one_first : less one two ≡ true
unfolding less hex_str
one_first = refl

both-IsSorted : IsSorted both
both-IsSorted = ((one_first, tt), (tt, tt))

daemon-IsWellFormed : IsWellFormed daemon
daemon-IsWellFormed = record {
  sorted = both-IsSorted;
  injective = (refl, (refl, tt));
  sockets = refl;
}

daemon-IsValid : IsValid daemon
daemon-IsValid = record { well_formed = daemon-IsWellFormed; selected = inr refl }

abbrev os : Os Script
os = script_os failed

-- The answer of an application: EDNA_OK and the status word 9000.
abbrev answered_by : ℕ → Script
answered_by fd = waiting (pos fd) (frame (edna_ok ∷ 0x90 ∷ 0x00 ∷ []))

abbrev read_apdu : List ℕ
read_apdu = 0x00 ∷ 0xb0 ∷ 0x00 ∷ 0x00 ∷ 0x04 ∷ []

selects_one :
    Answers os
      (pos 5)
      (λ w. w.inbox (pos 5))
      (script-IsStream failed 5)
      0xffff
      (omega arith)
      refl
      (select_apdu 0x00 one [])
      (0x90 ∷ 0x00 ∷ [])
      []
      (answered_by 5)
unfolding frame select_apdu
selects_one = record {
  fits = omega arith;
  answer_fits = omega arith;
  taken = refl;
  answered = refl;
}

reads_two :
    Answers os
      (pos 7)
      (λ w. w.inbox (pos 7))
      (script-IsStream failed 7)
      0xffff
      (omega arith)
      refl
      read_apdu
      (0x90 ∷ 0x00 ∷ [])
      []
      (answered_by 7)
unfolding frame
reads_two = record { fits = omega arith; answer_fits = omega arith; taken = refl; answered = refl }

one_at_five : find one both ≡ some (pos 5)
unfolding find less hex_str
one_at_five = refl

not_select : equal (substr read_apdu 0 3) select_header ≡ false
unfolding equal substr of_hex
not_select = refl

transceive_correct_example :
    (r : Bool × List ℕ × Comm) × (w' : Script) × (transceive os 0xffff daemon read_apdu
        (answered_by 7)
      ≡ done (r, w'))
    × IsExchange daemon read_apdu r
    × (w'.locked ≡ false)
transceive_correct_example =
    transceive_correct os script-IsBounded script-IsLively 0xffff (omega arith) daemon
      (λ w. w.locked) (script-IsMutex failed) read_apdu (answered_by 7) daemon-IsValid refl

transceive_select_example :
    (w' : Script) × (transceive os 0xffff daemon (select_apdu 0x00 one []) (answered_by 5)
      ≡ done
          ((true, 0x90 ∷ 0x00 ∷ [], record daemon { selected_application = pos 5 }), os.unlock w'))
    × (w'.inbox (pos 5) ≡ [])
transceive_select_example =
    transceive_select os (pos 5) (λ w. w.inbox (pos 5)) (script-IsStream failed 5) 0xffff
      (omega arith) refl daemon 0x00 one [] (0x90 ∷ 0x00 ∷ []) [] (answered_by 5) one_at_five
      selects_one

transceive_forward_example :
    (w' : Script) × (transceive os 0xffff daemon read_apdu (answered_by 7)
      ≡ done ((true, 0x90 ∷ 0x00 ∷ [], daemon), os.unlock w'))
    × (w'.inbox (pos 7) ≡ [])
transceive_forward_example =
    transceive_forward os (pos 7) (λ w. w.inbox (pos 7)) (script-IsStream failed 7) 0xffff
      (omega arith) refl daemon read_apdu (0x90 ∷ 0x00 ∷ []) [] (answered_by 7) not_select refl
      reads_two

abbrev three : List ℕ
three = 0xf0 ∷ 0x03 ∷ []

abbrev greeting : Script
greeting = waiting (pos 9) (frame (get_api_version ∷ []) ++ (frame (register_aid ∷ three) ++ []))

new_client_handshake_example :
    (w' : Script) × (w'.inbox (pos 9) ≡ [])
    × (new_client os 0xffff daemon (pos 9) greeting
        ≡ concluded os
            (pos 9)
            (λ w. w.inbox (pos 9))
            (script-IsStream failed 9)
            (script-IsOpen failed 9)
            0xffff
            (omega arith)
            daemon
            three
            (omega arith)
            (omega arith)
            w'
            (find three daemon.application_registry))
new_client_handshake_example =
    new_client_handshake os (pos 9) (λ w. w.inbox (pos 9)) (script-IsStream failed 9)
      (script-IsOpen failed 9) 0xffff (omega arith) daemon three (omega arith) (omega arith) []
      greeting refl

new_client_correct_example :
    (c' : Comm) × (w' : Script) × (new_client os 0xffff daemon (pos 9) greeting ≡ done (c', w'))
    × Admits daemon (pos 9) c'
    × IsValid c'
new_client_correct_example =
    new_client_correct os script-IsBounded script-IsLively 0xffff (omega arith) daemon (pos 9)
      greeting refl refl daemon-IsValid

power_correct_example :
    ((c' : Comm) × (w' : Script) × (powerup_on_select os 0xffff daemon empty_script ≡ done (c', w'))
      × PowerDone (λ w. w.locked) daemon c' w')
    × ((c' : Comm) × (w' : Script) × (powerdown_on_deselect os 0xffff daemon empty_script
          ≡ done (c', w'))
        × PowerDone (λ w. w.locked) daemon c' w')
power_correct_example =
    power_correct os script-IsBounded script-IsLively 0xffff (omega arith) daemon (λ w. w.locked)
      (script-IsMutex failed) empty_script

-- A client waits for the daemon's socket to accept it.
abbrev arriving : Script
arriving = record greeting { arrivals = pos 9 ∷ [] }

two_selected : application_selected daemon ≡ true
unfolding application_selected
two_selected = refl

stale_selection_example :
    (c' : Comm) × (client_message os daemon (pos 7) (some (disconnect ∷ [])) empty_script
      ≡ done (c', os.close (pos 7) empty_script))
    × (application_selected c' ≡ true)
    × (has_socket c'.selected_application c'.application_registry ≡ false)
    × ((aid : List ℕ) → find aid c'.application_registry ≡ without (pos 7) (find aid both))
stale_selection_example =
    stale_selection os daemon (some (disconnect ∷ [])) empty_script daemon-IsValid two_selected refl

abbrev huge : List ℕ
huge = replicate 0xffff 0

exchange_long_example :
    exchange os 0xffff daemon huge empty_script
    ≡ (recv_from_client os 0xffff (pos 7) [] >>= rapdu os daemon) (os.lock empty_script)
exchange_long_example =
    exchange_long os 0xffff daemon huge empty_script refl
      (omega (arith, length-replicate {A = ℕ} 0xffff 0))

abbrev stopped : Script → Bool × Script
stopped w = (false, w)

abbrev alone : Comm → Io Script Comm
alone c = pure c
