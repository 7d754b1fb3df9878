-- ===== src/Comm/Card/Runs.antt =====
-- Runs of bin/edna_comm.cpp from the constructor on: a client registers, and is selected.
use edna.Base.{arith, ℕ, ◌≡◌, refl, true, List, [], ◌∷◌, ◌++◌, pos, done}
use edna.Bytestring.{append, push_byte, substr, substr_from, of_hex, equal, less, hex_str, resize}
use edna.Proto.{get_api_version, register_aid, edna_ok}
use edna.Os.{failed}
use edna.Os.Script.{Script, script_os, waiting, script-IsMutex}
use edna.Comm.Frame.{
  frame, read_byte, frame_size, overwrite, recv_from_client, recv_loop, send_to_client,
}
use edna.Comm.AidMap.{find, assign}
use edna.Comm.{
  Comm, init, answer, register, greet, new_client, select_by_aid, rapdu, exchange,
  select_and_exchange, transceive, serve,
}
use edna.Comm.Invariant.{IsWellFormed}
use edna.Comm.Reach.{
  Step, exchanges, exchanging, serves, Reach, from_init, later, Reach-IsWellFormed,
}

abbrev three : List ℕ
three = 0xf0 ∷ 0x03 ∷ []

-- A client waits for the daemon's socket to accept it.
abbrev arriving : Script
arriving = record (waiting (pos 9) (frame (get_api_version ∷ []) ++ frame (register_aid ∷ three))) {
  arrivals = pos 9 ∷ [];
}

abbrev joined : Comm
joined = record init { application_registry = (three, pos 9) ∷ [] }

abbrev selected : Comm
selected = record joined { selected_application = pos 9 }

abbrev select_three : List ℕ
select_three = 0x00 ∷ 0xa4 ∷ 0x04 ∷ 0x00 ∷ 0x02 ∷ 0xf0 ∷ 0x03 ∷ []

abbrev answering : Script
answering = waiting (pos 9) (frame (edna_ok ∷ 0x90 ∷ 0x00 ∷ []))

joins :
    (w : Script) × (serve (script_os failed) 100 init (pos 3) (λ fd. true) arriving
      ≡ done (joined, w))
unfolding serve init new_client greet register answer assign find recv_from_client recv_loop
    send_to_client read_byte frame frame_size overwrite resize push_byte substr_from
joins = (_, refl)

selects :
    (w : Script) × (transceive (script_os failed) 100 joined select_three answering
      ≡ done ((true, 0x90 ∷ 0x00 ∷ [], selected), w))
unfolding init transceive select_and_exchange select_by_aid exchange rapdu find recv_from_client
    recv_loop send_to_client equal substr of_hex less hex_str append frame read_byte frame_size
    overwrite substr_from resize
selects = (_, refl)

abbrev Reached : Comm → Type 0
Reached c = Reach (script_os failed) (λ w. w.locked) 100 c

joined-Reached : Reached joined
unfolding init
joined-Reached = later from_init (serves (pos 3) (λ fd. true) arriving joins.0 (λ _. refl) joins.1)

selects-Step :
    Step (script_os failed) (λ w. w.locked) 100 joined (exchanging select_three true) selected
selects-Step =
    exchanges select_three (0x90 ∷ 0x00 ∷ []) true answering selects.0 refl (omega arith) selects.1

Reach-IsWellFormed_example : IsWellFormed selected
Reach-IsWellFormed_example =
    Reach-IsWellFormed (script_os failed) (λ w. w.locked) 100 (script-IsMutex failed)
      (later joined-Reached selects-Step)
