-- ===== src/Comm/Descriptors/Runs.antt =====
-- A run of bin/edna_comm.cpp where the table of open descriptors is kept: a client joins.
use edna.Base.{arith, ℕ, refl, true, List, [], ◌∷◌, ◌++◌, pos, int_eq, ◌≡◌, done}
use edna.Bytestring.{append, substr, of_hex, equal, less, hex_str, push_byte, substr_from, resize}
use edna.Proto.{edna_ok, get_api_version, register_aid}
use edna.Os.Script.{waiting}
use edna.Os.Files.{Files, files_os, files-IsTable, files-IsMutex}
use edna.Comm.Frame.{
  frame, read_byte, frame_size, overwrite, recv_from_client, recv_loop, send_to_client,
}
use edna.Comm.AidMap.{find, assign}
use edna.Comm.{
  Comm, init, answer, register, greet, new_client, serve, select_by_aid, rapdu, exchange,
  select_and_exchange, transceive,
}
use edna.Comm.Invariant.{IsWellFormed}
use edna.Comm.Card.{Move, card_of}
use edna.Comm.Reach.{Reach, exchanging}
use edna.Comm.Descriptors.{HasOpen}
use edna.Comm.Descriptors.Reach.{
  Reached, at_first, next, round_act, exchanging_act, other_act, Reached-HasOpen, Act-Move,
}

abbrev three : List ℕ
three = 0xf0 ∷ 0x03 ∷ []

-- Only the daemon's own socket, 3, is open, and a client waits to be accepted.
abbrev first_files : Files
first_files = record {
  script = record (waiting (pos 9) (frame (get_api_version ∷ []) ++ frame (register_aid ∷ three))) {
    arrivals = pos 9 ∷ [];
  };
  is_open = λ fd. int_eq fd (pos 3);
  looks = 0;
  path = true;
  marks = λ n. 0;
}

abbrev joined : Comm
joined = record init { application_registry = (three, pos 9) ∷ [] }

joins : (w : Files) × (serve files_os 100 init (pos 3) (λ fd. true) first_files ≡ done (joined, w))
unfolding serve init new_client greet register answer assign find recv_from_client recv_loop
    send_to_client read_byte frame frame_size overwrite resize push_byte substr_from
joins = (_, refl)

Reached-HasOpen_example :
    IsWellFormed joined
    × HasOpen (λ k w. w.is_open k) joined joins.0
    × Reach files_os (λ w. w.script.locked) 100 joined
Reached-HasOpen_example =
    Reached-HasOpen files_os (λ w. w.script.locked) (λ k w. w.is_open k) 100 files-IsMutex
      files-IsTable (next (at_first refl) (round_act (pos 3) (λ fd. true) joins.1))

-- The client's answer to an exchange arrives.
abbrev answering : Files
answering = record joins.0 { script = waiting (pos 9) (frame (edna_ok ∷ 0x90 ∷ 0x00 ∷ [])) }

abbrev selected : Comm
selected = record joined { selected_application = pos 9 }

abbrev select_three : List ℕ
select_three = 0x00 ∷ 0xa4 ∷ 0x04 ∷ 0x00 ∷ 0x02 ∷ 0xf0 ∷ 0x03 ∷ []

selects :
    (w : Files) × (transceive files_os 100 joined select_three answering
      ≡ done ((true, 0x90 ∷ 0x00 ∷ [], selected), w))
unfolding init transceive select_and_exchange select_by_aid exchange rapdu find recv_from_client
    recv_loop send_to_client equal substr of_hex less hex_str append frame read_byte frame_size
    overwrite substr_from resize
selects = (_, refl)

answering-Reached :
    Reached files_os (λ w. w.script.locked) (λ k w. w.is_open k) 100 joined answering
answering-Reached =
    next (next (at_first refl) (round_act (pos 3) (λ fd. true) joins.1))
      (other_act refl (λ k. refl))

Act-Move_example : Move (card_of joined) (exchanging select_three true) (card_of selected)
Act-Move_example =
    Act-Move files_os (λ w. w.script.locked) (λ k w. w.is_open k) 100 files-IsMutex files-IsTable
      answering-Reached
      (exchanging_act select_three (0x90 ∷ 0x00 ∷ []) true refl (omega arith) selects.1)
