-- ===== src/Comm/Frame/Runs.antt =====
-- Runs of bin/edna_comm.cpp: the theorems on messages at example values. The client's socket is 5.
use edna.Base.{◌<◌, ◌≡◌, refl, true, [], ◌∷◌, ◌++◌, some, pos, done, spin, arith}
use edna.Os.{Os, failed, got}
use edna.Os.Script.{
  Script, script_os, empty_script, waiting, update, script-IsStream, script-IsClosed,
}
use edna.Comm.Frame.{frame, frame_size, read_byte, recv_from_client, send_to_client}
use edna.Comm.Frame.Receive.{Reads, recv_from_client-frame}
use edna.Comm.Frame.Send.{IsLink, recv-send}
use edna.Comm.Frame.Stall.{recv_from_client_closed}

abbrev os : Os Script
os = script_os failed

-- A message in a stream, a stale vector, and another message behind it.
recv_from_client-frame_example :
    Reads os
      (pos 5)
      (λ w. w.inbox (pos 5))
      (script-IsStream failed 5)
      (recv_from_client os 3 (pos 5) (9 ∷ []) (waiting (pos 5) (frame (1 ∷ 2 ∷ 3 ∷ []) ++ 4 ∷ [])))
      (1 ∷ 2 ∷ 3 ∷ [])
      (4 ∷ [])
recv_from_client-frame_example =
    recv_from_client-frame os (pos 5) (λ w. w.inbox (pos 5)) (script-IsStream failed 5) 3 (9 ∷ [])
      (1 ∷ 2 ∷ 3 ∷ []) (4 ∷ []) (waiting (pos 5) (frame (1 ∷ 2 ∷ 3 ∷ []) ++ 4 ∷ [])) (omega arith)
      (omega arith) refl

link : IsLink os (pos 4) (λ w. w.inbox (pos 5))
link bytes w h = refl

sent_by_four :
    send_to_client os (pos 4) (1 ∷ 2 ∷ []) empty_script
    ≡ done (true, record empty_script { inbox = update (λ s. []) (pos 5) (frame (1 ∷ 2 ∷ [])) })
unfolding send_to_client frame
sent_by_four = refl

recv-send_example :
    Reads os
      (pos 5)
      (λ w. w.inbox (pos 5))
      (script-IsStream failed 5)
      (recv_from_client os 2
        (pos 5)
        []
        (record empty_script { inbox = update (λ s. []) (pos 5) (frame (1 ∷ 2 ∷ [])) }))
      (1 ∷ 2 ∷ [])
      []
recv-send_example =
    recv-send os (pos 4) (pos 5) (λ w. w.inbox (pos 5)) link (script-IsStream failed 5) 2 []
      (1 ∷ 2 ∷ []) empty_script
      (record empty_script { inbox = update (λ s. []) (pos 5) (frame (1 ∷ 2 ∷ [])) }) (omega arith)
      (omega arith) refl sent_by_four

-- A client that announces five bytes, and is gone.
abbrev at_header : Script
at_header = waiting (pos 5) (0 ∷ 5 ∷ [])

abbrev closing : Os Script
closing = script_os (got [])

first_byte :
    read_byte closing (pos 5) at_header ≡ done (some 0, (closing.read (pos 5) 1 at_header).1)
unfolding read_byte
first_byte = refl

second_byte :
    read_byte closing (pos 5) (closing.read (pos 5) 1 at_header).1
    ≡ done (some 5, (closing.read (pos 5) 1 (closing.read (pos 5) 1 at_header).1).1)
unfolding read_byte
second_byte = refl

five : 0 < frame_size 0 5
unfolding frame_size
five = omega arith

recv_from_client_closed_example : recv_from_client closing 100000 (pos 5) [] at_header ≡ spin
recv_from_client_closed_example =
    recv_from_client_closed closing (pos 5) (λ w. w.inbox (pos 5) ≡ []) (script-IsClosed (pos 5))
      100000 [] 0 5 at_header (closing.read (pos 5) 1 at_header).1
      (closing.read (pos 5) 1 (closing.read (pos 5) 1 at_header).1).1 first_byte second_byte refl
      five
