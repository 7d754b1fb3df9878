-- ===== src/Emulator/Answer.antt =====
-- bin/edna_emu.cpp: each C-APDU that the reader hands over is answered once.
use edna.Base.{
  ℕ, ◌<◌, ◌^◌, ◌≡◌, refl, Bool, List, ◌∷◌, Option, none, some, Run, done, if◌then◌else◌, length,
  arith,
}
use edna.Bytestring.{append}
use edna.Bytestring.Slice.{substr_from_lem}
use edna.Os.{Os}
use edna.Comm.{Comm, transceive, sw_failure}
use edna.Emulator.{
  Reader, Settings, Next, proceed, stopped, get_capdu, delays, close_reader, transceive_control,
  send_rapdu, exchange_apdu, capdu, command_received,
}

module _ {W : Type 0} (os : Os W) (reader : Reader W) (settings : Settings) (fuel : ℕ) where
  -- The world after the pause that the settings ask for before an answer.
  abbrev pub paused : List ℕ → W → W
  paused rsp w = if delays settings rsp then reader.delay settings.cmd_delay w else w

  -- What follows the last command: the loop goes on, or the reader is given up and the loop ends.
  abbrev pub after_send : Comm → Option (List ℕ) × W → Run (Next × W)
  after_send c (none, w) = done (stopped c, reader.release (reader.disconnect w))
  after_send c (some bytes, w) = done (proceed c, w)

  send_rapdu_lem :
      (c : Comm) (rsp : List ℕ) (w : W)
      → send_rapdu os reader settings fuel c rsp w
        ≡ after_send c (reader.control (0x84 ∷ rsp) (paused rsp w))
  unfolding send_rapdu transceive_control close_reader append
  send_rapdu_lem c rsp w = on_result (reader.control (0x84 ∷ rsp) (paused rsp w)) refl
    where
      on_result :
          (r : Option (List ℕ) × W)
          → reader.control (0x84 ∷ rsp) (paused rsp w) ≡ r
          → send_rapdu os reader settings fuel c rsp w ≡ after_send c r
      on_result (none, w') e = rw e
      on_result (some bytes, w') e = rw e

  -- The reader hands over a C-APDU behind a zero status byte, and the communications thread returns
  -- from the exchange. Then the reader gets exactly one command: the R-APDU of that exchange behind
  -- 84, or 6f00 if it failed, after the pause that the settings ask for. If the reader takes it, the
  -- loop goes on; if not, the reader is disconnected, the context released, and the loop ends. The
  -- object is the one that the exchange left.
  pub command_received_answers :
      (c c' : Comm) (apdu rsp : List ℕ) (success : Bool) (w w1 w2 : W)
      → length apdu < 2 ^ 32
      → reader.control get_capdu w ≡ (some (0x00 ∷ apdu), w1)
      → transceive os fuel c apdu w1 ≡ done ((success, rsp, c'), w2)
      → (answer : List ℕ) × (answer ≡ (if success then rsp else sw_failure))
        × (command_received os reader settings fuel c w
            ≡ after_send c' (reader.control (0x84 ∷ answer) (paused answer w2)))
  unfolding command_received capdu exchange_apdu transceive_control
  command_received_answers c c' apdu rsp success w w1 w2 h got exchanged = (
    (if success then rsp else sw_failure),
    refl,
    rw (got, substr_from_lem (0x00 ∷ apdu) 1 (omega arith), exchanged)
        (send_rapdu_lem c' (if success then rsp else sw_failure) w2),
  )
