-- ===== src/Emulator/Release.antt =====
-- bin/edna_emu.cpp: what the end of the emulation does to the reader.
use edna.Base.{ℕ, suc, ◌≡◌, false, List, Option, none, some, done, Io}
use edna.Os.{Os}
use edna.Comm.{Comm}
use edna.Emulator.{
  Reader, Settings, wait_event, end_emu, close_reader, transceive_control, wait, leave, emulate,
}

module _ {W : Type 0} (os : Os W) (reader : Reader W) (settings : Settings) (fuel : ℕ) where
  abbrev pub closed : W → W
  closed w = reader.release (reader.disconnect w)

  leave_lem :
      (c : Comm) (o : Option (List ℕ)) (w w' : W)
      → reader.control end_emu w ≡ (o, w')
      → leave os reader settings fuel c w ≡ done (c, closed w')
  unfolding leave transceive_control close_reader
  leave_lem c none w w' e = rw e
  leave_lem c (some bytes) w w' e = rw e

  -- The loop is entered, nobody has cancelled it, and the first wait for an event fails in PC/SC; what
  -- the communications thread does to its object meanwhile returns. Then the reader is disconnected and
  -- the context released; after that another command goes to the reader, and whatever becomes of it,
  -- it is disconnected and the context released once more.
  pub wait_fails :
      (others : Comm → Io W Comm) (rounds waits : ℕ) (atq_sak : List ℕ) (c d : Comm)
      (w w1 w2 w3 w4 : W) (o : Option (List ℕ))
      → reader.cancel_requested w ≡ (false, w1)
      → reader.control wait_event w1 ≡ (none, w2)
      → others c (closed w2) ≡ done (d, w3)
      → reader.control end_emu w3 ≡ (o, w4)
      → emulate os reader settings fuel others (suc rounds) (suc waits) atq_sak c w
        ≡ done (d, closed w4)
  unfolding emulate wait transceive_control close_reader
  wait_fails others rounds waits atq_sak c d w w1 w2 w3 w4 o e f k g =
      rw (e, f, k) (leave_lem d o w3 w4 g)
