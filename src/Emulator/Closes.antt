-- ===== src/Emulator/Closes.antt =====
-- bin/edna_emu.cpp: whenever the emulation gives up or ends, the context of PC/SC is released.
use edna.Base.{
  ℕ, Bool, true, false, not, ◌&&◌, List, [], ◌∷◌, Option, none, some, ◌≡◌, refl, pure, ◌==◌,
  if◌then◌else◌, Ensures, done-Ensures, bind-Ensures, then-Ensures, if-Ensures, option-Ensures,
}
use edna.Bytestring.{append, substr_from}
use edna.Os.{Os}
use edna.Comm.{Comm, application_selected, transceive, powerup_on_select, powerdown_on_deselect}
use edna.Emulator.{
  Reader, Settings, Next, proceed, stopped, returned, get_capdu, end_emu, buzzer_off, start_emu,
  skips, aborts, close_reader, transceive_control, commands, selected, deselected, send_rapdu,
  exchange_apdu, capdu, command_received, handle, leave,
}

abbrev pub is_returned : Next → Bool
is_returned (returned c) = true
is_returned n = false

module _ {W : Type 0} (os : Os W) (reader : Reader W) (settings : Settings) (fuel : ℕ)
    (has_context : W → Bool) (releases : (w : W) → has_context (reader.release w) ≡ false) where
  -- An answer that is none leaves no context behind.
  abbrev Answered : Option (List ℕ) → W → Type 0
  Answered o w = o ≡ none → has_context w ≡ false

  abbrev pub Prepared : Bool → W → Type 0
  Prepared b w = b ≡ false → has_context w ≡ false

  -- Nor does an event whose handling leaves the function.
  abbrev pub Handled : Next → W → Type 0
  Handled n w = is_returned n ≡ true → has_context w ≡ false

  abbrev Left : Comm → W → Type 0
  Left c w = has_context w ≡ false

  transceive_control-Answered :
      (cmd : List ℕ) (w : W) → Ensures Answered (transceive_control os reader settings fuel cmd w)
  unfolding transceive_control close_reader
  transceive_control-Answered cmd w =
      option-Ensures Answered (reader.control cmd w).0 _ _ (reader.control cmd w).1
        (λ e. done-Ensures Answered none _ (λ _. releases _))
        (λ bytes e. done-Ensures Answered (some bytes) _ (λ f. cc f))

  pub commands-Prepared :
      (cmds : List (List ℕ)) (w : W) → Ensures Prepared (commands os reader settings fuel cmds w)
  unfolding commands
  commands-Prepared [] w = done-Ensures Prepared true w (λ f. cc f)
  commands-Prepared (cmd ∷ cmds) w =
      bind-Ensures Answered Prepared (transceive_control os reader settings fuel cmd) _ w
        (transceive_control-Answered cmd w)
        (λ o w1 h1.
          option-Ensures Prepared o (pure false) (λ _. commands os reader settings fuel cmds) w1
            (λ e. done-Ensures Prepared false w1 (λ _. h1 e))
            (λ bytes e. commands-Prepared cmds w1))

  selected-Handled : (c : Comm) (w : W) → Ensures Handled (selected os reader settings fuel c w)
  unfolding selected
  selected-Handled c w =
      then-Ensures Handled (powerup_on_select os fuel c) _ w
        (λ d w1. done-Ensures Handled (proceed d) w1 (λ f. cc f))

  deselected-Handled :
      (atq_sak : List ℕ) (c : Comm) (w : W)
      → Ensures Handled (deselected os reader settings fuel atq_sak c w)
  unfolding deselected
  deselected-Handled atq_sak c w =
      if-Ensures Handled (application_selected c) _ _ w
        (then-Ensures Handled (powerdown_on_deselect os fuel c) _ w (λ d w1.
          bind-Ensures Prepared Handled
            (commands os reader settings fuel (end_emu ∷ atq_sak ∷ buzzer_off ∷ start_emu ∷ []))
            (λ b. if b then pure (proceed d) else pure (returned d)) (reader.sleep 2 w1)
            (commands-Prepared _ (reader.sleep 2 w1)) (on_commands d)))
        (then-Ensures Handled (powerdown_on_deselect os fuel c) _ w
          (λ d w1. done-Ensures Handled (proceed d) w1 (λ f. cc f)))
    where
      on_commands :
          (d : Comm) (b : Bool) (v : W)
          → Prepared b v
          → Ensures Handled ((if b then pure (proceed d) else pure (returned d)) v)
      on_commands d true v h = done-Ensures Handled (proceed d) v (λ f. cc f)
      on_commands d false v h = done-Ensures Handled (returned d) v (λ _. h refl)

  send_rapdu-Handled :
      (c : Comm) (rsp : List ℕ) (w : W)
      → Ensures Handled (send_rapdu os reader settings fuel c rsp w)
  unfolding send_rapdu
  send_rapdu-Handled c rsp w =
      then-Ensures Handled (transceive_control os reader settings fuel (append (0x84 ∷ []) rsp)) _ _
        (λ o w1.
          option-Ensures Handled o (pure (stopped c)) (λ _. pure (proceed c)) w1
            (λ e. done-Ensures Handled (stopped c) w1 (λ f. cc f))
            (λ bytes e. done-Ensures Handled (proceed c) w1 (λ f. cc f)))

  exchange_apdu-Handled :
      (c : Comm) (rdata : List ℕ) (w : W)
      → Ensures Handled (exchange_apdu os reader settings fuel c rdata w)
  unfolding exchange_apdu
  exchange_apdu-Handled c rdata w =
      then-Ensures Handled (transceive os fuel c (substr_from rdata 1)) _ w
        (λ r w1. send_rapdu-Handled r.2 _ w1)

  capdu-Handled :
      (c : Comm) (rdata : List ℕ) (w : W)
      → Ensures Handled (capdu os reader settings fuel c rdata w)
  unfolding capdu
  capdu-Handled c [] w = exchange_apdu-Handled c [] w
  capdu-Handled c (status ∷ rest) w =
      if-Ensures Handled (not (status == 0x00) && skips status) (pure (proceed c)) _ w
        (done-Ensures Handled (proceed c) w (λ f. cc f))
        (if-Ensures Handled (not (status == 0x00) && aborts status) (pure (stopped c)) _ w
          (done-Ensures Handled (stopped c) w (λ f. cc f))
          (exchange_apdu-Handled c (status ∷ rest) w))

  command_received-Handled :
      (c : Comm) (w : W) → Ensures Handled (command_received os reader settings fuel c w)
  unfolding command_received
  command_received-Handled c w =
      then-Ensures Handled (transceive_control os reader settings fuel get_capdu) _ w (λ o w1.
        option-Ensures Handled o (pure (stopped c)) (capdu os reader settings fuel c) w1
          (λ e. done-Ensures Handled (stopped c) w1 (λ f. cc f))
          (λ bytes e. capdu-Handled c bytes w1))

  pub handle-Handled :
      (atq_sak : List ℕ) (c : Comm) (event : ℕ) (w : W)
      → Ensures Handled (handle os reader settings fuel atq_sak c event w)
  unfolding handle
  handle-Handled atq_sak c event w =
      if-Ensures Handled (event == 0x01) (selected os reader settings fuel c) _ w
        (selected-Handled c w)
        (if-Ensures Handled (event == 0x04) (deselected os reader settings fuel atq_sak c) _ w
          (deselected-Handled atq_sak c w)
          (if-Ensures Handled (event == 0x02) (command_received os reader settings fuel c) _ w
            (command_received-Handled c w) (done-Ensures Handled (proceed c) w (λ f. cc f))))

  pub leave-Left : (c : Comm) (w : W) → Ensures Left (leave os reader settings fuel c w)
  unfolding leave close_reader
  leave-Left c w =
      bind-Ensures Answered Left (transceive_control os reader settings fuel end_emu) _ w
        (transceive_control-Answered end_emu w)
        (λ o w1 h1.
          option-Ensures Left o (pure c) _ w1 (λ e. done-Ensures Left c w1 (h1 e))
            (λ bytes e. done-Ensures Left c _ (releases _)))
