-- ===== src/Emulator/Keeps.antt =====
-- bin/edna_emu.cpp: what the calls of the system and of the reader leave alone, the handling of an
-- event leaves alone; and whenever it gives up, the context of PC/SC is released.
use edna.Base.{
  ℕ, Bool, true, false, not, ◌&&◌, List, [], ◌∷◌, none, some, ℤ, pure, ◌==◌, if◌then◌else◌, After,
  done-After, bind-After, if-After, option-After,
}
use edna.Bytestring.{append, substr_from}
use edna.Os.{Os, OsKeeps}
use edna.Comm.{Comm, application_selected, transceive, powerup_on_select, powerdown_on_deselect}
use edna.Comm.Keeps.{transceive-After, broadcast-After}
use edna.Emulator.{
  Reader, Settings, proceed, stopped, returned, get_capdu, end_emu, buzzer_off, start_emu, skips,
  aborts, delays, close_reader, transceive_control, commands, selected, deselected, send_rapdu,
  exchange_apdu, capdu, command_received, handle,
}

-- A property of the world that no call to the reader changes, once it is connected.
pub record ReaderKeeps {W : Type 0} (reader : Reader W) (P : W → Type 0) : Type 0 where
  pub control_keeps : (cmd : List ℕ) (w : W) → P w → P (reader.control cmd w).1
  pub disconnect_keeps : (w : W) → P w → P (reader.disconnect w)
  pub release_keeps : (w : W) → P w → P (reader.release w)
  pub sleep_keeps : (n : ℕ) (w : W) → P w → P (reader.sleep n w)
  pub delay_keeps : (t : ℤ) (w : W) → P w → P (reader.delay t w)

module _ {W : Type 0} (os : Os W) (reader : Reader W) (settings : Settings) (fuel : ℕ)
    (P : W → Type 0) (os_keeps : OsKeeps os P) (keeps : ReaderKeeps reader P) where
  pub transceive_control-After :
      (cmd : List ℕ) (w : W) → P w → After P (transceive_control os reader settings fuel cmd w)
  unfolding transceive_control close_reader
  transceive_control-After cmd w h =
      option-After P (reader.control cmd w).0 _ _ (reader.control cmd w).1
        (done-After P none _
          (keeps.release_keeps _ (keeps.disconnect_keeps _ (keeps.control_keeps cmd w h))))
        (λ bytes. done-After P (some bytes) _ (keeps.control_keeps cmd w h))

  pub commands-After :
      (cmds : List (List ℕ)) (w : W) → P w → After P (commands os reader settings fuel cmds w)
  unfolding commands
  commands-After [] w h = done-After P true w h
  commands-After (cmd ∷ cmds) w h =
      bind-After P (transceive_control os reader settings fuel cmd) _ w
        (transceive_control-After cmd w h)
        (λ o w1 h1.
          option-After P o (pure false) (λ _. commands os reader settings fuel cmds) w1
            (done-After P false w1 h1) (λ _. commands-After cmds w1 h1))

  selected-After : (c : Comm) (w : W) → P w → After P (selected os reader settings fuel c w)
  unfolding selected powerup_on_select
  selected-After c w h =
      bind-After P (powerup_on_select os fuel c) _ w (broadcast-After os P os_keeps fuel _ c w h)
        (λ d w1 h1. done-After P _ w1 h1)

  deselected-After :
      (atq_sak : List ℕ) (c : Comm) (w : W)
      → P w
      → After P (deselected os reader settings fuel atq_sak c w)
  unfolding deselected powerdown_on_deselect
  deselected-After atq_sak c w h =
      if-After P (application_selected c) _ _ w
        (bind-After P (powerdown_on_deselect os fuel c) _ w
          (broadcast-After os P os_keeps fuel _ c w h)
          (λ d w1 h1.
            bind-After P
              (commands os reader settings fuel (end_emu ∷ atq_sak ∷ buzzer_off ∷ start_emu ∷ [])) _
              _ (commands-After _ _ (keeps.sleep_keeps 2 w1 h1))
              (λ b w2 h2.
                if-After P b _ _ w2 (done-After P (proceed d) w2 h2)
                  (done-After P (returned d) w2 h2))))
        (bind-After P (powerdown_on_deselect os fuel c) _ w
          (broadcast-After os P os_keeps fuel _ c w h) (λ d w1 h1. done-After P _ w1 h1))

  paused-P : (b : Bool) (w : W) → P w → P (if b then reader.delay settings.cmd_delay w else w)
  paused-P true w h = keeps.delay_keeps settings.cmd_delay w h
  paused-P false w h = h

  send_rapdu-After :
      (c : Comm) (rsp : List ℕ) (w : W) → P w → After P (send_rapdu os reader settings fuel c rsp w)
  unfolding send_rapdu
  send_rapdu-After c rsp w h =
      bind-After P (transceive_control os reader settings fuel (append (0x84 ∷ []) rsp)) _ _
        (transceive_control-After _ _ (paused-P (delays settings rsp) w h))
        (λ o w1 h1.
          option-After P o (pure (stopped c)) (λ _. pure (proceed c)) w1 (done-After P _ w1 h1)
            (λ _. done-After P _ w1 h1))

  exchange_apdu-After :
      (c : Comm) (rdata : List ℕ) (w : W)
      → P w
      → After P (exchange_apdu os reader settings fuel c rdata w)
  unfolding exchange_apdu
  exchange_apdu-After c rdata w h =
      bind-After P (transceive os fuel c (substr_from rdata 1)) _ w
        (transceive-After os P os_keeps fuel c _ w h) (λ r w1 h1. send_rapdu-After r.2 _ w1 h1)

  capdu-After :
      (c : Comm) (rdata : List ℕ) (w : W) → P w → After P (capdu os reader settings fuel c rdata w)
  unfolding capdu
  capdu-After c [] w h = exchange_apdu-After c [] w h
  capdu-After c (status ∷ rest) w h =
      if-After P (not (status == 0x00) && skips status) (pure (proceed c)) _ w (done-After P _ w h)
        (if-After P (not (status == 0x00) && aborts status) (pure (stopped c)) _ w
          (done-After P _ w h) (exchange_apdu-After c (status ∷ rest) w h))

  command_received-After :
      (c : Comm) (w : W) → P w → After P (command_received os reader settings fuel c w)
  unfolding command_received
  command_received-After c w h =
      bind-After P (transceive_control os reader settings fuel get_capdu) _ w
        (transceive_control-After get_capdu w h)
        (λ o w1 h1.
          option-After P o (pure (stopped c)) (capdu os reader settings fuel c) w1
            (done-After P _ w1 h1) (λ bytes. capdu-After c bytes w1 h1))

  pub handle-After :
      (atq_sak : List ℕ) (c : Comm) (event : ℕ) (w : W)
      → P w
      → After P (handle os reader settings fuel atq_sak c event w)
  unfolding handle
  handle-After atq_sak c event w h =
      if-After P (event == 0x01) (selected os reader settings fuel c) _ w (selected-After c w h) (
        if-After P (event == 0x04) (deselected os reader settings fuel atq_sak c) _ w
          (deselected-After atq_sak c w h)
          (if-After P (event == 0x02) (command_received os reader settings fuel c) _ w
            (command_received-After c w h) (done-After P _ w h)))
