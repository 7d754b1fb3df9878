-- ===== src/Emulator/Events.antt =====
-- bin/edna_emu.cpp: what the switch over the reader's events does to the object of the
-- communications thread, and the answer to a C-APDU.
use edna.Base.{
  Returns-Ensures, ℕ, ◌≤◌, ◌≡◌, refl, sym, subst, ◌∙◌, inl, inr, Bool, true, false, not, ◌&&◌, List,
  [], ◌∷◌, Option, none, some, ℤ, pure, ◌==◌, if◌then◌else◌, Option-cases, Succeeds, bind-Succeeds,
  if-Succeeds, option-Succeeds,
}
use edna.Bytestring.{substr_from}
use edna.Os.{Os, IsBounded, IsLively, IsMutex}
use edna.Comm.{
  Comm, no_app_selected, application_selected, powerup_on_select, powerdown_on_deselect,
}
use edna.Comm.Invariant.{IsWellFormed}
use edna.Comm.Selection.{chosen, chosen-Chooses, selects-IsWellFormed, Chooses-IsWellFormed}
use edna.Comm.Exchange.{transceive-object}
use edna.Comm.Total.{transceive-Returns}
use edna.Comm.Reach.{after-IsWellFormed}
use edna.Comm.Correct.{power_correct}
use edna.Emulator.{
  Reader, Settings, Next, proceed, stopped, returned, get_capdu, skips, aborts, delays,
  close_reader, transceive_control, commands, selected, deselected, send_rapdu, exchange_apdu,
  capdu, command_received, handle,
}

-- The reader's calls do not take or give back the daemon's mutex.
pub record IsApart {W : Type 0} (reader : Reader W) (held : W → Bool) : Type 0 where
  pub control_keeps : (cmd : List ℕ) (w : W) → held (reader.control cmd w).1 ≡ held w
  pub disconnect_keeps : (w : W) → held (reader.disconnect w) ≡ held w
  pub release_keeps : (w : W) → held (reader.release w) ≡ held w
  pub sleep_keeps : (n : ℕ) (w : W) → held (reader.sleep n w) ≡ held w
  pub delay_keeps : (t : ℤ) (w : W) → held (reader.delay t w) ≡ held w

abbrev pub object_of : Next → Comm
object_of (proceed c) = c
object_of (stopped c) = c
object_of (returned c) = c

module _ {W : Type 0} (os : Os W) (reader : Reader W) (settings : Settings) (fuel : ℕ)
    (enough : 0xffff ≤ fuel) (bounded : IsBounded os) (lively : IsLively os) (held : W → Bool)
    (mutex : IsMutex os held) (apart : IsApart reader held) where
  abbrev Free : {A : Type 0} → A → W → Type 0
  Free a w = held w ≡ false

  -- A well-formed registry, and the mutex free.
  abbrev pub Sound : Next → W → Type 0
  Sound next w = IsWellFormed (object_of next) × (held w ≡ false)

  pub transceive_control-Free :
      (cmd : List ℕ) (w : W)
      → held w ≡ false
      → Succeeds (Free {A = Option (List ℕ)}) (transceive_control os reader settings fuel cmd w)
  unfolding transceive_control close_reader
  transceive_control-Free cmd w free = elim (Option-cases (reader.control cmd w).0) [
    | inl e ↦ rw e (
      none,
      _,
      refl,
      apart.release_keeps _ ∙ apart.disconnect_keeps _ ∙ apart.control_keeps cmd w ∙ free,
    )
    | inr (bytes, e) ↦ rw e (some bytes, _, refl, apart.control_keeps cmd w ∙ free)
  ]

  pub commands-Free :
      (cmds : List (List ℕ)) (w : W)
      → held w ≡ false
      → Succeeds (Free {A = Bool}) (commands os reader settings fuel cmds w)
  unfolding commands
  commands-Free [] w free = (true, w, refl, free)
  commands-Free (cmd ∷ cmds) w free =
      bind-Succeeds (Free {A = Option (List ℕ)}) (Free {A = Bool})
        (transceive_control os reader settings fuel cmd) _ w (transceive_control-Free cmd w free)
        (λ o w1 f.
          option-Succeeds (Free {A = Bool}) o (pure false) _ w1 (false, w1, refl, f)
            (λ bytes. commands-Free cmds w1 f))

  unselected-IsWellFormed :
      (c c' : Comm)
      → IsWellFormed c
      → c' ≡ record c { selected_application = no_app_selected }
      → IsWellFormed c'
  unselected-IsWellFormed c c' v e =
      subst IsWellFormed (sym e) (selects-IsWellFormed c no_app_selected v)

  abbrev Kept : Comm → W → Type 0
  Kept c w = IsWellFormed c × (held w ≡ false)

  powerup-Kept : (c : Comm) (w : W) → IsWellFormed c → Succeeds Kept (powerup_on_select os fuel c w)
  powerup-Kept c w v =
      let (c', w', e, d) = (power_correct os bounded lively fuel enough c held mutex w).0 in
      (c', w', e, (unselected-IsWellFormed c c' v d.0, d.2))

  powerdown-Kept :
      (c : Comm) (w : W) → IsWellFormed c → Succeeds Kept (powerdown_on_deselect os fuel c w)
  powerdown-Kept c w v =
      let (c', w', e, d) = (power_correct os bounded lively fuel enough c held mutex w).1 in
      (c', w', e, (unselected-IsWellFormed c c' v d.0, d.2))

  selected-Sound :
      (c : Comm) (w : W) → IsWellFormed c → Succeeds Sound (selected os reader settings fuel c w)
  unfolding selected
  selected-Sound c w v =
      bind-Succeeds Kept Sound (powerup_on_select os fuel c) _ w (powerup-Kept c w v)
        (λ c' w' k. (proceed c', w', refl, k))

  deselected-Sound :
      (atq_sak : List ℕ) (c : Comm) (w : W)
      → IsWellFormed c
      → Succeeds Sound (deselected os reader settings fuel atq_sak c w)
  unfolding deselected
  deselected-Sound atq_sak c w v =
      if-Succeeds Sound (application_selected c) _ _ w
        (bind-Succeeds Kept Sound (powerdown_on_deselect os fuel c) _ w (powerdown-Kept c w v)
          (λ c' w' k.
            bind-Succeeds (Free {A = Bool}) Sound (commands os reader settings fuel _) _ _
              (commands-Free _ (reader.sleep 2 w') (apart.sleep_keeps 2 w' ∙ k.1))
              (λ b w2 f.
                if-Succeeds Sound b (pure (proceed c')) (pure (returned c')) w2
                  (_, w2, refl, (k.0, f)) (_, w2, refl, (k.0, f)))))
        (bind-Succeeds Kept Sound (powerdown_on_deselect os fuel c) _ w (powerdown-Kept c w v)
          (λ c' w' k. (proceed c', w', refl, k)))

  -- The world after the pause that the settings ask for.
  abbrev pub paused : List ℕ → W → W
  paused rsp w = if delays settings rsp then reader.delay settings.cmd_delay w else w

  paused-Free :
      (b : Bool) (w : W)
      → held w ≡ false
      → held (if b then reader.delay settings.cmd_delay w else w) ≡ false
  paused-Free true w free = apart.delay_keeps _ w ∙ free
  paused-Free false w free = free

  send_rapdu-Sound :
      (c : Comm) (rsp : List ℕ) (w : W)
      → IsWellFormed c
      → held w ≡ false
      → Succeeds Sound (send_rapdu os reader settings fuel c rsp w)
  unfolding send_rapdu
  send_rapdu-Sound c rsp w v free =
      bind-Succeeds (Free {A = Option (List ℕ)}) Sound
        (transceive_control os reader settings fuel _) _ _
        (transceive_control-Free _ (paused rsp w) (paused-Free (delays settings rsp) w free))
        (λ o w1 f.
          option-Succeeds Sound o (pure (stopped c)) (λ bytes. pure (proceed c)) w1
            (_, w1, refl, (v, f)) (λ bytes. (_, w1, refl, (v, f))))

  exchange_apdu-Sound :
      (c : Comm) (rdata : List ℕ) (w : W)
      → IsWellFormed c
      → held w ≡ false
      → Succeeds Sound (exchange_apdu os reader settings fuel c rdata w)
  unfolding exchange_apdu
  exchange_apdu-Sound c rdata w v free =
      let apdu = substr_from rdata 1 in
      let (r, w', e, h) =
        Returns-Ensures _ _ (transceive-Returns os bounded lively fuel enough c apdu w)
          (transceive-object os held mutex fuel c apdu w free) in
      let kept =
        after-IsWellFormed r.0 (chosen c apdu) (Chooses-IsWellFormed (chosen-Chooses c apdu) v) in
      rw e (send_rapdu-Sound r.2 _ w' (subst IsWellFormed (sym h.0) kept) h.1)

  capdu-Sound :
      (c : Comm) (rdata : List ℕ) (w : W)
      → IsWellFormed c
      → held w ≡ false
      → Succeeds Sound (capdu os reader settings fuel c rdata w)
  unfolding capdu
  capdu-Sound c [] w v free = exchange_apdu-Sound c [] w v free
  capdu-Sound c (status ∷ rest) w v free =
      if-Succeeds Sound (not (status == 0x00) && skips status) (pure (proceed c)) _ w
        (proceed c, w, refl, (v, free))
        (if-Succeeds Sound (not (status == 0x00) && aborts status) (pure (stopped c)) _ w
          (stopped c, w, refl, (v, free)) (exchange_apdu-Sound c (status ∷ rest) w v free))

  command_received-Sound :
      (c : Comm) (w : W)
      → IsWellFormed c
      → held w ≡ false
      → Succeeds Sound (command_received os reader settings fuel c w)
  unfolding command_received
  command_received-Sound c w v free =
      bind-Succeeds (Free {A = Option (List ℕ)}) Sound
        (transceive_control os reader settings fuel get_capdu) _ w
        (transceive_control-Free get_capdu w free)
        (λ o w1 f.
          option-Succeeds Sound o (pure (stopped c)) (capdu os reader settings fuel c) w1
            (_, w1, refl, (v, f)) (λ bytes. capdu-Sound c bytes w1 v f))

  -- Whatever the event, and whatever the reader and the clients answer to it, its handling returns,
  -- if reads give no more than was asked for, and something when they succeed, and 0xffff reads are
  -- granted to a message, and the calls to the reader leave the mutex alone. A well-formed
  -- registry stays well formed, and the mutex that was free is free again.
  pub handle_correct :
      (atq_sak : List ℕ) (c : Comm) (event : ℕ) (w : W)
      → IsWellFormed c
      → held w ≡ false
      → Succeeds Sound (handle os reader settings fuel atq_sak c event w)
  unfolding handle
  handle_correct atq_sak c event w v free =
      if-Succeeds Sound (event == 0x01) (selected os reader settings fuel c) _ w
        (selected-Sound c w v)
        (if-Succeeds Sound (event == 0x04) (deselected os reader settings fuel atq_sak c) _ w
          (deselected-Sound atq_sak c w v)
          (if-Succeeds Sound (event == 0x02) (command_received os reader settings fuel c) _ w
            (command_received-Sound c w v free) (proceed c, w, refl, (v, free))))
