-- ===== src/Emulator.antt =====
-- bin/edna_emu.cpp, under src: the class edna_emulator. PC/SC, the clock and the flag that cancel()
-- sets from a signal handler are a parameter; the object of the communications thread is passed on.
pub mod Events
pub mod Answer
pub mod Release
pub mod Configured
pub mod Keeps
pub mod Closes
pub mod Waits
pub mod Whole
pub mod Ends
pub mod Undefined
pub mod Polled
mod Runs
use edna.Base.{
  ℕ, zero, suc, ◌-◌, ◌%◌, ◌^◌, Bool, true, false, not, ◌&&◌, ◌||◌, List, [], ◌∷◌, Option, none,
  some, ℤ, pos, negsuc, int_eq, Io, Run, done, bind_run, pure, run, call, spin, fault, ◌>>=◌, ◌>>◌,
  ◌==◌, if◌then◌else◌, length, get_elem?,
}
use edna.Bytestring.{append, push_byte, push_ushort, size_sub, substr_from, of_hex, equal, to_byte}
use edna.Os.{Os}
use edna.Comm.{
  Comm, application_selected, transceive, powerup_on_select, powerdown_on_deselect, sw_failure,
}

-- The reader, as SCardControl, SCardDisconnect and SCardReleaseContext show it; `none` is an error.
-- `cancel_requested` reads should_cancel as far as cancel() sets it.
pub record Reader (W : Type 0) : Type 0 where
  pub establish : W → Bool × W
  pub connect : W → Bool × W
  pub control : List ℕ → W → Option (List ℕ) × W
  pub disconnect : W → W
  pub release : W → W
  pub cancel_requested : W → Bool × W
  pub sleep : ℕ → W → W
  pub delay : ℤ → W → W

-- What the constructor reads from the configuration.
pub record Settings : Type 0 where
  pub cmd_delay : ℤ
  pub delay_success_only : Bool

-- The commands to the reader.
abbrev pub wait_event : List ℕ
wait_event = 0x83 ∷ 0x00 ∷ 0x00 ∷ 0x64 ∷ []

abbrev pub start_emu : List ℕ
start_emu = 0x83 ∷ 0x10 ∷ 0x01 ∷ 0x00 ∷ []

abbrev pub end_emu : List ℕ
end_emu = 0x83 ∷ 0x10 ∷ 0x00 ∷ 0x00 ∷ []

abbrev pub buzzer_off : List ℕ
buzzer_off = 0x58 ∷ 0x8d ∷ 0xcc ∷ 0x00 ∷ []

abbrev pub get_capdu : List ℕ
get_capdu = 0x84 ∷ []

-- The casts of an int to unsigned short and to unsigned char.
abbrev pub word_of : ℕ → ℤ → ℕ
word_of bits (pos n) = n % 2 ^ bits
word_of bits (negsuc n) = 2 ^ bits - 1 - n % 2 ^ bits

unfoldable pub set_atq_sak : ℤ → ℤ → Run (List ℕ)
set_atq_sak atq sak =
    bind_run (push_ushort (0x58 ∷ 0x8d ∷ 0xe3 ∷ []) (word_of 16 atq))
      (λ b. done (push_byte b (word_of 8 sak)))

-- How the wait for an event ends.
pub data Event : Type 0 where
  aborted cancelled : Event
  happened : ℕ → Event

-- How the loop goes on after an event: with the next round, out of it, or out of the function.
pub data Next : Type 0 where
  proceed stopped returned : Comm → Next

-- Status bytes of the reader that skip a C-APDU, and those that end the emulation.
abbrev pub skips : ℕ → Bool
skips s = (s == 0x03) || ((s == 0x13) || ((s == 0x70) || (s == 0x7d)))

abbrev pub aborts : ℕ → Bool
aborts s = (s == 0x3b) || (s == 0x3c)

-- `delay_success_only` looks at the last two bytes; the difference is one of size_t.
unfoldable pub delays : Settings → List ℕ → Bool
delays settings rsp =
    not (int_eq settings.cmd_delay (pos 0))
    && (not settings.delay_success_only
        || equal (substr_from rsp (size_sub (length rsp) 2)) (0x90 ∷ 0x00 ∷ []))

module _ {W : Type 0} (os : Os W) (reader : Reader W) (settings : Settings) (fuel : ℕ) where
  unfoldable pub close_reader : Io W (Unit {0})
  close_reader = do run reader.disconnect; run reader.release

  -- A command that fails disconnects the reader and releases the context.
  unfoldable pub transceive_control : List ℕ → Io W (Option (List ℕ))
  transceive_control cmd = do
    rdata ← call (reader.control cmd)
    elim rdata [ none ↦ (do close_reader; pure none) | some bytes ↦ pure (some bytes) ]

  -- The do-while loop; `rounds` bounds its rounds. `rdata[1]` is read whatever the size is, for
  -- `continue` goes to the condition; behind the end that is undefined.
  unfoldable pub wait : ℕ → Io W Event
  wait zero w = spin
  wait (suc rounds) w =
      (do
        rdata ← transceive_control wait_event
        elim rdata [
          | none ↦ pure aborted
          | some bytes ↦ elim (get_elem? bytes 1) [
            | none ↦ λ w'. fault
            | some event ↦ λ w'.
                let again =
                  (do
                    cancel ← call reader.cancel_requested
                    elim cancel [ true ↦ pure cancelled | false ↦ wait rounds ])
                    w' in
                if event == 0x00 then again else pure (happened event) w'
          ]
        ])
        w

  -- The commands in turn; false for the first that fails.
  unfoldable pub commands : List (List ℕ) → Io W Bool
  commands [] = pure true
  commands (cmd ∷ cmds) = do
    rdata ← transceive_control cmd
    elim rdata [ none ↦ pure false | some bytes ↦ commands cmds ]

  unfoldable pub selected : Comm → Io W Next
  selected c = do c' ← powerup_on_select os fuel c; pure (proceed c')

  -- If an application was selected, the reader's emulation is started anew.
  unfoldable pub deselected : List ℕ → Comm → Io W Next
  deselected atq_sak c =
      if application_selected c
      then (do
        c' ← powerdown_on_deselect os fuel c
        run (reader.sleep 2)
        done_all ← commands (end_emu ∷ atq_sak ∷ buzzer_off ∷ start_emu ∷ [])
        if done_all then pure (proceed c') else pure (returned c'))
      else (do c' ← powerdown_on_deselect os fuel c; pure (proceed c'))

  -- The answer to a C-APDU goes to the reader.
  unfoldable pub send_rapdu : Comm → List ℕ → Io W Next
  send_rapdu c rsp = do
    _ ← run (λ w. if delays settings rsp then reader.delay settings.cmd_delay w else w)
    rdata ← transceive_control (append (0x84 ∷ []) rsp)
    elim rdata [ none ↦ pure (stopped c) | some bytes ↦ pure (proceed c) ]

  -- The C-APDU behind the status byte.
  unfoldable pub exchange_apdu : Comm → List ℕ → Io W Next
  exchange_apdu c rdata = do
    (ok, rsp, c') ← transceive os fuel c (substr_from rdata 1)
    send_rapdu c' (if ok then rsp else sw_failure)

  -- By the status byte, if there is one.
  unfoldable pub capdu : Comm → List ℕ → Io W Next
  capdu c [] = exchange_apdu c []
  capdu c (status ∷ rest) =
      if not (status == 0x00) && skips status
      then pure (proceed c)
      else if not (status == 0x00) && aborts status
      then pure (stopped c)
      else exchange_apdu c (status ∷ rest)

  unfoldable pub command_received : Comm → Io W Next
  command_received c = do
    rdata ← transceive_control get_capdu
    elim rdata [ none ↦ pure (stopped c) | some bytes ↦ capdu c bytes ]

  -- The switch over the event.
  unfoldable pub handle : List ℕ → Comm → ℕ → Io W Next
  handle atq_sak c event =
      if event == 0x01
      then selected c
      else if event == 0x04
      then deselected atq_sak c
      else if event == 0x02
      then command_received c
      else pure (proceed c)

  -- After the loop.
  unfoldable pub leave : Comm → Io W Comm
  leave c = do
    rdata ← transceive_control end_emu
    elim rdata [ none ↦ pure c | some bytes ↦ (do close_reader; pure c) ]

  -- What the communications thread does to its object while the reader is waited for.
  module _ (others : Comm → Io W Comm) where
    -- The main loop.
    unfoldable pub emulate : ℕ → ℕ → List ℕ → Comm → Io W Comm
    emulate zero waits atq_sak c w = spin
    emulate (suc rounds) waits atq_sak c w =
        (do
          cancel ← call reader.cancel_requested
          if cancel then leave c else (do
            event ← wait waits
            c1 ← others c
            elim event [
              | aborted ↦ leave c1
              | cancelled ↦ leave c1
              | happened e ↦ (do
                cancel_now ← call reader.cancel_requested
                if cancel_now then leave c1 else (do
                  next ← handle atq_sak c1 e
                  elim next [
                    | proceed c' ↦ emulate rounds waits atq_sak c'
                    | stopped c' ↦ leave c'
                    | returned c' ↦ pure c'
                  ]))
            ]))
          w

    -- From the connection to the reader on.
    unfoldable pub connected : ℕ → ℕ → List ℕ → Comm → Io W Comm
    connected rounds waits atq_sak c = do
      ready ← commands (atq_sak ∷ buzzer_off ∷ start_emu ∷ [])
      if ready then emulate rounds waits atq_sak c else pure c

    -- The reader's name, ATQ and SAK, as the configuration gives them; `none` is an error.
    unfoldable pub run_emulator : ℕ → ℕ → Option (List ℕ) → Option ℤ → Option ℤ → Comm → Io W Comm
    run_emulator rounds waits none atq sak c = pure c
    run_emulator rounds waits (some []) atq sak c = pure c
    run_emulator rounds waits (some (x ∷ name)) none sak c = pure c
    run_emulator rounds waits (some (x ∷ name)) (some atq) none c = pure c
    run_emulator rounds waits (some (x ∷ name)) (some atq) (some sak) c = do
      context ← call reader.establish
      if context
          then (do
            handle_rv ← call reader.connect
            if handle_rv
                then (λ w. bind_run (set_atq_sak atq sak) (λ cmd. connected rounds waits cmd c w))
                else (do run reader.release; pure c))
          else pure c

-- cancel(): the flag that `cancel_requested` reads, and SCardCancel, as calls of the world.
unfoldable pub cancel : {W : Type 0} → (W → W) → (W → W) → Io W (Unit {0})
cancel set_should_cancel scard_cancel = do run set_should_cancel; run scard_cancel
