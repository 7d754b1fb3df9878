-- ===== src/Session/Runs.antt =====
-- Runs of a session: an application that counts, registered and then asked through the reader.
use edna.Base.{
  ℕ, ◌+◌, ◌≡◌, refl, true, false, List, [], ◌∷◌, none, some, pos, ◌==◌, done, length, if◌then◌else◌,
  arith,
}
use edna.Bytestring.{resize, equal, substr, of_hex}
use edna.Comm.{Comm, init, new_client, no_app_selected, powerup_on_select, powerdown_on_deselect}
use edna.Comm.AidMap.{find}
use edna.Comm.Selection.{chosen}
use edna.Client.{ClientState, start, lib_connect}
use edna.Emulator.{Reader, Settings, command_received}
use edna.Emulator.Answer.{paused, after_send}
use edna.Session.{Net, App, client_os, daemon_os, served_os}
use edna.Session.Power.{powered, power_reaches_application}
use edna.Session.Card.{IsIdle, exchanged, reader_to_application}
use edna.Session.Opening.{client_says, daemon_says, object_after, client_after, opening_agrees}

-- The answer is the number of commands so far and the status word 9000.
abbrev counter : App ℕ
counter = record {
  process = λ apdu a. ((a ∷ 0x90 ∷ 0x00 ∷ 0xff ∷ [], 3), a + 1);
  up = λ a. 0;
  down = λ a. a;
}

abbrev aid : List ℕ
aid = 0xf0 ∷ 0x01 ∷ []

abbrev joined : ClientState
joined = record { initialised = true; connected = true; must_cancel = false; daemon_socket = pos 4 }

abbrev quiet : Net ℕ
quiet = record {
  to_daemon = [];
  to_client = [];
  client = joined;
  app = 7;
  locked = false;
  ended = none;
}

quiet-IsIdle : IsIdle quiet 4
quiet-IsIdle = record {
  nothing_for_daemon = refl;
  nothing_for_client = refl;
  up = refl;
  socket = refl;
}

abbrev daemon : Comm
daemon = record {
  application_registry = (aid, pos 5) ∷ [];
  selected_application = pos 5;
  should_run = true;
}

abbrev read_apdu : List ℕ
read_apdu = 0x00 ∷ 0xb0 ∷ 0x00 ∷ 0x00 ∷ 0x04 ∷ []

-- A reader with one C-APDU that never fails.
abbrev reader : Reader (Net ℕ)
reader = record {
  establish = λ w. (true, w);
  connect = λ w. (true, w);
  control = λ cmd w. (some (if length cmd == 1 then 0x00 ∷ read_apdu else []), w);
  disconnect = λ w. w;
  release = λ w. w;
  cancel_requested = λ w. (false, w);
  sleep = λ n w. w;
  delay = λ t w. w;
}

abbrev settings : Settings
settings = record { cmd_delay = pos 0; delay_success_only = false }

still_selected : (chosen daemon read_apdu).selected_application ≡ pos 5
unfolding chosen equal substr of_hex
still_selected = refl

reader_to_application_example :
    command_received (served_os counter) reader settings 0xffff daemon quiet
    ≡ after_send (served_os counter) reader settings 0xffff (chosen daemon read_apdu) (
        reader.control (0x84 ∷ resize (7 ∷ 0x90 ∷ 0x00 ∷ 0xff ∷ []) 3) (
          paused
            (served_os counter)
            reader
            settings
            0xffff
            (resize (7 ∷ 0x90 ∷ 0x00 ∷ 0xff ∷ []) 3)
            (exchanged counter read_apdu quiet)))
reader_to_application_example =
    reader_to_application counter reader settings 0xffff daemon 5 4 read_apdu quiet quiet
      (omega arith) refl (omega arith) (omega arith) still_selected quiet-IsIdle (omega arith)

not_up : start.connected ≡ false
unfolding start
not_up = refl

opening_agrees_example :
    (lib_connect client_os 0xffff aid 2 start
        (record quiet { to_client = daemon_says (find aid []); to_daemon = [] })
      ≡ done (
        client_after start (find aid []),
        record quiet { to_client = []; to_daemon = client_says aid },
      ))
    × (new_client daemon_os 0xffff init
          (pos 5)
          (record quiet { to_daemon = client_says aid; to_client = [] })
        ≡ done (
          object_after init aid (pos 5) (find aid []),
          record quiet { to_daemon = []; to_client = daemon_says (find aid []) },
        ))
unfolding init
opening_agrees_example =
    opening_agrees 0xffff (omega arith) quiet aid (omega arith) (omega arith) init (pos 5) start
      not_up

power_reaches_application_example :
    (powerup_on_select (served_os counter) 0xffff daemon quiet
      ≡ done (
        record daemon { selected_application = no_app_selected },
        powered counter counter.up quiet,
      ))
    × (powerdown_on_deselect (served_os counter) 0xffff daemon quiet
        ≡ done (
          record daemon { selected_application = no_app_selected },
          powered counter counter.down quiet,
        ))
power_reaches_application_example =
    power_reaches_application counter 0xffff (omega arith) 5 4 quiet quiet-IsIdle daemon aid refl
