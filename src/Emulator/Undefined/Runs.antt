-- ===== src/Emulator/Undefined/Runs.antt =====
-- A run of bin/edna_emu.cpp with a reader that PC/SC connects.
use edna.Base.{◌≡◌, refl, ◌⊎◌, false, true, [], ◌∷◌, some, pos, pure, fault, done, Run}
use edna.Os.Files.{Files, files_os}
use edna.Os.Script.{waiting}
use edna.Comm.{Comm, init}
use edna.Emulator.{Settings, run_emulator}
use edna.Emulator.Polled.{held, left, reader, reader-IsApart, reader-IsConnecting}
use edna.Emulator.Undefined.{IsConnected, run_emulator_ends}

abbrev settings : Settings
settings = record { cmd_delay = pos 20; delay_success_only = true }

abbrev files : Files
files = record {
  script = waiting (pos 5) [];
  is_open = λ fd. false;
  looks = 9;
  path = false;
  marks = λ n. 0;
}

abbrev ran : Run (Comm × Files)
ran =
    run_emulator files_os reader settings 0xffff (λ c. pure c) 10 10 (some (b'A' ∷ []))
      (some (pos 4)) (some (pos 0x28)) init files

run_emulator_ends_example :
    (IsConnected reader (some (b'A' ∷ [])) (some (pos 4)) (some (pos 0x28)) files × (ran ≡ fault))
    ⊎ (¬ (IsConnected reader (some (b'A' ∷ [])) (some (pos 4)) (some (pos 0x28)) files)
        × ((v : Files) × (ran ≡ done (init, v)) × (held v ≡ false) × (v.path ≡ false)))
run_emulator_ends_example =
    run_emulator_ends files_os reader settings 0xffff held reader-IsApart left (λ w. w.path)
      reader-IsConnecting (λ c. pure c) 10 10 (some (b'A' ∷ [])) (some (pos 4)) (some (pos 0x28))
      init files refl refl
