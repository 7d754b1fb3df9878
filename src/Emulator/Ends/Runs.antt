-- ===== src/Emulator/Ends/Runs.antt =====
-- An emulation of bin/edna_emu.cpp: the reader reports a SELECT each time that it is asked, until
-- cancel() is called. Meanwhile the client on socket 5 hangs up.
use edna.Base.{
  Bool, false, if◌then◌else◌, ℕ, ◌≡◌, ◌≤◌, refl, true, false, [], ◌∷◌, pos, Io, Succeeds, arith,
}
use edna.Os.Files.{Files, files_os, files-IsMutex, files-IsBounded, files-IsLively}
use edna.Os.Script.{waiting}
use edna.Comm.{Comm, init, unregister}
use edna.Comm.AidMap.Sockets.{has_socket}
use edna.Comm.Invariant.{IsWellFormed, init-IsWellFormed}
use edna.Comm.Serve.{erase-IsWellFormed, unregister_object}
use edna.Emulator.{Settings, connected}
use edna.Emulator.Polled.{held, left, reader, reader-IsApart, reader-IsStopped, reader-IsConnecting}
use edna.Emulator.Whole.{IsCompany}
use edna.Emulator.Ends.{connected-Finished}

abbrev settings : Settings
settings = record { cmd_delay = pos 20; delay_success_only = true }

-- should_cancel is found unset nine times.
abbrev nine_looks : Files
nine_looks = record {
  script = waiting (pos 5) [];
  is_open = λ fd. true;
  looks = 9;
  path = true;
  marks = λ n. 0;
}

abbrev hangs_up : Comm → Io Files Comm
hangs_up c = unregister files_os c (pos 5)

closes_if_keeps :
    (b : Bool) (n : ℕ) (w : Files)
    → held w ≡ false
    → left w ≤ n
    → (held (if b then files_os.close (pos 5) w else w) ≡ false)
      × (left (if b then files_os.close (pos 5) w else w) ≤ n)
closes_if_keeps true n w free less = (free, less)
closes_if_keeps false n w free less = (free, less)

hangs_up-IsCompany : IsCompany hangs_up held left
hangs_up-IsCompany = record {
  keeps = λ n c w v free less.
      let (f, l) = closes_if_keeps (has_socket (pos 5) c.application_registry) n w free less in
      (_, _, unregister_object files_os c (pos 5) w, (erase-IsWellFormed c (pos 5) v, f, l));
}

connected-Finished_example :
    Succeeds
      (λ d v. IsWellFormed d × (v.script.locked ≡ false) × (v.path ≡ false))
      (connected files_os reader settings 0xffff hangs_up 10 10
        (0x58 ∷ 0x8d ∷ 0xe3 ∷ 0x00 ∷ 0x04 ∷ 0x28 ∷ [])
        init
        nine_looks)
connected-Finished_example =
    connected-Finished files_os reader settings 0xffff (omega arith) files-IsBounded files-IsLively
      held files-IsMutex reader-IsApart left reader-IsStopped (λ w. w.path) reader-IsConnecting
      hangs_up hangs_up-IsCompany 10 10 (0x58 ∷ 0x8d ∷ 0xe3 ∷ 0x00 ∷ 0x04 ∷ 0x28 ∷ []) 9 init
      nine_looks (omega arith) (omega arith) init-IsWellFormed refl (omega arith)
