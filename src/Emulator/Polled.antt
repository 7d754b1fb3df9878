-- ===== src/Emulator/Polled.antt =====
-- A concrete reader for examples, over the files of `Os/Files`: it reports a SELECT each time that it
-- is asked, until cancel() is called.
use edna.Base.{
  ℕ, zero, suc, ◌<◌, ◌≤◌, ◌≡◌, refl, true, false, Bool, List, [], ◌∷◌, some, length, arith,
}
use edna.Os.Files.{Files, files_os, files-OsKeeps}
use edna.Emulator.{Reader}
use edna.Emulator.Events.{IsApart}
use edna.Emulator.Keeps.{ReaderKeeps}
use edna.Emulator.Waits.{IsStopped}
use edna.Emulator.Ends.{IsConnecting}

-- cancel() has been called when no looks are left.
abbrev pub cancelled_at : Files → ℕ → Bool × Files
cancelled_at w zero = (true, w)
cancelled_at w (suc n) = (false, record w { looks = n })

-- `path` says whether there is a context.
abbrev pub reader : Reader Files
reader = record {
  establish = λ w. (true, record w { path = true });
  connect = λ w. (true, w);
  control = λ cmd w. (some (0x00 ∷ 0x01 ∷ 0x00 ∷ []), w);
  disconnect = λ w. w;
  release = λ w. record w { path = false };
  cancel_requested = λ w. cancelled_at w w.looks;
  sleep = λ n w. w;
  delay = λ t w. w;
}

abbrev pub held : Files → Bool
held w = w.script.locked

abbrev pub left : Files → ℕ
left w = w.looks

cancelled_at_spends :
    (w : Files) (n : ℕ)
    → w.looks ≡ n
    → (cancelled_at w n).0 ≡ false
    → left (cancelled_at w n).1 < left w
cancelled_at_spends w zero e h = cc h
cancelled_at_spends w (suc n) e h = omega (arith, e)

cancelled_at_keeps : (w : Files) (n : ℕ) → w.looks ≡ n → left (cancelled_at w n).1 ≤ left w
cancelled_at_keeps w zero e = omega arith
cancelled_at_keeps w (suc n) e = omega (arith, e)

cancelled_at_frees : (w : Files) (n : ℕ) → held (cancelled_at w n).1 ≡ held w
cancelled_at_frees w zero = refl
cancelled_at_frees w (suc n) = refl

pub reader-IsApart : IsApart reader held
reader-IsApart = record {
  control_keeps = λ cmd w. refl;
  disconnect_keeps = λ w. refl;
  release_keeps = λ w. refl;
  sleep_keeps = λ n w. refl;
  delay_keeps = λ t w. refl;
}

pub reader-ReaderKeeps : (n : ℕ) → ReaderKeeps reader (λ w. left w ≤ n)
reader-ReaderKeeps n = record {
  control_keeps = λ cmd w h. h;
  disconnect_keeps = λ w h. h;
  release_keeps = λ w h. h;
  sleep_keeps = λ t w h. h;
  delay_keeps = λ t w h. h;
}

answer_length : (bytes : List ℕ) → some (0x00 ∷ 0x01 ∷ 0x00 ∷ []) ≡ some bytes → 1 < length bytes
answer_length bytes e =
    let same : 0x00 ∷ 0x01 ∷ 0x00 ∷ [] ≡ bytes = cc e in rw (← same) (omega arith)

pub reader-IsStopped : IsStopped files_os reader held left
reader-IsStopped = record {
  look_spends = λ w h. cancelled_at_spends w w.looks refl h;
  look_keeps = λ w. cancelled_at_keeps w w.looks refl;
  look_frees = λ w. cancelled_at_frees w w.looks;
  os_keeps = files-OsKeeps;
  reader_keeps = reader-ReaderKeeps;
  answers = λ w bytes e. answer_length bytes e;
}

pub reader-IsConnecting : IsConnecting reader held left (λ w. w.path)
reader-IsConnecting = record {
  releases = λ w. refl;
  establish_fails = λ w h. cc h;
  establish_frees = λ w. refl;
  establish_keeps = λ w. omega arith;
  connect_frees = λ w. refl;
  connect_keeps = λ w. omega arith;
}
