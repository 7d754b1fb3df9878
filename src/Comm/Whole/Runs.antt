-- ===== src/Comm/Whole/Runs.antt =====
-- A whole run of the communications thread of bin/edna_comm.cpp: a client joins, while the other
-- thread tells all clients of a power-down in each look, until should_run is cleared.
use edna.Base.{
  ℕ, zero, suc, ◌≤◌, ◌<◌, ◌≡◌, refl, true, false, Bool, [], ◌∷◌, ◌++◌, ℤ, pos, Io, Succeeds,
  mono-Succeeds, Returns-Ensures, both-Ensures, arith, subst, sym,
}
use edna.Proto.{get_api_version, register_aid}
use edna.Os.Script.{waiting}
use edna.Os.Files.{
  Files, files_os, look_at, look, files-IsTable, files-IsMutex, files-IsBounded, files-IsLively,
  files-OsKeeps,
}
use edna.Comm.Frame.{frame}
use edna.Comm.{Comm, init, powerdown_on_deselect}
use edna.Comm.Selection.{selects-IsWellFormed}
use edna.Comm.Power.{broadcast_lem}
use edna.Comm.Total.{power-Returns}
use edna.Comm.Keeps.{broadcast-After}
use edna.Comm.Invariant.{IsWellFormed}
use edna.Comm.Descriptors.Calls.{broadcast-HasOpen}
use edna.Comm.Thread.{IsPath, threadproc}
use edna.Comm.Whole.{IsReleased, threadproc-Succeeds}
use edna.Comm.Whole.Loop.{IsCountdown, Kept}

abbrev held : Files → Bool
held w = w.script.locked

abbrev opened : ℤ → Files → Bool
opened k w = w.is_open k

abbrev left : Files → ℕ
left w = w.looks

abbrev others : Comm → Io Files Comm
others c = powerdown_on_deselect files_os 0xffff c

others_keep :
    (n : ℕ) (c : Comm) (w : Files)
    → Kept opened left n c w
    → Succeeds (Kept opened left n) (others c w)
unfolding powerdown_on_deselect
others_keep n c w h =
    mono-Succeeds _ (Kept opened left n) _
      (λ d v q. (subst IsWellFormed (sym q.0.0) (selects-IsWellFormed c _ h.0), q.1.0, q.1.1))
      (Returns-Ensures _ _
        (power-Returns files_os files-IsBounded files-IsLively 0xffff (omega arith) _ c w)
        (both-Ensures _ _ _ (broadcast_lem files_os held files-IsMutex 0xffff c _ w) (
          both-Ensures _ _ _ (broadcast-HasOpen files_os opened files-IsTable 0xffff _ c w h.1)
            (broadcast-After files_os (λ v. left v ≤ n) (files-OsKeeps n) 0xffff _ c w h.2))))

look_at_spends :
    (w : Files) (n : ℕ) → w.looks ≡ n → (look_at w n).0 ≡ true → left (look_at w n).1 < left w
look_at_spends w zero e h = cc h
look_at_spends w (suc n) e h = omega (arith, e)

look_at_keeps : (w : Files) (n : ℕ) → w.looks ≡ n → left (look_at w n).1 ≤ left w
look_at_keeps w zero e = omega arith
look_at_keeps w (suc n) e = omega (arith, e)

look_at_same : (k : ℤ) (w : Files) (n : ℕ) → opened k (look_at w n).1 ≡ opened k w
look_at_same k w zero = refl
look_at_same k w (suc n) = refl

files-IsCountdown : IsCountdown files_os opened look left
files-IsCountdown = record {
  look_spends = λ w h. look_at_spends w w.looks refl h;
  look_keeps = λ w. look_at_keeps w w.looks refl;
  look_same = λ k w. look_at_same k w w.looks;
  calls_keep = files-OsKeeps;
  unlink_keeps = λ w. omega arith;
  socket_keeps = λ w. omega arith;
  bind_keeps = λ fd w. omega arith;
  listen_keeps = λ fd n w. omega arith;
}

files-IsPath : IsPath files_os look others (λ w. w.path)
files-IsPath = record { unlink_removes = λ w. refl; socket_keeps = λ w. refl }

-- A client waits to be accepted, and should_run is found set five times.
abbrev first_files : Files
first_files = record {
  script =
      record (waiting (pos 9)
        (frame (get_api_version ∷ []) ++ frame (register_aid ∷ 0xf0 ∷ 0x03 ∷ []))) {
          arrivals = pos 9 ∷ [];
        };
  is_open = λ fd. false;
  looks = 5;
  path = true;
  marks = λ n. 0;
}

threadproc-Succeeds_example :
    Succeeds
      (λ d v. IsReleased opened (pos 3) d v × (v.path ≡ false))
      (threadproc files_os look others 6 6 0xffff init first_files)
threadproc-Succeeds_example =
    threadproc-Succeeds files_os opened files-IsTable look left files-IsCountdown others others_keep
      files-IsBounded files-IsLively 0xffff (omega arith) (λ w. w.path) files-IsPath 6 6 first_files
      (omega arith) (omega arith)
