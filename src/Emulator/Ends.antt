-- ===== src/Emulator/Ends.antt =====
-- bin/edna_emu.cpp: the emulation ends, from its start commands on.
mod Runs
use edna.Base.{
  ℕ, ◌<◌, ◌≤◌, ◌≡◌, ◌∙◌, refl, Bool, true, false, List, [], ◌∷◌, Option, none, some, ℤ, Io, pure,
  run, call, ◌>>=◌, ◌>>◌, if◌then◌else◌, Succeeds, bind-Succeeds, branch-Succeeds, mono-Succeeds,
  with-Ensures, arith,
}
use edna.Os.{Os, IsBounded, IsLively, IsMutex}
use edna.Comm.{Comm}
use edna.Comm.Invariant.{IsWellFormed}
use edna.Emulator.{
  Reader, Settings, start_emu, buzzer_off, set_atq_sak, commands, emulate, connected, run_emulator,
}
use edna.Emulator.Events.{IsApart, commands-Free}
use edna.Emulator.Keeps.{commands-After}
use edna.Emulator.Closes.{commands-Prepared}
use edna.Emulator.Waits.{IsStopped}
use edna.Emulator.Whole.{IsCompany, Ended, emulate-Ended}

-- A context is there from SCardEstablishContext until it is released; the two calls that connect the
-- reader leave the mutex alone, and give no look at should_cancel back.
pub record IsConnecting {W : Type 0} (reader : Reader W) (held : W → Bool) (left : W → ℕ)
    (has_context : W → Bool) : Type 0 where
  pub releases : (w : W) → has_context (reader.release w) ≡ false
  pub establish_fails :
      (w : W) → (reader.establish w).0 ≡ false → has_context (reader.establish w).1 ≡ has_context w
  pub establish_frees : (w : W) → held (reader.establish w).1 ≡ held w
  pub establish_keeps : (w : W) → left (reader.establish w).1 ≤ left w
  pub connect_frees : (w : W) → held (reader.connect w).1 ≡ held w
  pub connect_keeps : (w : W) → left (reader.connect w).1 ≤ left w

module _ {W : Type 0} (os : Os W) (reader : Reader W) (settings : Settings) (fuel : ℕ)
    (enough : 0xffff ≤ fuel) (bounded : IsBounded os) (lively : IsLively os) (held : W → Bool)
    (mutex : IsMutex os held) (apart : IsApart reader held) (left : W → ℕ)
    (stops : IsStopped os reader held left) (has_context : W → Bool)
    (connecting : IsConnecting reader held left has_context) (others : Comm → Io W Comm) where
  abbrev Finished : Comm → W → Type 0
  Finished c w = IsWellFormed c × (held w ≡ false) × (has_context w ≡ false)

  -- After the first commands: if one has failed, the context is released.
  abbrev Ready : ℕ → Bool → W → Type 0
  Ready n b w = (held w ≡ false) × (left w ≤ n) × (b ≡ false → has_context w ≡ false)

  -- Where socket reads give no more than was asked for, and something when they succeed, 0xffff reads
  -- are allowed for each message, the calls to the reader leave the mutex alone, the answer to the
  -- command that waits for an event has two bytes at least, and cancel is called in the end, so that a
  -- countdown that no other call turns back bounds how often should_cancel is still found unset, and
  -- more rounds and waits are allowed than that, and what the communications thread does meanwhile
  -- returns, keeps the registry well formed and the countdown, and leaves the mutex free: the emulation,
  -- from its start commands on, with a well-formed registry and the mutex free, returns, whatever events
  -- the reader reports, whatever the clients answer, and whichever of its commands fails. The registry is
  -- well formed, the mutex is free, and the context of PC/SC is released.
  pub connected-Finished :
      IsCompany others held left
      → (rounds waits : ℕ) (atq_sak : List ℕ) (n : ℕ) (c : Comm) (w : W) → n < rounds
      → n < waits
      → IsWellFormed c
      → held w ≡ false
      → left w ≤ n
      → Succeeds
          (λ d v. IsWellFormed d × (held v ≡ false) × (has_context v ≡ false))
          (connected os reader settings fuel others rounds waits atq_sak c w)
  unfolding connected
  connected-Finished company rounds waits atq_sak n c w lt lt' v free less =
      let cmds = atq_sak ∷ buzzer_off ∷ start_emu ∷ [] in
      bind-Succeeds (Ready n) Finished (commands os reader settings fuel cmds) _ w
        (mono-Succeeds _ (Ready n) _ (λ b u q. (q.0.0, q.0.1, q.1))
          (with-Ensures _ _ _
            (with-Ensures (λ b u. held u ≡ false) _ _
              (commands-Free os reader settings fuel enough bounded lively held mutex apart cmds w
                free)
              (commands-After os reader settings fuel (λ u. left u ≤ n) (stops.os_keeps n)
                (stops.reader_keeps n) cmds w less))
            (commands-Prepared os reader settings fuel has_context connecting.releases cmds w)))
        (λ b u h.
          branch-Succeeds Finished b (emulate os reader settings fuel others rounds waits atq_sak c)
            (pure c) u
            (λ yes.
              emulate-Ended os reader settings fuel enough bounded lively held mutex apart left
                stops has_context connecting.releases others company rounds waits atq_sak n c u lt
                lt' v (h.0, h.1))
            (λ no. (c, u, refl, (v, h.0, h.2 no))))
