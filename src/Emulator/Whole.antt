-- ===== src/Emulator/Whole.antt =====
-- bin/edna_emu.cpp: the whole run of the emulator, from the reader's name to the release of PC/SC.
use edna.Base.{
  ℕ, zero, suc, ◌<◌, ◌≤◌, ◌≡◌, ◌∙◌, refl, Bool, true, false, List, Io, pure, call, ◌>>=◌,
  if◌then◌else◌, Succeeds, bind-Succeeds, branch-Succeeds, mono-Succeeds, option-Succeeds,
  with-Ensures, arith,
}
use edna.Os.{Os, IsBounded, IsLively, IsMutex}
use edna.Comm.{Comm}
use edna.Comm.Invariant.{IsWellFormed}
use edna.Emulator.{
  Reader, Settings, Event, aborted, cancelled, happened, Next, proceed, stopped, returned, end_emu,
  close_reader, transceive_control, wait, handle, leave, emulate,
}
use edna.Emulator.Events.{IsApart, object_of, transceive_control-Free, handle_correct}
use edna.Emulator.Keeps.{handle-After}
use edna.Emulator.Closes.{is_returned, handle-Handled, leave-Left}
use edna.Emulator.Waits.{IsStopped, wait-Succeeds}

-- What the communications thread does to its object meanwhile: it returns, and keeps the registry well
-- formed, the mutex free, and the countdown of the looks at should_cancel.
pub record IsCompany {W : Type 0} (others : Comm → Io W Comm) (held : W → Bool) (left : W → ℕ)
    : Type 0 where
  pub keeps :
      (n : ℕ) (c : Comm) (w : W)
      → IsWellFormed c
      → held w ≡ false
      → left w ≤ n
      → Succeeds (λ d v. IsWellFormed d × (held v ≡ false) × (left v ≤ n)) (others c w)

module _ {W : Type 0} (os : Os W) (reader : Reader W) (settings : Settings) (fuel : ℕ)
    (enough : 0xffff ≤ fuel) (bounded : IsBounded os) (lively : IsLively os) (held : W → Bool)
    (mutex : IsMutex os held) (apart : IsApart reader held) (left : W → ℕ)
    (stops : IsStopped os reader held left) (has_context : W → Bool)
    (releases : (w : W) → has_context (reader.release w) ≡ false) (others : Comm → Io W Comm)
    (company : IsCompany others held left) where
  -- The registry is well formed, the mutex free, and the context of PC/SC released.
  abbrev pub Ended : Comm → W → Type 0
  Ended c w = IsWellFormed c × (held w ≡ false) × (has_context w ≡ false)

  abbrev Kept : Comm → W → Type 0
  Kept c w = IsWellFormed c × (held w ≡ false)

  -- The mutex is free, and should_cancel is found unset at most `n` more times.
  abbrev Idle : ℕ → W → Type 0
  Idle n w = (held w ≡ false) × (left w ≤ n)

  leave-Kept :
      (c : Comm) (w : W)
      → IsWellFormed c
      → held w ≡ false
      → Succeeds Kept (leave os reader settings fuel c w)
  unfolding leave close_reader
  leave-Kept c w v free =
      bind-Succeeds (λ o u. held u ≡ false) Kept
        (transceive_control os reader settings fuel end_emu) _ w
        (transceive_control-Free os reader settings fuel enough bounded lively held mutex apart
          end_emu w free)
        (λ o u f.
          option-Succeeds Kept o (pure c) _ u (c, u, refl, (v, f))
            (λ bytes. (c, _, refl, (v, apart.release_keeps _ ∙ apart.disconnect_keeps u ∙ f))))

  leave-Ended :
      (c : Comm) (w : W)
      → IsWellFormed c
      → held w ≡ false
      → Succeeds Ended (leave os reader settings fuel c w)
  leave-Ended c w v free =
      mono-Succeeds _ Ended _ (λ d u q. (q.0.0, q.0.1, q.1))
        (with-Ensures Kept _ _ (leave-Kept c w v free)
          (leave-Left os reader settings fuel has_context releases c w))

  -- The end of the handling of an event.
  abbrev Turned : ℕ → Next → W → Type 0
  Turned n next w =
      IsWellFormed (object_of next)
      × (held w ≡ false)
      × (left w ≤ n)
      × (is_returned next ≡ true → has_context w ≡ false)

  handle-Turned :
      (n : ℕ) (atq_sak : List ℕ) (c : Comm) (event : ℕ) (w : W)
      → IsWellFormed c
      → Idle n w
      → Succeeds (Turned n) (handle os reader settings fuel atq_sak c event w)
  handle-Turned n atq_sak c event w v h =
      mono-Succeeds _ (Turned n) _ (λ next u q. (q.0.0.0, q.0.0.1, q.0.1, q.1))
        (with-Ensures _ _ _
          (with-Ensures _ _ _
            (handle_correct os reader settings fuel enough bounded lively held mutex apart atq_sak c
              event w v h.0)
            (handle-After os reader settings fuel (λ u. left u ≤ n) (stops.os_keeps n)
              (stops.reader_keeps n) atq_sak c event w h.1))
          (handle-Handled os reader settings fuel has_context releases atq_sak c event w))

  -- The loop goes on with the rest that is given, leaves, or has returned.
  abbrev turn : (Comm → Io W Comm) → Next → Io W Comm
  turn rest (proceed c) = rest c
  turn rest (stopped c) = leave os reader settings fuel c
  turn rest (returned c) = pure c

  turn-Ended :
      (rest : Comm → Io W Comm) (n : ℕ) (next : Next) (w : W)
      → ((c : Comm) → IsWellFormed c → Idle n w → Succeeds Ended (rest c w))
      → Turned n next w
      → Succeeds Ended (turn rest next w)
  turn-Ended rest n (proceed c) w go h = go c h.0 (h.1, h.2)
  turn-Ended rest n (stopped c) w go h = leave-Ended c w h.0 h.1
  turn-Ended rest n (returned c) w go h = (c, w, refl, (h.0, h.1, h.3 refl))

  look-Idle :
      (n : ℕ) (w : W)
      → Idle n w
      → Idle (left (reader.cancel_requested w).1) (reader.cancel_requested w).1
  look-Idle n w h = (stops.look_frees w ∙ h.0, omega arith)

  -- An event: once more should_cancel is looked at.
  abbrev on_event : (Comm → Io W Comm) → List ℕ → Comm → Event → Io W Comm
  on_event rest atq_sak c aborted = leave os reader settings fuel c
  on_event rest atq_sak c cancelled = leave os reader settings fuel c
  on_event rest atq_sak c (happened e) = do
    cancel_now ← call reader.cancel_requested
    if cancel_now
        then leave os reader settings fuel c
        else (do next ← handle os reader settings fuel atq_sak c e; turn rest next)

  on_event-Ended :
      (rest : Comm → Io W Comm) (atq_sak : List ℕ) (n : ℕ) (c : Comm) (event : Event) (w : W)
      → ((k : ℕ) (d : Comm) (u : W) → k < n → IsWellFormed d → Idle k u → Succeeds Ended (rest d u))
      → IsWellFormed c
      → Idle n w
      → Succeeds Ended (on_event rest atq_sak c event w)
  on_event-Ended rest atq_sak n c aborted w go v h = leave-Ended c w v h.0
  on_event-Ended rest atq_sak n c cancelled w go v h = leave-Ended c w v h.0
  on_event-Ended rest atq_sak n c (happened e) w go v h =
      let k = left (reader.cancel_requested w).1 in
      branch-Succeeds Ended (reader.cancel_requested w).0 (leave os reader settings fuel c) _
        (reader.cancel_requested w).1 (λ yes. leave-Ended c _ v (look-Idle n w h).0)
        (λ no.
          bind-Succeeds (Turned k) Ended (handle os reader settings fuel atq_sak c e) (turn rest)
            (reader.cancel_requested w).1 (handle-Turned k atq_sak c e _ v (look-Idle n w h))
            (λ next u t.
              turn-Ended rest k next u
                (λ d v'. go k d u (omega (arith, stops.look_spends w no, h.1)) v') t))

  pub emulate-Ended :
      (rounds waits : ℕ) (atq_sak : List ℕ) (n : ℕ) (c : Comm) (w : W)
      → n < rounds
      → n < waits
      → IsWellFormed c
      → Idle n w
      → Succeeds Ended (emulate os reader settings fuel others rounds waits atq_sak c w)
  unfolding emulate
  emulate-Ended zero waits atq_sak n c w lt lt' v h = absurd (omega arith)
  emulate-Ended (suc rounds) waits atq_sak n c w lt lt' v h =
      let k = left (reader.cancel_requested w).1 in
      branch-Succeeds Ended (reader.cancel_requested w).0 (leave os reader settings fuel c) _
        (reader.cancel_requested w).1 (λ yes. leave-Ended c _ v (look-Idle n w h).0)
        (λ no.
          bind-Succeeds (λ e u. Idle k u) Ended (wait os reader settings fuel waits) _
            (reader.cancel_requested w).1
            (wait-Succeeds os reader settings fuel enough bounded lively held mutex apart left stops
              waits k _ (omega (arith, stops.look_spends w no, h.1, lt')) (look-Idle n w h))
            (λ e u i.
              bind-Succeeds (λ d x. IsWellFormed d × (held x ≡ false) × (left x ≤ k)) Ended
                (others c)
                (λ d.
                  on_event (emulate os reader settings fuel others rounds waits atq_sak) atq_sak d
                    e)
                u (company.keeps k c u v i.0 i.1)
                (λ d x q.
                  on_event-Ended (emulate os reader settings fuel others rounds waits atq_sak)
                    atq_sak k d e x
                    (λ m d' x' less v' i'.
                      emulate-Ended rounds waits atq_sak m d' x'
                        (omega (arith, stops.look_spends w no, h.1, lt, less))
                        (omega (arith, stops.look_spends w no, h.1, lt', less)) v' i')
                    q.0 (q.1, q.2))))
