-- ===== src/Daemon/Stop.antt =====
-- bin/edna_main.cpp: the child process, from the signal handlers to the end of main.
use edna.Base.{
  ℕ, ◌≡◌, refl, ◌∙◌, Bool, true, Option, none, some, ℤ, pos, Io, pure, run, ◌>>=◌, ◌>>◌, Run, done,
  spin, fault, Succeeds,
}
use edna.Codes.{EdnaRv, ok}
use edna.Os.{Os}
use edna.Thread.{Pthread, Thread, new_thread, start_thread, waitexit, destroy_thread}
use edna.Comm.{Comm, init}
use edna.Comm.Life.{CommThread, terminate, destroy}
use edna.Config.{Libconfig, Configuration, uninit_config_handling}
use edna.Log.{LogState, uninit_log}
use edna.Emulator.{Reader, cancel}
use edna.Emulator.Configured.{configured_run}
use edna.Daemon.{Signal, Handler, by_default, Host, signal_term, shut_down, run_daemon}
use edna.Daemon.Signals.{IsSignals, with_handlers, install_lem, remove_lem, removed}

module _ {W : Type 0} (host : Host W) where
  -- A thread that was joined is joined, and joining it once more is undefined.
  pub record IsPthread (pthread : Pthread W) (joined : ℕ → W → Bool) : Type 0 where
    pub join_joins : (id : ℕ) (w w' : W) → pthread.join id w ≡ done (tt, w') → joined id w' ≡ true
    pub join_twice : (id : ℕ) (w : W) → joined id w ≡ true → pthread.join id w ≡ fault
    pub clear_keeps : (id : ℕ) (w : W) → joined id (host.clear_should_run w) ≡ joined id w
    pub cancel_keeps :
        (id : ℕ) (w : W) → joined id (host.scard_cancel (host.set_should_cancel w)) ≡ joined id w

  module _ (handler_of : Signal → W → Handler) (law : IsSignals host handler_of) where
    abbrev pub Restored : EdnaRv → W → Type 0
    Restored rv w = (rv ≡ ok) × ((s : Signal) → handler_of s w ≡ by_default)

    log_closed :
        (file : Option ℕ) (w : W)
        → ((s : Signal) → handler_of s w ≡ by_default)
        → Succeeds Restored (
            ((elim file as (λ k. Io W EdnaRv) [
              | none ↦ pure ok
              | some f ↦ (do run (host.fclose f); pure ok)
            ])
                >>= λ r. pure ok)
              w)
    log_closed none w h = (ok, w, refl, (refl, h))
    log_closed (some f) w h = (ok, host.fclose f w, refl, (refl, λ s. law.fclose_keeps s f w ∙ h s))

  signal_term-joined :
      (pthread : Pthread W) (joined : ℕ → W → Bool)
      → IsPthread pthread joined
      → (c : Comm) (id : ℕ) (w v : W) (o : Option CommThread)
      → signal_term host pthread
          (some (record { comm = c; thread = record new_thread { the_thread = some id } }))
          true
          w
        ≡ done (o, v)
      → joined id v ≡ true
  unfolding signal_term terminate waitexit cancel
  signal_term-joined pthread joined law c id w v o e =
      on_join (pthread.join id (host.clear_should_run w)) refl
    where
      on_join :
          (r : Run (Unit {0} × W))
          → pthread.join id (host.clear_should_run w) ≡ r
          → joined id v ≡ true
      on_join (done (tt, w')) q =
          let reached : host.scard_cancel (host.set_should_cancel w') ≡ v = cc (rw q at e) in
          rw (← reached) (law.cancel_keeps id w' ∙ law.join_joins id _ w' q)
      on_join spin q = absurd (cc (rw q at e))
      on_join fault q = absurd (cc (rw q at e))

  module _ (os : Os W) (reader : Reader W) (lib : Libconfig W) (pthread : Pthread W)
      (configuration : W → Configuration) (edna_loglevel : ℤ) (fuel rounds waits : ℕ)
      (others : Comm → Io W Comm) where
    abbrev pub child : Configuration → LogState → Io W EdnaRv
    child =
        run_daemon host os reader lib pthread configuration edna_loglevel fuel rounds waits others

    -- The thread of the object cannot be joined: it was never created, or was joined before.
    pub data Unjoinable (joined : ℕ → W → Bool) (w : W) : Thread → Type 0 where
      unset : Unjoinable joined w new_thread
      joined_before :
          (id : ℕ)
          → joined id w ≡ true
          → Unjoinable joined w (record new_thread { the_thread = some id })

    -- If signal sets the handler of the signal that it names and of no other, and closing a file sets
    -- none: in the process that emulates, when the thread is created, the emulation ends, and the thread
    -- is joined, main returns ERV_OK, and has put all twelve signals back to their default handlers.
    pub run_daemon-Restored :
        (handler_of : Signal → W → Handler)
        → IsSignals host handler_of
        → (conf : Configuration) (l : LogState) (id : ℕ) (c : Comm) (w w2 w3 w4 : W)
        → pthread.create (with_handlers host w) ≡ ((pos 0, id), w2)
        → configured_run os reader conf fuel others rounds waits init w2 ≡ done (c, w3)
        → pthread.join id (host.clear_should_run w3) ≡ done (tt, w4)
        → Succeeds
            (λ rv v. (rv ≡ ok) × ((s : Signal) → handler_of s v ≡ by_default))
            (child conf l w)
    unfolding run_daemon shut_down start_thread new_thread terminate waitexit destroy destroy_thread
        uninit_config_handling uninit_log
    run_daemon-Restored handler_of law conf l id c w w2 w3 w4 e f g =
        rw (install_lem host w, e, f, g, remove_lem host (lib.config_destroy w4))
          (log_closed handler_of law l.log_file _
            (λ s. removed host handler_of law s (lib.config_destroy w4)))

    -- A thread that was not created, because start failed, or was joined before: main does not look at
    -- what start returned, and joins the thread once the emulation has ended, which is undefined.
    run_daemon-Unjoinable :
        (joined : ℕ → W → Bool)
        → IsPthread pthread joined
        → (conf : Configuration) (l : LogState) (b : Bool) (t : Thread) (c : Comm) (w w2 w3 : W)
        → start_thread pthread new_thread (with_handlers host w) ≡ done ((b, t), w2)
        → configured_run os reader conf fuel others rounds waits init w2 ≡ done (c, w3)
        → Unjoinable joined w3 t
        → child conf l w ≡ fault
    unfolding run_daemon shut_down terminate waitexit new_thread
    run_daemon-Unjoinable joined law conf l b t c w w2 w3 e f unset = rw (install_lem host w, e, f)
    run_daemon-Unjoinable joined law conf l b t c w w2 w3 e f (joined_before id j) = rw (
      install_lem host w,
      e,
      f,
      law.join_twice id (host.clear_should_run w3) (law.clear_keeps id w3 ∙ j),
    )

    -- If a thread that was joined stays joined when the two flags are set, and joining it again is
    -- undefined: when the thread is created, the emulation ends, and signal_term has been called on the
    -- thread's object before that and has returned, main joins the thread for the second time, so it
    -- ends in undefined behaviour.
    pub terminated_twice :
        (joined : ℕ → W → Bool)
        → IsPthread pthread joined
        → (conf : Configuration) (l : LogState) (id : ℕ) (c c0 : Comm) (o : Option CommThread)
          (w w2 w3 u v : W)
        → pthread.create (with_handlers host w) ≡ ((pos 0, id), w2)
        → configured_run os reader conf fuel others rounds waits init w2 ≡ done (c, w3)
        → signal_term host pthread
            (some (record { comm = c0; thread = record new_thread { the_thread = some id } }))
            true
            u
          ≡ done (o, v)
        → joined id w3 ≡ joined id v
        → child conf l w ≡ fault
    unfolding start_thread new_thread
    terminated_twice joined law conf l id c c0 o w w2 w3 u v e f g same =
        run_daemon-Unjoinable joined law conf l true (record new_thread { the_thread = some id }) c
          w w2 w3 (rw e refl) f
          (joined_before id (same ∙ signal_term-joined pthread joined law c0 id u v o g))
