-- ===== src/Mutex/Runs.antt =====
-- Runs of the two threads of the daemon over one mutex.
use edna.Base.{true, false, [], ◌∷◌, Option, none, some, ◌≡◌, refl, sym, ◌↔◌, ◌⊎◌, inl, inr}
use edna.Mutex.{Who, comm_thread, emu_thread, PthreadMutex, IsPthreadMutex, new_mutex, lock, unlock}
use edna.Mutex.Threads.{
  Peers, IsPeers, peer_move, at_lock, serving, ended, outside, exchanging, joining, returned,
  not_called, Threads, started, comm_move, emu_move, terminate_move, go, comm_goes, emu_goes,
  terminate_called, join_returns, Reach, at_start, later, comm_alone,
}
use edna.Mutex.Consistent.{IsConsistent}
use edna.Mutex.Exclusion.{Reach-IsConsistent}
use edna.Mutex.Deadlock.{IsStuck, IsDeadlock, CommWaits, WaitFor, IsStuck-iff, IsDeadlock-lasts}
use edna.Mutex.Progress.{terminate_ends}

-- The world is who holds the mutex.
abbrev Owner : Type 0
Owner = Option Who

abbrev locked_by : Who → Owner → Option Owner
locked_by t none = some (some t)
locked_by t (some u) = none

abbrev mutexes : PthreadMutex Owner
mutexes = record {
  mutex_init = λ w. none;
  mutex_destroy = λ w. w;
  mutex_lock = locked_by;
  mutex_unlock = λ t w. none;
}

abbrev owner : Owner → Option Who
owner w = w

takes : (t : Who) (w : Owner) → w ≡ none → (w' : Owner) × (locked_by t w ≡ some w') × (w' ≡ some t)
takes t none e = (some t, refl, refl)
takes t (some u) e = cc e

waits : (t u : Who) (w : Owner) → w ≡ some u → locked_by t w ≡ none
waits t u none e = cc e
waits t u (some v) e = refl

mutexes-IsPthreadMutex : IsPthreadMutex mutexes owner
mutexes-IsPthreadMutex = record {
  init_frees = λ w. refl;
  lock_takes = takes;
  lock_waits = waits;
  unlock_frees = λ t w e. refl;
}

-- The clients answer the emulator's thread at once, and the other one never.
abbrev replies : Who → Owner → Option Owner
replies comm_thread w = none
replies emu_thread w = some w

abbrev peers : Peers Owner
peers = record { reply = replies; act = λ w. w }

keeps : (t : Who) (w w' : Owner) → replies t w ≡ some w' → w' ≡ w
keeps comm_thread w w' e = cc e
keeps emu_thread w w' e = let same : w ≡ w' = cc e in sym same

peers-IsPeers : IsPeers peers owner
peers-IsPeers = record { reply_keeps = keeps; act_keeps = λ w. refl }

-- The emulator's thread is in an exchange, and the communications thread at its lock.
abbrev waiting : Threads Owner
waiting = record {
  comm = at_lock;
  emu = exchanging;
  ending = not_called;
  should_run = true;
  world = some emu_thread;
}

waiting-Reach : Reach mutexes peers waiting
unfolding go comm_goes emu_goes started new_mutex lock
waiting-Reach =
    later (comm_move true)
      (later (comm_move true) (later emu_move (later emu_move (at_start none refl) refl) refl) refl)
      refl

-- A signal comes now, and signal_term calls terminate.
abbrev deadlocked : Threads Owner
deadlocked = record waiting { ending = joining; should_run = false }

deadlocked-Reach : Reach mutexes peers deadlocked
unfolding go terminate_called
deadlocked-Reach = later terminate_move waiting-Reach refl

-- The signal comes between two exchanges.
abbrev interrupted : Threads Owner
interrupted = record {
  comm = at_lock;
  emu = outside;
  ending = joining;
  should_run = false;
  world = none;
}

interrupted-Reach : Reach mutexes peers interrupted
unfolding go comm_goes emu_goes terminate_called unlock
interrupted-Reach = later terminate_move (later emu_move waiting-Reach refl) refl

-- The rest of a round, which changes the registry, while an exchange or a power call reads it.
both_inside : Reach mutexes peers (record waiting { comm = serving })
unfolding go comm_goes emu_goes started new_mutex lock unlock
both_inside =
    let at_select =
      later (comm_move true)
        (later (comm_move true) (later (comm_move true) (at_start none refl) refl) refl) refl in
    let served = later (comm_move true) (later (comm_move true) at_select refl) refl in
    later emu_move (later emu_move served refl) refl

Reach-IsConsistent_example : IsConsistent owner waiting
Reach-IsConsistent_example =
    Reach-IsConsistent mutexes peers owner mutexes-IsPthreadMutex peers-IsPeers waiting
      waiting-Reach

-- A signal comes while new_client reads from a client that says nothing.
abbrev silenced : Threads Owner
silenced = record {
  comm = serving;
  emu = outside;
  ending = joining;
  should_run = false;
  world = none;
}

silenced-Reach : Reach mutexes peers silenced
unfolding go comm_goes started new_mutex lock unlock terminate_called
silenced-Reach =
    let at_select =
      later (comm_move true)
        (later (comm_move true) (later (comm_move true) (at_start none refl) refl) refl) refl in
    let served = later (comm_move true) (later (comm_move true) at_select refl) refl in
    later terminate_move served refl

IsStuck-iff_example :
    IsStuck mutexes peers silenced ↔ WaitFor mutexes peers serving outside joining none
IsStuck-iff_example =
    IsStuck-iff mutexes peers owner mutexes-IsPthreadMutex peers-IsPeers silenced silenced-Reach

IsDeadlock-lasts_example :
    (join_returns deadlocked ≡ none)
    × ((go mutexes peers peer_move deadlocked ≡ none)
        ⊎ ((t : Threads Owner) × (go mutexes peers peer_move deadlocked ≡ some t) × IsDeadlock t))
IsDeadlock-lasts_example =
    IsDeadlock-lasts mutexes peers owner mutexes-IsPthreadMutex peers-IsPeers deadlocked peer_move
      deadlocked-Reach (record { waits = refl; holds = refl; ends = refl })

free_of_waits : ¬ (CommWaits mutexes peers at_lock outside none)
free_of_waits h = elim h [ inl q ↦ cc (q.1) | inr q ↦ cc (q.0) ]

terminate_ends_example :
    ((comm_alone mutexes peers (true ∷ false ∷ true ∷ false ∷ true ∷ []) interrupted).comm ≡ ended)
    × ((t : Threads Owner) × (join_returns
            (comm_alone mutexes peers (true ∷ false ∷ true ∷ false ∷ true ∷ []) interrupted)
          ≡ some t)
        × (t.ending ≡ returned))
terminate_ends_example =
    terminate_ends mutexes peers owner mutexes-IsPthreadMutex peers-IsPeers interrupted true false
      true false true interrupted-Reach refl free_of_waits
