-- ===== src/Thread.antt =====
-- bin/edna_thread.h and edna_thread.cpp, under src: the class edna_thread, over pthreads as a
-- parameter. A thread's body is left open here: it is a virtual method.
pub mod Alone
mod Runs
use edna.Base.{
  ℕ, Bool, true, false, Option, none, some, ℤ, pos, int_eq, Io, pure, run, call, fault, ◌>>=◌, ◌>>◌,
  if◌then◌else◌,
}

-- pthread_create gives 0 and an identifier, or an error; pthread_join may wait for ever, and is
-- undefined for a thread that was joined before.
pub record Pthread (W : Type 0) : Type 0 where
  pub create : W → (ℤ × ℕ) × W
  pub cancel : ℕ → W → W
  pub join : ℕ → Io W (Unit {0})

-- The object; the_thread is not set by the constructor.
pub record Thread : Type 0 where
  pub is_running : Bool
  pub the_thread : Option ℕ

unfoldable pub new_thread : Thread
new_thread = record { is_running = false; the_thread = none }

-- entrypoint, before and after threadproc.
unfoldable pub enter_thread : Thread → Thread
enter_thread t = record t { is_running = true }

unfoldable pub leave_thread : Thread → Thread
leave_thread t = record t { is_running = false }

module _ {W : Type 0} (pthread : Pthread W) where
  unfoldable pub start_thread : Thread → Io W (Bool × Thread)
  start_thread t = if t.is_running then pure (false, t) else do
    (rv, id) ← call pthread.create
    if int_eq rv (pos 0) then pure (true, record t { the_thread = some id }) else pure (false, t)

  -- A use of the_thread before it is set is undefined.
  unfoldable pub waitexit : Thread → Io W (Unit {0})
  waitexit t = elim t.the_thread [ none ↦ λ w. fault | some id ↦ pthread.join id ]

  unfoldable pub cancel_thread : Thread → Io W (Unit {0})
  cancel_thread t = elim t.the_thread [ none ↦ λ w. fault | some id ↦ run (pthread.cancel id) ]

  unfoldable pub kill : Thread → Io W Thread
  kill t =
      if t.is_running
      then (do cancel_thread t; waitexit t; pure (record t { is_running = false }))
      else pure (record t { is_running = false })

  -- The destructor.
  unfoldable pub destroy_thread : Thread → Io W Thread
  destroy_thread t = if t.is_running then kill t else pure t
