-- ===== src/Mutex.antt =====
-- bin/edna_mutex.h and edna_mutex.cpp, under src: the class edna_mutex, over pthreads as a parameter.
-- `Threads` has the places where the two threads of the daemon use its one object, comm_mutex.
pub mod Threads
pub mod Consistent
pub mod Exclusion
pub mod Deadlock
pub mod Progress
mod Runs
use edna.Base.{◌≡◌, Option, none, some}

-- The communications thread, and the thread that runs the emulator.
pub data Who : Type 0 where
  comm_thread emu_thread : Who

-- A mutex of pthreads, in the world `W`. A lock gives no world while the caller waits.
pub record PthreadMutex (W : Type 0) : Type 0 where
  pub mutex_init : W → W
  pub mutex_destroy : W → W
  pub mutex_lock : Who → W → Option W
  pub mutex_unlock : Who → W → W

-- A mutex with the default attributes, for which init is given NULL: who holds it, if anyone. A lock
-- waits while anyone does, the caller included.
pub record IsPthreadMutex {W : Type 0} (pthread : PthreadMutex W) (owner : W → Option Who)
    : Type 0 where
  pub init_frees : (w : W) → owner (pthread.mutex_init w) ≡ none
  pub lock_takes :
      (t : Who) (w : W)
      → owner w ≡ none
      → (w' : W) × (pthread.mutex_lock t w ≡ some w') × (owner w' ≡ some t)
  pub lock_waits : (t u : Who) (w : W) → owner w ≡ some u → pthread.mutex_lock t w ≡ none
  pub unlock_frees : (t : Who) (w : W) → owner w ≡ some t → owner (pthread.mutex_unlock t w) ≡ none

module _ {W : Type 0} (pthread : PthreadMutex W) where
  -- The constructor and the destructor.
  unfoldable pub new_mutex : W → W
  new_mutex w = pthread.mutex_init w

  unfoldable pub destroy_mutex : W → W
  destroy_mutex w = pthread.mutex_destroy w

  unfoldable pub lock : Who → W → Option W
  lock t w = pthread.mutex_lock t w

  unfoldable pub unlock : Who → W → W
  unlock t w = pthread.mutex_unlock t w
