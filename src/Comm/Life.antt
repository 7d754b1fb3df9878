-- ===== src/Comm/Life.antt =====
-- bin/edna_comm.cpp, under src: terminate and the destructor of edna_comm_thread, on the object and
-- the part of it that edna_thread keeps.
use edna.Base.{false, Io, pure, run, ◌>>=◌, ◌>>◌, if◌then◌else◌}
use edna.Thread.{Pthread, Thread, new_thread, waitexit, destroy_thread}
use edna.Comm.{Comm, init}

-- The object, and its part that edna_thread keeps.
pub record CommThread : Type 0 where
  pub comm : Comm
  pub thread : Thread

abbrev pub new_comm_thread : CommThread
new_comm_thread = record { comm = init; thread = new_thread }

-- `clear_should_run` is what the thread's body sees of the assignment, by its parameter `running`.
module _ {W : Type 0} (pthread : Pthread W) (clear_should_run : W → W) where
  unfoldable pub terminate : CommThread → Io W CommThread
  terminate o = do
    run clear_should_run
    waitexit pthread o.thread
    pure (record o { comm = record o.comm { should_run = false } })

  -- The destructors of the class and of its base.
  unfoldable pub destroy : CommThread → Io W CommThread
  destroy o = do
    o1 ← if o.comm.should_run then terminate o else pure o
    t ← destroy_thread pthread o1.thread
    pure (record o1 { thread = t })
