-- ===== src/Thread/Runs.antt =====
-- Runs of bin/edna_thread.cpp: a thread that is started, and one that is started twice.
use edna.Base.{◌≡◌, refl, Bool, true, false, some, pos, done, fault, arith, if◌then◌else◌}
use edna.Thread.{
  Pthread, Thread, new_thread, enter_thread, leave_thread, start_thread, waitexit, cancel_thread,
  kill, destroy_thread,
}
use edna.Thread.Alone.{Crowd, starts, enters, leaves, Reach, begin, later, Reach-running}

-- The world says whether the thread was joined.
abbrev pthread : Pthread Bool
pthread = record {
  create = λ w. ((pos 0, 1), w);
  cancel = λ id w. w;
  join = λ id w. if w then fault else done (tt, true);
}

abbrev started : Thread
started = record { is_running = false; the_thread = some 1 }

starting : start_thread pthread new_thread false ≡ done ((true, started), false)
unfolding start_thread new_thread
starting = refl

refused :
    start_thread pthread (enter_thread started) false ≡ done ((false, enter_thread started), false)
unfolding start_thread enter_thread
refused = refl

killed : destroy_thread pthread (enter_thread started) false ≡ done (started, true)
unfolding destroy_thread kill enter_thread waitexit cancel_thread
killed = refl

unset : waitexit pthread new_thread false ≡ fault
unfolding waitexit new_thread
unset = refl

abbrev running : Crowd
running = record { thread = enter_thread started; waiting = 0; inside = 1; gone = 0 }

running-Reach : Reach pthread running
running-Reach = later (later begin (starts false false started starting)) (enters 0 refl)

Reach-running_example : running.inside ≡ (if (enter_thread started).is_running then 1 else 0)
Reach-running_example = Reach-running pthread running-Reach (omega arith)

-- A second call of start before the first thread has come into entrypoint creates a second thread;
-- when one of the two leaves, is_running is false with the other inside.
again : start_thread pthread started false ≡ done ((true, started), false)
unfolding start_thread
again = refl

two_threads : Reach pthread (record {
  thread = leave_thread (enter_thread (enter_thread started));
  waiting = 0;
  inside = 1;
  gone = 1;
})
two_threads =
    later
      (later
        (later
          (later (later begin (starts false false started starting))
            (starts false false started again))
          (enters 1 refl))
        (enters 0 refl))
      (leaves 1 refl)
