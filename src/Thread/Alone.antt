-- ===== src/Thread/Alone.antt =====
-- bin/edna_thread.cpp: the threads behind one object, in every order of what the caller and the
-- threads do.
use edna.Base.{
  ℕ, suc, ◌+◌, ◌≤◌, ◌≡◌, refl, Bool, true, false, int_eq, pos, pure, if◌then◌else◌, done,
  Ensures-done, if-Ensures, done-Ensures, arith,
}
use edna.Thread.{Pthread, Thread, new_thread, enter_thread, leave_thread, start_thread}

-- How many threads were created and are not in threadproc yet, how many are inside, and how many
-- have come out of it.
pub record Crowd : Type 0 where
  pub thread : Thread
  pub waiting : ℕ
  pub inside : ℕ
  pub gone : ℕ

module _ {W : Type 0} (pthread : Pthread W) where
  -- A call of start, and the two ends of entrypoint in one of the threads.
  pub data Step (c : Crowd) : Crowd → Type 0 where
    starts :
        (w w' : W) (t : Thread)
        → start_thread pthread c.thread w ≡ done ((true, t), w')
        → Step c (record c { thread = t; waiting = suc c.waiting })
    refuses :
        (w w' : W) (t : Thread)
        → start_thread pthread c.thread w ≡ done ((false, t), w')
        → Step c (record c { thread = t })
    enters :
        (n : ℕ)
        → c.waiting ≡ suc n
        → Step c (record c { thread = enter_thread c.thread; waiting = n; inside = suc c.inside })
    leaves :
        (n : ℕ)
        → c.inside ≡ suc n
        → Step c (record c { thread = leave_thread c.thread; inside = n; gone = suc c.gone })

  pub data Reach : Crowd → Type 0 where
    begin : Reach (record { thread = new_thread; waiting = 0; inside = 0; gone = 0 })
    later : {c d : Crowd} → Reach c → Step c d → Reach d

  -- While no more than one thread was ever created, is_running says whether it is inside.
  IsAlone : Crowd → Type 0
  IsAlone c = c.waiting + c.inside + c.gone ≤ 1 → c.inside ≡ (if c.thread.is_running then 1 else 0)

  start-running :
      (t t' : Thread) (b : Bool) (w w' : W)
      → start_thread pthread t w ≡ done ((b, t'), w')
      → t'.is_running ≡ t.is_running
  unfolding start_thread
  start-running t t' b w w' e =
      Ensures-done Q (start_thread pthread t w) (b, t') w'
        (if-Ensures Q t.is_running (pure (false, t)) _ w (done-Ensures Q (false, t) w refl) (
          if-Ensures Q (int_eq (pthread.create w).0.0 (pos 0)) (pure (true, _)) (pure (false, t)) _
            (done-Ensures Q (true, _) _ refl) (done-Ensures Q (false, t) _ refl)))
        e
    where
      Q : Bool × Thread → W → Type 0
      Q r v = r.1.is_running ≡ t.is_running

  Step-IsAlone : {c d : Crowd} → Step c d → IsAlone c → IsAlone d
  unfolding IsAlone enter_thread leave_thread
  Step-IsAlone {c} (starts w w' t e) h one =
      rw (start-running c.thread t true w w' e) (h (omega (arith, one)))
  Step-IsAlone {c} (refuses w w' t e) h one = rw (start-running c.thread t false w w' e) (h one)
  Step-IsAlone {c} (enters n e) h one = omega (arith, one)
  Step-IsAlone {c} (leaves n e) h one = omega (arith, one)

  -- Whatever the order of the calls of start and of what the threads do: as long as no more than one
  -- thread was created for the object, is_running holds just while that thread is in threadproc.
  pub Reach-running :
      {c : Crowd}
      → Reach c
      → c.waiting + c.inside + c.gone ≤ 1
      → c.inside ≡ (if c.thread.is_running then 1 else 0)
  unfolding IsAlone new_thread
  Reach-running begin one = refl
  Reach-running (later r s) one = Step-IsAlone s (Reach-running r) one
