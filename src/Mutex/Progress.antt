-- ===== src/Mutex/Progress.antt =====
-- bin/edna_comm.cpp and edna_main.cpp: terminate ends, unless the communications thread waits for the
-- mutex or for a client.
use edna.Base.{
  Option-cases, Bool-cases, inl, inr, ℕ, ◌<◌, ◌≤◌, Bool, true, false, List, [], ◌∷◌, Option, none,
  some, length, ◌≡◌, refl, ap, ◌∙◌, arith,
}
use edna.Mutex.{Who, comm_thread, PthreadMutex, IsPthreadMutex}
use edna.Mutex.Threads.{
  Peers, IsPeers, outside, before_lock, CommAt, outer_test, inner_test, at_lock, selecting,
  second_test, serving, cleaning, ended, EmuAt, exchanging, joining, returned, Threads, comm_from,
  comm_goes, join_returns, comm_move, go, Reach, comm_alone,
}
use edna.Mutex.Consistent.{
  comm_holds, emu_holds, holder, is_alive, IsConsistent, Every-some, is_running,
}
use edna.Mutex.Exclusion.{locked_takes, go-IsConsistent, Reach-IsConsistent}
use edna.Mutex.Deadlock.{CommWaits}

module _ {W : Type 0} (pthread : PthreadMutex W) (peers : Peers W) (owner : W → Option Who)
    (mutex : IsPthreadMutex pthread owner) (quiet : IsPeers peers owner) where
  -- How many moves the communications thread has left once should_run is cleared.
  abbrev left : CommAt → ℕ
  left ended = 0
  left cleaning = 1
  left second_test = 2
  left outer_test = 2
  left inner_test = 3
  left serving = 3
  left selecting = 4
  left at_lock = 5

  abbrev may_wait : CommAt → Bool
  may_wait at_lock = true
  may_wait serving = true
  may_wait c = false

  abbrev Waits : Threads W → Type 0
  Waits s = CommWaits pthread peers s.comm s.emu s.world

  not_waiting :
      (c : CommAt) (e : EmuAt) (w : W) → may_wait c ≡ false → ¬ CommWaits pthread peers c e w
  not_waiting at_lock e w h = λ k. cc h
  not_waiting serving e w h = λ k. cc h
  not_waiting outer_test e w h = λ k. elim k [ inl q ↦ cc (q.0) | inr q ↦ cc (q.0) ]
  not_waiting inner_test e w h = λ k. elim k [ inl q ↦ cc (q.0) | inr q ↦ cc (q.0) ]
  not_waiting selecting e w h = λ k. elim k [ inl q ↦ cc (q.0) | inr q ↦ cc (q.0) ]
  not_waiting second_test e w h = λ k. elim k [ inl q ↦ cc (q.0) | inr q ↦ cc (q.0) ]
  not_waiting cleaning e w h = λ k. elim k [ inl q ↦ cc (q.0) | inr q ↦ cc (q.0) ]
  not_waiting ended e w h = λ k. elim k [ inl q ↦ cc (q.0) | inr q ↦ cc (q.0) ]

  -- terminate waits for the thread, which waits neither for the mutex nor for a client.
  record IsEnding (s : Threads W) : Type 0 where
    consistent : IsConsistent owner s
    called : s.ending ≡ joining
    free : ¬ (Waits s)

  -- A move of the communications thread that ends: what it leaves alone, and where it leads.
  abbrev Goes : CommAt → Threads W → Threads W → Type 0
  Goes c s t = (left t.comm < left c) × (t.ending ≡ s.ending) × (may_wait t.comm ≡ false)

  mutex_free :
      (e : EmuAt) (w : W)
      → owner w ≡ holder false (emu_holds e)
      → ¬ (CommWaits pthread peers at_lock e w)
      → owner w ≡ none
  mutex_free exchanging w o f = absurd (f (inl (refl, refl)))
  mutex_free outside w o f = o
  mutex_free before_lock w o f = o

  comm_from-Goes :
      (c : CommAt) (found : Bool) (s : Threads W)
      → is_alive c ≡ true
      → owner s.world ≡ holder (comm_holds c) (emu_holds s.emu)
      → ¬ (CommWaits pthread peers c s.emu s.world)
      → s.should_run ≡ false
      → (t : Threads W) × (comm_from pthread peers c found s ≡ some t) × Goes c s t
  comm_from-Goes outer_test found s a o f e = rw e (_, refl, (omega arith, refl, refl))
  comm_from-Goes inner_test found s a o f e = rw e (_, refl, (omega arith, refl, refl))
  comm_from-Goes at_lock found s a o f e =
      let (w', h, mine) =
        locked_takes pthread peers owner mutex quiet comm_thread
          (λ w. record s { comm = selecting; world = w }) s.world (mutex_free s.emu s.world o f) in
      (_, h, (omega arith, refl, refl))
  comm_from-Goes selecting true s a o f e = (_, refl, (omega arith, refl, refl))
  comm_from-Goes selecting false s a o f e = (_, refl, (omega arith, refl, refl))
  comm_from-Goes second_test found s a o f e = rw e (_, refl, (omega arith, refl, refl))
  comm_from-Goes serving found s a o f e = elim (Option-cases (peers.reply comm_thread s.world)) [
    | inl h ↦ absurd (f (inr (refl, h)))
    | inr (w, h) ↦ rw h (_, refl, (omega arith, refl, refl))
  ]
  comm_from-Goes cleaning found s a o f e = (_, refl, (omega arith, refl, refl))
  comm_from-Goes ended found s a o f e = cc a

  IsEnding-goes :
      (found : Bool) (s : Threads W)
      → IsEnding s
      → is_alive s.comm ≡ true
      → (t : Threads W) × (comm_goes pthread peers found s ≡ some t)
        × IsEnding t
        × (left t.comm < left s.comm)
  unfolding go comm_goes
  IsEnding-goes found s v a =
      let (t, e, (less, same, out)) =
        comm_from-Goes s.comm found s a v.consistent.owned v.free
          (v.consistent.cleared ∙ ap is_running v.called) in
      (
        t,
        e,
        record {
          consistent =
              Every-some (IsConsistent owner) _ t
                (go-IsConsistent pthread peers owner mutex quiet (comm_move found) s v.consistent)
                e;
          called = same ∙ v.called;
          free = not_waiting t.comm t.emu t.world out;
        },
        less,
      )

  none_left : (c : CommAt) → left c ≤ 0 → c ≡ ended
  none_left ended h = refl
  none_left c h = absurd (omega arith)

  dead : (c : CommAt) → is_alive c ≡ false → c ≡ ended
  dead ended h = refl
  dead c h = cc h

  at_most_five : (c : CommAt) → left c ≤ 5
  at_most_five c = grind arith

  comm_stops :
      (found : Bool) (s : Threads W) → s.comm ≡ ended → comm_goes pthread peers found s ≡ none
  unfolding comm_goes
  comm_stops found s h = rw h refl

  join_ends :
      (s : Threads W)
      → s.comm ≡ ended
      → s.ending ≡ joining
      → (t : Threads W) × (join_returns s ≡ some t) × (t.ending ≡ returned)
  unfolding join_returns
  join_ends s h k = (record s { ending = returned }, rw (h, k) refl, refl)

  ending_alone :
      (l : List Bool) (s : Threads W)
      → IsEnding s
      → left s.comm ≤ length l
      → ((comm_alone pthread peers l s).comm ≡ ended)
        × ((comm_alone pthread peers l s).ending ≡ joining)
  unfolding comm_alone
  ending_alone [] s v le = (none_left s.comm le, v.called)
  ending_alone (found ∷ l) s v le = elim (Bool-cases (is_alive s.comm)) [
    | inl a ↦
        let (t, e, w, less) = IsEnding-goes found s v a in
        rw (e, comm_alone) (ending_alone l t w (omega (arith, less, le)))
    | inr d ↦ let over = dead s.comm d in rw (comm_stops found s over, comm_alone) (over, v.called)
  ]

  -- If the mutex is one with the default attributes, and what goes over the sockets of the clients leaves
  -- it alone, then in every state that the two threads, the clients and terminate reach from the start
  -- on, where terminate was called and waits: if the communications thread waits neither for the mutex,
  -- because the other one was stopped inside of an exchange or a power call, nor for a client, in a round
  -- that is under way, then five moves of the communications thread, whatever select finds, end it, and
  -- then terminate returns.
  pub terminate_ends :
      (s : Threads W) (a b c d e : Bool)
      → Reach pthread peers s
      → s.ending ≡ joining
      → ¬ (CommWaits pthread peers s.comm s.emu s.world)
      → ((comm_alone pthread peers (a ∷ b ∷ c ∷ d ∷ e ∷ []) s).comm ≡ ended)
        × ((t : Threads W) × (join_returns (comm_alone pthread peers (a ∷ b ∷ c ∷ d ∷ e ∷ []) s)
              ≡ some t)
            × (t.ending ≡ returned))
  terminate_ends s a b c d e r j free =
      let l = a ∷ b ∷ c ∷ d ∷ e ∷ [] in
      let v : IsEnding s = record {
        consistent = Reach-IsConsistent pthread peers owner mutex quiet s r;
        called = j;
        free = free;
      } in
      let done = ending_alone l s v (at_most_five s.comm) in
      (done.0, join_ends (comm_alone pthread peers l s) done.0 done.1)
