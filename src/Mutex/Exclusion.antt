-- ===== src/Mutex/Exclusion.antt =====
-- bin/edna_comm.cpp and edna_main.cpp: the two threads of the daemon are never both inside what
-- comm_mutex guards.
use edna.Base.{
  Bool, true, false, not, ◌&&◌, if◌then◌else◌, Option, none, some, ◌≡◌, refl, sym, subst, ap, arith,
  ◌∙◌,
}
use edna.Mutex.{Who, comm_thread, emu_thread, PthreadMutex, IsPthreadMutex, new_mutex, lock, unlock}
use edna.Mutex.Threads.{
  Peers, IsPeers, peer_move, after, CommAt, outer_test, inner_test, at_lock, selecting, second_test,
  serving, cleaning, ended, EmuAt, outside, before_lock, exchanging, Ending, not_called, joining,
  returned, Threads, started, locked, comm_from, comm_goes, emu_from, emu_goes, terminate_called,
  terminate_from, join_from, unless_joining, join_returns, Move, comm_move, emu_move,
  terminate_move, join_move, go, Reach, at_start, later,
}
use edna.Mutex.Consistent.{
  comm_holds, emu_holds, is_alive, is_over, holder, free_holder, comm_out, apart_left, Every,
  Every-some, AreConsistent, IsConsistent,
}

module _ {W : Type 0} (pthread : PthreadMutex W) (peers : Peers W) (owner : W → Option Who)
    (mutex : IsPthreadMutex pthread owner) (quiet : IsPeers peers owner) where
  pub locked_waits :
      (t u : Who) (next : W → Threads W) (w : W)
      → owner w ≡ some u
      → locked pthread peers t next w ≡ none
  unfolding lock
  locked_waits t u next w h = rw (mutex.lock_waits t u w h, locked) refl

  pub locked_takes :
      (t : Who) (next : W → Threads W) (w : W)
      → owner w ≡ none
      → (w' : W) × (locked pthread peers t next w ≡ some (next w')) × (owner w' ≡ some t)
  unfolding lock
  locked_takes t next w h = let (w', e, o) = mutex.lock_takes t w h in (w', rw (e, locked) refl, o)

  Consistent : Threads W → Type 0
  Consistent s = IsConsistent owner s

  locked-IsConsistent :
      (t : Who) (next : W → Threads W) (w : W) (o : Option Who)
      → owner w ≡ o
      → ((w' : W) → owner w ≡ none → owner w' ≡ some t → IsConsistent owner (next w'))
      → Every (IsConsistent owner) (locked pthread peers t next w)
  locked-IsConsistent t next w (some u) e k = rw (locked_waits t u next w e) tt
  locked-IsConsistent t next w none e k =
      let (w', f, o) = locked_takes t next w e in rw f (k w' e o)

  over_moves :
      (n : Ending) (c d : CommAt) → is_alive c ≡ true → is_over n c ≡ true → is_over n d ≡ true
  over_moves not_called c d a h = refl
  over_moves joining c d a h = refl
  over_moves returned c d a h = absurd (ground (arith, a, h))

  -- From a place where the mutex is not held to another one.
  moves :
      (c d : CommAt) {e : EmuAt} {n : Ending} {run : Bool} {w : W}
      → is_alive c ≡ true
      → comm_holds c ≡ false
      → comm_holds d ≡ false
      → AreConsistent owner c e n run w
      → AreConsistent owner d e n run w
  moves c d {e} {n} a out out' h = record {
    owned = h.owned ∙ ap (λ b. holder b (emu_holds e)) (out ∙ sym out');
    apart = rw out' refl;
    cleared = h.cleared;
    over = over_moves n c d a h.over;
  }

  -- A test of should_run.
  tests :
      (b : Bool) (c d d' : CommAt) {e : EmuAt} {n : Ending} {run : Bool} {w : W}
      → is_alive c ≡ true
      → comm_holds c ≡ false
      → comm_holds d ≡ false
      → comm_holds d' ≡ false
      → AreConsistent owner c e n run w
      → AreConsistent owner (if b then d else d') e n run w
  tests true c d d' a out out' out'' h = moves c d a out out' h
  tests false c d d' a out out' out'' h = moves c d' a out out'' h

  -- The mutex stays with whoever has it.
  moved :
      {c : CommAt} {e : EmuAt} {n : Ending} {run : Bool} {w : W} (w' : W)
      → owner w' ≡ owner w
      → AreConsistent owner c e n run w
      → AreConsistent owner c e n run w'
  moved w' same h = record {
    owned = same ∙ h.owned;
    apart = h.apart;
    cleared = h.cleared;
    over = h.over;
  }

  answered-IsConsistent :
      (t : Who) (next : W → Threads W) (w : W) (o : Option W)
      → peers.reply t w ≡ o
      → ((w' : W) → owner w' ≡ owner w → IsConsistent owner (next w'))
      → Every (IsConsistent owner) (after (peers.reply t w) next)
  answered-IsConsistent t next w none e k = rw e tt
  answered-IsConsistent t next w (some w') e k = rw e (k w' (quiet.reply_keeps t w w' e))

  comm_from-IsConsistent :
      (c : CommAt) (found : Bool) (s : Threads W)
      → AreConsistent owner c s.emu s.ending s.should_run s.world
      → Every (IsConsistent owner) (comm_from pthread peers c found s)
  unfolding unlock
  comm_from-IsConsistent outer_test found s h =
      tests s.should_run outer_test inner_test cleaning refl refl refl refl h
  comm_from-IsConsistent inner_test found s h =
      tests s.should_run inner_test at_lock second_test refl refl refl refl h
  comm_from-IsConsistent at_lock found s h =
      locked-IsConsistent comm_thread (λ w. record s { comm = selecting; world = w }) s.world
        (holder false (emu_holds s.emu)) h.owned
        (λ w' free mine. record {
          owned = mine;
          apart = free_holder (emu_holds s.emu) (sym h.owned ∙ free);
          cleared = h.cleared;
          over = over_moves s.ending at_lock selecting refl h.over;
        })
  comm_from-IsConsistent selecting found s h =
      tests found second_test second_test inner_test refl refl refl refl (record {
        owned = mutex.unlock_frees comm_thread s.world h.owned ∙ sym (ap (holder false) h.apart);
        apart = refl;
        cleared = h.cleared;
        over = over_moves s.ending selecting second_test refl h.over;
      })
  comm_from-IsConsistent second_test found s h =
      tests s.should_run second_test serving cleaning refl refl refl refl h
  comm_from-IsConsistent serving found s h =
      answered-IsConsistent comm_thread (λ w. record s { comm = outer_test; world = w }) s.world _
        refl (λ w' same. moves serving outer_test refl refl refl (moved w' same h))
  comm_from-IsConsistent cleaning found s h = moves cleaning ended refl refl refl h
  comm_from-IsConsistent ended found s h = tt

  emu_from-IsConsistent :
      (e : EmuAt) (s : Threads W)
      → AreConsistent owner s.comm e s.ending s.should_run s.world
      → Every (IsConsistent owner) (emu_from pthread peers e s)
  unfolding unlock
  emu_from-IsConsistent outside s h = record {
    owned = h.owned;
    apart = h.apart;
    cleared = h.cleared;
    over = h.over;
  }
  emu_from-IsConsistent before_lock s h =
      locked-IsConsistent emu_thread (λ w. record s { emu = exchanging; world = w }) s.world
        (holder (comm_holds s.comm) false) h.owned
        (λ w' free mine.
          let out = comm_out (comm_holds s.comm) (sym h.owned ∙ free) in
          record {
            owned = mine ∙ ap (λ b. holder b true) (sym out);
            apart = ap (λ b. b && true) out;
            cleared = h.cleared;
            over = h.over;
          })
  emu_from-IsConsistent exchanging s h =
      let out = apart_left (comm_holds s.comm) h.apart in
      answered-IsConsistent emu_thread
        (λ w. record s { emu = outside; world = unlock pthread emu_thread w }) s.world _ refl
        (λ w' same. record {
          owned =
              mutex.unlock_frees emu_thread w' (same ∙ h.owned ∙ ap (λ b. holder b true) out)
              ∙ ap (λ b. holder b false) (sym out);
          apart = ap (λ b. b && false) out;
          cleared = h.cleared;
          over = h.over;
        })

  join_from-IsConsistent :
      (n : Ending) (c : CommAt) (s : Threads W)
      → s.comm ≡ c
      → AreConsistent owner s.comm s.emu n s.should_run s.world
      → Every (IsConsistent owner) (join_from n c s)
  join_from-IsConsistent joining ended s e h = record {
    owned = h.owned;
    apart = h.apart;
    cleared = h.cleared;
    over = ap (λ c. not (is_alive c)) e;
  }
  join_from-IsConsistent n c s e h = tt

  terminate_from-IsConsistent :
      (n : Ending) (s : Threads W)
      → AreConsistent owner s.comm s.emu n s.should_run s.world
      → Every (IsConsistent owner) (terminate_from n s)
  terminate_from-IsConsistent not_called s h = record {
    owned = h.owned;
    apart = h.apart;
    cleared = refl;
    over = refl;
  }
  terminate_from-IsConsistent joining s h = tt
  terminate_from-IsConsistent returned s h = tt

  unless_joining-Every :
      (n : Ending) (o : Option (Threads W))
      → Every (IsConsistent owner) o
      → Every (IsConsistent owner) (unless_joining n o)
  unless_joining-Every not_called o h = h
  unless_joining-Every joining o h = tt
  unless_joining-Every returned o h = h

  pub go-IsConsistent :
      (m : Move) (s : Threads W)
      → IsConsistent owner s
      → Every (IsConsistent owner) (go pthread peers m s)
  unfolding go comm_goes emu_goes terminate_called join_returns
  go-IsConsistent (comm_move found) s h = comm_from-IsConsistent s.comm found s h
  go-IsConsistent emu_move s h = unless_joining-Every s.ending _ (emu_from-IsConsistent s.emu s h)
  go-IsConsistent terminate_move s h = terminate_from-IsConsistent s.ending s h
  go-IsConsistent join_move s h = join_from-IsConsistent s.ending s.comm s refl h
  go-IsConsistent peer_move s h = moved (peers.act s.world) (quiet.act_keeps s.world) h

  -- If the mutex is one with the default attributes, and what goes over the sockets of the clients leaves
  -- it alone: whatever the order in which the two threads and the clients go on, wherever terminate is
  -- called, and whatever select finds, from the start on, the mutex is held by the
  -- thread that is at a place behind its lock and by nobody if there is none; the communications thread
  -- is never in select while the other one is in an exchange or a power call; should_run is set until
  -- terminate is called; and terminate returns only after the thread has ended.
  pub Reach-IsConsistent : (s : Threads W) → Reach pthread peers s → IsConsistent owner s
  unfolding started new_mutex
  Reach-IsConsistent s (at_start w e) =
      subst (IsConsistent owner) (sym e)
        (record { owned = mutex.init_frees w; apart = refl; cleared = refl; over = refl })
  Reach-IsConsistent t (later {s} m r e) =
      Every-some (IsConsistent owner) _ t (go-IsConsistent m s (Reach-IsConsistent s r)) e
