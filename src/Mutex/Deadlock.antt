-- ===== src/Mutex/Deadlock.antt =====
-- bin/edna_comm.cpp and edna_main.cpp: when the two threads of the daemon wait for each other, or for a
-- client.
use edna.Base.{Bool, true, Option, none, some, ◌≡◌, ◌≢◌, refl, ◌∙◌, ◌⊎◌, inl, inr, ◌↔◌}
use edna.Mutex.{Who, comm_thread, emu_thread, PthreadMutex, IsPthreadMutex}
use edna.Mutex.Threads.{
  CommAt, outer_test, inner_test, at_lock, selecting, second_test, serving, cleaning, ended, EmuAt,
  outside, before_lock, exchanging, Ending, not_called, joining, returned, Threads, Peers, IsPeers,
  after, locked, comm_from, comm_goes, emu_from, emu_goes, terminate_called, join_from,
  unless_joining, join_returns, Move, comm_move, emu_move, terminate_move, join_move, peer_move, go,
  Reach,
}
use edna.Mutex.Consistent.{AreConsistent}
use edna.Mutex.Exclusion.{locked_waits, locked_takes, Reach-IsConsistent}

-- The communications thread waits for the mutex, the other one holds it, and waits in terminate.
pub record IsDeadlock {W : Type 0} (s : Threads W) : Type 0 where
  pub waits : s.comm ≡ at_lock
  pub holds : s.emu ≡ exchanging
  pub ends : s.ending ≡ joining

module _ {W : Type 0} (pthread : PthreadMutex W) (peers : Peers W) where
  -- Neither thread goes on by itself, and terminate does not return.
  abbrev pub IsStuck : Threads W → Type 0
  IsStuck s =
      ((found : Bool) → comm_goes pthread peers found s ≡ none)
      × (emu_goes pthread peers s ≡ none)
      × (join_returns s ≡ none)

  -- The communications thread waits for the mutex, which the other one holds in an exchange or a power
  -- call; or in the rest of a round, for a client.
  abbrev pub CommWaits : CommAt → EmuAt → W → Type 0
  CommWaits c e w =
      ((c ≡ at_lock) × (e ≡ exchanging)) ⊎ ((c ≡ serving) × (peers.reply comm_thread w ≡ none))

  -- What each thread waits for: with terminate called, the emulator's thread for the communications
  -- thread, and that one for the mutex or for a client; without, the emulator's thread for a client in
  -- an exchange or a power call, and the communications thread has ended, or waits likewise.
  abbrev pub WaitFor : CommAt → EmuAt → Ending → W → Type 0
  WaitFor c e n w =
      ((n ≡ joining) × CommWaits c e w)
      ⊎ ((n ≢ joining)
          × (e ≡ exchanging)
          × (peers.reply emu_thread w ≡ none)
          × (CommWaits c e w ⊎ (c ≡ ended)))

after-none : {W : Type 0} (o : Option W) (next : W → Threads W) → after o next ≡ none → o ≡ none
after-none none next h = refl
after-none (some w) next h = cc h

module _ {W : Type 0} (pthread : PthreadMutex W) (peers : Peers W) (owner : W → Option Who)
    (mutex : IsPthreadMutex pthread owner) (quiet : IsPeers peers owner) where
  lock_goes :
      (t : Who) (next : W → Threads W) (w : W)
      → owner w ≡ none
      → locked pthread peers t next w ≢ none
  lock_goes t next w free h =
      let (w', e, o) = locked_takes pthread peers owner mutex quiet t next w free in cc (e, h)

  -- A communications thread that does not go on waits, or has ended.
  comm_stops :
      (s : Threads W) (c : CommAt) (e : EmuAt) (n : Ending)
      → AreConsistent owner c e n s.should_run s.world
      → comm_from pthread peers c true s ≡ none
      → CommWaits pthread peers c e s.world ⊎ (c ≡ ended)
  comm_stops s at_lock exchanging n v h = inl (inl (refl, refl))
  comm_stops s at_lock outside n v h = absurd (lock_goes comm_thread _ s.world v.owned h)
  comm_stops s at_lock before_lock n v h = absurd (lock_goes comm_thread _ s.world v.owned h)
  comm_stops s serving e n v h = inl (inr (refl, after-none _ _ h))
  comm_stops s ended e n v h = inr refl
  comm_stops s outer_test e n v h = cc h
  comm_stops s inner_test e n v h = cc h
  comm_stops s selecting e n v h = cc h
  comm_stops s second_test e n v h = cc h
  comm_stops s cleaning e n v h = cc h

  -- An emulator's thread that does not go on, and is not in terminate, waits for a client, or for a
  -- mutex that the other one has in select.
  emu_stops :
      (s : Threads W) (c : CommAt) (e : EmuAt) (n : Ending)
      → AreConsistent owner c e n s.should_run s.world
      → CommWaits pthread peers c e s.world ⊎ (c ≡ ended)
      → emu_from pthread peers e s ≡ none
      → (e ≡ exchanging) × (peers.reply emu_thread s.world ≡ none)
  emu_stops s c outside n v h k = cc k
  emu_stops s c exchanging n v h k = (refl, after-none _ _ k)
  emu_stops s c before_lock n v (inl (inl (p, q))) k = cc q
  emu_stops s c before_lock n v (inl (inr (p, q))) k =
      absurd (lock_goes emu_thread _ s.world (v.owned ∙ rw p refl) k)
  emu_stops s c before_lock n v (inr p) k =
      absurd (lock_goes emu_thread _ s.world (v.owned ∙ rw p refl) k)

  stuck_waits :
      (s : Threads W) (c : CommAt) (e : EmuAt) (n : Ending)
      → AreConsistent owner c e n s.should_run s.world
      → CommWaits pthread peers c e s.world ⊎ (c ≡ ended)
      → unless_joining n (emu_from pthread peers e s) ≡ none
      → join_from n c s ≡ none
      → WaitFor pthread peers c e n s.world
  stuck_waits s c e joining v (inl h) k j = inl (refl, h)
  stuck_waits s c e joining v (inr h) k j = absurd (cc (rw h at j))
  stuck_waits s c e not_called v h k j =
      let (p, q) = emu_stops s c e not_called v h k in inr (λ x. cc x, p, q, h)
  stuck_waits s c e returned v h k j =
      let (p, q) = emu_stops s c e returned v h k in inr (λ x. cc x, p, q, h)

  comm_is_stuck :
      (s : Threads W) (c : CommAt) (e : EmuAt) (n : Ending) (found : Bool)
      → AreConsistent owner c e n s.should_run s.world
      → CommWaits pthread peers c e s.world ⊎ (c ≡ ended)
      → comm_from pthread peers c found s ≡ none
  comm_is_stuck s c e n found v (inl (inl (p, q))) =
      let held : owner s.world ≡ some emu_thread = v.owned ∙ rw (p, q) refl in
      rw p (locked_waits pthread peers owner mutex quiet comm_thread emu_thread _ s.world held)
  comm_is_stuck s c e n found v (inl (inr (p, q))) = rw (p, q) refl
  comm_is_stuck s c e n found v (inr p) = rw p refl

  join_waits :
      (s : Threads W) (c : CommAt) (e : EmuAt)
      → CommWaits pthread peers c e s.world
      → join_from joining c s ≡ none
  join_waits s c e (inl (p, q)) = rw p refl
  join_waits s c e (inr (p, q)) = rw p refl

  not_joining :
      (n : Ending) (c : CommAt) (s : Threads W) (o : Option (Threads W))
      → n ≢ joining
      → o ≡ none
      → (unless_joining n o ≡ none) × (join_from n c s ≡ none)
  not_joining not_called c s o h e = (e, refl)
  not_joining returned c s o h e = (e, refl)
  not_joining joining c s o h e = absurd (h refl)

  waits_stuck :
      (s : Threads W) (c : CommAt) (e : EmuAt) (n : Ending)
      → AreConsistent owner c e n s.should_run s.world
      → WaitFor pthread peers c e n s.world
      → ((found : Bool) → comm_from pthread peers c found s ≡ none)
        × (unless_joining n (emu_from pthread peers e s) ≡ none)
        × (join_from n c s ≡ none)
  waits_stuck s c e n v (inl (j, h)) =
      (λ found. comm_is_stuck s c e n found v (inl h), rw j refl, rw j (join_waits s c e h))
  waits_stuck s c e n v (inr (j, p, q, h)) =
      let silent : emu_from pthread peers e s ≡ none = rw (p, q) refl in
      let (k, l) = not_joining n c s (emu_from pthread peers e s) j silent in
      (λ found. comm_is_stuck s c e n found v h, k, l)

  -- If the mutex is one with the default attributes, and what goes over the sockets of the clients leaves
  -- it alone, then in every state that the two threads, the clients and terminate reach from the start
  -- on: neither thread goes on by itself and terminate does not return, if and only if one of two holds.
  -- Either terminate waits for the communications thread, and that one waits for the mutex, which the
  -- interrupted exchange or power call holds, or for a client, in the rest of a round. Or terminate does
  -- not wait, the emulator's thread waits for a client in an exchange or a power call, with the mutex
  -- held, and the communications thread waits for the mutex, or for a client, or has ended.
  pub IsStuck-iff :
      (s : Threads W)
      → Reach pthread peers s
      → IsStuck pthread peers s ↔ WaitFor pthread peers s.comm s.emu s.ending s.world
  unfolding comm_goes emu_goes join_returns
  IsStuck-iff s r =
      let v = Reach-IsConsistent pthread peers owner mutex quiet s r in
      (
        λ h.
            stuck_waits s s.comm s.emu s.ending v (comm_stops s s.comm s.emu s.ending v (h.0 true))
              h.1 h.2,
        waits_stuck s s.comm s.emu s.ending v,
      )

  -- If the mutex is one with the default attributes, and what goes over the sockets of the clients leaves
  -- it alone: a state that the threads reach, where terminate was called inside of an exchange or a power
  -- call, with the mutex held, and the communications thread waits for the mutex, lasts for ever. Any
  -- move that there is, of the threads, of terminate or of a client, leads to such a state again, and
  -- terminate does not return in it.
  pub IsDeadlock-lasts :
      (s : Threads W) (m : Move)
      → Reach pthread peers s
      → IsDeadlock s
      → (join_returns s ≡ none)
        × ((go pthread peers m s ≡ none)
            ⊎ ((t : Threads W) × (go pthread peers m s ≡ some t) × IsDeadlock t))
  unfolding comm_goes emu_goes join_returns go terminate_called
  IsDeadlock-lasts s m r d =
      let v = Reach-IsConsistent pthread peers owner mutex quiet s r in
      let stuck = waits_stuck s s.comm s.emu s.ending v (inl (d.ends, inl (d.waits, d.holds))) in
      (stuck.2, on_move m stuck.0 stuck.1 stuck.2)
    where
      on_move :
          (m : Move)
          → ((found : Bool) → comm_goes pthread peers found s ≡ none)
          → emu_goes pthread peers s ≡ none
          → join_returns s ≡ none
          → (go pthread peers m s ≡ none)
            ⊎ ((t : Threads W) × (go pthread peers m s ≡ some t) × IsDeadlock t)
      on_move (comm_move found) h k j = inl (h found)
      on_move emu_move h k j = inl k
      on_move terminate_move h k j = inl (rw d.ends refl)
      on_move join_move h k j = inl j
      on_move peer_move h k j =
          inr (_, refl, record { waits = d.waits; holds = d.holds; ends = d.ends })
