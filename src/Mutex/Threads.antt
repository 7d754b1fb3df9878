-- ===== src/Mutex/Threads.antt =====
-- bin/edna_comm.cpp and edna_main.cpp, under src: where the two threads of the daemon lock comm_mutex,
-- read and clear should_run, and wait for each other and for the clients. Of what they do in between,
-- only whether the reads and writes on the clients' sockets return is kept.
use edna.Base.{Bool, true, false, List, [], ◌∷◌, Option, none, some, ◌≡◌, if◌then◌else◌}
use edna.Mutex.{Who, comm_thread, emu_thread, PthreadMutex, new_mutex, lock, unlock}

-- A place of threadproc: the tests of the outer and of the inner loop, the lock, select with the mutex
-- held, the test behind the inner loop, the rest of a round, the clean-up, and its end.
pub data CommAt : Type 0 where
  outer_test inner_test at_lock selecting second_test serving cleaning ended : CommAt

-- A place of the thread of the emulator: outside of the calls that lock the mutex, which are an exchange
-- and the two power calls, at their lock, and behind it.
pub data EmuAt : Type 0 where
  outside before_lock exchanging : EmuAt

-- The call of terminate: it may come at any place, in signal_term, or, outside, from main. It waits for
-- the communications thread, and the thread of the emulator with it.
pub data Ending : Type 0 where
  not_called joining returned : Ending

pub record Threads (W : Type 0) : Type 0 where
  pub comm : CommAt
  pub emu : EmuAt
  pub ending : Ending
  pub should_run : Bool
  pub world : W

module _ {W : Type 0} where
  abbrev pub terminate_from : Ending → Threads W → Option (Threads W)
  terminate_from not_called s = some (record s { ending = joining; should_run = false })
  terminate_from n s = none

  -- terminate, up to its join.
  unfoldable pub terminate_called : Threads W → Option (Threads W)
  terminate_called s = terminate_from s.ending s

  abbrev pub join_from : Ending → CommAt → Threads W → Option (Threads W)
  join_from joining ended s = some (record s { ending = returned })
  join_from n c s = none

  -- The join returns when the thread has ended.
  unfoldable pub join_returns : Threads W → Option (Threads W)
  join_returns s = join_from s.ending s.comm s

abbrev pub unless_joining : {A : Type 0} → Ending → Option A → Option A
unless_joining joining o = none
unless_joining n o = o

-- The clients: the world once the reads and writes of a thread on their sockets have returned, in the
-- rest of a round or in an exchange or a power call; `none` as long as one of them waits, for a client
-- that says nothing, or is repeated for ever, for a client that has closed its end. And what a client
-- does next.
pub record Peers (W : Type 0) : Type 0 where
  pub reply : Who → W → Option W
  pub act : W → W

-- Sockets are no mutex.
pub record IsPeers {W : Type 0} (peers : Peers W) (owner : W → Option Who) : Type 0 where
  pub reply_keeps : (t : Who) (w w' : W) → peers.reply t w ≡ some w' → owner w' ≡ owner w
  pub act_keeps : (w : W) → owner (peers.act w) ≡ owner w

-- Any of the moves.
pub data Move : Type 0 where
  comm_move : Bool → Move
  emu_move terminate_move join_move peer_move : Move

-- The thread goes on with the world that a call gives, if it returns.
abbrev pub after : {W : Type 0} → Option W → (W → Threads W) → Option (Threads W)
after none next = none
after (some w) next = some (next w)

module _ {W : Type 0} (pthread : PthreadMutex W) (peers : Peers W) where
  -- The constructor of the class, and the start of its thread.
  unfoldable pub started : W → Threads W
  started w = record {
    comm = outer_test;
    emu = outside;
    ending = not_called;
    should_run = true;
    world = new_mutex pthread w;
  }

  -- A lock, if it returns.
  abbrev pub locked : Who → (W → Threads W) → W → Option (Threads W)
  locked t next w = after (lock pthread t w) next

  abbrev pub comm_from : CommAt → Bool → Threads W → Option (Threads W)
  comm_from outer_test found s =
      some (record s { comm = if s.should_run then inner_test else cleaning })
  comm_from inner_test found s =
      some (record s { comm = if s.should_run then at_lock else second_test })
  comm_from at_lock found s =
      locked comm_thread (λ w. record s { comm = selecting; world = w }) s.world
  comm_from selecting found s = some (record s {
    comm = if found then second_test else inner_test;
    world = unlock pthread comm_thread s.world;
  })
  comm_from second_test found s =
      some (record s { comm = if s.should_run then serving else cleaning })
  comm_from serving found s =
      after (peers.reply comm_thread s.world) (λ w. record s { comm = outer_test; world = w })
  comm_from cleaning found s = some (record s { comm = ended })
  comm_from ended found s = none

  -- The communications thread goes on to its next place; `found` is whether select finds a descriptor.
  unfoldable pub comm_goes : Bool → Threads W → Option (Threads W)
  comm_goes found s = comm_from s.comm found s

  abbrev pub emu_from : EmuAt → Threads W → Option (Threads W)
  emu_from outside s = some (record s { emu = before_lock })
  emu_from before_lock s = locked emu_thread (λ w. record s { emu = exchanging; world = w }) s.world
  emu_from exchanging s =
      after (peers.reply emu_thread s.world)
        (λ w. record s { emu = outside; world = unlock pthread emu_thread w })

  -- The thread of the emulator goes on, unless it waits in terminate.
  unfoldable pub emu_goes : Threads W → Option (Threads W)
  emu_goes s = unless_joining s.ending (emu_from s.emu s)

  unfoldable pub go : Move → Threads W → Option (Threads W)
  go (comm_move found) s = comm_goes found s
  go emu_move s = emu_goes s
  go terminate_move s = terminate_called s
  go join_move s = join_returns s
  go peer_move s = some (record s { world = peers.act s.world })

  -- What the two threads and the clients reach from the start on, in any order.
  pub data Reach : Threads W → Type 0 where
    at_start : {s : Threads W} (w : W) → s ≡ started w → Reach s
    later : {s t : Threads W} (m : Move) → Reach s → go m s ≡ some t → Reach t

  -- The communications thread alone, as far as it gets; select finds what the list says.
  unfoldable pub comm_alone : List Bool → Threads W → Threads W
  comm_alone [] s = s
  comm_alone (found ∷ l) s = elim (comm_goes found s) [ none ↦ s | some t ↦ comm_alone l t ]
