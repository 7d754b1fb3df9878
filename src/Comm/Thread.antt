-- ===== src/Comm/Thread.antt =====
-- bin/edna_comm.cpp, under src: the body of the communications thread, around the rounds of `serve`.
-- `running` reads should_run, which another thread clears, and `others` is what other threads do to
-- the object while this one waits.
use edna.Base.{
  ℕ, zero, suc, ◌≡◌, refl, ◌∙◌, Bool, false, List, [], ◌∷◌, Option, none, some, ℤ, pos, int_eq,
  is_neg, Io, done, pure, run, call, spin, ◌>>=◌, ◌>>◌, Ensures, done-Ensures, then-Ensures,
  if-Ensures, if◌then◌else◌,
}
use edna.Os.{Os}
use edna.Comm.AidMap.{Registry}
use edna.Comm.{Comm, serve}

abbrev pub backlog : ℕ
backlog = 5

abbrev pub sockets : Registry → List ℤ
sockets [] = []
sockets ((aid, fd) ∷ m) = fd ∷ sockets m

module _ {W : Type 0} (os : Os W) (running : W → Bool × W) (others : Comm → Io W Comm) where
  -- The inner loop: select(2) under the mutex, until something is ready. `none` says that should_run
  -- was cleared.
  unfoldable pub wait_ready : ℕ → ℤ → Comm → Io W (Comm × Option (ℤ → Bool))
  wait_ready zero socket_fd c w = spin
  wait_ready (suc waits) socket_fd c w =
      (do
        go ← call running
        if go
            then (do
              c1 ← others c
              run os.lock
              (rv, ready) ← call (os.select (socket_fd ∷ sockets c1.application_registry))
              run os.unlock
              if is_neg rv
                  then wait_ready waits socket_fd c1
                  else if int_eq rv (pos 0)
                  then wait_ready waits socket_fd c1
                  else pure (c1, some ready))
            else pure (c, none))
        w

  -- The outer loop.
  unfoldable pub rounds : ℕ → ℕ → ℕ → ℤ → Comm → Io W Comm
  rounds zero waits fuel socket_fd c w = spin
  rounds (suc n) waits fuel socket_fd c w =
      (do
        (c1, o) ← wait_ready waits socket_fd c
        elim o [
          | none ↦ pure c1
          | some ready ↦ (do
            go ← call running
            if go
                then (do c2 ← serve os fuel c1 socket_fd ready; rounds n waits fuel socket_fd c2)
                else pure c1)
        ])
        w

  unfoldable pub close_clients : Registry → Io W (Unit {0})
  close_clients [] = pure tt
  close_clients ((aid, fd) ∷ m) = do run (os.close fd); close_clients m

  -- Both error exits of the set-up.
  unfoldable pub abandon : ℤ → Comm → Io W Comm
  abandon socket_fd c = do run (os.close socket_fd); run os.unlink; pure c

  unfoldable pub clean_up : ℤ → Comm → Io W Comm
  clean_up socket_fd c = do close_clients c.application_registry; abandon socket_fd c

  unfoldable pub set_up : ℕ → ℕ → ℕ → ℤ → Comm → Io W Comm
  set_up n waits fuel socket_fd c = do
    bound ← call (os.bind socket_fd)
    if int_eq bound (pos 0)
        then (do
          listening ← call (os.listen socket_fd backlog)
          if int_eq listening (pos 0)
              then (do c1 ← rounds n waits fuel socket_fd c; clean_up socket_fd c1)
              else abandon socket_fd c)
        else abandon socket_fd c

  unfoldable pub threadproc : ℕ → ℕ → ℕ → Comm → Io W Comm
  threadproc n waits fuel c = do
    run os.unlink
    socket_fd ← call os.socket
    if is_neg socket_fd then pure c else set_up n waits fuel socket_fd c

  -- Closing the sockets in the order of the registry.
  abbrev pub all_closed : List ℤ → W → W
  all_closed [] w = w
  all_closed (fd ∷ fds) w = all_closed fds (os.close fd w)

  pub close_clients_lem :
      (m : Registry) (w : W) → close_clients m w ≡ done (tt, all_closed (sockets m) w)
  unfolding close_clients
  close_clients_lem [] w = refl
  close_clients_lem ((aid, fd) ∷ m) w = close_clients_lem m (os.close fd w)

  -- The thread gets a socket, binds it and listens; then should_run is cleared before the first
  -- round. The thread returns with the object as it was: the sockets of all clients are closed in
  -- the order of the registry, then the listening socket, and last its path is unlinked.
  threadproc_stops :
      (n waits fuel : ℕ) (c : Comm) (fd : ℕ) (w w1 w2 w3 w4 : W)
      → os.socket (os.unlink w) ≡ (pos fd, w1)
      → os.bind (pos fd) w1 ≡ (pos 0, w2)
      → os.listen (pos fd) backlog w2 ≡ (pos 0, w3)
      → running w3 ≡ (false, w4)
      → threadproc (suc n) (suc waits) fuel c w
        ≡ done (c, os.unlink (os.close (pos fd) (all_closed (sockets c.application_registry) w4)))
  unfolding threadproc set_up rounds wait_ready clean_up abandon
  threadproc_stops n waits fuel c fd w w1 w2 w3 w4 e f g h =
      rw (e, f, g, h, close_clients_lem c.application_registry w4)

  -- The path of the daemon's socket: unlink(2) takes it away, and socket(2) does not make it.
  pub record IsPath (bound : W → Bool) : Type 0 where
    pub unlink_removes : (w : W) → bound (os.unlink w) ≡ false
    pub socket_keeps : (w : W) → bound (os.socket w).1 ≡ bound w

  module _ (bound : W → Bool) (path : IsPath bound) where
    abbrev Gone : Comm → W → Type 0
    Gone c w = bound w ≡ false

    abandon-Gone : (fd : ℤ) (c : Comm) (w : W) → Ensures Gone (abandon fd c w)
    unfolding abandon
    abandon-Gone fd c w = done-Ensures Gone c _ (path.unlink_removes _)

    clean_up-Gone : (fd : ℤ) (c : Comm) (w : W) → Ensures Gone (clean_up fd c w)
    unfolding clean_up
    clean_up-Gone fd c w =
        then-Ensures Gone (close_clients c.application_registry) _ w (λ _ w'. abandon-Gone fd c w')

    set_up-Gone :
        (n waits fuel : ℕ) (fd : ℤ) (c : Comm) (w : W) → Ensures Gone (set_up n waits fuel fd c w)
    unfolding set_up
    set_up-Gone n waits fuel fd c w =
        if-Ensures Gone (int_eq (os.bind fd w).0 (pos 0)) _ (abandon fd c) _
          (if-Ensures Gone (int_eq (os.listen fd backlog (os.bind fd w).1).0 (pos 0)) _
            (abandon fd c) _
            (then-Ensures Gone (rounds n waits fuel fd c) _ _ (λ c1 w'. clean_up-Gone fd c1 w'))
            (abandon-Gone fd c _))
          (abandon-Gone fd c _)

    -- Whenever the thread's body ends, be it at once, in the set-up, or after its last round, no path
    -- of the socket is left behind.
    pub threadproc_unlinks :
        (n waits fuel : ℕ) (c : Comm) (w : W) → Ensures Gone (threadproc n waits fuel c w)
    unfolding threadproc
    threadproc_unlinks n waits fuel c w =
        if-Ensures Gone (is_neg (os.socket (os.unlink w)).0) (pure c) _ _
          (done-Ensures Gone c _ (path.socket_keeps _ ∙ path.unlink_removes w))
          (set_up-Gone n waits fuel _ c _)
