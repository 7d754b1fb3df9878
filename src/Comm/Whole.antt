-- ===== src/Comm/Whole.antt =====
-- bin/edna_comm.cpp: the whole run of the communications thread, from the set-up of its socket to the
-- clean-up, with the other thread's calls in between.
pub mod Loop
mod Runs
use edna.Base.{
  ℕ, ◌<◌, ◌≤◌, ◌≡◌, ◌∙◌, refl, Bool, true, false, ◌||◌, List, [], ◌∷◌, ℤ, pos, int_eq, int_eq_iff,
  is_neg, Io, pure, done, Ensures-done, Succeeds, if-Succeeds, branch-Succeeds, bind-Succeeds, ◌⊎◌,
  inl, inr, if◌then◌else◌, Bool-cases, arith,
}
use edna.Os.{Os, IsTable, IsBounded, IsLively, OsKeeps}
use edna.Comm.{Comm, init}
use edna.Comm.AidMap.{Registry}
use edna.Comm.AidMap.Sockets.{has_socket}
use edna.Comm.Invariant.{IsWellFormed, init-IsWellFormed}
use edna.Comm.Thread.{
  sockets, rounds, close_clients, abandon, clean_up, set_up, threadproc, all_closed, backlog,
  close_clients_lem, IsPath, threadproc_unlinks,
}
use Loop.{IsCountdown, Kept, rounds-Succeeds}

init_has_none : (k : ℤ) → has_socket k init.application_registry ≡ false
unfolding init
init_has_none k = refl

module _ {W : Type 0} (is_open : ℤ → W → Bool) where
  -- No socket of the registry is open.
  abbrev pub AreClosed : Registry → W → Type 0
  AreClosed m w = (k : ℤ) → has_socket k m ≡ true → is_open k w ≡ false

  -- The registry is well formed, none of its sockets is open, and the daemon's own socket is not open,
  -- if there was one.
  pub record IsReleased (socket_fd : ℤ) (c : Comm) (w : W) : Type 0 where
    pub object : IsWellFormed c
    pub clients : AreClosed c.application_registry w
    pub own : (is_neg socket_fd ≡ true) ⊎ (is_open socket_fd w ≡ false)

module _ {W : Type 0} (os : Os W) (is_open : ℤ → W → Bool) (table : IsTable os is_open)
    (running : W → Bool × W) (others : Comm → Io W Comm) where
  closing_keeps : (fd k : ℤ) (w : W) → is_open k w ≡ false → is_open k (os.close fd w) ≡ false
  closing_keeps fd k w h = table.close_closes k fd w ∙ on_test (int_eq fd k) (is_open k w) h
    where
      on_test : (b x : Bool) → x ≡ false → (if b then false else x) ≡ false
      on_test true x e = refl
      on_test false x e = e

  closing_closes : (fd : ℤ) (w : W) → is_open fd (os.close fd w) ≡ false
  closing_closes fd w = table.close_closes fd fd w ∙ rw ((int_eq_iff fd fd).1 refl) refl

  all_closed_keeps :
      (k : ℤ) (m : Registry) (w : W)
      → is_open k w ≡ false
      → is_open k (all_closed os running others (sockets m) w) ≡ false
  all_closed_keeps k [] w h = h
  all_closed_keeps k ((aid, fd) ∷ m) w h =
      all_closed_keeps k m (os.close fd w) (closing_keeps fd k w h)

  all_closed-AreClosed :
      (m : Registry) (w : W) → AreClosed is_open m (all_closed os running others (sockets m) w)
  all_closed-AreClosed ((aid, fd) ∷ m) w k h = elim (Bool-cases (int_eq fd k)) [
    | inl e ↦ all_closed_keeps k m (os.close fd w) (rw ((int_eq_iff fd k).0 e) (closing_closes k w))
    | inr e ↦ all_closed-AreClosed m (os.close fd w) k (ground (arith, e))
  ]
  all_closed-AreClosed [] w k h = cc h

  clean_up-IsReleased :
      (fd : ℤ) (c : Comm) (w : W)
      → IsWellFormed c
      → Succeeds (IsReleased is_open fd) (clean_up os running others fd c w)
  unfolding clean_up abandon
  clean_up-IsReleased fd c w v =
      let u = all_closed os running others (sockets c.application_registry) w in
      rw (close_clients_lem os running others c.application_registry w) (
        c,
        os.unlink (os.close fd u),
        refl,
        record {
          object = v;
          clients = λ k h.
              table.unlink_same k _
              ∙ closing_keeps fd k u (all_closed-AreClosed c.application_registry w k h);
          own = inr (table.unlink_same fd _ ∙ closing_closes fd u);
        },
      )

  abandon-IsReleased :
      (fd : ℤ) (w : W) → Succeeds (IsReleased is_open fd) (abandon os running others fd init w)
  unfolding abandon
  abandon-IsReleased fd w = (
    init,
    os.unlink (os.close fd w),
    refl,
    record {
      object = init-IsWellFormed;
      clients = λ k h. cc (h, init_has_none k);
      own = inr (table.unlink_same fd _ ∙ closing_closes fd w);
    },
  )

module _ {W : Type 0} (os : Os W) (is_open : ℤ → W → Bool) (table : IsTable os is_open)
    (running : W → Bool × W) (left : W → ℕ) (countdown : IsCountdown os is_open running left)
    (others : Comm → Io W Comm)
    (others_keep : (n : ℕ) (c : Comm) (w : W)
      → Kept is_open left n c w
      → Succeeds (Kept is_open left n) (others c w))
    (bounded : IsBounded os) (lively : IsLively os) (fuel : ℕ) (enough : 0xffff ≤ fuel)
    (bound : W → Bool) (path : IsPath os running others bound) where
  set_up-IsReleased :
      (n waits : ℕ) (fd : ℤ) (w : W)
      → left w < n
      → left w < waits
      → Succeeds (IsReleased is_open fd) (set_up os running others n waits fuel fd init w)
  unfolding set_up
  set_up-IsReleased n waits fd w lt lt' =
      let w1 = (os.bind fd w).1 in
      let w2 = (os.listen fd backlog w1).1 in
      let give_up = abandon-IsReleased os is_open table running others fd in
      if-Succeeds (IsReleased is_open fd) (int_eq (os.bind fd w).0 (pos 0)) _
        (abandon os running others fd init) w1
        (if-Succeeds (IsReleased is_open fd) (int_eq (os.listen fd backlog w1).0 (pos 0)) _
          (abandon os running others fd init) w2
          (bind-Succeeds (Kept is_open left (left w)) (IsReleased is_open fd)
            (rounds os running others n waits fuel fd init) (clean_up os running others fd) w2
            (rounds-Succeeds os is_open table running left countdown others others_keep bounded
              lively fuel enough n waits (left w) fd init w2 lt lt'
              (
                init-IsWellFormed,
                λ k h. cc (h, init_has_none k),
                omega (arith, countdown.bind_keeps fd w, countdown.listen_keeps fd backlog w1),
              ))
            (λ c v h. clean_up-IsReleased os is_open table running others fd c v h.0))
          (give_up w2))
        (give_up w1)

  -- Where reads give no more than was asked for, and something when they succeed, 0xffff reads are
  -- allowed for each message, a countdown bounds how often the thread still finds should_run set, more
  -- rounds and waits are allowed than that, close closes one descriptor, accept opens one that was not
  -- open or none, no other call opens or closes any, unlink removes the socket's path and socket makes
  -- none, and the other thread's calls return and keep the object, the sockets and the countdown: the
  -- body of the thread, started with the constructor's object, returns, from whatever point of the
  -- set-up or of the loop. The registry that it leaves is well formed, every socket in it is closed, so
  -- is the daemon's own if it got one, and the socket's path is gone.
  pub threadproc-Succeeds :
      (n waits : ℕ) (w : W)
      → left w < n
      → left w < waits
      → Succeeds
          (λ d v. IsReleased is_open (os.socket (os.unlink w)).0 d v × (bound v ≡ false))
          (threadproc os running others n waits fuel init w)
  unfolding threadproc
  threadproc-Succeeds n waits w lt lt' =
      let w1 = os.unlink w in
      let fd = (os.socket w1).0 in
      let (d, v, e, h) =
        branch-Succeeds (IsReleased is_open fd) (is_neg fd) (pure init)
          (set_up os running others n waits fuel fd init) (os.socket w1).1
          (λ yes. (
            init,
            (os.socket w1).1,
            refl,
            record {
              object = init-IsWellFormed;
              clients = λ k h. cc (h, init_has_none k);
              own = inl yes;
            },
          ))
          (λ no.
            set_up-IsReleased n waits fd (os.socket w1).1
              (omega (arith, countdown.unlink_keeps w, countdown.socket_keeps w1, lt))
              (omega (arith, countdown.unlink_keeps w, countdown.socket_keeps w1, lt'))) in
      (
        d,
        v,
        e,
        (
          h,
          Ensures-done (λ _ u. bound u ≡ false) _ d v
              (threadproc_unlinks os running others bound path n waits fuel init w) e,
        ),
      )
