-- ===== src/Comm/Whole/Loop.antt =====
-- bin/edna_comm.cpp: the loop of the communications thread ends, and keeps the object and its sockets.
use edna.Base.{
  ℕ, zero, suc, ◌<◌, ◌≤◌, ◌≡◌, refl, ◌∙◌, Bool, true, ◌∷◌, Option, none, some, ℤ, pos, int_eq,
  is_neg, Io, pure, call, ◌>>=◌, Succeeds, if-Succeeds, branch-Succeeds, bind-Succeeds,
  mono-Succeeds, with-Ensures, if◌then◌else◌, arith,
}
use edna.Os.{Os, IsTable, IsBounded, IsLively, OsKeeps}
use edna.Comm.{Comm, serve}
use edna.Comm.Invariant.{IsWellFormed}
use edna.Comm.Correct.{serve_correct}
use edna.Comm.Keeps.{serve-After}
use edna.Comm.Thread.{sockets, wait_ready, rounds}
use edna.Comm.Descriptors.{HasOpen, same-AreOpen}
use edna.Comm.Descriptors.Handshake.{serve-Opens, accept_out}

-- The thread finds should_run set at most `left w` times from the world `w` on: each look that finds it
-- set uses one of them, and the calls of the daemon give none back.
pub record IsCountdown {W : Type 0} (os : Os W) (is_open : ℤ → W → Bool) (running : W → Bool × W)
    (left : W → ℕ) : Type 0 where
  pub look_spends : (w : W) → (running w).0 ≡ true → left (running w).1 < left w
  pub look_keeps : (w : W) → left (running w).1 ≤ left w
  pub look_same : (k : ℤ) (w : W) → is_open k (running w).1 ≡ is_open k w
  pub calls_keep : (n : ℕ) → OsKeeps os (λ w. left w ≤ n)
  pub unlink_keeps : (w : W) → left (os.unlink w) ≤ left w
  pub socket_keeps : (w : W) → left (os.socket w).1 ≤ left w
  pub bind_keeps : (fd : ℤ) (w : W) → left (os.bind fd w).1 ≤ left w
  pub listen_keeps : (fd : ℤ) (n : ℕ) (w : W) → left (os.listen fd n w).1 ≤ left w

module _ {W : Type 0} (is_open : ℤ → W → Bool) (left : W → ℕ) where
  -- The registry is well formed, its sockets are open, and the thread finds should_run set at most `n`
  -- more times.
  abbrev pub Kept : ℕ → Comm → W → Type 0
  Kept n c w = IsWellFormed c × HasOpen is_open c w × (left w ≤ n)

module _ {W : Type 0} (os : Os W) (is_open : ℤ → W → Bool) (table : IsTable os is_open)
    (running : W → Bool × W) (left : W → ℕ) (countdown : IsCountdown os is_open running left)
    (others : Comm → Io W Comm)
    (others_keep : (n : ℕ) (c : Comm) (w : W)
      → Kept is_open left n c w
      → Succeeds (Kept is_open left n) (others c w)) where
  -- What a call that opens and closes nothing leaves.
  same-Kept :
      (n m : ℕ) (c : Comm) (w v : W)
      → ((k : ℤ) → is_open k v ≡ is_open k w)
      → left v ≤ m
      → Kept is_open left n c w
      → Kept is_open left m c v
  same-Kept n m c w v same less h =
      (h.0, same-AreOpen os is_open table c.application_registry w v same h.1, less)

  -- select(2) under the mutex.
  selected-Kept :
      (n : ℕ) (c : Comm) (fd : ℤ) (w : W)
      → Kept is_open left n c w
      → Kept is_open left n c
          (os.unlock (os.select (fd ∷ sockets c.application_registry) (os.lock w)).1)
  selected-Kept n c fd w h =
      let keeps = countdown.calls_keep n in
      same-Kept n n c w _
        (λ k. table.unlock_same k _ ∙ table.select_same k _ _ ∙ table.lock_same k w)
        (keeps.unlock_keeps _ (keeps.select_keeps _ _ (keeps.lock_keeps w h.2))) h

  -- After a look that finds should_run set.
  look-Kept :
      (n : ℕ) (c : Comm) (w : W)
      → Kept is_open left n c w
      → Kept is_open left (left (running w).1) c (running w).1
  look-Kept n c w h =
      same-Kept n (left (running w).1) c w (running w).1 (λ k. countdown.look_same k w)
        (omega arith) h

  weaken-Kept :
      {n m : ℕ} → n ≤ m → (c : Comm) (w : W) → Kept is_open left n c w → Kept is_open left m c w
  weaken-Kept le c w h = (h.0, h.1, omega (arith, h.2))

  pub wait_ready-Succeeds :
      (waits n : ℕ) (fd : ℤ) (c : Comm) (w : W)
      → n < waits
      → Kept is_open left n c w
      → Succeeds (λ r v. Kept is_open left n r.0 v) (wait_ready os running others waits fd c w)
  unfolding wait_ready
  wait_ready-Succeeds zero n fd c w enough h = absurd (omega arith)
  wait_ready-Succeeds (suc waits) n fd c w enough h =
      branch-Succeeds Waited (running w).0 _ (pure (c, none)) (running w).1
        (λ yes.
          bind-Succeeds (Kept is_open left spent) Waited (others c) _ (running w).1
            (others_keep spent c (running w).1 (look-Kept n c w h))
            (λ c1 w1 h1.
              let h2 = selected-Kept spent c1 fd w1 h1 in
              let found = os.select (fd ∷ sockets c1.application_registry) (os.lock w1) in
              let w2 = os.unlock found.1 in
              let next = wait_ready os running others waits fd c1 in
              let again =
                mono-Succeeds (λ r v. Kept is_open left spent r.0 v) Waited _
                  (λ r v h'. weaken-Kept (omega (arith, countdown.look_spends w yes, h.2)) r.0 v h')
                  (wait_ready-Succeeds waits spent fd c1 _
                    (omega (arith, countdown.look_spends w yes, h.2, enough)) h2) in
              if-Succeeds Waited (is_neg found.0.0) next _ w2 again (
                if-Succeeds Waited (int_eq found.0.0 (pos 0)) next (pure (c1, some found.0.1)) w2
                  again
                  (
                    (c1, some found.0.1),
                    w2,
                    refl,
                    weaken-Kept (omega (arith, countdown.look_spends w yes, h.2)) c1 w2 h2,
                  ))))
        (λ no. (
          _,
          _,
          refl,
          weaken-Kept (omega (arith, countdown.look_keeps w, h.2)) c _ (look-Kept n c w h),
        ))
    where
      spent : ℕ
      spent = left (running w).1

      Waited : Comm × Option (ℤ → Bool) → W → Type 0
      Waited r v = Kept is_open left n r.0 v

module _ {W : Type 0} (os : Os W) (is_open : ℤ → W → Bool) (table : IsTable os is_open)
    (running : W → Bool × W) (left : W → ℕ) (countdown : IsCountdown os is_open running left)
    (others : Comm → Io W Comm)
    (others_keep : (n : ℕ) (c : Comm) (w : W)
      → Kept is_open left n c w
      → Succeeds (Kept is_open left n) (others c w))
    (bounded : IsBounded os) (lively : IsLively os) (fuel : ℕ) (enough : 0xffff ≤ fuel) where
  serve-Succeeds :
      (n : ℕ) (fd : ℤ) (ready : ℤ → Bool) (c : Comm) (w : W)
      → Kept is_open left n c w
      → Succeeds (Kept is_open left n) (serve os fuel c fd ready w)
  serve-Succeeds n fd ready c w h =
      let (d, v, e, f, g) =
        serve_correct os bounded lively fuel enough c fd ready w h.0
          (accept_out os is_open table fuel c h.0 fd w h.1) in
      mono-Succeeds _ (Kept is_open left n) _ (λ c' u q. (q.0.0, q.0.1, q.1))
        (with-Ensures (λ c' u. IsWellFormed c' × HasOpen is_open c' u) _ _
          (with-Ensures (λ c' u. IsWellFormed c') _ (serve os fuel c fd ready w) (d, v, e, f)
            (serve-Opens os is_open table fuel c h.0 fd ready w h.1))
          (serve-After os (λ u. left u ≤ n) (countdown.calls_keep n) fuel c fd ready w h.2))

  pub rounds-Succeeds :
      (m waits n : ℕ) (fd : ℤ) (c : Comm) (w : W)
      → n < m
      → n < waits
      → Kept is_open left n c w
      → Succeeds (Kept is_open left n) (rounds os running others m waits fuel fd c w)
  unfolding rounds
  rounds-Succeeds zero waits n fd c w lt lt' h = absurd (omega arith)
  rounds-Succeeds (suc m) waits n fd c w lt lt' h =
      bind-Succeeds (λ r v. Kept is_open left n r.0 v) (Kept is_open left n)
        (wait_ready os running others waits fd c) _ w
        (wait_ready-Succeeds os is_open table running left countdown others others_keep waits n fd c
          w lt' h)
        (λ r v.
          on_ready
            (λ k e u less.
              rounds-Succeeds m waits k fd e u (omega (arith, less, lt)) (omega (arith, less, lt')))
            r.0 v r.1)
    where
      on_ready :
          (again : (k : ℕ) (e : Comm) (u : W)
            → k < n
            → Kept is_open left k e u
            → Succeeds (Kept is_open left k) (rounds os running others m waits fuel fd e u))
          (d : Comm) (v : W) (o : Option (ℤ → Bool))
          → Kept is_open left n d v
          → Succeeds (Kept is_open left n) (
              (elim o as (λ k. Io W Comm) [
                | none ↦ pure d
                | some ready ↦ call running >>= λ go.
                    if go
                    then (serve os fuel d fd ready >>= rounds os running others m waits fuel fd)
                    else pure d
              ])
                v)
      on_ready again d v none h' = (d, v, refl, h')
      on_ready again d v (some ready) h' =
          let spent = left (running v).1 in
          let h2 = look-Kept os is_open table running left countdown others others_keep n d v h' in
          branch-Succeeds (Kept is_open left n) (running v).0 _ (pure d) (running v).1
            (λ yes.
              bind-Succeeds (Kept is_open left spent) (Kept is_open left n)
                (serve os fuel d fd ready) (rounds os running others m waits fuel fd) (running v).1
                (serve-Succeeds spent fd ready d (running v).1 h2)
                (λ e u h3.
                  mono-Succeeds (Kept is_open left spent) (Kept is_open left n) _
                    (λ x y.
                      weaken-Kept os is_open table running left countdown others others_keep
                        (omega (arith, countdown.look_spends v yes, h'.2)) x y)
                    (again spent e u (omega (arith, countdown.look_spends v yes, h'.2)) h3)))
            (λ no. (
              d,
              (running v).1,
              refl,
              weaken-Kept os is_open table running left countdown others others_keep
                  (omega (arith, countdown.look_keeps v, h'.2)) d (running v).1 h2,
            ))
