-- ===== src/Os/Files.antt =====
-- A concrete system for examples that keeps which descriptors are open, how often a thread still
-- finds that it should run, whether a path or a context is there, and marks by number.
use edna.Base.{
  ◌⊎◌, ap, subst, sym, ℕ, zero, suc, ◌≤◌, ◌≡◌, refl, Bool, true, false, ◌||◌, List, [], ◌∷◌, ℤ, pos,
  negsuc, int_eq, is_neg, if◌then◌else◌, inl, inr, arith,
}
use edna.Os.{Os, failed, IsBounded, IsLively, IsMutex, OsKeeps, IsTable}
use edna.Os.Script.{Script, script_os, some_bytes, script-IsBounded, script-IsLively}

pub record Files : Type 0 where
  pub script : Script
  pub is_open : ℤ → Bool
  pub looks : ℕ
  pub path : Bool
  pub marks : ℕ → ℕ

-- accept(2) by the next arrival; a number that is taken already is not given.
abbrev pub accepted : Files → ℤ → List ℤ → Bool → ℤ × Files
accepted w s r true = (negsuc 0, w)
accepted w s r false = (
  s,
  record w {
    script = record (w.script) { arrivals = r };
    is_open = λ k. if int_eq s k then true else w.is_open k;
  },
)

abbrev pub accept_next : Files → List ℤ → ℤ × Files
accept_next w [] = (negsuc 0, w)
accept_next w (s ∷ r) = accepted w s r (is_neg s || w.is_open s)

abbrev pub files_os : Os Files
files_os = record {
  read =
      λ fd n w. let (r, s) = (script_os failed).read fd n w.script in (r, record w { script = s });
  write = λ fd bytes w.
      let (r, s) = (script_os failed).write fd bytes w.script in (r, record w { script = s });
  close = λ fd w. record w { is_open = λ k. if int_eq fd k then false else w.is_open k };
  lock = λ w. record w { script = (script_os failed).lock w.script };
  unlock = λ w. record w { script = (script_os failed).unlock w.script };
  accept = λ fd w. accept_next w w.script.arrivals;
  select = λ fds w. ((pos 1, λ fd. some_bytes (w.script.inbox fd)), w);
  socket = λ w. (pos 3, record w { is_open = λ k. if int_eq (pos 3) k then true else w.is_open k });
  bind = λ fd w. (pos 0, record w { path = true });
  listen = λ fd n w. (pos 0, w);
  connect = λ fd w. (pos 0, w);
  unlink = λ w. record w { path = false };
}

-- Reading should_run: it is set as long as some looks are left.
abbrev pub look_at : Files → ℕ → Bool × Files
look_at w zero = (false, w)
look_at w (suc n) = (true, record w { looks = n })

abbrev pub look : Files → Bool × Files
look w = look_at w w.looks

pub files-IsMutex : IsMutex files_os (λ w. w.script.locked)
files-IsMutex = record {
  lock_holds = λ w. refl;
  unlock_frees = λ w. refl;
  close_keeps = λ fd w. refl;
}

pub files-IsBounded : IsBounded files_os
files-IsBounded fd n w chunk e = script-IsBounded fd n w.script chunk e

pub files-IsLively : IsLively files_os
files-IsLively fd n w chunk h e = script-IsLively fd n w.script chunk h e

module _ (w : Files) where
  -- What accept gives: -1 and the same world, or a number that was not open, and then that is open.
  abbrev Accepted : ℤ × Files → Type 0
  Accepted r =
      ((r.0 ≡ negsuc 0) × (r.1 ≡ w))
      ⊎ ((is_neg r.0 ≡ false)
          × (w.is_open r.0 ≡ false)
          × (r.1.looks ≡ w.looks)
          × ((k : ℤ) → r.1.is_open k ≡ (if int_eq r.0 k then true else w.is_open k)))

  accept_next-Accepted : (l : List ℤ) → Accepted (accept_next w l)
  accept_next-Accepted [] = inl (refl, refl)
  accept_next-Accepted (s ∷ r) = on_test (is_neg s || w.is_open s) refl
    where
      on_test : (b : Bool) → (is_neg s || w.is_open s) ≡ b → Accepted (accepted w s r b)
      on_test true e = inl (refl, refl)
      on_test false e = inr (ground arith, ground arith, refl, λ k. refl)

  Accepted-fresh : (r : ℤ × Files) → Accepted r → is_neg r.0 ≡ false → w.is_open r.0 ≡ false
  Accepted-fresh r (inl (e, f)) h = absurd (cc (ap is_neg e, h))
  Accepted-fresh r (inr (e, f, g, o)) h = f

  Accepted-fails :
      (k : ℤ) (r : ℤ × Files) → Accepted r → is_neg r.0 ≡ true → r.1.is_open k ≡ w.is_open k
  Accepted-fails k r (inl (e, f)) h = ap (λ v. v.is_open k) f
  Accepted-fails k r (inr (e, f, g, o)) h = absurd (cc (e, h))

  Accepted-opens :
      (k : ℤ) (r : ℤ × Files)
      → Accepted r
      → is_neg r.0 ≡ false
      → r.1.is_open k ≡ (if int_eq r.0 k then true else w.is_open k)
  Accepted-opens k r (inl (e, f)) h = absurd (cc (ap is_neg e, h))
  Accepted-opens k r (inr (e, f, g, o)) h = o k

  Accepted-looks : (r : ℤ × Files) → Accepted r → r.1.looks ≡ w.looks
  Accepted-looks r (inl (e, f)) = ap (λ v. v.looks) f
  Accepted-looks r (inr (e, f, g, o)) = g

pub files-IsTable : IsTable files_os (λ k w. w.is_open k)
files-IsTable = record {
  read_same = λ k fd n w. refl;
  write_same = λ k fd bytes w. refl;
  lock_same = λ k w. refl;
  unlock_same = λ k w. refl;
  select_same = λ k fds w. refl;
  unlink_same = λ k w. refl;
  close_closes = λ k fd w. refl;
  accept_fails = λ k fd w. Accepted-fails w k _ (accept_next-Accepted w w.script.arrivals);
  accept_fresh = λ fd w. Accepted-fresh w _ (accept_next-Accepted w w.script.arrivals);
  accept_opens = λ k fd w. Accepted-opens w k _ (accept_next-Accepted w w.script.arrivals);
}

pub files-OsKeeps : (n : ℕ) → OsKeeps files_os (λ w. w.looks ≤ n)
files-OsKeeps n = record {
  reads_keep = λ fd k w h. h;
  writes_keep = λ fd bytes w h. h;
  closes_keep = λ fd w h. h;
  lock_keeps = λ w h. h;
  unlock_keeps = λ w h. h;
  accept_keeps = λ fd w h.
      subst (λ x. x ≤ n) (sym (Accepted-looks w _ (accept_next-Accepted w w.script.arrivals))) h;
  select_keeps = λ fds w h. h;
}
