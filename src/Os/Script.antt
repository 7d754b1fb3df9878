-- ===== src/Os/Script.antt =====
-- A concrete system for examples: each descriptor has a queue of bytes, a write to descriptor n
-- arrives at descriptor n + 1, and a read of an empty queue has a fixed result.
use edna.Base.{
  ℕ, zero, suc, ◌<◌, ◌≤◌, ◌≡◌, ◌≢◌, refl, sym, Bool, true, false, List, [], ◌∷◌, ◌++◌, ℤ, pos,
  negsuc, int_eq, int_eq_iff, if◌then◌else◌, length, take, drop, length-take, take-append-drop,
  drop_all, ap, ◌∙◌, arith,
}
use edna.Os.{Os, ReadResult, failed, got, IsStream, IsBounded, IsLively, IsClosed, IsMutex, IsOpen}

pub record Script : Type 0 where
  pub inbox : ℤ → List ℕ
  pub closed : List ℤ
  pub locked : Bool
  pub arrivals : List ℤ

abbrev pub update : (ℤ → List ℕ) → ℤ → List ℕ → ℤ → List ℕ
update f fd bytes s = if int_eq fd s then bytes else f s

abbrev pub peer_of : ℤ → ℤ
peer_of (pos n) = pos (suc n)
peer_of (negsuc n) = negsuc n

-- What a read gives: the front of the queue, or the fixed result.
abbrev pub front : ReadResult → ℕ → List ℕ → ReadResult
front at_end n [] = at_end
front at_end n (x ∷ xs) = got (take n (x ∷ xs))

abbrev pub some_bytes : List ℕ → Bool
some_bytes [] = false
some_bytes (x ∷ xs) = true

abbrev pub script_os : ReadResult → Os Script
script_os at_end = record {
  read = λ fd n w.
      (front at_end n (w.inbox fd), record w { inbox = update w.inbox fd (drop n (w.inbox fd)) });
  write = λ fd bytes w. (
    pos (length bytes),
    record w { inbox = update w.inbox (peer_of fd) (w.inbox (peer_of fd) ++ bytes) },
  );
  close = λ fd w. record w { closed = fd ∷ w.closed };
  lock = λ w. record w { locked = true };
  unlock = λ w. record w { locked = false };
  accept = λ fd w. elim w.arrivals [ [] ↦ (negsuc 0, w) | s ∷ r ↦ (s, record w { arrivals = r }) ];
  select = λ fds w. ((pos 1, λ fd. some_bytes (w.inbox fd)), w);
  socket = λ w. (pos 3, w);
  bind = λ fd w. (pos 0, w);
  listen = λ fd n w. (pos 0, w);
  connect = λ fd w. (pos 0, w);
  unlink = λ w. w;
}

abbrev pub empty_script : Script
empty_script = record { inbox = λ fd. []; closed = []; locked = false; arrivals = [] }

-- A script where the bytes wait at one descriptor.
abbrev pub waiting : ℤ → List ℕ → Script
waiting fd bytes = record empty_script { inbox = update (λ s. []) fd bytes }

length-take_pos : (n x : ℕ) (xs : List ℕ) → 0 < n → 0 < length (take n (x ∷ xs))
length-take_pos zero x xs h = absurd (omega arith)
length-take_pos (suc n) x xs h = omega arith

pub front_got :
    (at_end : ReadResult) (n : ℕ) (l : List ℕ)
    → 0 < n
    → l ≢ []
    → (chunk : List ℕ) × (front at_end n l ≡ got chunk)
      × (0 < length chunk)
      × (length chunk ≤ n)
      × (l ≡ chunk ++ drop n l)
front_got at_end n [] h ne = absurd (ne refl)
front_got at_end n (x ∷ xs) h ne = (
  take n (x ∷ xs),
  refl,
  length-take_pos n x xs h,
  omega (arith, length-take n (x ∷ xs)),
  sym (take-append-drop n (x ∷ xs)),
)

pub script-IsStream :
    (at_end : ReadResult) (n : ℕ) → IsStream (script_os at_end) (pos n) (λ w. w.inbox (pos n))
script-IsStream at_end k = record {
  read_some = λ n w h ne.
      let same : int_eq (pos k) (pos k) ≡ true = (int_eq_iff (pos k) (pos k)).1 refl in
      rw same (front_got at_end n (w.inbox (pos k)) h ne);
}

pub script-IsBounded : IsBounded (script_os failed)
script-IsBounded fd n w chunk e = on_queue (w.inbox fd) e
  where
    on_queue : (l : List ℕ) → front failed n l ≡ got chunk → length chunk ≤ n
    on_queue [] e' = cc
    on_queue (x ∷ xs) e' =
        let same : take n (x ∷ xs) ≡ chunk = cc (e') in
        rw (← same) (omega (arith, length-take n (x ∷ xs)))

pub script-IsLively : IsLively (script_os failed)
script-IsLively fd n w chunk h e = on_queue (w.inbox fd) e
  where
    on_queue : (l : List ℕ) → front failed n l ≡ got chunk → 0 < length chunk
    on_queue [] e' = cc
    on_queue (x ∷ xs) e' =
        let same : take n (x ∷ xs) ≡ chunk = cc (e') in rw (← same) (length-take_pos n x xs h)

-- With `got []` as the fixed result, an empty queue is a peer that has closed its end.
pub script-IsClosed : (fd : ℤ) → IsClosed (script_os (got [])) fd (λ w. w.inbox fd ≡ [])
script-IsClosed fd n w e =
    let same : int_eq fd fd ≡ true = (int_eq_iff fd fd).1 refl in
    (rw e refl, rw same (ap (drop n) e ∙ drop_all n [] (omega arith)))

pub script-IsMutex : (at_end : ReadResult) → IsMutex (script_os at_end) (λ w. w.locked)
script-IsMutex at_end = record {
  lock_holds = λ w. refl;
  unlock_frees = λ w. refl;
  close_keeps = λ fd w. refl;
}

pub script-IsOpen :
    (at_end : ReadResult) (n : ℕ) → IsOpen (script_os at_end) (pos n) (λ w. w.inbox (pos n))
script-IsOpen at_end n = record {
  write_whole = λ bytes w. refl;
  write_leaves =
      λ bytes w. let other : int_eq (pos (suc n)) (pos n) ≡ false = ground arith in rw other;
}
