-- ===== src/Os.antt =====
-- The calls of the operating system that the daemon and the client library make on sockets and
-- mutexes. They are no part of the repository: the model takes them as a parameter, and what a
-- theorem relies on is a law below.
pub mod Script
pub mod Files
use edna.Base.{
  ℕ, refl, ◌⊎◌, inl, inr, ◌≤◌, ◌<◌, ◌≡◌, ◌≢◌, Bool, true, false, List, [], ◌++◌, ℤ, pos, length,
  int_eq, is_neg, if◌then◌else◌,
}

-- read(2) returns -1, or the number of bytes that it put into the buffer. The model keeps the bytes.
pub data ReadResult : Type 0 where
  failed : ReadResult
  got : List ℕ → ReadResult

pub ReadResult-cases : (r : ReadResult) → (r ≡ failed) ⊎ ((chunk : List ℕ) × (r ≡ got chunk))
ReadResult-cases failed = inl refl
ReadResult-cases (got chunk) = inr (chunk, refl)

pub record Os (W : Type 0) : Type 0 where
  pub read : ℤ → ℕ → W → ReadResult × W
  pub write : ℤ → List ℕ → W → ℤ × W
  pub close : ℤ → W → W
  pub lock : W → W
  pub unlock : W → W
  -- accept(2) returns the socket of a new connection, or -1.
  pub accept : ℤ → W → ℤ × W
  -- select(2) returns how many of the descriptors are ready, 0 at a timeout and -1 for an error,
  -- and leaves the ready ones in the set.
  pub select : List ℤ → W → (ℤ × (ℤ → Bool)) × W
  -- socket(2), bind(2), listen(2), connect(2) and unlink(2) for the socket of the daemon.
  pub socket : W → ℤ × W
  pub bind : ℤ → W → ℤ × W
  pub listen : ℤ → ℕ → W → ℤ × W
  pub connect : ℤ → W → ℤ × W
  pub unlink : W → W

-- A stream socket: `pending fd w` are the bytes that have been sent to `fd` and not been read.
-- While there are some, read(2) takes at least one and at most as many as asked for, from the
-- front, and it touches no other socket's bytes.
pub record IsStream {W : Type 0} (os : Os W) (fd : ℤ) (pending : W → List ℕ) : Type 0 where
  pub read_some :
      (n : ℕ) (w : W)
      → 0 < n
      → pending w ≢ []
      → (chunk : List ℕ) × ((os.read fd n w).0 ≡ got chunk)
        × (0 < length chunk)
        × (length chunk ≤ n)
        × (pending w ≡ chunk ++ pending (os.read fd n w).1)

-- A read of a socket gives no more than was asked for.
abbrev pub IsBounded : {W : Type 0} → Os W → Type 0
IsBounded {W} os =
    (fd : ℤ) (n : ℕ) (w : W) (chunk : List ℕ) → (os.read fd n w).0 ≡ got chunk → length chunk ≤ n

-- The peer never closes its end: a read that succeeds returns some bytes.
abbrev pub IsLively : {W : Type 0} → Os W → Type 0
IsLively {W} os =
    (fd : ℤ) (n : ℕ) (w : W) (chunk : List ℕ)
    → 0 < n
    → (os.read fd n w).0 ≡ got chunk
    → 0 < length chunk

-- The peer has closed its end: every read succeeds with no bytes.
abbrev pub IsClosed : {W : Type 0} → Os W → ℤ → (W → Type 0) → Type 0
IsClosed {W} os fd P = (n : ℕ) (w : W) → P w → ((os.read fd n w).0 ≡ got []) × P (os.read fd n w).1

-- A property of the world that no read, or no write, on a socket changes.
abbrev pub ReadsKeep : {W : Type 0} → Os W → (W → Type 0) → Type 0
ReadsKeep {W} os P = (fd : ℤ) (n : ℕ) (w : W) → P w → P (os.read fd n w).1

abbrev pub WritesKeep : {W : Type 0} → Os W → (W → Type 0) → Type 0
WritesKeep {W} os P = (fd : ℤ) (bytes : List ℕ) (w : W) → P w → P (os.write fd bytes w).1

-- A property of the world that none of the calls of a running daemon changes.
pub record OsKeeps {W : Type 0} (os : Os W) (P : W → Type 0) : Type 0 where
  pub reads_keep : ReadsKeep os P
  pub writes_keep : WritesKeep os P
  pub closes_keep : (fd : ℤ) (w : W) → P w → P (os.close fd w)
  pub lock_keeps : (w : W) → P w → P (os.lock w)
  pub unlock_keeps : (w : W) → P w → P (os.unlock w)
  pub accept_keeps : (fd : ℤ) (w : W) → P w → P (os.accept fd w).1
  pub select_keeps : (fds : List ℤ) (w : W) → P w → P (os.select fds w).1

-- Whether the caller holds the mutex. Closing a socket does not change it.
pub record IsMutex {W : Type 0} (os : Os W) (held : W → Bool) : Type 0 where
  pub lock_holds : (w : W) → held (os.lock w) ≡ true
  pub unlock_frees : (w : W) → held (os.unlock w) ≡ false
  pub close_keeps : (fd : ℤ) (w : W) → held (os.close fd w) ≡ held w

-- A socket that takes every write whole, and whose incoming bytes a write does not touch.
pub record IsOpen {W : Type 0} (os : Os W) (fd : ℤ) (pending : W → List ℕ) : Type 0 where
  pub write_whole : (bytes : List ℕ) (w : W) → (os.write fd bytes w).0 ≡ pos (length bytes)
  pub write_leaves : (bytes : List ℕ) (w : W) → pending (os.write fd bytes w).1 ≡ pending w

-- Which descriptors are open: close(2) closes one, accept(2) opens one that was not open, or none,
-- and the other calls of a running daemon open and close none.
pub record IsTable {W : Type 0} (os : Os W) (is_open : ℤ → W → Bool) : Type 0 where
  pub read_same : (k fd : ℤ) (n : ℕ) (w : W) → is_open k (os.read fd n w).1 ≡ is_open k w
  pub write_same :
      (k fd : ℤ) (bytes : List ℕ) (w : W) → is_open k (os.write fd bytes w).1 ≡ is_open k w
  pub lock_same : (k : ℤ) (w : W) → is_open k (os.lock w) ≡ is_open k w
  pub unlock_same : (k : ℤ) (w : W) → is_open k (os.unlock w) ≡ is_open k w
  pub select_same : (k : ℤ) (fds : List ℤ) (w : W) → is_open k (os.select fds w).1 ≡ is_open k w
  pub unlink_same : (k : ℤ) (w : W) → is_open k (os.unlink w) ≡ is_open k w
  pub close_closes :
      (k fd : ℤ) (w : W) → is_open k (os.close fd w) ≡ (if int_eq fd k then false else is_open k w)
  pub accept_fails :
      (k fd : ℤ) (w : W)
      → is_neg (os.accept fd w).0 ≡ true
      → is_open k (os.accept fd w).1 ≡ is_open k w
  pub accept_fresh :
      (fd : ℤ) (w : W) → is_neg (os.accept fd w).0 ≡ false → is_open (os.accept fd w).0 w ≡ false
  pub accept_opens :
      (k fd : ℤ) (w : W)
      → is_neg (os.accept fd w).0 ≡ false
      → is_open k (os.accept fd w).1 ≡ (if int_eq (os.accept fd w).0 k then true else is_open k w)
