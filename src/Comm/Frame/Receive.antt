-- ===== src/Comm/Frame/Receive.antt =====
-- bin/edna_comm.cpp: recv_from_client reads one message off a stream, however the reads cut it.
use edna.Base.{
  ℕ, zero, suc, ◌+◌, ◌-◌, ◌/◌, ◌^◌, ◌≤◌, ◌<◌, ◌≡◌, refl, sym, ap, ◌∙◌, List, [], ◌∷◌, ◌++◌, Option,
  some, ℤ, Run, done, ltb, if◌then◌else◌, length, take, drop, length-append, length-take,
  length-drop, take_all, append_assoc, append-nil, take-append, le→ltb_false, arith,
}
use Prim.Native.Nat.{bit_and}
use edna.Bytestring.{resize, to_byte}
use edna.Bytestring.Numeric.{mask_byte}
use edna.Bytestring.Slice.{length-resize}
use edna.Os.{Os, got, IsStream}
use edna.Comm.Frame.{
  frame, overwrite, frame_size, buf_size, read_byte, recv_loop, recv_from_client, u16_mod,
}

-- What two ways to cut a list have in common.
append_split :
    (xs ys zs ws : List ℕ)
    → xs ++ ys ≡ zs ++ ws
    → length xs ≤ length zs
    → (zs ≡ xs ++ drop (length xs) zs) × (ys ≡ drop (length xs) zs ++ ws)
append_split [] ys zs ws e h = (refl, e)
append_split (x ∷ xs) ys [] ws e h = absurd (omega arith)
append_split (x ∷ xs) ys (z ∷ zs) ws e h =
    let (a, b) = append_split xs ys zs ws (ap (λ (l : List ℕ). drop 1 l) e) (omega arith) in
    (cc (a, e), b)

take-overwrite :
    (rx : List ℕ) (i : ℕ) (chunk : List ℕ)
    → i + length chunk ≤ length rx
    → take (i + length chunk) (overwrite rx i chunk) ≡ take i rx ++ chunk
unfolding overwrite
take-overwrite rx i chunk h =
    let e : i + length chunk ≡ length (take i rx ++ chunk) =
      omega (arith, length-append (take i rx) chunk, length-take i rx) in
    rw (← append_assoc (take i rx) chunk (drop (i + length chunk) rx), e)
      (take-append (take i rx ++ chunk) _)

length-overwrite :
    (rx : List ℕ) (i : ℕ) (chunk : List ℕ)
    → i + length chunk ≤ length rx
    → length (overwrite rx i chunk) ≡ length rx
unfolding overwrite
length-overwrite rx i chunk h = omega (
  arith,
  length-append (take i rx) (chunk ++ drop (i + length chunk) rx),
  length-append chunk (drop (i + length chunk) rx),
  length-take i rx,
  length-drop (i + length chunk) rx,
)

-- How much one round asks for.
abbrev pub want : ℕ → ℕ
want n = if ltb (suc n) buf_size then suc n else buf_size

pub want_bounds : (n : ℕ) → (0 < want n) × (want n ≤ suc n)
want_bounds n = ground arith

module _ {W : Type 0} (os : Os W) (fd : ℤ) where
  -- One round that receives a chunk.
  pub recv_loop_got :
      (fuel n index : ℕ) (rx chunk : List ℕ) (w : W)
      → (os.read fd (want n) w).0 ≡ got chunk
      → length chunk ≤ suc n
      → recv_loop os (suc fuel) fd rx index (suc n) w
        ≡ recv_loop os fuel fd
            (overwrite rx index chunk)
            (index + length chunk)
            (suc n - length chunk)
            (os.read fd (want n) w).1
  unfolding recv_loop
  recv_loop_got fuel n index rx chunk w r h =
      rw (r, recv_loop, le→ltb_false (suc n) (length chunk) h)

  pub recv_loop_zero :
      (fuel index : ℕ) (rx : List ℕ) (w : W) → recv_loop os fuel fd rx index 0 w ≡ done (some rx, w)
  unfolding recv_loop
  recv_loop_zero zero index rx w = refl
  recv_loop_zero (suc fuel) index rx w = refl

module _ {W : Type 0} (os : Os W) (fd : ℤ) (pending : W → List ℕ)
    (stream : IsStream os fd pending) where
  -- A computation that returns the message and leaves the rest of the stream.
  abbrev pub Reads : Run (Option (List ℕ) × W) → List ℕ → List ℕ → Type 0
  Reads r msg rest = (w' : W) × (r ≡ done (some msg, w')) × (pending w' ≡ rest)

  recv_loop_stream :
      (fuel n index : ℕ) (rx body rest : List ℕ) (w : W)
      → n ≤ fuel
      → length rx ≡ index + n
      → length body ≡ n
      → pending w ≡ body ++ rest
      → Reads (recv_loop os fuel fd rx index n w) (take index rx ++ body) rest
  recv_loop_stream fuel zero index rx [] rest w hf hl hb e = (
    w,
    recv_loop_zero os fd fuel index rx w
        ∙ ap (λ l. done (some l, w))
            (sym (append-nil (take index rx) ∙ take_all index rx (omega arith))),
    e,
  )
  recv_loop_stream fuel zero index rx (b ∷ body) rest w hf hl hb e = absurd (omega arith)
  recv_loop_stream zero (suc n) index rx body rest w hf hl hb e = absurd (omega arith)
  recv_loop_stream (suc fuel) (suc n) index rx body rest w hf hl hb e =
      let (chunk, r, some_read, le, p) =
        stream.read_some (want n) w (want_bounds n).0 (λ q.
          omega (arith, ap (λ (l : List ℕ). length l) (sym q ∙ e), length-append body rest)) in
      let fits : length chunk ≤ suc n = omega (arith, (want_bounds n).1) in
      let room : index + length chunk ≤ length rx = omega arith in
      let (b, q) = append_split chunk _ body rest (sym p ∙ e) (omega arith) in
      let msg : take index rx ++ body
          ≡ take (index + length chunk) (overwrite rx index chunk) ++ drop (length chunk) body =
        ap (◌++◌ (take index rx)) b
        ∙ sym (append_assoc (take index rx) chunk (drop (length chunk) body))
        ∙ ap (λ (l : List ℕ). l ++ drop (length chunk) body)
            (sym (take-overwrite rx index chunk room)) in
      rw (recv_loop_got os fd fuel n index rx chunk w r fits, msg)
        (recv_loop_stream fuel (suc n - length chunk) (index + length chunk)
          (overwrite rx index chunk) (drop (length chunk) body) rest (os.read fd (want n) w).1
          (omega arith) (omega (arith, length-overwrite rx index chunk room))
          (omega (arith, length-drop (length chunk) body)) q)

  read_byte_stream :
      (b : ℕ) (rest : List ℕ) (w : W)
      → pending w ≡ b ∷ rest
      → (read_byte os fd w ≡ done (some b, (os.read fd 1 w).1))
        × (pending (os.read fd 1 w).1 ≡ rest)
  unfolding read_byte
  read_byte_stream b rest w e = one (stream.read_some 1 w (omega arith) (λ q. cc (e, q)))
    where
      one :
          (chunk : List ℕ) × ((os.read fd 1 w).0 ≡ got chunk)
            × (0 < length chunk)
            × (length chunk ≤ 1)
            × (pending w ≡ chunk ++ pending (os.read fd 1 w).1)
          → (read_byte os fd w ≡ done (some b, (os.read fd 1 w).1))
            × (pending (os.read fd 1 w).1 ≡ rest)
      one ([], r, lo, hi, p) = absurd (omega arith)
      one (x ∷ [], r, lo, hi, p) = (rw r (ap (λ k. done (some k, (os.read fd 1 w).1)) (cc)), cc)
      one (x ∷ y ∷ c, r, lo, hi, p) = absurd (omega arith)

  frame_size_lem :
      (n : ℕ) → n < u16_mod → frame_size (to_byte (n / 2 ^ 8)) (to_byte (bit_and n 0xff)) ≡ n
  unfolding frame_size
  frame_size_lem n h = omega (arith, mask_byte n)

  -- A message below 64 KiB that waits on a stream socket is read whole and exactly, with whatever
  -- follows it left, for every way in which the reads cut it up, and for every earlier content of
  -- the vector. As many rounds as it has bytes are enough.
  pub recv_from_client-frame :
      (fuel : ℕ) (rx msg rest : List ℕ) (w : W)
      → length msg < u16_mod
      → length msg ≤ fuel
      → pending w ≡ frame msg ++ rest
      → Reads (recv_from_client os fuel fd rx w) msg rest
  unfolding recv_from_client frame
  recv_from_client-frame fuel rx msg rest w h hf e =
      let (r1, p1) = read_byte_stream _ _ w e in
      let (r2, p2) = read_byte_stream _ _ _ p1 in
      rw (r1, r2, frame_size_lem (length msg) h)
        (recv_loop_stream fuel (length msg) 0 (resize rx (length msg)) msg rest _ hf
          (omega (arith, length-resize rx (length msg))) refl p2)
