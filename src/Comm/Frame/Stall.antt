-- ===== src/Comm/Frame/Stall.antt =====
-- bin/edna_comm.cpp: when the loop of recv_from_client ends, and when it does not.
use edna.Base.{
  ℕ, zero, suc, ◌+◌, ◌-◌, ◌≤◌, ◌<◌, ◌≡◌, refl, ◌∙◌, inl, inr, List, [], ◌∷◌, Option, none, some, ℤ,
  Returns, done, spin, length, arith,
}
use edna.Bytestring.{resize}
use edna.Os.{Os, ReadResult, failed, got, ReadResult-cases, IsBounded, IsLively, IsClosed}
use edna.Comm.Frame.{overwrite, frame_size, read_byte, recv_loop, recv_from_client}
use edna.Comm.Frame.Receive.{want, want_bounds, recv_loop_zero, recv_loop_got}

module _ {W : Type 0} (os : Os W) (fd : ℤ) where
  recv_loop_failed :
      (fuel n index : ℕ) (rx : List ℕ) (w : W)
      → (os.read fd (want n) w).0 ≡ failed
      → recv_loop os (suc fuel) fd rx index (suc n) w ≡ done (none, (os.read fd (want n) w).1)
  unfolding recv_loop
  recv_loop_failed fuel n index rx w r = rw (r, recv_loop)

  read_byte-Returns : (w : W) → (o : Option ℕ) × (w' : W) × (read_byte os fd w ≡ done (o, w'))
  unfolding read_byte
  read_byte-Returns w = by_result (os.read fd 1 w).0 refl
    where
      by_result :
          (r : ReadResult)
          → (os.read fd 1 w).0 ≡ r
          → (o : Option ℕ) × (w' : W) × (read_byte os fd w ≡ done (o, w'))
      by_result failed e = (none, (os.read fd 1 w).1, rw e)
      by_result (got []) e = (none, (os.read fd 1 w).1, rw e)
      by_result (got (b ∷ [])) e = (some b, (os.read fd 1 w).1, rw e)
      by_result (got (b ∷ c ∷ r)) e = (none, (os.read fd 1 w).1, rw e)

  recv_no_header :
      (fuel : ℕ) (rx : List ℕ) (w w1 : W)
      → read_byte os fd w ≡ done (none, w1)
      → recv_from_client os fuel fd rx w ≡ done (none, w1)
  unfolding recv_from_client
  recv_no_header fuel rx w w1 e = rw e

  recv_half_header :
      (fuel : ℕ) (rx : List ℕ) (hi : ℕ) (w w1 w2 : W)
      → read_byte os fd w ≡ done (some hi, w1)
      → read_byte os fd w1 ≡ done (none, w2)
      → recv_from_client os fuel fd rx w ≡ done (none, w2)
  unfolding recv_from_client
  recv_half_header fuel rx hi w w1 w2 e f = rw (e, f)

  recv_header :
      (fuel : ℕ) (rx : List ℕ) (hi lo : ℕ) (w w1 w2 : W)
      → read_byte os fd w ≡ done (some hi, w1)
      → read_byte os fd w1 ≡ done (some lo, w2)
      → recv_from_client os fuel fd rx w
        ≡ recv_loop os fuel fd (resize rx (frame_size hi lo)) 0 (frame_size hi lo) w2
  unfolding recv_from_client
  recv_header fuel rx hi lo w w1 w2 e f = rw (e, f)

  frame_size-lt : (hi lo : ℕ) → frame_size hi lo ≤ 0xffff
  unfolding frame_size
  frame_size-lt hi lo = omega arith

  module _ (bounded : IsBounded os) (lively : IsLively os) where
    recv_loop-Returns :
        (fuel n index : ℕ) (rx : List ℕ) (w : W)
        → n ≤ fuel
        → Returns (recv_loop os fuel fd rx index n w)
    recv_loop-Returns fuel zero index rx w h = ((some rx, w), recv_loop_zero os fd fuel index rx w)
    recv_loop-Returns zero (suc n) index rx w h = absurd (omega arith)
    recv_loop-Returns (suc fuel) (suc n) index rx w h =
        elim (ReadResult-cases (os.read fd (want n) w).0) [
          | inl r ↦ (_, recv_loop_failed fuel n index rx w r)
          | inr (chunk, r) ↦
              let le : length chunk ≤ suc n =
                omega (arith, bounded fd (want n) w chunk r, (want_bounds n).1) in
              let some_read : 0 < length chunk = lively fd (want n) w chunk (want_bounds n).0 r in
              rw (recv_loop_got os fd fuel n index rx chunk w r le) (
                recv_loop-Returns fuel (suc n - length chunk) (index + length chunk)
                  (overwrite rx index chunk) (os.read fd (want n) w).1 (omega arith))
        ]

    -- A peer that never closes its end in the middle of a message: 0xffff rounds are enough for
    -- any message, so the function returns.
    pub recv_from_client-Returns :
        (fuel : ℕ) (rx : List ℕ) (w : W)
        → 0xffff ≤ fuel
        → Returns (recv_from_client os fuel fd rx w)
    recv_from_client-Returns fuel rx w h = first (read_byte-Returns w)
      where
        second :
            (hi : ℕ) (w1 : W)
            → read_byte os fd w ≡ done (some hi, w1)
            → (o : Option ℕ) × (w2 : W) × (read_byte os fd w1 ≡ done (o, w2))
            → Returns (recv_from_client os fuel fd rx w)
        second hi w1 e (none, w2, f) = (_, recv_half_header fuel rx hi w w1 w2 e f)
        second hi w1 e (some lo, w2, f) =
            rw (recv_header fuel rx hi lo w w1 w2 e f) (
              recv_loop-Returns fuel (frame_size hi lo) 0 _ w2 (omega (arith, frame_size-lt hi lo)))

        first :
            (o : Option ℕ) × (w1 : W) × (read_byte os fd w ≡ done (o, w1))
            → Returns (recv_from_client os fuel fd rx w)
        first (none, w1, e) = (_, recv_no_header fuel rx w w1 e)
        first (some hi, w1, e) = second hi w1 e (read_byte-Returns w1)

  module _ (P : W → Type 0) (closed : IsClosed os fd P) where
    recv_loop_spins :
        (fuel n index : ℕ) (rx : List ℕ) (w : W)
        → P w
        → recv_loop os fuel fd rx index (suc n) w ≡ spin
    unfolding recv_loop
    recv_loop_spins zero n index rx w h = refl
    recv_loop_spins (suc fuel) n index rx w h =
        let (r, h') = closed (want n) w h in
        recv_loop_got os fd fuel n index rx [] w r (omega arith)
        ∙ let e : suc n - 0 ≡ suc n = omega arith in
          rw e (
            recv_loop_spins fuel n (index + 0) (overwrite rx index []) (os.read fd (want n) w).1 h')

    -- The two length bytes of a message that is not empty have been read, and the peer has closed
    -- its end: the loop does not end, however much fuel there is. read(2) returns 0 for ever, and
    -- only a negative result leaves the loop.
    pub recv_from_client_closed :
        (fuel : ℕ) (rx : List ℕ) (hi lo : ℕ) (w w1 w2 : W)
        → read_byte os fd w ≡ done (some hi, w1)
        → read_byte os fd w1 ≡ done (some lo, w2)
        → P w2
        → 0 < frame_size hi lo
        → recv_from_client os fuel fd rx w ≡ spin
    recv_from_client_closed fuel rx hi lo w w1 w2 e f h pos_size =
        let s : frame_size hi lo ≡ suc (frame_size hi lo - 1) = omega arith in
        recv_header fuel rx hi lo w w1 w2 e f
        ∙ rw s (recv_loop_spins fuel (frame_size hi lo - 1) 0 _ w2 h)
