-- ===== src/Comm/Frame/Keeps.antt =====
-- bin/edna_comm.cpp: what the calls on a socket leave alone, a message leaves alone.
use edna.Base.{
  ℕ, zero, suc, ◌+◌, ◌-◌, inl, inr, List, [], ◌∷◌, Option, none, some, ℤ, Ensures, After,
  bind-Ensures, ltb, length, Bool-cases,
}
use edna.Bytestring.{resize}
use edna.Os.{Os, ReadResult-cases, ReadsKeep, WritesKeep}
use edna.Comm.Frame.{
  overwrite, frame, frame_size, read_byte, recv_loop, with_low, with_high, recv_from_client,
  send_to_client,
}
use edna.Comm.Frame.Receive.{want}

module _ {W : Type 0} (os : Os W) (P : W → Type 0) (kept : ReadsKeep os P) where
  recv_loop-After :
      (fuel : ℕ) (fd : ℤ) (rx : List ℕ) (index n : ℕ) (w : W)
      → P w
      → After P (recv_loop os fuel fd rx index n w)
  unfolding recv_loop Ensures
  recv_loop-After zero fd rx index zero w h = h
  recv_loop-After (suc fuel) fd rx index zero w h = h
  recv_loop-After zero fd rx index (suc n) w h = tt
  recv_loop-After (suc fuel) fd rx index (suc n) w h =
      elim (ReadResult-cases (os.read fd (want n) w).0) [
        | inl r ↦ rw (r, recv_loop) (kept fd (want n) w h)
        | inr (chunk, r) ↦ elim (Bool-cases (ltb (suc n) (length chunk))) [
          | inl e ↦ rw (r, recv_loop, e) tt
          | inr e ↦
              rw (r, recv_loop, e)
                (recv_loop-After fuel fd (overwrite rx index chunk) (index + length chunk)
                  (suc n - length chunk) (os.read fd (want n) w).1 (kept fd (want n) w h))
        ]
      ]

  read_byte-After : (fd : ℤ) (w : W) → P w → After P (read_byte os fd w)
  unfolding read_byte Ensures
  read_byte-After fd w h = elim (ReadResult-cases (os.read fd 1 w).0) [
    | inl r ↦ rw r (kept fd 1 w h)
    | inr ([], r) ↦ rw r (kept fd 1 w h)
    | inr (b ∷ [], r) ↦ rw r (kept fd 1 w h)
    | inr (b ∷ c ∷ chunk, r) ↦ rw r (kept fd 1 w h)
  ]

  with_low-After :
      (fuel : ℕ) (fd : ℤ) (rx : List ℕ) (hi : ℕ) (o : Option ℕ) (w : W)
      → P w
      → After P (with_low os fuel fd rx hi o w)
  unfolding with_low Ensures
  with_low-After fuel fd rx hi none w h = h
  with_low-After fuel fd rx hi (some lo) w h =
      recv_loop-After fuel fd (resize rx (frame_size hi lo)) 0 (frame_size hi lo) w h

  with_high-After :
      (fuel : ℕ) (fd : ℤ) (rx : List ℕ) (o : Option ℕ) (w : W)
      → P w
      → After P (with_high os fuel fd rx o w)
  unfolding with_high Ensures
  with_high-After fuel fd rx none w h = h
  with_high-After fuel fd rx (some hi) w h =
      bind-Ensures (λ a. P) (λ a. P) (read_byte os fd) (with_low os fuel fd rx hi) w
        (read_byte-After fd w h) (with_low-After fuel fd rx hi)

  -- recv_from_client keeps what every read keeps.
  pub recv_from_client-After :
      (fuel : ℕ) (fd : ℤ) (rx : List ℕ) (w : W) → P w → After P (recv_from_client os fuel fd rx w)
  unfolding recv_from_client Ensures
  recv_from_client-After fuel fd rx w h =
      bind-Ensures (λ a. P) (λ a. P) (read_byte os fd) (with_high os fuel fd rx) w
        (read_byte-After fd w h) (with_high-After fuel fd rx)

module _ {W : Type 0} (os : Os W) (P : W → Type 0) (kept : WritesKeep os P) where
  -- send_to_client keeps what every write keeps.
  pub send_to_client-After :
      (fd : ℤ) (tx : List ℕ) (w : W) → P w → After P (send_to_client os fd tx w)
  unfolding send_to_client Ensures
  send_to_client-After fd tx w h = elim (Bool-cases (ltb 0xffff (length tx))) [
    | inl e ↦ rw e h
    | inr e ↦ rw e (kept fd (frame tx) w h)
  ]
