-- ===== src/Comm/Frame.antt =====
-- bin/edna_comm.cpp, under src: recv_from_client and send_to_client. A message on a client's
-- socket is its length in two bytes, the high one first, and then that many bytes.
pub mod Receive
pub mod Send
pub mod Stall
pub mod Keeps
mod Runs
use Prim.Native.Nat.{bit_and}
use edna.Base.{
  ℕ, zero, suc, ◌+◌, ◌-◌, ◌*◌, ◌/◌, ◌%◌, ◌^◌, Bool, true, List, [], ◌∷◌, ◌++◌, Option, none, some,
  ℤ, pos, int_eq, Run, done, spin, fault, Io, pure, call, ◌>>=◌, ltb, if◌then◌else◌, length, take,
  drop,
}
use edna.Bytestring.{to_byte, resize}
use edna.Os.{Os, ReadResult, failed, got}

-- memcpy of a chunk to index `i` of a vector that has room for it.
unfoldable pub overwrite : List ℕ → ℕ → List ℕ → List ℕ
overwrite rx i chunk = take i rx ++ (chunk ++ drop (i + length chunk) rx)

abbrev pub u16_mod : ℕ
u16_mod = 2 ^ 16

-- rx_size = (buf[0] << 8) + buf[1], an unsigned short.
unfoldable pub frame_size : ℕ → ℕ → ℕ
frame_size hi lo = (hi * 2 ^ 8 + lo) % u16_mod

-- The size of the local buffer.
abbrev pub buf_size : ℕ
buf_size = 512

-- The length in two bytes, and the message.
unfoldable pub frame : List ℕ → List ℕ
frame tx = to_byte (length tx / 2 ^ 8) ∷ to_byte (bit_and (length tx) 0xff) ∷ tx

module _ {W : Type 0} (os : Os W) where
  -- read(fd, &buf[i], 1) != 1
  unfoldable pub read_byte : ℤ → Io W (Option ℕ)
  read_byte fd = do
    r ← call (os.read fd 1)
    elim r [
      | failed ↦ pure none
      | got [] ↦ pure none
      | got (b ∷ []) ↦ pure (some b)
      | got (b ∷ c ∷ r) ↦ pure none
    ]

  -- while (rx_size > 0): the last number is rx_size, and `none` stands for `return false`. More
  -- bytes than the vector has room for would be written behind its end.
  unfoldable pub recv_loop : ℕ → ℤ → List ℕ → ℕ → ℕ → Io W (Option (List ℕ))
  recv_loop fuel fd rx index zero w = pure (some rx) w
  recv_loop zero fd rx index (suc n) w = spin
  recv_loop (suc fuel) fd rx index (suc n) w =
      let (r, w') = os.read fd (if ltb (suc n) buf_size then suc n else buf_size) w in
      elim r [
        | failed ↦ pure none w'
        | got chunk ↦
            let rest =
              recv_loop fuel fd (overwrite rx index chunk) (index + length chunk)
                (suc n - length chunk) w' in
            if ltb (suc n) (length chunk) then fault else rest
      ]

  -- The second length byte, then the message.
  unfoldable pub with_low : ℕ → ℤ → List ℕ → ℕ → Option ℕ → Io W (Option (List ℕ))
  with_low fuel fd rx hi none = pure none
  with_low fuel fd rx hi (some lo) =
      recv_loop fuel fd (resize rx (frame_size hi lo)) 0 (frame_size hi lo)

  -- The first length byte, then the second.
  unfoldable pub with_high : ℕ → ℤ → List ℕ → Option ℕ → Io W (Option (List ℕ))
  with_high fuel fd rx none = pure none
  with_high fuel fd rx (some hi) = do second ← read_byte fd; with_low fuel fd rx hi second

  unfoldable pub recv_from_client : ℕ → ℤ → List ℕ → Io W (Option (List ℕ))
  unfolding with_high with_low
  recv_from_client fuel fd rx = do first ← read_byte fd; with_high fuel fd rx first

  -- A message above 0xffff bytes leaves by `return -1`, which is true as a bool.
  unfoldable pub send_to_client : ℤ → List ℕ → Io W Bool
  send_to_client fd tx = if ltb 0xffff (length tx) then pure true else do
    tx_sent ← call (os.write fd (frame tx))
    pure (int_eq tx_sent (pos (length (frame tx))))
