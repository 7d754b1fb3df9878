-- ===== src/Sample.antt =====
-- samples/edna_client_sample.cpp, under src: the sample application. An access outside an array is
-- undefined: `none`. What is printed is left out, but for the texts of hex_str.
pub mod Bounds
mod Runs
use edna.Base.{
  ℕ, zero, suc, ◌+◌, ◌*◌, ◌/◌, ◌%◌, Bool, true, false, List, [], ◌∷◌, ◌++◌, Option, none, some, ℤ,
  pos, minus_one, Io, pure, call, ◌>>=◌, ltb, if◌then◌else◌, length, take, drop,
}
use edna.Bytestring.{size_sub, hex_str}
use edna.Codes.{EdnaRv, is_ok}
use edna.Os.{Os}
use edna.Comm.Frame.{overwrite}
use edna.Client.{
  ClientState, Callbacks, lib_init, lib_connect, loop_and_process, lib_disconnect, lib_uninit,
}

abbrev pub sample_aid : List ℕ
sample_aid = 0x49 ∷ 0x52 ∷ 0x4d ∷ 0x41 ∷ 0x63 ∷ 0x61 ∷ 0x72 ∷ 0x64 ∷ []

-- The size of the static buffer.
abbrev pub hex_buf_size : ℕ
hex_buf_size = 3 * 4096

-- A write of some bytes into the buffer.
unfoldable pub store : List ℕ → ℕ → List ℕ → Option (List ℕ)
store buf at bytes =
    if ltb (length buf) (at + length bytes) then none else some (overwrite buf at bytes)

-- sprintf(&buf[i*3], "%02X ", data[i]) for the next `n` bytes, with the NUL behind the space.
unfoldable pub hex_loop : List ℕ → ℕ → ℕ → List ℕ → Option (List ℕ)
hex_loop buf i zero input = some buf
hex_loop buf i (suc n) [] = none
hex_loop buf i (suc n) (d ∷ input) = elim (store buf (i * 3) (hex_str (d ∷ []) ++ b' ' ∷ 0 ∷ [])) [
  | none ↦ none
  | some buf' ↦ hex_loop buf' (i + 1) n input
]

-- if (len > 4095) len = 4095;
abbrev pub shown : ℕ → ℕ
shown len = if ltb 4095 len then 4095 else len

-- The text in the buffer, up to the last byte, is closed at (3*len)-1, a size_t.
unfoldable pub hex_line : List ℕ → List ℕ → ℕ → Option (List ℕ)
hex_line buf input len = elim (hex_loop buf 0 (shown len) input) [
  | none ↦ none
  | some buf' ↦ store buf' (size_sub (3 * shown len) 1) (0 ∷ [])
]

-- The status word 9000.
abbrev pub sw_ok : List ℕ
sw_ok = 0x90 ∷ 0x00 ∷ []

-- Both lines are made in the same buffer; the rest is the R-APDU's buffer and its length.
unfoldable pub process_apdu : List ℕ → List ℕ → List ℕ → Option (List ℕ × List ℕ × ℕ)
process_apdu buf apdu rdata = elim (hex_line buf apdu (length apdu)) [
  | none ↦ none
  | some buf1 ↦ elim (store rdata 0 sw_ok) [
    | none ↦ none
    | some rdata' ↦ elim (hex_line buf1 rdata' (length sw_ok)) [
      | none ↦ none
      | some buf2 ↦ some (buf2, rdata', length sw_ok)
    ]
  ]
]

module _ {W : Type 0} (os : Os W) (cb : Callbacks W) (others : ClientState → Io W ClientState)
    (rounds fuel : ℕ) where
  -- From the event loop on.
  unfoldable pub loop_and_leave : ClientState → Io W (ℤ × ClientState)
  loop_and_leave l = do
    (rv, l1) ← loop_and_process os cb others true rounds fuel l
    if is_ok rv
        then (do (_, l2) ← lib_disconnect os l1; (_, l3) ← lib_uninit os l2; pure (pos 0, l3))
        else pure (minus_one, l1)

  unfoldable pub sample_main : ClientState → Io W (ℤ × ClientState)
  sample_main l =
      let (rv, l1) = lib_init l in
      if is_ok rv
      then (do
        (rv2, l2) ← lib_connect os fuel sample_aid (length sample_aid) l1
        if is_ok rv2 then loop_and_leave l2 else pure (minus_one, l2))
      else pure (minus_one, l1)
