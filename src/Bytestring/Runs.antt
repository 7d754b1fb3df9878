-- ===== src/Bytestring/Runs.antt =====
-- Runs of common/edna_bytestring.cpp: what the methods compute, and the theorems at example values.
use edna.Base.{
  some, none, fault, ℕ, ◌≡◌, refl, ◌↔◌, ◌≤◌, ◌<◌, ◌^◌, List, [], ◌∷◌, take, drop, arith, All,
}
use edna.Bytestring.{
  join_front, join_back, byte_at, size, new_bytestring, IsByte, substr, hex_str, of_hex, of_ulong,
  bits, less, text_lt, push_ushort,
}
use edna.Bytestring.Slice.{substr_lem}
use edna.Bytestring.Hex.{of_hex-hex_str}
use edna.Bytestring.Order.{less_lem}
use edna.Bytestring.Bits.{bits_least}
use edna.Bytestring.Numeric.{value, value-of_ulong}

abbrev aid : List ℕ
aid = 0xf0 ∷ 0x01 ∷ 0xab ∷ []

abbrev key : List ℕ
key = 0xff ∷ 0x10 ∷ []

aid-IsByte : All IsByte aid
aid-IsByte = (omega arith, (omega arith, (omega arith, tt)))

key-IsByte : All IsByte key
key-IsByte = (omega arith, (omega arith, tt))

text_of_aid : hex_str aid ≡ b'F' ∷ b'0' ∷ b'0' ∷ b'1' ∷ b'A' ∷ b'B' ∷ []
unfolding hex_str
text_of_aid = refl

-- Odd texts get a zero in front, small letters are digits, and other characters count for nothing.
odd_text : of_hex (b'a' ∷ b'4' ∷ b'F' ∷ []) ≡ 0x0a ∷ 0x4f ∷ []
unfolding of_hex
odd_text = refl

no_digits : of_hex (b'z' ∷ b'1' ∷ b'1' ∷ b'z' ∷ []) ≡ 0x00 ∷ 0x01 ∷ []
unfolding of_hex
no_digits = refl

short_of_value : push_ushort [] 0x1234 ≡ fault
unfolding push_ushort
short_of_value = refl

bits_of_zero_byte : bits (0 ∷ 5 ∷ []) ≡ 3
unfolding bits
bits_of_zero_byte = refl

substr_lem_example : substr aid 1 7 ≡ take 7 (drop 1 aid)
substr_lem_example = substr_lem aid 1 7 (omega arith)

of_hex-hex_str_example : of_hex (hex_str aid) ≡ aid
of_hex-hex_str_example = of_hex-hex_str aid aid-IsByte

less_lem_example : less aid key ≡ text_lt aid key
less_lem_example = less_lem aid key aid-IsByte key-IsByte

value-of_ulong_example : value (of_ulong 0xdeadbeef) ≡ 0xdeadbeef
value-of_ulong_example = value-of_ulong 0xdeadbeef (omega arith)

bits_least_example : (value (0 ∷ 5 ∷ []) < 2 ^ 3) ↔ (bits (0 ∷ 5 ∷ []) ≤ 3)
bits_least_example = bits_least (0 ∷ 5 ∷ []) 3 (omega arith, (omega arith, tt))

-- operator[] of what the operators + make, and behind the end.
second_byte : byte_at (join_front 7 (join_back new_bytestring 9)) 1 ≡ some 9
unfolding byte_at join_front join_back new_bytestring
second_byte = refl

behind_end : byte_at aid (size aid) ≡ none
unfolding byte_at size
behind_end = refl
