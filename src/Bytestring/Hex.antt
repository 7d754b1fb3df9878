-- ===== src/Bytestring/Hex.antt =====
-- common/edna_bytestring.cpp: hex_str and the constructor from a hexadecimal text.
use edna.Base.{
  ℕ, ◌*◌, ◌/◌, ◌%◌, ◌<◌, ◌≡◌, refl, ap₂, true, List, [], ◌∷◌, ◌==◌, length, All, passes,
  agree_below, arith,
}
use edna.Bytestring.{IsByte, to_byte, hex_digit, hex_str, strtoul, hex_pairs, of_hex}

pair_table :
    passes (λ x. to_byte (strtoul (hex_digit (x / 16) ∷ hex_digit (x % 16) ∷ [])) == x) 256 ≡ true
unfolding passes of_hex hex_str
pair_table = refl

-- Two digits that `hex_str` writes are read back as the byte.
read_pair : (x : ℕ) → x < 256 → to_byte (strtoul (hex_digit (x / 16) ∷ hex_digit (x % 16) ∷ [])) ≡ x
read_pair = agree_below 256 _ (λ x. x) pair_table

pub length-hex_str : (b : List ℕ) → length (hex_str b) ≡ 2 * length b
unfolding hex_str
length-hex_str [] = refl
length-hex_str (x ∷ b) = omega (arith, length-hex_str b)

hex_pairs-hex_str : (b : List ℕ) → All IsByte b → hex_pairs (hex_str b) ≡ b
unfolding hex_str hex_pairs
hex_pairs-hex_str [] h = refl
hex_pairs-hex_str (x ∷ b) h = ap₂ ◌∷◌ (read_pair x h.0) (hex_pairs-hex_str b h.1)

-- The constructor from a text, given what hex_str writes for a string of bytes, gives the string.
pub of_hex-hex_str : (b : List ℕ) → All IsByte b → of_hex (hex_str b) ≡ b
unfolding of_hex
of_hex-hex_str b h =
    let even : (length (hex_str b) % 2 == 0) ≡ true = ground (arith, length-hex_str b) in
    rw even (hex_pairs-hex_str b h)
