-- ===== src/Bytestring.antt =====
-- common/edna_bytestring.h and common/edna_bytestring.cpp, under src: the class bytestring.
-- A byte string is the list of the elements of its vector, each a number below 256, and a text is
-- the list of its character codes. A method that changes its object returns the new value.
pub mod Slice
pub mod Hex
pub mod Order
pub mod Bits
pub mod Numeric
pub mod Xor
mod Runs
use Prim.Native.Nat.{bit_and, bit_xor}
use edna.Base.{
  ℕ, zero, suc, ◌+◌, ◌-◌, ◌*◌, ◌/◌, ◌%◌, ◌^◌, ◌<◌, min, Bool, true, false, not, ◌&&◌, ◌||◌, List,
  [], ◌∷◌, ◌++◌, Option, none, some, ltb, leb, ◌==◌, if◌then◌else◌, length, take, drop, get_elem?,
  replicate, arith, Run, fault,
}

abbrev pub IsByte : ℕ → Type 0
IsByte b = b < 256

-- size_t is a 64-bit word.
abbrev pub size_mod : ℕ
size_mod = 2 ^ 64

abbrev pub size_max : ℕ
size_max = size_mod - 1

-- The cast to unsigned char.
abbrev pub to_byte : ℕ → ℕ
to_byte n = n % 256

-- std::vector::resize: cut at the end, or filled up with zeroes.
unfoldable pub resize : List ℕ → ℕ → List ℕ
resize b n = take n b ++ replicate (n - length b) 0

-- `resize`, then memset over the whole vector.
unfoldable pub wipe : List ℕ → ℕ → List ℕ
unfolding resize
wipe b n = replicate (length (resize b n)) 0

-- bytestring(bytes, len): the vector is sized, and `len` bytes are copied into it.
unfoldable pub of_bytes : List ℕ → ℕ → List ℕ
of_bytes bytes len = take len bytes

-- The constructor without arguments.
unfoldable pub new_bytestring : List ℕ
new_bytestring = []

-- The copy constructor.
unfoldable pub copy : List ℕ → List ℕ
copy b = b

unfoldable pub size : List ℕ → ℕ
size b = length b

-- operator[]: `none` is behind the end of the vector, which is undefined.
unfoldable pub byte_at : List ℕ → ℕ → Option ℕ
byte_at b pos = get_elem? b pos

unfoldable pub append : List ℕ → List ℕ → List ℕ
append b c = b ++ c

unfoldable pub push_byte : List ℕ → ℕ → List ℕ
push_byte b x = b ++ x ∷ []

-- The end of a function that has a result type and no return statement: a call that comes there is
-- undefined, whatever it has written.
abbrev pub without_return : List ℕ → Run (List ℕ)
without_return b = fault

-- Both bytes are pushed, and nothing is returned.
unfoldable pub push_ushort : List ℕ → ℕ → Run (List ℕ)
push_ushort b v =
    without_return
      (push_byte (push_byte b (to_byte (bit_and (v / 2 ^ 8) 0xff))) (to_byte (bit_and v 0xff)))

-- The three forms of operator+: of two byte strings, of a byte and a byte string, and the reverse.
unfoldable pub join : List ℕ → List ℕ → List ℕ
unfolding append copy
join b c = let rv = copy b in append rv c

unfoldable pub join_front : ℕ → List ℕ → List ℕ
unfolding append of_bytes
join_front x b = let rv = of_bytes (x ∷ []) 1 in append rv b

unfoldable pub join_back : List ℕ → ℕ → List ℕ
unfolding push_byte copy
join_back b x = let rv = copy b in push_byte rv x

-- The difference of two words of type size_t wraps around.
unfoldable pub size_sub : ℕ → ℕ → ℕ
size_sub a b = (a + size_mod - b) % size_mod

unfoldable pub substr : List ℕ → ℕ → ℕ → List ℕ
unfolding size_sub of_bytes
substr b start len =
    let ret_len = min len (size_sub (length b) start) in
    if leb (length b) start then [] else of_bytes (drop start b) ret_len

-- The default argument of `substr`.
unfoldable pub substr_from : List ℕ → ℕ → List ℕ
unfolding substr
substr_from b start = substr b start size_max

-- `byteString[i] = byteString[i + len]` for i below `n`; the list starts at index i.
shift_down : ℕ → ℕ → List ℕ → List ℕ
shift_down zero len b = b
shift_down (suc n) len [] = []
shift_down (suc n) len (x ∷ b) =
    elim (get_elem? (x ∷ b) len) [ none ↦ x | some y ↦ y ] ∷ shift_down n len b

-- `split` returns the part cut off, and what stays in the object.
unfoldable pub split : List ℕ → ℕ → List ℕ × List ℕ
unfolding substr shift_down resize
split b len =
    let new_size = if ltb len (length b) then length b - len else 0 in
    let moved = if ltb 0 new_size then shift_down new_size len b else b in
    (substr b 0 len, resize moved new_size)

-- "%02X" of one byte.
hex_digit : ℕ → ℕ
hex_digit d = if ltb d 10 then b'0' + d else b'A' + (d - 10)

unfoldable pub hex_str : List ℕ → List ℕ
unfolding hex_digit
hex_str [] = []
hex_str (x ∷ b) = hex_digit (x / 16) ∷ hex_digit (x % 16) ∷ hex_str b

-- The value of a character as a digit in base 16.
digit_value : ℕ → Option ℕ
digit_value c =
    if leb b'0' c && leb c b'9'
    then some (c - b'0')
    else if leb b'A' c && leb c b'F'
    then some (c - b'A' + 10)
    else if leb b'a' c && leb c b'f'
    then some (c - b'a' + 10)
    else none

-- The white space of isspace: blank, and the codes 9 to 13.
is_space : ℕ → Bool
is_space c = (c == b' ') || (leb 9 c && leb c 13)

-- The digits up to the first character that is none.
digits_from : ℕ → List ℕ → ℕ
digits_from acc [] = acc
digits_from acc (c ∷ cs) =
    let go = λ (d : ℕ). digits_from (acc * 16 + d) cs in
    elim (digit_value c) [ none ↦ acc | some d ↦ go d ]

after_sign : List ℕ → ℕ
after_sign [] = 0
after_sign (c ∷ cs) =
    if c == b'-'
    then (size_mod - digits_from 0 cs) % size_mod
    else if c == b'+'
    then digits_from 0 cs
    else digits_from 0 (c ∷ cs)

-- strtoul in base 16, on the two characters that the constructor hands it: leading white space is
-- skipped, a sign is taken, and a minus negates the word. A prefix 0x leaves no digit behind it.
strtoul : List ℕ → ℕ
strtoul [] = 0
strtoul (c ∷ cs) = let rest = strtoul cs in if is_space c then rest else after_sign (c ∷ cs)

hex_pairs : List ℕ → List ℕ
hex_pairs [] = []
hex_pairs (c ∷ []) = []
hex_pairs (c ∷ d ∷ cs) = to_byte (strtoul (c ∷ d ∷ [])) ∷ hex_pairs cs

-- bytestring(hexString): an odd text gets a leading "0".
unfoldable pub of_hex : List ℕ → List ℕ
unfolding hex_pairs strtoul after_sign digits_from digit_value is_space
of_hex h = hex_pairs (if length h % 2 == 0 then h else b'0' ∷ h)

-- byteStrIn[7 - i] = setValue & 0xFF; setValue >>= 8: `n` rounds, the last byte first.
ulong_bytes : ℕ → ℕ → List ℕ → List ℕ
ulong_bytes zero v out = out
ulong_bytes (suc n) v out = ulong_bytes n (v / 2 ^ 8) (to_byte (bit_and v 0xff) ∷ out)

-- bytestring(longValue)
unfoldable pub of_ulong : ℕ → List ℕ
unfolding ulong_bytes
of_ulong v = ulong_bytes 8 v []

-- for (mask = 0x80; mask > 0; mask >>= 1): the first mask that meets the byte ends the method.
-- `none` says that no bit was set, and `k` counts the masks left, so the mask is 2 ^ (k - 1).
scan_byte : ℕ → ℕ → ℕ → ℕ × Bool
scan_byte zero x bits = (bits, false)
scan_byte (suc k) x bits =
    let rest = scan_byte k x (bits - 1) in if bit_and x (2 ^ k) == 0 then rest else (bits, true)

scan_bytes : List ℕ → ℕ → ℕ
unfolding scan_byte
scan_bytes [] bits = bits
scan_bytes (x ∷ b) bits =
    let (left, hit) = scan_byte 8 x bits in
    let rest = scan_bytes b left in if hit then left else rest

unfoldable pub bits : List ℕ → ℕ
unfolding scan_bytes
bits b = let n = length b * 8 in if n == 0 then 0 else scan_bytes b n

-- memcmp(…) == 0 over two vectors of one size.
same_bytes : List ℕ → List ℕ → Bool
same_bytes [] c = true
same_bytes (x ∷ b) [] = false
same_bytes (x ∷ b) (y ∷ c) = (x == y) && same_bytes b c

unfoldable pub equal : List ℕ → List ℕ → Bool
unfolding same_bytes
equal b c = if length c == length b then same_bytes b c else false

unfoldable pub not_equal : List ℕ → List ℕ → Bool
unfolding same_bytes
not_equal b c = if length c == length b then not (same_bytes b c) else true

-- std::string::operator<: the first character that differs decides, then the length.
pub text_lt : List ℕ → List ℕ → Bool
text_lt s [] = false
text_lt [] (d ∷ t) = true
text_lt (c ∷ s) (d ∷ t) =
    let rest = text_lt s t in if ltb c d then true else if ltb d c then false else rest

unfoldable pub less : List ℕ → List ℕ → Bool
unfolding text_lt
less b c = text_lt (hex_str b) (hex_str c)

unfoldable pub greater : List ℕ → List ℕ → Bool
unfolding text_lt
greater b c = text_lt (hex_str c) (hex_str b)

-- The first `n` bytes are combined with those of `c`; the rest stays.
xor_into : ℕ → List ℕ → List ℕ → List ℕ
xor_into zero b c = b
xor_into (suc n) [] c = []
xor_into (suc n) (x ∷ b) [] = x ∷ b
xor_into (suc n) (x ∷ b) (y ∷ c) = bit_xor x y ∷ xor_into n b c

-- operator^=
unfoldable pub xor_assign : List ℕ → List ℕ → List ℕ
unfolding xor_into
xor_assign b c = xor_into (min (length b) (length c)) b c

-- operator^ for two byte strings.
xor_prefix : ℕ → List ℕ → List ℕ → List ℕ
xor_prefix zero b c = []
xor_prefix (suc n) [] c = []
xor_prefix (suc n) (x ∷ b) [] = []
xor_prefix (suc n) (x ∷ b) (y ∷ c) = to_byte (bit_xor x y) ∷ xor_prefix n b c

unfoldable pub xor_bytes : List ℕ → List ℕ → List ℕ
unfolding xor_prefix
xor_bytes b c = xor_prefix (min (length b) (length c)) b c
