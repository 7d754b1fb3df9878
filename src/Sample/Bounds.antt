-- ===== src/Sample/Bounds.antt =====
-- samples/edna_client_sample.cpp: which writes of hex_str stay inside its buffer.
use edna.Base.{
  ℕ, zero, suc, ◌+◌, ◌*◌, ◌-◌, ◌≤◌, ◌<◌, ◌≡◌, refl, ◌⊎◌, inl, inr, ◌∙◌, List, [], ◌∷◌, ◌++◌, Option,
  none, some, le→ltb_false, length, length-append, length-take, length-drop, take, drop, arith,
}
use edna.Bytestring.{size_sub, hex_str}
use edna.Bytestring.Slice.{size_sub_lem}
use edna.Comm.Frame.{overwrite}
use edna.Sample.{hex_buf_size, shown, store, hex_loop, hex_line}

length-overwrite :
    (buf : List ℕ) (at : ℕ) (bytes : List ℕ)
    → at + length bytes ≤ length buf
    → length (overwrite buf at bytes) ≡ length buf
unfolding overwrite
length-overwrite buf at bytes h = omega (
  arith,
  h,
  length-append (take at buf) (bytes ++ drop (at + length bytes) buf),
  length-append bytes (drop (at + length bytes) buf),
  length-take at buf,
  length-drop (at + length bytes) buf,
)

-- The access is inside, and leaves a buffer of the same size.
abbrev Fills : List ℕ → Option (List ℕ) → Type 0
Fills buf o = (buf' : List ℕ) × (o ≡ some buf') × (length buf' ≡ length buf)

then-Fills :
    (buf : List ℕ) (o : Option (List ℕ)) (f : List ℕ → Option (List ℕ))
    → Fills buf o
    → ((b : List ℕ) → length b ≡ length buf → Fills buf (f b))
    → Fills buf (elim o as (λ k. Option (List ℕ)) [ none ↦ none | some b ↦ f b ])
then-Fills buf o f (b, e, same) k = on_access o e (k b same)
  where
    on_access :
        (o' : Option (List ℕ))
        → o' ≡ some b
        → Fills buf (f b)
        → Fills buf (elim o' as (λ k'. Option (List ℕ)) [ none ↦ none | some b' ↦ f b' ])
    on_access o' e' h = rw e' h

same-Fills :
    (buf b : List ℕ) (o : Option (List ℕ)) → length b ≡ length buf → Fills b o → Fills buf o
same-Fills buf b o e (b', e', same) = (b', e', same ∙ e)

store-Fills :
    (buf : List ℕ) (at : ℕ) (bytes : List ℕ)
    → at + length bytes ≤ length buf
    → Fills buf (store buf at bytes)
unfolding store
store-Fills buf at bytes h = (
  overwrite buf at bytes,
  rw (le→ltb_false (length buf) (at + length bytes) h) refl,
  length-overwrite buf at bytes h,
)

length-hex_str_byte : (d : ℕ) → length (hex_str (d ∷ []) ++ b' ' ∷ 0 ∷ []) ≡ 4
unfolding hex_str
length-hex_str_byte d = refl

hex_loop-Fills :
    (n : ℕ) (buf : List ℕ) (i : ℕ) (input : List ℕ)
    → n ≤ length input
    → (i + n) * 3 < length buf
    → Fills buf (hex_loop buf i n input)
unfolding hex_loop
hex_loop-Fills zero buf i input h fits = (buf, refl, refl)
hex_loop-Fills (suc n) buf i [] h fits = absurd (omega (arith, h))
hex_loop-Fills (suc n) buf i (d ∷ input) h fits =
    then-Fills buf (store buf (i * 3) (hex_str (d ∷ []) ++ b' ' ∷ 0 ∷ []))
      (λ b. hex_loop b (i + 1) n input)
      (store-Fills buf (i * 3) _ (omega (arith, fits, length-hex_str_byte d)))
      (λ b same.
        same-Fills buf b (hex_loop b (i + 1) n input) same
          (hex_loop-Fills n b (i + 1) input (omega (arith, h)) (omega (arith, fits, same))))

shown_le : (len : ℕ) → (shown len ≤ 4095) × (shown len ≤ len)
shown_le len = ground arith

shown_pos : (len : ℕ) → 0 < len → 0 < shown len
shown_pos len h = ground arith

hex_line-Fills :
    (buf input : List ℕ) (len : ℕ)
    → length buf ≡ hex_buf_size
    → len ≤ length input
    → 0 < len
    → Fills buf (hex_line buf input len)
unfolding hex_line
hex_line-Fills buf input len e h some_input =
    let (short, no_more) = shown_le len in
    let last : size_sub (3 * shown len) 1 ≡ 3 * shown len - 1 =
      size_sub_lem (3 * shown len) 1 (omega (arith, short))
        (omega (arith, shown_pos len some_input)) in
    then-Fills buf (hex_loop buf 0 (shown len) input)
      (λ b. store b (size_sub (3 * shown len) 1) (0 ∷ []))
      (hex_loop-Fills (shown len) buf 0 input (omega (arith, h, no_more)) (omega (arith, e, short)))
      (λ b same.
        same-Fills buf b _ same (
          store-Fills b (size_sub (3 * shown len) 1) (0 ∷ [])
            (omega (arith, last, short, e, same))))

hex_line_empty : (buf input : List ℕ) → length buf ≡ hex_buf_size → hex_line buf input 0 ≡ none
unfolding hex_line hex_loop store size_sub
hex_line_empty buf input e = rw e refl

-- With as many bytes as it is told, of which it takes 4095 at most, hex_str stays inside its buffer
-- of 12288 characters exactly if it gets at least one byte; without any, the NUL is written in front
-- of the buffer.
pub hex_line_bounds :
    (buf input : List ℕ) (len : ℕ)
    → length buf ≡ hex_buf_size
    → len ≤ length input
    → ((len ≡ 0) × (hex_line buf input len ≡ none))
      ⊎ ((0 < len)
          × ((buf' : List ℕ) × (hex_line buf input len ≡ some buf') × (length buf' ≡ hex_buf_size)))
hex_line_bounds buf input zero e h = inl (refl, hex_line_empty buf input e)
hex_line_bounds buf input (suc len) e h =
    let (buf', stored, same) = hex_line-Fills buf input (suc len) e h (omega arith) in
    inr (omega arith, (buf', stored, same ∙ e))
