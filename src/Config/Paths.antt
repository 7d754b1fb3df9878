-- ===== src/Config/Paths.antt =====
-- bin/edna_config.cpp: the path of a setting says which one it is.
use edna.Base.{
  ℕ, ◌+◌, ◌<◌, ◌≡◌, ◌≢◌, refl, sym, ap, ap₂, ◌∙◌, List, [], ◌∷◌, ◌++◌, length, length-append, drop,
  take_all, All, arith,
}
use edna.Config.{path_of}

-- No dot in the text.
abbrev pub HasNoDot : List ℕ → Type 0
HasNoDot base = All (λ c. c ≢ b'.') base

head : List ℕ → ℕ
head [] = 0
head (x ∷ xs) = x

split_at_dot :
    (b c s t : List ℕ) → HasNoDot b → HasNoDot c → b ++ b'.' ∷ s ≡ c ++ b'.' ∷ t → (b ≡ c) × (s ≡ t)
unfolding head
split_at_dot [] [] s t h k e = (refl, ap (λ (l : List ℕ). drop 1 l) e)
split_at_dot [] (y ∷ c) s t h k e = absurd (k.0 (sym (ap head e)))
split_at_dot (x ∷ b) [] s t h k e = absurd (h.0 (ap head e))
split_at_dot (x ∷ b) (y ∷ c) s t h k e =
    let (p, q) = split_at_dot b c s t h.1 k.1 (ap (λ (l : List ℕ). drop 1 l) e) in
    (ap₂ ◌∷◌ (ap head e) p, q)

whole : (b s : List ℕ) → length b + length s < 8191 → path_of b s ≡ b ++ b'.' ∷ s
unfolding path_of
whole b s h = take_all 8191 (b ++ b'.' ∷ s) (omega (arith, length-append b (b'.' ∷ s)))

-- Two settings whose sections have no dot in their names, and whose paths fit into the buffer of
-- 8192 characters, are looked up under the same path only if they are the same setting.
path_of-injective :
    (b c s t : List ℕ)
    → HasNoDot b
    → HasNoDot c
    → length b + length s < 8191
    → length c + length t < 8191
    → path_of b s ≡ path_of c t
    → (b ≡ c) × (s ≡ t)
path_of-injective b c s t h k fits fits' e =
    split_at_dot b c s t h k (sym (whole b s fits) ∙ e ∙ whole c t fits')
