-- ===== src/Config/Runs.antt =====
-- Runs of bin/edna_config.cpp: look-ups with their defaults and errors.
use edna.Base.{ℕ, ◌≡◌, refl, true, false, List, [], ◌∷◌, none, some, pos}
use edna.Codes.{ok, param_invalid}
use edna.Config.{Configuration, path_of, conf_get_int, conf_get_bool, conf_get_string}

abbrev log : List ℕ
log = b'l' ∷ b'o' ∷ b'g' ∷ []

abbrev level : List ℕ
level = b'l' ∷ b'v' ∷ []

-- Every number is 4, every flag is 1, and there are no texts.
abbrev configuration : Configuration
configuration = record {
  lookup_int = λ path. some (pos 4);
  lookup_bool = λ path. some (pos 1);
  lookup_string = λ path. none;
}

whole_path : path_of log level ≡ b'l' ∷ b'o' ∷ b'g' ∷ b'.' ∷ b'l' ∷ b'v' ∷ []
unfolding path_of
whole_path = refl

found_int : conf_get_int configuration (some log) (some level) (pos 0) (pos 2) ≡ (ok, pos 4)
unfolding conf_get_int
found_int = refl

found_bool : conf_get_bool configuration (some log) (some level) false false ≡ (ok, true)
unfolding conf_get_bool
found_bool = refl

cleared : conf_get_string configuration (some log) (some level) log none ≡ (ok, [])
unfolding conf_get_string
cleared = refl

no_section : conf_get_int configuration none (some level) (pos 7) (pos 2) ≡ (param_invalid, pos 7)
unfolding conf_get_int
no_section = refl
