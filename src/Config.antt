-- ===== src/Config.antt =====
-- bin/edna_config.cpp, under src: the configuration. libconfig is a parameter. A path that is NULL is
-- `none`, and a function that sets its argument returns the new value of it.
pub mod Paths
mod Runs
use edna.Base.{
  ℕ, Bool, true, false, List, [], ◌∷◌, ◌++◌, Option, none, some, ℤ, pos, int_eq, Io, pure, run,
  call, ◌>>=◌, ◌>>◌, if◌then◌else◌, take,
}
use edna.Codes.{EdnaRv, ok, no_config, config_error, param_invalid}

-- config_lookup_int, config_lookup_bool and config_lookup_string on a configuration that has been
-- read: `none` stands for any result but CONFIG_TRUE.
pub record Configuration : Type 0 where
  pub lookup_int : List ℕ → Option ℤ
  pub lookup_bool : List ℕ → Option ℤ
  pub lookup_string : List ℕ → Option (List ℕ)

-- config_init, config_read_file and config_destroy.
pub record Libconfig (W : Type 0) : Type 0 where
  pub config_init : W → W
  pub config_read_file : List ℕ → W → Bool × W
  pub config_destroy : W → W

module _ {W : Type 0} (lib : Libconfig W) where
  unfoldable pub init_config_handling : Option (List ℕ) → Io W EdnaRv
  init_config_handling none = pure no_config
  init_config_handling (some []) = pure no_config
  init_config_handling (some (x ∷ path)) = do
    run lib.config_init
    found ← call (lib.config_read_file (x ∷ path))
    if found then pure ok else (do run lib.config_destroy; pure config_error)

  unfoldable pub uninit_config_handling : Io W EdnaRv
  uninit_config_handling = do run lib.config_destroy; pure ok

-- snprintf(path_buf, 8192, "%s.%s", base_path, sub_path)
unfoldable pub path_of : List ℕ → List ℕ → List ℕ
path_of base sub = take 8191 (base ++ b'.' ∷ sub)

abbrev pub value_or : {A : Type 0} → A → Option A → A
value_or def_val none = def_val
value_or def_val (some v) = v

-- The two checks of the arguments.
abbrev pub with_paths :
    {A : Type 0} → Option (List ℕ) → Option (List ℕ) → A → (List ℕ → A) → EdnaRv × A
with_paths none sub value look_up = (param_invalid, value)
with_paths (some base) none value look_up = (param_invalid, value)
with_paths (some base) (some sub) value look_up = (ok, look_up (path_of base sub))

-- CONFIG_TRUE is 1.
abbrev pub config_true : Option ℤ → Option Bool
config_true none = none
config_true (some v) = some (int_eq v (pos 1))

module _ (configuration : Configuration) (base_path sub_path : Option (List ℕ)) where
  unfoldable pub conf_get_int : ℤ → ℤ → EdnaRv × ℤ
  conf_get_int value def_val =
      with_paths base_path sub_path value (λ path. value_or def_val (configuration.lookup_int path))

  unfoldable pub conf_get_bool : Bool → Bool → EdnaRv × Bool
  conf_get_bool value def_val =
      with_paths base_path sub_path value
        (λ path. value_or def_val (config_true (configuration.lookup_bool path)))

  -- The default may be NULL, which clears the value.
  unfoldable pub conf_get_string : List ℕ → Option (List ℕ) → EdnaRv × List ℕ
  conf_get_string value def_val =
      with_paths base_path sub_path value
        (λ path. value_or (value_or [] def_val) (configuration.lookup_string path))
