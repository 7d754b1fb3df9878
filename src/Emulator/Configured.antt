-- ===== src/Emulator/Configured.antt =====
-- bin/edna_emu.cpp, under src: the constructor and the start of run, with the configuration.
use edna.Base.{ℕ, ◌≡◌, false, List, [], ◌∷◌, Option, none, some, ℤ, pos, Io, done}
use edna.Codes.{EdnaRv, ok}
use edna.Os.{Os}
use edna.Comm.{Comm}
use edna.Config.{Configuration, path_of, conf_get_int, conf_get_bool, conf_get_string}
use edna.Emulator.{Reader, Settings, run_emulator}

-- The section and the names in it.
abbrev pub emulation : List ℕ
emulation = b'e' ∷ b'm' ∷ b'u' ∷ b'l' ∷ b'a' ∷ b't' ∷ b'i' ∷ b'o' ∷ b'n' ∷ []

abbrev pub reader_name : List ℕ
reader_name = b'r' ∷ b'e' ∷ b'a' ∷ b'd' ∷ b'e' ∷ b'r' ∷ []

abbrev pub atq_name : List ℕ
atq_name = b'a' ∷ b't' ∷ b'q' ∷ []

abbrev pub sak_name : List ℕ
sak_name = b's' ∷ b'a' ∷ b'k' ∷ []

abbrev pub delay_name : List ℕ
delay_name = b'c' ∷ b'm' ∷ b'd' ∷ b'_' ∷ b'd' ∷ b'e' ∷ b'l' ∷ b'a' ∷ b'y' ∷ []

abbrev pub success_name : List ℕ
success_name =
    b'd' ∷ b'e' ∷ b'l' ∷ b'a' ∷ b'y' ∷ b'_' ∷ b's' ∷ b'u' ∷ b'c' ∷ b'c' ∷ b'e' ∷ b's' ∷ b's' ∷ b'_'
    ∷ b'o' ∷ b'n' ∷ b'l' ∷ b'y' ∷ []

abbrev pub default_atq : ℤ
default_atq = pos 0x0004

abbrev pub default_sak : ℤ
default_sak = pos 0x28

-- The constructor: the results of the look-ups are not looked at.
unfoldable pub settings_of : Configuration → Settings
settings_of configuration = record {
  cmd_delay = (conf_get_int configuration (some emulation) (some delay_name) (pos 0) (pos 0)).1;
  delay_success_only =
      (conf_get_bool configuration (some emulation) (some success_name) false false).1;
}

-- The value, if the result is ERV_OK.
abbrev pub if_ok : {A : Type 0} → EdnaRv × A → Option A
if_ok (ok, a) = some a
if_ok (_, a) = none

module _ {W : Type 0} (os : Os W) (reader : Reader W) (configuration : Configuration) (fuel : ℕ)
    (others : Comm → Io W Comm) where
  unfoldable pub configured_run : ℕ → ℕ → Comm → Io W Comm
  configured_run rounds waits c =
      run_emulator os reader (settings_of configuration) fuel others rounds waits
        (if_ok (conf_get_string configuration (some emulation) (some reader_name) [] none))
        (if_ok (conf_get_int configuration (some emulation) (some atq_name) (pos 0) default_atq))
        (if_ok (conf_get_int configuration (some emulation) (some sak_name) (pos 0) default_sak)) c

  -- Without the name of a reader in the configuration, the emulator gives up with nothing done.
  pub configured_run_unnamed :
      (rounds waits : ℕ) (c : Comm) (w : W)
      → configuration.lookup_string (path_of emulation reader_name) ≡ none
      → configured_run rounds waits c w ≡ done (c, w)
  unfolding configured_run run_emulator conf_get_string
  configured_run_unnamed rounds waits c w e = rw e
