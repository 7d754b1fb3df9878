-- ===== src/Codes.antt =====
-- include/edna.h: the values that functions return.
use edna.Base.{ℕ, Bool, true, false}

-- The names are those of the ERV_ constants.
pub data EdnaRv : Type 0 where
  ok already_initialised : EdnaRv
  general_error memory param_invalid log_init_fail not_initialised : EdnaRv
  no_config config_error config_no_array config_no_string : EdnaRv
  connect_failed disconnected not_connected version_mismatch : EdnaRv
  already_connected already_registered : EdnaRv

abbrev pub code_of : EdnaRv → ℕ
code_of ok = 0x00000000
code_of already_initialised = 0x40000000
code_of general_error = 0x80000000
code_of memory = 0x80000001
code_of param_invalid = 0x80000002
code_of log_init_fail = 0x80000003
code_of not_initialised = 0x80000004
code_of no_config = 0x80001000
code_of config_error = 0x80001001
code_of config_no_array = 0x80001002
code_of config_no_string = 0x80001003
code_of connect_failed = 0x80002000
code_of disconnected = 0x80002001
code_of not_connected = 0x80002002
code_of version_mismatch = 0x80002003
code_of already_connected = 0x80002004
code_of already_registered = 0x80002005

-- The test `rv == ERV_OK`.
abbrev pub is_ok : EdnaRv → Bool
is_ok ok = true
is_ok _ = false
