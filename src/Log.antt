-- ===== src/Log.antt =====
-- bin/edna_log.h and edna_log.cpp, under src: logging. fopen(3), fclose(3) and the text that
-- vsnprintf(3) makes of a format are parameters; what a call of edna_log prints is a list of outputs.
pub mod Outputs
pub mod Start
mod Runs
use edna.Base.{
  ℕ, zero, suc, ◌+◌, ◌/◌, ◌%◌, ◌-◌, Bool, true, false, List, [], ◌∷◌, ◌++◌, Option, none, some, ℤ,
  pos, int_eq, int_lt, Io, pure, run, call, ◌>>=◌, ◌>>◌, ltb, if◌then◌else◌, length, take,
  replicate,
}
use edna.Codes.{EdnaRv, ok, log_init_fail}
use edna.Config.{Configuration, conf_get_int, conf_get_bool, conf_get_string}

-- EDNA_LOG_ERROR, _WARNING, _INFO and _DEBUG.
abbrev pub log_error : ℤ
log_error = pos 1

abbrev pub log_warning : ℤ
log_warning = pos 2

abbrev pub log_info : ℤ
log_info = pos 3

abbrev pub log_debug : ℤ
log_debug = pos 4

-- The static variables; a FILE* is a number, and NULL is `none`.
pub record LogState : Type 0 where
  pub log_level : ℤ
  pub log_file : Option ℕ
  pub log_syslog : Bool
  pub log_stdout : Bool

-- EDNA_LOGLEVEL comes from the build.
abbrev pub initial_log : ℤ → LogState
initial_log edna_loglevel = record {
  log_level = edna_loglevel;
  log_file = none;
  log_syslog = true;
  log_stdout = false;
}

-- The section and the names in it.
abbrev pub log_section : List ℕ
log_section = b'l' ∷ b'o' ∷ b'g' ∷ []

abbrev pub loglevel_name : List ℕ
loglevel_name = b'l' ∷ b'o' ∷ b'g' ∷ b'l' ∷ b'e' ∷ b'v' ∷ b'e' ∷ b'l' ∷ []

abbrev pub logfile_name : List ℕ
logfile_name = b'l' ∷ b'o' ∷ b'g' ∷ b'f' ∷ b'i' ∷ b'l' ∷ b'e' ∷ []

abbrev pub syslog_name : List ℕ
syslog_name = b's' ∷ b'y' ∷ b's' ∷ b'l' ∷ b'o' ∷ b'g' ∷ []

abbrev pub stdout_name : List ℕ
stdout_name = b's' ∷ b't' ∷ b'd' ∷ b'o' ∷ b'u' ∷ b't' ∷ []

module _ {W : Type 0} (fopen : List ℕ → W → Option ℕ × W) (configuration : Configuration)
    (edna_loglevel : ℤ) where
  -- From the look-up of "stdout" on.
  unfoldable pub with_stdout : LogState → EdnaRv × Bool → Io W (EdnaRv × LogState)
  with_stdout l (ok, b) = pure (ok, record l { log_stdout = b })
  with_stdout l (_, b) = pure (log_init_fail, l)

  -- From the look-up of "syslog" on.
  unfoldable pub with_syslog : LogState → EdnaRv × Bool → Io W (EdnaRv × LogState)
  with_syslog l (ok, b) =
      with_stdout (record l { log_syslog = b })
        (conf_get_bool configuration (some log_section) (some stdout_name) l.log_stdout false)
  with_syslog l (_, b) = pure (log_init_fail, l)

  unfoldable pub flags_read : LogState → Io W (EdnaRv × LogState)
  flags_read l =
      with_syslog l
        (conf_get_bool configuration (some log_section) (some syslog_name) l.log_syslog true)

  -- From the look-up of "logfile" on.
  unfoldable pub with_logfile : LogState → EdnaRv × List ℕ → Io W (EdnaRv × LogState)
  with_logfile l (ok, []) = flags_read (record l { log_file = none })
  with_logfile l (ok, x ∷ path) = do
    file ← call (fopen (x ∷ path))
    elim file [
      | none ↦ pure (log_init_fail, record l { log_file = none })
      | some f ↦ flags_read (record l { log_file = some f })
    ]
  with_logfile l (_, path) = pure (log_init_fail, l)

  -- From the look-up of "loglevel" on.
  unfoldable pub with_level : LogState → EdnaRv × ℤ → Io W (EdnaRv × LogState)
  with_level l (ok, level) =
      with_logfile (record l { log_level = level })
        (conf_get_string configuration (some log_section) (some logfile_name) [] none)
  with_level l (_, level) = pure (log_init_fail, l)

  unfoldable pub init_log : LogState → Io W (EdnaRv × LogState)
  init_log l =
      with_level l (
        conf_get_int configuration (some log_section) (some loglevel_name) l.log_level
          edna_loglevel)

-- The file stays in log_file.
unfoldable pub uninit_log : {W : Type 0} → (ℕ → W → W) → LogState → Io W EdnaRv
uninit_log fclose l = elim l.log_file [ none ↦ pure ok | some f ↦ (do run (fclose f); pure ok) ]

-- The digits of a number, before `rest`; the number itself is fuel enough.
abbrev pub digits : ℕ → ℕ → List ℕ → List ℕ
digits zero n rest = (b'0' + n % 10) ∷ rest
digits (suc fuel) n rest = elim (ltb n 10) [
  | true ↦ (b'0' + n % 10) ∷ rest
  | false ↦ digits fuel (n / 10) ((b'0' + n % 10) ∷ rest)
]

-- %d, and a number with a least width and what it is padded with, of numbers that are not negative.
abbrev pub decimal : ℕ → List ℕ
decimal n = digits n n []

abbrev pub padded : ℕ → ℕ → ℕ → List ℕ
padded width pad n = let d = decimal n in replicate (width - length d) pad ++ d

-- The fields of struct tm that are printed.
pub record Tm : Type 0 where
  pub tm_year : ℕ
  pub tm_mon : ℕ
  pub tm_mday : ℕ
  pub tm_hour : ℕ
  pub tm_min : ℕ
  pub tm_sec : ℕ

-- snprintf with a buffer.
abbrev pub cut : ℕ → List ℕ → List ℕ
cut size text = take (size - 1) text

unfoldable pub timestamp : Tm → List ℕ
timestamp now = cut 128 (
    padded 4 b' ' (now.tm_year + 1900)
    ++ b'-'
      ∷ (padded 2 b'0' (now.tm_mon + 1)
          ++ b'-'
            ∷ (padded 2 b'0' now.tm_mday
                ++ b' '
                  ∷ (padded 2 b'0' now.tm_hour
                      ++ b':' ∷ (padded 2 b'0' now.tm_min ++ b':' ∷ padded 2 b'0' now.tm_sec)))))

-- log_buf: `text` is the expansion of the format.
unfoldable pub log_text : ℤ → List ℕ → ℕ → List ℕ → List ℕ
log_text level file line text =
    if int_eq level log_debug
    then cut 8192 (file ++ b'(' ∷ (decimal line ++ b')' ∷ b':' ∷ b' ' ∷ cut 8192 text))
    else cut 8192 text

pub data Output : Type 0 where
  to_stdout : List ℕ → Output
  to_file : ℕ → List ℕ → Output
  to_syslog : ℤ → List ℕ → Output

-- "%s %s\n"
abbrev pub stamped : Tm → List ℕ → List ℕ
stamped now text = timestamp now ++ b' ' ∷ (text ++ b'\n' ∷ [])

unfoldable pub outputs : LogState → Tm → ℤ → List ℕ → List Output
outputs l now level text =
    (if l.log_stdout then to_stdout (stamped now text) ∷ [] else [])
    ++ (elim l.log_file [ none ↦ [] | some f ↦ to_file f (stamped now text) ∷ [] ]
        ++ (if l.log_syslog then to_syslog level text ∷ [] else []))

unfoldable pub edna_log : LogState → Tm → ℤ → List ℕ → ℕ → List ℕ → List Output
edna_log l now level file line text =
    if int_lt l.log_level level then [] else outputs l now level (log_text level file line text)
