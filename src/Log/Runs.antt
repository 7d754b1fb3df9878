-- ===== src/Log/Runs.antt =====
-- Runs of bin/edna_log.cpp: a day and a message, printed at two places, and the theorems at them.
use edna.Base.{ℕ, ◌≡◌, refl, List, [], ◌∷◌, Option, none, some, Succeeds, if◌then◌else◌, ltb}
use edna.Config.{Configuration}
use edna.Log.{
  LogState, initial_log, log_error, log_warning, log_info, log_debug, init_log, Tm, timestamp,
  log_text, to_syslog, to_file, stamped, outputs, edna_log,
}
use edna.Log.Start.{Started, init_log-Started}

-- 2013-04-09 07:05:30
abbrev day : Tm
day = record { tm_year = 113; tm_mon = 3; tm_mday = 9; tm_hour = 7; tm_min = 5; tm_sec = 30 }

-- The file a.c.
abbrev file : List ℕ
file = b'a' ∷ b'.' ∷ b'c' ∷ []

abbrev text : List ℕ
text = b'n' ∷ b'o' ∷ []

-- Warnings and errors go to file 3 and to syslog.
abbrev settings : LogState
settings = record (initial_log log_warning) { log_file = some 3 }

day_text :
    timestamp day
    ≡ b'2' ∷ b'0' ∷ b'1' ∷ b'3' ∷ b'-' ∷ b'0' ∷ b'4' ∷ b'-' ∷ b'0' ∷ b'9' ∷ b' ' ∷ b'0' ∷ b'7'
      ∷ b':' ∷ b'0' ∷ b'5' ∷ b':' ∷ b'3' ∷ b'0' ∷ []
unfolding timestamp
day_text = refl

debug_text :
    log_text log_debug file 41 text
    ≡ b'a' ∷ b'.' ∷ b'c' ∷ b'(' ∷ b'4' ∷ b'1' ∷ b')' ∷ b':' ∷ b' ' ∷ b'n' ∷ b'o' ∷ []
unfolding log_text
debug_text = refl

error_printed :
    edna_log settings day log_error file 41 text
    ≡ to_file 3 (stamped day text) ∷ to_syslog log_error text ∷ []
unfolding edna_log outputs log_text
error_printed = refl

info_dropped : edna_log settings day log_info file 41 text ≡ []
unfolding edna_log
info_dropped = refl

-- A log file is named, and nothing else; the world counts the files that are open, and one is all.
abbrev configuration : Configuration
configuration = record {
  lookup_int = λ path. none;
  lookup_bool = λ path. none;
  lookup_string = λ path. some file;
}

abbrev fopen : List ℕ → ℕ → Option ℕ × ℕ
fopen path n = if ltb 0 n then (none, n) else (some 3, 1)

init_log-Started_example :
    Succeeds
      (Started fopen configuration log_info settings 1)
      (init_log fopen configuration log_info settings 1)
init_log-Started_example = init_log-Started fopen configuration log_info settings 1
