-- ===== src/Log/Outputs.antt =====
-- bin/edna_log.cpp: what a call of edna_log prints, by the level and the destinations.
use edna.Base.{ℕ}
use edna.Log.{Output, to_stdout, to_file, to_syslog}

-- Where an output goes.
pub data Place : Type 0 where
  on_stdout in_syslog : Place
  in_file : ℕ → Place

abbrev pub place_of : Output → Place
place_of (to_stdout text) = on_stdout
place_of (to_file f text) = in_file f
place_of (to_syslog level text) = in_syslog
