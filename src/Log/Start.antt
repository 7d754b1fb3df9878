-- ===== src/Log/Start.antt =====
-- bin/edna_log.cpp: edna_init_log, by what the configuration says in the section "log".
use edna.Base.{
  ℕ, ◌≡◌, ◌≢◌, refl, true, false, List, [], ◌∷◌, Option, none, some, ℤ, Io, pure, done, Succeeds,
}
use edna.Codes.{EdnaRv, ok, log_init_fail}
use edna.Config.{
  Configuration, path_of, value_or, config_true, conf_get_int, conf_get_bool, conf_get_string,
}
use edna.Log.{
  LogState, log_section, loglevel_name, logfile_name, syslog_name, stdout_name, with_stdout,
  with_syslog, flags_read, with_logfile, with_level, init_log,
}

module _ {W : Type 0} (fopen : List ℕ → W → Option ℕ × W) (configuration : Configuration)
    (edna_loglevel : ℤ) where
  abbrev pub set_level : ℤ
  set_level = value_or edna_loglevel (configuration.lookup_int (path_of log_section loglevel_name))

  abbrev pub set_file : List ℕ
  set_file = value_or [] (configuration.lookup_string (path_of log_section logfile_name))

  -- What the configuration asks for, with the file that is open.
  abbrev pub configured : Option ℕ → LogState
  configured file = record {
    log_level = set_level;
    log_file = file;
    log_syslog =
        value_or true (config_true (configuration.lookup_bool (path_of log_section syslog_name)));
    log_stdout =
        value_or false (config_true (configuration.lookup_bool (path_of log_section stdout_name)));
  }

  -- The three ways to end: without a file, with an open one, and with one that cannot be opened, when
  -- the level is set, and the two flags are as before.
  pub data Started (l : LogState) (w : W) (r : EdnaRv × LogState) (v : W) : Type 0 where
    unnamed : set_file ≡ [] → r ≡ (ok, configured none) → v ≡ w → Started l w r v
    opened :
        (file : ℕ)
        → set_file ≢ []
        → fopen set_file w ≡ (some file, v)
        → r ≡ (ok, configured (some file))
        → Started l w r v
    unopened :
        set_file ≢ []
        → fopen set_file w ≡ (none, v)
        → r ≡ (log_init_fail, record l { log_level = set_level; log_file = none })
        → Started l w r v

  leveled : LogState → LogState
  leveled l = record l { log_level = set_level }

  flags_read_lem :
      (l : LogState) (file : Option ℕ) (w : W)
      → flags_read fopen configuration edna_loglevel (record (leveled l) { log_file = file }) w
        ≡ done ((ok, configured file), w)
  unfolding leveled flags_read with_syslog with_stdout conf_get_bool
  flags_read_lem l file w = refl

  on_named :
      (l : LogState) (path : List ℕ) (w : W) (r : Option ℕ × W)
      → set_file ≡ path
      → set_file ≢ []
      → fopen path w ≡ r
      → Succeeds (Started l w) (
          elim r.0 as (λ k. Io W (EdnaRv × LogState)) [
            | none ↦ pure (log_init_fail, record (leveled l) { log_file = none })
            | some f ↦
                flags_read fopen configuration edna_loglevel
                  (record (leveled l) { log_file = some f })
          ]
            r.1)
  unfolding leveled
  on_named l path w (none, v) e ne o = (_, v, refl, unopened ne (rw e o) refl)
  on_named l path w (some f, v) e ne o =
      ((ok, configured (some f)), v, flags_read_lem l (some f) v, opened f ne (rw e o) refl)

  on_path :
      (l : LogState) (path : List ℕ) (w : W)
      → set_file ≡ path
      → Succeeds
          (Started l w)
          (with_logfile fopen configuration edna_loglevel (leveled l) (ok, path) w)
  unfolding with_logfile
  on_path l [] w e = ((ok, configured none), w, flags_read_lem l none w, unnamed e refl refl)
  on_path l (x ∷ path) w e = on_named l (x ∷ path) w (fopen (x ∷ path) w) e (λ z. cc) refl

  -- edna_init_log returns, on every configuration and whatever the settings were before. Without the
  -- name of a log file, or with one that opens, it returns ERV_OK, and all four settings are those of
  -- the configuration, or their defaults; with a file that cannot be opened, and only then, it
  -- returns ERV_LOG_INIT_FAIL, with the level set, no file, and the two flags as they were.
  pub init_log-Started :
      (l : LogState) (w : W)
      → Succeeds (Started l w) (init_log fopen configuration edna_loglevel l w)
  unfolding init_log with_level leveled conf_get_int conf_get_string
  init_log-Started l w = on_path l set_file w refl
