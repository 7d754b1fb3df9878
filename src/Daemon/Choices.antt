-- ===== src/Daemon/Choices.antt =====
-- bin/edna_main.cpp: what the command line, the configuration and the build say of the two paths
-- and of the fork, and which of them counts.
use edna.Base.{
  ◌≡◌, refl, sym, ap, ◌∙◌, Bool, true, false, ◌||◌, List, [], ◌∷◌, Option, none, some, ℕ,
  if◌then◌else◌,
}
use edna.Config.{Configuration, path_of, value_or, config_true, conf_get_bool, conf_get_string}
use edna.Daemon.{
  Opt, foreground, help, version, unknown, config_file, pid_file, Options, initial_options, Parsed,
  shows_usage, shows_version, parsed, parse, or_default, with_defaults, daemon_section,
  pidfile_name, fork_name, chosen_pid_path, runs_as_daemon,
}

-- The later of two.
abbrev later_of : Option (List ℕ) → Option (List ℕ) → Option (List ℕ)
later_of p none = p
later_of p (some q) = some q

-- The path behind the last -c, and behind the last -p, and whether there is a -f.
abbrev pub last_config : List Opt → Option (List ℕ)
last_config [] = none
last_config (config_file path ∷ opts) = later_of (some path) (last_config opts)
last_config (_ ∷ opts) = last_config opts

abbrev pub last_pid : List Opt → Option (List ℕ)
last_pid [] = none
last_pid (pid_file path ∷ opts) = later_of (some path) (last_pid opts)
last_pid (_ ∷ opts) = last_pid opts

abbrev pub has_foreground : List Opt → Bool
has_foreground [] = false
has_foreground (foreground ∷ opts) = true
has_foreground (_ ∷ opts) = has_foreground opts

is_some : Option (List ℕ) → Bool
is_some none = false
is_some (some p) = true

summary : Options → Bool → Option (List ℕ) → Option (List ℕ) → Options
summary o f c p = record {
  config_path = value_or o.config_path c;
  pid_path = value_or o.pid_path p;
  daemon = if f then false else o.daemon;
  pid_path_set = is_some p || o.pid_path_set;
  daemon_set = f || o.daemon_set;
}

summary_foreground :
    (o : Options) (f : Bool) (c p : Option (List ℕ))
    → summary (record o { daemon = false; daemon_set = true }) f c p ≡ summary o true c p
unfolding summary
summary_foreground o true c p = refl
summary_foreground o false c p = refl

summary_config :
    (o : Options) (path : List ℕ) (f : Bool) (c p : Option (List ℕ))
    → summary (record o { config_path = path }) f c p ≡ summary o f (later_of (some path) c) p
unfolding summary
summary_config o path f none p = refl
summary_config o path f (some c) p = refl

summary_pid :
    (o : Options) (path : List ℕ) (f : Bool) (c p : Option (List ℕ))
    → summary (record o { pid_path = path; pid_path_set = true }) f c p
      ≡ summary o f c (later_of (some path) p)
unfolding summary is_some
summary_pid o path f c none = refl
summary_pid o path f c (some p) = refl

options_in : Options → Parsed → Options
options_in o shows_usage = o
options_in o shows_version = o
options_in o (parsed o') = o'

parse-summary :
    (o o' : Options) (opts : List Opt)
    → parse o opts ≡ parsed o'
    → o' ≡ summary o (has_foreground opts) (last_config opts) (last_pid opts)
unfolding parse summary is_some options_in
parse-summary o o' [] e = sym (ap (options_in o) e)
parse-summary o o' (foreground ∷ opts) e =
    parse-summary _ o' opts e
    ∙ summary_foreground o (has_foreground opts) (last_config opts) (last_pid opts)
parse-summary o o' (config_file path ∷ opts) e =
    parse-summary _ o' opts e
    ∙ summary_config o path (has_foreground opts) (last_config opts) (last_pid opts)
parse-summary o o' (pid_file path ∷ opts) e =
    parse-summary _ o' opts e
    ∙ summary_pid o path (has_foreground opts) (last_config opts) (last_pid opts)
parse-summary o o' (unknown ∷ opts) e = parse-summary o o' opts e
parse-summary o o' (help ∷ opts) e = absurd (cc (e))
parse-summary o o' (version ∷ opts) e = absurd (cc (e))

module _ (configuration : Configuration) (default_conf default_pidfile : List ℕ) where
  -- What the configuration says.
  abbrev pub set_pid : List ℕ
  set_pid = value_or [] (configuration.lookup_string (path_of daemon_section pidfile_name))

  abbrev pub set_fork : Bool
  set_fork =
      value_or true (config_true (configuration.lookup_bool (path_of daemon_section fork_name)))

  -- The path behind the last -p counts, then the configuration's; where they are empty, the build's.
  abbrev pub pid_choice : Option (List ℕ) → List ℕ
  pid_choice none = or_default default_pidfile set_pid
  pid_choice (some path) = or_default default_pidfile path

  pid_lem :
      (f : Bool) (c p : Option (List ℕ))
      → chosen_pid_path configuration
          (with_defaults default_conf default_pidfile (summary initial_options f c p))
        ≡ pid_choice p
  unfolding chosen_pid_path with_defaults summary is_some conf_get_string
  pid_lem f c none = refl
  pid_lem f c (some path) = refl

  fork_lem :
      (f : Bool) (c p : Option (List ℕ))
      → runs_as_daemon configuration
          (with_defaults default_conf default_pidfile (summary initial_options f c p))
        ≡ (if f then false else set_fork)
  unfolding runs_as_daemon with_defaults summary conf_get_bool
  fork_lem true c p = refl
  fork_lem false c p = refl

  -- When the command line asks neither for the help nor for the version: the configuration is the
  -- file behind the last -c, or the build's; the PID file is the one behind the last -p, or the
  -- configuration's, and the build's where that is empty, which an empty one behind -p is too,
  -- whatever the configuration says; and main forks unless there is a -f or the configuration says no.
  pub parse_choices :
      (o : Options) (opts : List Opt)
      → parse initial_options opts ≡ parsed o
      → let o1 = with_defaults default_conf default_pidfile o in
        (o1.config_path ≡ or_default default_conf (value_or [] (last_config opts)))
        × (chosen_pid_path configuration o1 ≡ pid_choice (last_pid opts))
        × (runs_as_daemon configuration o1 ≡ (if has_foreground opts then false else set_fork))
  unfolding with_defaults summary
  parse_choices o opts e = rw (parse-summary initial_options o opts e) (
    refl,
    pid_lem _ (last_config opts) (last_pid opts),
    fork_lem _ (last_config opts) (last_pid opts),
  )
