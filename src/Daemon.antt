-- ===== src/Daemon.antt =====
-- bin/edna_main.cpp, under src: the daemon's start, from the command line and the configuration to
-- the two threads, and its end. Process control is a parameter; messages on a terminal and in the
-- log are left out.
pub mod Choices
pub mod Signals
pub mod Stop
mod Runs
use edna.Base.{
  ℕ, suc, Bool, true, false, List, [], ◌∷◌, ◌++◌, Option, none, some, ℤ, pos, negsuc, int_eq, Io,
  pure, run, call, ◌>>=◌, ◌>>◌, if◌then◌else◌,
}
use edna.Codes.{EdnaRv, is_ok, ok, config_error, log_init_fail}
use edna.Os.{Os}
use edna.Thread.{Pthread, start_thread}
use edna.Comm.{Comm}
use edna.Comm.Life.{CommThread, new_comm_thread, terminate, destroy}
use edna.Config.{
  Libconfig, Configuration, init_config_handling, uninit_config_handling, conf_get_bool,
  conf_get_string,
}
use edna.Log.{LogState, decimal, init_log, uninit_log}
use edna.Emulator.{Reader, cancel}
use edna.Emulator.Configured.{configured_run}

-- What getopt finds, one after the other; an option it does not know gives '?'.
pub data Opt : Type 0 where
  foreground help version unknown : Opt
  config_file pid_file : List ℕ → Opt

-- The local variables of main that the options set.
pub record Options : Type 0 where
  pub config_path : List ℕ
  pub pid_path : List ℕ
  pub daemon : Bool
  pub pid_path_set : Bool
  pub daemon_set : Bool

abbrev pub initial_options : Options
initial_options = record {
  config_path = [];
  pid_path = [];
  daemon = true;
  pid_path_set = false;
  daemon_set = false;
}

pub data Parsed : Type 0 where
  shows_usage shows_version : Parsed
  parsed : Options → Parsed

unfoldable pub parse : Options → List Opt → Parsed
parse o [] = parsed o
parse o (foreground ∷ opts) = parse (record o { daemon = false; daemon_set = true }) opts
parse o (config_file path ∷ opts) = parse (record o { config_path = path }) opts
parse o (pid_file path ∷ opts) = parse (record o { pid_path = path; pid_path_set = true }) opts
parse o (help ∷ opts) = shows_usage
parse o (version ∷ opts) = shows_version
parse o (unknown ∷ opts) = parse o opts

abbrev pub or_default : List ℕ → List ℕ → List ℕ
or_default default_path [] = default_path
or_default default_path (x ∷ path) = x ∷ path

-- The two paths that the build sets.
unfoldable pub with_defaults : List ℕ → List ℕ → Options → Options
with_defaults default_conf default_pidfile o = record o {
  config_path = or_default default_conf o.config_path;
  pid_path = or_default default_pidfile o.pid_path;
}

-- The section and the names in it.
abbrev pub daemon_section : List ℕ
daemon_section = b'd' ∷ b'a' ∷ b'e' ∷ b'm' ∷ b'o' ∷ b'n' ∷ []

abbrev pub pidfile_name : List ℕ
pidfile_name = b'p' ∷ b'i' ∷ b'd' ∷ b'f' ∷ b'i' ∷ b'l' ∷ b'e' ∷ []

abbrev pub fork_name : List ℕ
fork_name = b'f' ∷ b'o' ∷ b'r' ∷ b'k' ∷ []

-- An error of the look-up is only logged.
abbrev pub conf_pid_path : List ℕ → EdnaRv × List ℕ → List ℕ
conf_pid_path path (ok, found) = or_default path found
conf_pid_path path (_, found) = path

unfoldable pub chosen_pid_path : Configuration → Options → List ℕ
chosen_pid_path configuration o =
    if o.pid_path_set
    then o.pid_path
    else conf_pid_path o.pid_path
        (conf_get_string configuration (some daemon_section) (some pidfile_name) [] none)

unfoldable pub runs_as_daemon : Configuration → Options → Bool
runs_as_daemon configuration o =
    if o.daemon_set
    then o.daemon
    else (conf_get_bool configuration (some daemon_section) (some fork_name) o.daemon true).1

pub data Signal : Type 0 where
  sigabrt sigbus sigfpe sigill sigpipe sigquit sigsegv sigsys sigxcpu sigxfsz sigterm sigint :
      Signal

-- SIG_DFL, signal_unexpected and signal_term.
pub data Handler : Type 0 where
  by_default unexpected term : Handler

abbrev pub unexpected_signals : List Signal
unexpected_signals =
    sigabrt ∷ sigbus ∷ sigfpe ∷ sigill ∷ sigpipe ∷ sigquit ∷ sigsegv ∷ sigsys ∷ sigxcpu ∷ sigxfsz
    ∷ []

abbrev pub term_signals : List Signal
term_signals = sigterm ∷ sigint ∷ []

-- Beyond its message, signal_unexpected leaves by exit(-1) for one signal, and returns for any other.
abbrev pub signal_unexpected : Signal → Option ℤ
signal_unexpected sigsegv = some (negsuc 0)
signal_unexpected _ = none

-- The calls of the system, and what the other threads see of the two flags that main's objects set.
pub record Host (W : Type 0) : Type 0 where
  pub fork : W → ℤ × W
  pub open_write : List ℕ → W → Option ℕ × W
  pub open_append : List ℕ → W → Option ℕ × W
  pub fprintf : ℕ → List ℕ → W → W
  pub fclose : ℕ → W → W
  pub signal : Signal → Handler → W → W
  pub usage : W → W
  pub version_text : W → W
  pub clear_should_run : W → W
  pub set_should_cancel : W → W
  pub scard_cancel : W → W

-- "%d" of an int.
abbrev pub int_text : ℤ → List ℕ
int_text (pos n) = decimal n
int_text (negsuc n) = b'-' ∷ decimal (suc n)

module _ {W : Type 0} (host : Host W) where
  unfoldable pub write_pid : List ℕ → ℤ → Io W (Unit {0})
  write_pid pid_path pid = do
    file ← call (host.open_write pid_path)
    elim file [
      | none ↦ pure tt
      | some f ↦ (do run (host.fprintf f (int_text pid ++ b'\n' ∷ [])); run (host.fclose f))
    ]

  unfoldable pub signals : Handler → List Signal → Io W (Unit {0})
  signals handler [] = pure tt
  signals handler (s ∷ rest) = do run (host.signal s handler); signals handler rest

  unfoldable pub install_handlers : Io W (Unit {0})
  install_handlers = do signals unexpected unexpected_signals; signals term term_signals

  unfoldable pub remove_handlers : Io W (Unit {0})
  remove_handlers = do signals by_default unexpected_signals; signals by_default term_signals

  -- signal_term, with comm_thread and whether emulator is set.
  unfoldable pub signal_term : Pthread W → Option CommThread → Bool → Io W (Option CommThread)
  signal_term pthread comm_thread emulator = do
    o ← elim comm_thread as (λ k. Io W (Option CommThread)) [
      | none ↦ pure none
      | some o ↦ (do o1 ← terminate pthread host.clear_should_run o; pure (some o1))
    ]
    _ ← if emulator then cancel host.set_should_cancel host.scard_cancel else pure tt
    pure o

  module _ (os : Os W) (reader : Reader W) (lib : Libconfig W) (pthread : Pthread W)
      (configuration : W → Configuration) (edna_loglevel : ℤ) (fuel rounds waits : ℕ)
      (others : Comm → Io W Comm) where
    unfoldable pub uninit : LogState → Io W EdnaRv
    uninit l = do _ ← uninit_config_handling lib; _ ← uninit_log host.fclose l; pure ok

    unfoldable pub parent : List ℕ → LogState → ℤ → Io W EdnaRv
    parent pid_path l pid = do write_pid pid_path pid; uninit l

    -- From the emulator's end on.
    unfoldable pub shut_down : LogState → CommThread → Io W EdnaRv
    shut_down l comm_thread = do
      o ← terminate pthread host.clear_should_run comm_thread
      _ ← destroy pthread host.clear_should_run o
      _ ← uninit_config_handling lib
      remove_handlers
      _ ← uninit_log host.fclose l
      pure ok

    -- The result of start is not looked at. The emulator works on the object of the communications
    -- thread, which the thread goes on to change, as `others` says.
    unfoldable pub run_daemon : Configuration → LogState → Io W EdnaRv
    run_daemon conf l = do
      install_handlers
      (started, t) ← start_thread pthread new_comm_thread.thread
      c ← configured_run os reader conf fuel others rounds waits new_comm_thread.comm
      shut_down l (record { comm = c; thread = t })

    -- fork gives 0 in the child, and anything else goes the parent's way.
    unfoldable pub launch : Configuration → LogState → Options → Io W EdnaRv
    launch conf l o =
        if runs_as_daemon conf o
        then (do
          pid ← call host.fork
          if int_eq pid (pos 0) then run_daemon conf l else parent (chosen_pid_path conf o) l pid)
        else run_daemon conf l

    unfoldable pub log_and_launch : LogState → Options → Io W EdnaRv
    log_and_launch l o w =
        let conf = configuration w in
        (do
          (rv, l1) ← init_log host.open_append conf edna_loglevel l
          if is_ok rv then launch conf l1 o else pure log_init_fail)
          w

    unfoldable pub configure_and_launch : LogState → Options → Io W EdnaRv
    configure_and_launch l o = do
      rv ← init_config_handling lib (some o.config_path)
      if is_ok rv then log_and_launch l o else pure config_error

    unfoldable pub main : List ℕ → List ℕ → LogState → List Opt → Io W EdnaRv
    main default_conf default_pidfile l opts = elim (parse initial_options opts) [
      | shows_usage ↦ (do run host.usage; pure ok)
      | shows_version ↦ (do run host.version_text; pure ok)
      | parsed o ↦ configure_and_launch l (with_defaults default_conf default_pidfile o)
    ]
