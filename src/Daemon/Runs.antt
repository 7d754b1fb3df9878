-- ===== src/Daemon/Runs.antt =====
-- Runs of bin/edna_main.cpp: the options, the child process, and the theorems at them.
use edna.Base.{
  pure, ℕ, ◌≡◌, refl, Bool, true, false, List, [], ◌∷◌, none, some, pos, negsuc, done, fault, Io,
  ap, sym, ◌+◌, Run, if◌then◌else◌, ◌==◌,
}
use edna.Bytestring.{equal}
use edna.Codes.{EdnaRv, ok, config_error}
use edna.Os.{Os, failed}
use edna.Thread.{Pthread, new_thread, start_thread, waitexit}
use edna.Comm.{Comm, init}
use edna.Comm.Life.{CommThread, terminate}
use edna.Config.{
  Libconfig, Configuration, value_or, init_config_handling, uninit_config_handling, conf_get_int,
  conf_get_bool, conf_get_string,
}
use edna.Log.{
  LogState, initial_log, log_info, init_log, with_level, with_logfile, flags_read, with_syslog,
  with_stdout, uninit_log,
}
use edna.Emulator.{Reader, cancel, run_emulator}
use edna.Emulator.Configured.{configured_run}
use edna.Daemon.{
  Opt, foreground, help, config_file, pid_file, Options, initial_options, parsed, parse, or_default,
  with_defaults, chosen_pid_path, runs_as_daemon, Signal, Handler, by_default, Host, write_pid,
  signal_term, parent, uninit, launch, log_and_launch, configure_and_launch, main,
}
use edna.Daemon.Choices.{last_config, last_pid, has_foreground, pid_choice, set_fork, parse_choices}
use edna.Daemon.Signals.{number_of, IsSignals, with_handlers}
use edna.Daemon.Stop.{IsPthread, child, terminated_twice}

abbrev etc : List ℕ
etc = b'e' ∷ []

abbrev run : List ℕ
run = b'r' ∷ []

-- Nothing is configured.
abbrev empty : Configuration
empty = record {
  lookup_int = λ path. none;
  lookup_bool = λ path. none;
  lookup_string = λ path. none;
}

-- -p p -f -p ""
abbrev opts : List Opt
opts = pid_file (b'p' ∷ []) ∷ foreground ∷ pid_file [] ∷ []

abbrev chosen : Options
chosen = record {
  config_path = [];
  pid_path = [];
  daemon = false;
  pid_path_set = true;
  daemon_set = true;
}

chosen_parsed : parse initial_options opts ≡ parsed chosen
unfolding parse
chosen_parsed = refl

parse_choices_example :
    let o = with_defaults etc run chosen in
    (o.config_path ≡ or_default etc (value_or [] (last_config opts)))
    × (chosen_pid_path empty o ≡ pid_choice empty etc run (last_pid opts))
    × (runs_as_daemon empty o ≡ (if has_foreground opts then false else set_fork empty etc run))
parse_choices_example = parse_choices empty etc run chosen opts chosen_parsed

-- The joined thread, the handlers, what was written to files, and what is closed.
record Desk : Type 0 where
  joined : Bool
  handler : Signal → Handler
  written : List (List ℕ)
  destroyed : ℕ

abbrev desk : Desk
desk = record { joined = false; handler = λ s. by_default; written = []; destroyed = 0 }

abbrev host : Host Desk
host = record {
  fork = λ w. (pos 42, w);
  open_write = λ path w. (some 1, w);
  open_append = λ path w. (none, w);
  fprintf = λ f text w. record w { written = text ∷ w.written };
  fclose = λ f w. w;
  signal =
      λ t h w. record w { handler = λ s. if number_of s == number_of t then h else w.handler s };
  usage = λ w. w;
  version_text = λ w. w;
  clear_should_run = λ w. w;
  set_should_cancel = λ w. w;
  scard_cancel = λ w. w;
}

host-IsSignals : IsSignals host (λ s w. w.handler s)
host-IsSignals = record { signal_sets = λ s t h w. refl; fclose_keeps = λ s f w. refl }

abbrev joining : Bool → Desk → Run (Unit {0} × Desk)
joining true w = fault
joining false w = done (tt, record w { joined = true })

abbrev pthread : Pthread Desk
pthread = record {
  create = λ w. ((pos 0, 1), w);
  cancel = λ id w. w;
  join = λ id w. joining w.joined w;
}

joining-joins : (b : Bool) (w w' : Desk) → joining b w ≡ done (tt, w') → w'.joined ≡ true
joining-joins true w w' e = absurd (cc (e))
joining-joins false w w' e =
    let same : record w { joined = true } ≡ w' = cc (e) in ap (λ (d : Desk). d.joined) (sym same)

pthread-IsPthread : IsPthread host pthread (λ id w. w.joined)
pthread-IsPthread = record {
  join_joins = λ id w w' e. joining-joins w.joined w w' e;
  join_twice = λ id w e. rw e;
  clear_keeps = λ id w. refl;
  cancel_keeps = λ id w. refl;
}

-- No sockets and no reader are used.
abbrev os : Os Desk
os = record {
  read = λ fd n w. (failed, w);
  write = λ fd bytes w. (negsuc 0, w);
  close = λ fd w. w;
  lock = λ w. w;
  unlock = λ w. w;
  accept = λ fd w. (negsuc 0, w);
  select = λ fds w. ((negsuc 0, λ fd. false), w);
  socket = λ w. (negsuc 0, w);
  bind = λ fd w. (negsuc 0, w);
  listen = λ fd n w. (negsuc 0, w);
  connect = λ fd w. (negsuc 0, w);
  unlink = λ w. w;
}

abbrev reader : Reader Desk
reader = record {
  establish = λ w. (false, w);
  connect = λ w. (false, w);
  control = λ cmd w. (none, w);
  disconnect = λ w. w;
  release = λ w. w;
  cancel_requested = λ w. (true, w);
  sleep = λ n w. w;
  delay = λ t w. w;
}

-- The file "e" can be read.
abbrev lib : Libconfig Desk
lib = record {
  config_init = λ w. w;
  config_read_file = λ path w. (equal path etc, w);
  config_destroy = λ w. record w { destroyed = w.destroyed + 1 };
}

abbrev log : LogState
log = initial_log log_info

-- No client comes.
abbrev nobody : Comm → Io Desk Comm
nobody c = pure c

abbrev daemon : List Opt → Io Desk EdnaRv
daemon = main host os reader lib pthread (λ w. empty) log_info 0 0 0 nobody etc run log

-- Without options, main forks, and the parent writes the child's number to the PID file.
forked :
    daemon [] desk
    ≡ done (ok, record desk { written = (b'4' ∷ b'2' ∷ b'\n' ∷ []) ∷ []; destroyed = 1 })
unfolding main parse configure_and_launch init_config_handling with_defaults equal log_and_launch
    init_log with_level conf_get_int with_logfile conf_get_string flags_read with_syslog
    conf_get_bool with_stdout launch runs_as_daemon parent write_pid chosen_pid_path uninit
    uninit_config_handling uninit_log
forked = refl

-- fork fails: main takes it for the parent's case, writes -1 to the PID file, and returns ERV_OK.
unforked :
    main
      (record host { fork = λ w. (negsuc 0, w) })
      os
      reader
      lib
      pthread
      (λ w. empty)
      log_info
      0
      0
      0
      nobody
      etc
      run
      log
      []
      desk
    ≡ done (ok, record desk { written = (b'-' ∷ b'1' ∷ b'\n' ∷ []) ∷ []; destroyed = 1 })
unfolding main parse configure_and_launch init_config_handling with_defaults equal log_and_launch
    init_log with_level conf_get_int with_logfile conf_get_string flags_read with_syslog
    conf_get_bool with_stdout launch runs_as_daemon parent write_pid chosen_pid_path uninit
    uninit_config_handling uninit_log
unforked = refl

unread : daemon (config_file run ∷ []) desk ≡ done (config_error, record desk { destroyed = 1 })
unfolding main parse configure_and_launch init_config_handling with_defaults equal
unread = refl

helped : daemon (config_file run ∷ help ∷ []) desk ≡ done (ok, desk)
unfolding main parse
helped = refl

-- Here pthread_create fails.
abbrev full : Pthread Desk
full = record pthread { create = λ w. ((pos 11, 0), w) }

not_started :
    start_thread full new_thread (with_handlers host desk)
    ≡ done ((false, new_thread), with_handlers host desk)
unfolding start_thread new_thread
not_started = refl

-- SIGTERM arrives while SCardEstablishContext waits, and its handler joins the thread.
abbrev interrupted : Reader Desk
interrupted = record reader { establish = λ w. (false, record w { joined = true }) }

abbrev named : Configuration
named = record empty { lookup_string = λ path. some run }

abbrev terminated : Desk
terminated = record (with_handlers host desk) { joined = true }

emulated :
    configured_run os interrupted named 0 nobody 0 0 init (with_handlers host desk)
    ≡ done (init, terminated)
unfolding configured_run run_emulator conf_get_string conf_get_int
emulated = refl

abbrev stopped : CommThread
stopped = record {
  comm = record init { should_run = false };
  thread = record new_thread { the_thread = some 1 };
}

handled :
    signal_term host pthread
      (some (record { comm = init; thread = record new_thread { the_thread = some 1 } }))
      true
      (with_handlers host desk)
    ≡ done (some stopped, terminated)
unfolding signal_term terminate waitexit cancel new_thread
handled = refl

terminated_twice_example :
    child host os interrupted lib pthread (λ w. named) log_info 0 0 0 nobody named log desk ≡ fault
terminated_twice_example =
    terminated_twice host os interrupted lib pthread (λ w. named) log_info 0 0 0 nobody
      (λ id w. w.joined) pthread-IsPthread named log 1 init init (some stopped) desk
      (with_handlers host desk) terminated (with_handlers host desk) terminated refl emulated
      handled refl
