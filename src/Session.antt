-- ===== src/Session.antt =====
-- The daemon (bin/edna_comm.cpp) and one client (lib/edna_lib_export.cpp), under src, at the two ends
-- of one connection, with an application behind the client.
pub mod Ends
pub mod Card
pub mod Opening
pub mod Power
mod Runs
use edna.Base.{
  ℕ, Bool, true, false, List, [], ◌∷◌, ◌++◌, Option, none, some, ℤ, pos, done, spin, fault, length,
  drop,
}
use edna.Codes.{EdnaRv}
use edna.Os.{Os, failed}
use edna.Os.Script.{front}
use edna.Client.{ClientState, Callbacks, serve_command}

-- The bytes under way in both directions, the client's static variables, the state of the
-- application, whether the daemon holds its mutex, and what the client's event loop has returned.
pub record Net (A : Type 0) : Type 0 where
  pub to_daemon : List ℕ
  pub to_client : List ℕ
  pub client : ClientState
  pub app : A
  pub locked : Bool
  pub ended : Option EdnaRv

-- The application: what it answers to a C-APDU, as a buffer and a length, and what it does when the
-- power comes and goes.
pub record App (A : Type 0) : Type 0 where
  pub process : List ℕ → A → (List ℕ × ℕ) × A
  pub up : A → A
  pub down : A → A

module _ {A : Type 0} where
  abbrev pub callbacks : App A → Callbacks (Net A)
  callbacks app = record {
    process_cb =
        λ apdu n. ((app.process apdu n.app).0, record n { app = (app.process apdu n.app).1 });
    power_up_cb = λ n. record n { app = app.up n.app };
    power_down_cb = λ n. record n { app = app.down n.app };
  }

  -- The client's end. A read where nothing waits fails; the daemon listens as descriptor 4.
  abbrev pub client_os : Os (Net A)
  client_os = record {
    read = λ fd n w. (front failed n w.to_client, record w { to_client = drop n w.to_client });
    write = λ fd bytes w. (pos (length bytes), record w { to_daemon = w.to_daemon ++ bytes });
    close = λ fd w. w;
    lock = λ w. w;
    unlock = λ w. w;
    accept = λ fd w. (pos 5, w);
    select = λ fds w. ((pos 1, λ fd. true), w);
    socket = λ w. (pos 4, w);
    bind = λ fd w. (pos 0, w);
    listen = λ fd n w. (pos 0, w);
    connect = λ fd w. (pos 0, w);
    unlink = λ w. w;
  }

  -- The daemon's end, with nobody at the other.
  abbrev pub daemon_os : Os (Net A)
  daemon_os = record client_os {
    read = λ fd n w. (front failed n w.to_daemon, record w { to_daemon = drop n w.to_daemon });
    write = λ fd bytes w. (pos (length bytes), record w { to_client = w.to_client ++ bytes });
    lock = λ w. record w { locked = true };
    unlock = λ w. record w { locked = false };
  }

  -- The client's event loop takes one command. The daemon waits for the answer meanwhile, so nothing
  -- else happens on the connection. Where that step does not return, nothing changes.
  unfoldable pub react : App A → Net A → Net A
  react app n = elim (serve_command client_os (callbacks app) 0xffff n.client n) [
    | done ((ended, l), n') ↦ record n' { client = l; ended = ended }
    | spin ↦ n
    | fault ↦ n
  ]

  -- The daemon's end, with the client at the other: what is written wakes it up.
  abbrev pub served_os : App A → Os (Net A)
  served_os app = record daemon_os {
    write = λ fd bytes w.
        (pos (length bytes), react app (record w { to_client = w.to_client ++ bytes }));
  }
