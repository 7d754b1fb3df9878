-- ===== src/Session/Ends.antt =====
-- What a message does to the connection, at either end: the first one that waits is taken off it, and
-- nothing else changes.
use edna.Base.{
  ℕ, ◌≤◌, ◌≡◌, refl, ap, ◌∙◌, List, [], ◌++◌, some, ℤ, done, Ensures-done, length, arith,
}
use edna.Os.{Os, failed, IsStream, IsOpen, ReadsKeep}
use edna.Os.Script.{front_got}
use edna.Comm.Frame.{frame, recv_from_client}
use edna.Comm.Frame.Receive.{recv_from_client-frame}
use edna.Comm.Frame.Keeps.{recv_from_client-After}
use edna.Session.{Net, App, client_os, daemon_os, served_os}

module _ {A : Type 0} where
  pub client-IsStream : (fd : ℤ) → IsStream (client_os {A = A}) fd (λ w. w.to_client)
  client-IsStream fd = record { read_some = λ n w h ne. front_got failed n w.to_client h ne }

  pub client-IsOpen : (fd : ℤ) → IsOpen (client_os {A = A}) fd (λ w. w.to_client)
  client-IsOpen fd = record { write_whole = λ bytes w. refl; write_leaves = λ bytes w. refl }

  pub daemon-IsStream : (fd : ℤ) → IsStream (daemon_os {A = A}) fd (λ w. w.to_daemon)
  daemon-IsStream fd = record { read_some = λ n w h ne. front_got failed n w.to_daemon h ne }

  pub daemon-IsOpen : (fd : ℤ) → IsOpen (daemon_os {A = A}) fd (λ w. w.to_daemon)
  daemon-IsOpen fd = record { write_whole = λ bytes w. refl; write_leaves = λ bytes w. refl }

  pub served-IsStream : (app : App A) (fd : ℤ) → IsStream (served_os app) fd (λ w. w.to_daemon)
  served-IsStream app fd = record { read_some = λ n w h ne. front_got failed n w.to_daemon h ne }

  -- The connection, but for what is on its way to the client; or to the daemon.
  abbrev pub SameToDaemon : Net A → Net A → Type 0
  SameToDaemon n w = record w { to_client = [] } ≡ record n { to_client = [] }

  abbrev pub SameToClient : Net A → Net A → Type 0
  SameToClient n w = record w { to_daemon = [] } ≡ record n { to_daemon = [] }

  rejoin_client :
      (n w : Net A) (rest : List ℕ)
      → SameToDaemon n w
      → w.to_client ≡ rest
      → w ≡ record n { to_client = rest }
  rejoin_client n w rest same e =
      ap (λ (v : Net A). record v { to_client = w.to_client }) same
      ∙ ap (λ (l : List ℕ). record n { to_client = l }) e

  rejoin_daemon :
      (n w : Net A) (rest : List ℕ)
      → SameToClient n w
      → w.to_daemon ≡ rest
      → w ≡ record n { to_daemon = rest }
  rejoin_daemon n w rest same e =
      ap (λ (v : Net A). record v { to_daemon = w.to_daemon }) same
      ∙ ap (λ (l : List ℕ). record n { to_daemon = l }) e

  pub client_recv :
      (fuel : ℕ) (fd : ℤ) (msg rest : List ℕ) (n : Net A)
      → length msg ≤ 0xffff
      → 0xffff ≤ fuel
      → n.to_client ≡ frame msg ++ rest
      → recv_from_client client_os fuel fd [] n ≡ done (some msg, record n { to_client = rest })
  client_recv fuel fd msg rest n short enough e =
      let (w, r, q) =
        recv_from_client-frame client_os fd (λ w. w.to_client) (client-IsStream fd) fuel [] msg rest
          n (omega arith) (omega arith) e in
      let same : SameToDaemon n w =
        Ensures-done (λ o w'. SameToDaemon n w') _ (some msg) w
          (recv_from_client-After client_os (SameToDaemon n) (λ s k v h. h) fuel fd [] n refl) r in
      r ∙ ap (λ (v : Net A). done (some msg, v)) (rejoin_client n w rest same q)

  module _ (os : Os (Net A)) (fd : ℤ) (stream : IsStream os fd (λ w. w.to_daemon))
      (kept : (n : Net A) → ReadsKeep os (SameToClient n)) where
    -- Both views of the daemon's end read alike.
    pub daemon_recv :
        (fuel : ℕ) (msg rest : List ℕ) (n : Net A)
        → length msg ≤ 0xffff
        → 0xffff ≤ fuel
        → n.to_daemon ≡ frame msg ++ rest
        → recv_from_client os fuel fd [] n ≡ done (some msg, record n { to_daemon = rest })
    daemon_recv fuel msg rest n short enough e =
        let (w, r, q) =
          recv_from_client-frame os fd (λ w. w.to_daemon) stream fuel [] msg rest n (omega arith)
            (omega arith) e in
        let same : SameToClient n w =
          Ensures-done (λ o w'. SameToClient n w') _ (some msg) w
            (recv_from_client-After os (SameToClient n) (kept n) fuel fd [] n refl) r in
        r ∙ ap (λ (v : Net A). done (some msg, v)) (rejoin_daemon n w rest same q)
