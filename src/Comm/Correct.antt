-- ===== src/Comm/Correct.antt =====
-- bin/edna_comm.cpp: what each entry point of the object does in full: it returns, and the object
-- that it leaves is right.
use edna.Base.{ℕ, ◌≤◌, ◌≡◌, Bool, false, List, ℤ, int_eq, is_neg, done, Returns-Ensures}
use edna.Os.{Os, IsBounded, IsLively, IsMutex}
use edna.Comm.AidMap.Sockets.{has_socket}
use edna.Comm.{
  Comm, no_app_selected, new_client, transceive, powerup_on_select, powerdown_on_deselect, serve,
}
use edna.Comm.Invariant.{IsWellFormed, IsValid, Admits, Admits-IsValid, new_client-Admits}
use edna.Comm.Exchange.{IsExchange, transceive-IsExchange}
use edna.Comm.Power.{PowerDone, broadcast_lem}
use edna.Comm.Serve.{serve_keeps}
use edna.Comm.Total.{transceive-Returns, new_client-Returns, power-Returns, serve-Returns}

module _ {W : Type 0} (os : Os W) (bounded : IsBounded os) (lively : IsLively os) (fuel : ℕ)
    (enough : 0xffff ≤ fuel) (c : Comm) where
  -- If reads give no more than was asked for, and something when they succeed, 0xffff reads are
  -- enough for each message, and `transceive`, called with the mutex free on a valid object,
  -- returns, on every path. The object is valid again. After a success its registry is as before
  -- and its selection is what the APDU chose; after a failure nothing is selected and the socket of
  -- the selected application is out of the registry. The mutex is free.
  pub transceive_correct :
      (held : W → Bool)
      → IsMutex os held
      → (apdu : List ℕ) (w : W) → IsValid c
      → held w ≡ false
      → (r : Bool × List ℕ × Comm) × (w' : W) × (transceive os fuel c apdu w ≡ done (r, w'))
        × IsExchange c apdu r
        × (held w' ≡ false)
  transceive_correct held mutex apdu w v free =
      let (r, w', e, h) =
        Returns-Ensures (λ r w'. IsExchange c apdu r × (held w' ≡ false)) _
          (transceive-Returns os bounded lively fuel enough c apdu w)
          (transceive-IsExchange os held mutex fuel c apdu w v free) in
      (r, w', e, h.0, h.1)

  -- If reads give no more than was asked for, and something when they succeed, and 0xffff reads are
  -- granted to each message, a handshake of a valid object on a descriptor that is not -1 and
  -- none of the registry's returns, whatever the client sends. It leaves the object alone, or it enters
  -- the new socket at an AID that nobody had; the object stays valid.
  pub new_client_correct :
      (fd : ℤ) (w : W)
      → int_eq fd no_app_selected ≡ false
      → has_socket fd c.application_registry ≡ false
      → IsValid c
      → (c' : Comm) × (w' : W) × (new_client os fuel c fd w ≡ done (c', w'))
        × Admits c fd c'
        × IsValid c'
  new_client_correct fd w real fresh v =
      let (c', w', e, a) =
        Returns-Ensures (λ c' w'. Admits c fd c') (new_client os fuel c fd w)
          (new_client-Returns os bounded lively fuel enough c fd w)
          (new_client-Admits os c fd fuel w) in
      (c', w', e, a, Admits-IsValid a real fresh v)

  -- If reads give no more than was asked for, and something when they succeed, and 0xffff reads are
  -- granted to each message, both power calls tell every client and return; nothing is
  -- selected then, the registry is as before, and the mutex is free.
  pub power_correct :
      (held : W → Bool)
      → IsMutex os held
      → (w : W)
      → ((c' : Comm) × (w' : W) × (powerup_on_select os fuel c w ≡ done (c', w'))
          × PowerDone held c c' w')
        × ((c' : Comm) × (w' : W) × (powerdown_on_deselect os fuel c w ≡ done (c', w'))
            × PowerDone held c c' w')
  unfolding powerup_on_select powerdown_on_deselect
  power_correct held mutex w = (
    Returns-Ensures (PowerDone held c) _ (power-Returns os bounded lively fuel enough _ c w)
        (broadcast_lem os held mutex fuel c _ w),
    Returns-Ensures (PowerDone held c) _ (power-Returns os bounded lively fuel enough _ c w)
        (broadcast_lem os held mutex fuel c _ w),
  )

  -- If reads give no more than was asked for, and something when they succeed, and 0xffff reads are
  -- granted to each message, and `accept` gives a negative number or a descriptor that is
  -- none of the registry's, then a round of the loop of the thread returns, for every set of
  -- ready descriptors; a well-formed registry stays well formed, and the selection is as before.
  pub serve_correct :
      (socket_fd : ℤ) (ready : ℤ → Bool) (w : W)
      → IsWellFormed c
      → (is_neg (os.accept socket_fd w).0 ≡ false
          → has_socket (os.accept socket_fd w).0 c.application_registry ≡ false)
      → (c' : Comm) × (w' : W) × (serve os fuel c socket_fd ready w ≡ done (c', w'))
        × IsWellFormed c'
        × (c'.selected_application ≡ c.selected_application)
  serve_correct socket_fd ready w v fresh =
      let (c', w', e, h) =
        Returns-Ensures
          (λ c' w'. IsWellFormed c' × (c'.selected_application ≡ c.selected_application)) _
          (serve-Returns os bounded lively fuel enough c socket_fd ready w)
          (serve_keeps os fuel c v socket_fd ready w fresh) in
      (c', w', e, h.0, h.1)
