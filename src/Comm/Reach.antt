-- ===== src/Comm/Reach.antt =====
-- bin/edna_comm.cpp: the states that the object reaches by the calls of both threads, in any order.
use edna.Base.{
  ℕ, ◌≡◌, sym, subst, Bool, true, false, List, ℤ, is_neg, ◌<◌, length, done, Ensures-done,
}
use edna.Bytestring.{size_mod}
use edna.Os.{Os, IsMutex}
use edna.Comm.{
  Comm, no_app_selected, init, transceive, powerup_on_select, powerdown_on_deselect, serve,
}
use edna.Comm.AidMap.Sockets.{has_socket}
use edna.Comm.Invariant.{IsWellFormed, init-IsWellFormed}
use edna.Comm.Selection.{chosen, chosen-Chooses, selects-IsWellFormed, Chooses-IsWellFormed}
use edna.Comm.Exchange.{after_exchange, transceive-object}
use edna.Comm.Power.{PowerDone, broadcast_lem}
use edna.Comm.Serve.{Round, Round-Served, serve-Round, erase-IsWellFormed}

-- The calls of the two threads; an exchange has its C-APDU, and its result.
pub data Call : Type 0 where
  exchanging : List ℕ → Bool → Call
  power round : Call

pub after-IsWellFormed : (b : Bool) (d : Comm) → IsWellFormed d → IsWellFormed (after_exchange b d)
unfolding after_exchange
after-IsWellFormed true d v = v
after-IsWellFormed false d v =
    selects-IsWellFormed _ no_app_selected (erase-IsWellFormed d d.selected_application v)

module _ {W : Type 0} (os : Os W) (held : W → Bool) (fuel : ℕ) where
  -- A call that returns: an exchange, with the mutex free, a power call, or a round of the loop of the
  -- thread, in which `accept` gives no descriptor that is in use.
  pub data Step (c : Comm) : Call → Comm → Type 0 where
    exchanges :
        (apdu rsp : List ℕ) (b : Bool) {d : Comm} (w w' : W)
        → held w ≡ false
        → length apdu < size_mod
        → transceive os fuel c apdu w ≡ done ((b, rsp, d), w')
        → Step c (exchanging apdu b) d
    powers_up :
        {d : Comm} (w w' : W) → powerup_on_select os fuel c w ≡ done (d, w') → Step c power d
    powers_down :
        {d : Comm} (w w' : W) → powerdown_on_deselect os fuel c w ≡ done (d, w') → Step c power d
    serves :
        (socket_fd : ℤ) (ready : ℤ → Bool) {d : Comm} (w w' : W)
        → (is_neg (os.accept socket_fd w).0 ≡ false
            → has_socket (os.accept socket_fd w).0 c.application_registry ≡ false)
        → serve os fuel c socket_fd ready w ≡ done (d, w')
        → Step c round d

  -- From the constructor on.
  pub data Reach : Comm → Type 0 where
    from_init : Reach init
    later : {c d : Comm} {k : Call} → Reach c → Step c k d → Reach d

  -- What a step does to the object.
  pub data Effect (c : Comm) : Call → Comm → Type 0 where
    exchanged :
        (apdu : List ℕ) (b : Bool) {e : Comm}
        → length apdu < size_mod
        → e ≡ after_exchange b (chosen c apdu)
        → Effect c (exchanging apdu b) e
    powered :
        {d : Comm} → d ≡ record c { selected_application = no_app_selected } → Effect c power d
    served :
        (fd : ℤ) {d : Comm}
        → (is_neg fd ≡ false → has_socket fd c.application_registry ≡ false)
        → Round c fd d
        → Effect c round d

  pub Step-Effect : IsMutex os held → {c d : Comm} {k : Call} → Step c k d → Effect c k d
  unfolding powerup_on_select powerdown_on_deselect
  Step-Effect mutex {c} {d} (exchanges apdu rsp b w w' free fits e) =
      exchanged apdu b fits
        (Ensures-done (λ r v. (r.2 ≡ after_exchange r.0 (chosen c apdu)) × (held v ≡ false)) _
          (b, rsp, d) w' (transceive-object os held mutex fuel c apdu w free) e).0
  Step-Effect mutex {c} {d} (powers_up w w' e) =
      powered (Ensures-done (PowerDone held c) _ d w' (broadcast_lem os held mutex fuel c _ w) e).0
  Step-Effect mutex {c} {d} (powers_down w w' e) =
      powered (Ensures-done (PowerDone held c) _ d w' (broadcast_lem os held mutex fuel c _ w) e).0
  Step-Effect mutex {c} {d} (serves socket_fd ready w w' fresh e) =
      served (os.accept socket_fd w).0 fresh (
        Ensures-done (λ c' v. Round c (os.accept socket_fd w).0 c') _ d w'
          (serve-Round os fuel c socket_fd ready w) e)

  Effect-IsWellFormed : {c d : Comm} {k : Call} → Effect c k d → IsWellFormed c → IsWellFormed d
  Effect-IsWellFormed {c} (exchanged apdu b fits e) v =
      subst IsWellFormed (sym e)
        (after-IsWellFormed b (chosen c apdu) (Chooses-IsWellFormed (chosen-Chooses c apdu) v))
  Effect-IsWellFormed {c} (powered e) v =
      subst IsWellFormed (sym e) (selects-IsWellFormed c no_app_selected v)
  Effect-IsWellFormed (served fd fresh r) v = (Round-Served r fresh v).0

  -- If lock takes the mutex, unlock frees it and close leaves it: in every state that exchanges, power
  -- calls and rounds of the thread's loop reach from the constructor, in any order and whatever the
  -- clients do, where an exchange starts with the mutex free and accept gives no descriptor that is in
  -- use, the registry has one entry for each AID, in order, no socket stands at two AIDs, and -1 stands
  -- at none.
  pub Reach-IsWellFormed : IsMutex os held → {c : Comm} → Reach c → IsWellFormed c
  Reach-IsWellFormed mutex from_init = init-IsWellFormed
  Reach-IsWellFormed mutex (later r s) =
      Effect-IsWellFormed (Step-Effect mutex s) (Reach-IsWellFormed mutex r)
