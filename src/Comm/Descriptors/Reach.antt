-- ===== src/Comm/Descriptors/Reach.antt =====
-- bin/edna_comm.cpp: the states of the object and of the process that the calls of both threads reach.
use edna.Base.{
  ℕ, Option, none, some, ◌≡◌, sym, subst, Bool, false, List, ℤ, ◌<◌, length, done, Ensures-done,
}
use edna.Bytestring.{size_mod}
use edna.Os.{Os, IsTable, IsMutex}
use edna.Comm.{Comm, init, transceive, powerup_on_select, powerdown_on_deselect, serve}
use edna.Comm.Invariant.{IsWellFormed}
use edna.Comm.Card.{Move, card_of, Step-Move}
use edna.Comm.Reach.{
  Call, exchanging, power, round, Step, exchanges, powers_up, powers_down, serves, Reach, from_init,
  later, Reach-IsWellFormed,
}
use edna.Comm.Descriptors.{HasOpen, same-AreOpen}
use edna.Comm.Descriptors.Handshake.{serve-Opens, accept_out}
use edna.Comm.Descriptors.Calls.{transceive-HasOpen, broadcast-HasOpen}

module _ {W : Type 0} (os : Os W) (held : W → Bool) (is_open : ℤ → W → Bool) (fuel : ℕ) where
  -- A call that returns, in the world as it is then, or something else in the process or outside of it
  -- that opens and closes no descriptor. Of what accept returns nothing is said.
  pub data Act (c : Comm) (w : W) : Option Call → Comm → W → Type 0 where
    exchanging_act :
        (apdu rsp : List ℕ) (b : Bool) {d : Comm} {w' : W}
        → held w ≡ false
        → length apdu < size_mod
        → transceive os fuel c apdu w ≡ done ((b, rsp, d), w')
        → Act c w (some (exchanging apdu b)) d w'
    power_up_act :
        {d : Comm} {w' : W}
        → powerup_on_select os fuel c w ≡ done (d, w')
        → Act c w (some power) d w'
    power_down_act :
        {d : Comm} {w' : W}
        → powerdown_on_deselect os fuel c w ≡ done (d, w')
        → Act c w (some power) d w'
    round_act :
        (socket_fd : ℤ) (ready : ℤ → Bool) {d : Comm} {w' : W}
        → serve os fuel c socket_fd ready w ≡ done (d, w')
        → Act c w (some round) d w'
    other_act :
        {d : Comm} {w' : W} → d ≡ c → ((k : ℤ) → is_open k w' ≡ is_open k w) → Act c w none d w'

  -- From the constructor on, in any world.
  pub data Reached : Comm → W → Type 0 where
    at_first : {c : Comm} {w : W} → c ≡ init → Reached c w
    next : {k : Option Call} {c d : Comm} {w w' : W} → Reached c w → Act c w k d w' → Reached d w'

  module _ (mutex : IsMutex os held) (table : IsTable os is_open) where
    Act-HasOpen :
        {k : Option Call} {c d : Comm} {w w' : W}
        → Act c w k d w'
        → IsWellFormed c
        → HasOpen is_open c w
        → HasOpen is_open d w'
    unfolding powerup_on_select powerdown_on_deselect
    Act-HasOpen {c} {d} {w} {w'} (exchanging_act apdu rsp b free fits e) v h =
        Ensures-done (λ r u. HasOpen is_open r.2 u) _ (b, rsp, d) w'
          (transceive-HasOpen os is_open table fuel c apdu w v.injective h) e
    Act-HasOpen {c} {d} {w} {w'} (power_up_act e) v h =
        Ensures-done (HasOpen is_open) _ d w' (broadcast-HasOpen os is_open table fuel _ c w h) e
    Act-HasOpen {c} {d} {w} {w'} (power_down_act e) v h =
        Ensures-done (HasOpen is_open) _ d w' (broadcast-HasOpen os is_open table fuel _ c w h) e
    Act-HasOpen {c} {d} {w} {w'} (round_act socket_fd ready e) v h =
        Ensures-done (HasOpen is_open) _ d w'
          (serve-Opens os is_open table fuel c v socket_fd ready w h) e
    Act-HasOpen {c} {d} {w} {w'} (other_act e same) v h =
        subst (λ x. HasOpen is_open x w') (sym e)
          (same-AreOpen os is_open table c.application_registry w w' same h)

    -- An act that is a call is a step of the states without the world, for accept gives no descriptor
    -- of the registry.
    abbrev Steps : Option Call → Comm → Comm → Type 0
    Steps none c d = d ≡ c
    Steps (some k) c d = Step os held fuel c k d

    Act-Steps :
        {k : Option Call} {c d : Comm} {w w' : W}
        → Act c w k d w'
        → IsWellFormed c
        → HasOpen is_open c w
        → Steps k c d
    Act-Steps {k} {c} {d} {w} {w'} (exchanging_act apdu rsp b free fits e) v h =
        exchanges apdu rsp b w w' free fits e
    Act-Steps {k} {c} {d} {w} {w'} (power_up_act e) v h = powers_up w w' e
    Act-Steps {k} {c} {d} {w} {w'} (power_down_act e) v h = powers_down w w' e
    Act-Steps {k} {c} {d} {w} {w'} (round_act socket_fd ready e) v h =
        serves socket_fd ready w w' (accept_out os is_open table fuel c v socket_fd w h) e
    Act-Steps (other_act e same) v h = e

    Steps-Reach :
        (k : Option Call) (c d : Comm) → Steps k c d → Reach os held fuel c → Reach os held fuel d
    Steps-Reach none c d e r = subst (Reach os held fuel) (sym e) r
    Steps-Reach (some k) c d s r = later r s

    init-HasOpen : (w : W) → HasOpen is_open init w
    unfolding init
    init-HasOpen w k h = cc h

    -- If lock takes the mutex, unlock frees it and close leaves it, close closes one descriptor, accept opens one that
    -- was not open or none, and no other call opens or closes any: in every state that exchanges, which
    -- start with the mutex free, power calls, rounds of the thread's loop and whatever else opens and
    -- closes no descriptor reach from the constructor, in any order and whatever the clients do, the
    -- registry is well formed, every socket in it is open, and the object is in a state that
    -- `Comm.Reach` reaches, where accept had to be taken not to give a descriptor in use.
    pub Reached-HasOpen :
        {c : Comm} {w : W}
        → Reached c w
        → IsWellFormed c × HasOpen is_open c w × Reach os held fuel c
    Reached-HasOpen {c} {w} (at_first e) =
        subst (λ x. IsWellFormed x × HasOpen is_open x w × Reach os held fuel x) (sym e)
          (Reach-IsWellFormed os held fuel mutex from_init, init-HasOpen w, from_init)
    Reached-HasOpen {c} {w} (next {k} {c = old} r m) =
        let before = Reached-HasOpen r in
        let after = Steps-Reach k old c (Act-Steps m before.0 before.1) before.2 in
        (Reach-IsWellFormed os held fuel mutex after, Act-HasOpen m before.0 before.1, after)

    -- If lock takes the mutex, unlock frees it and close leaves it, close closes one descriptor, accept
    -- opens one that was not open or none, and no other call opens or closes any: in every state that
    -- exchanges, which start with the mutex free, power calls, rounds of the thread's loop and whatever
    -- else opens and closes no descriptor reach from the constructor, in any order and whatever the
    -- clients do, a call of either thread that returns, made in the world as it is then, is one move of
    -- the card that the object stands for (a partial map from AIDs to sockets, and a choice), and of the
    -- kind of the call, for an exchange with its C-APDU and its result.
    pub Act-Move :
        {k : Call} {c d : Comm} {w w' : W}
        → Reached c w
        → Act c w (some k) d w'
        → Move (card_of c) k (card_of d)
    Act-Move r a =
        let before = Reached-HasOpen r in
        Step-Move os held fuel mutex before.2 (Act-Steps a before.0 before.1)
