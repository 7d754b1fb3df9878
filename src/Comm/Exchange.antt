-- ===== src/Comm/Exchange.antt =====
-- bin/edna_comm.cpp: transceive on every path: what it returns, what it does to the registry and to
-- the selection, and that it gives the mutex back.
use edna.Comm.Selection.{
  chosen, chosen_other, chosen_select, chosen_short, chosen-Chooses, Chooses-IsValid,
}
use edna.Base.{
  length, get_elem?-none, ◌≤◌, arith, ℕ, ◌≡◌, refl, ap, ◌∙◌, inl, inr, Bool, true, false, List, [],
  Option, none, some, int_eq, Ensures, done-Ensures, then-Ensures, if-Ensures, mono-Ensures,
  if◌then◌else◌, Bool-cases, Option-cases, get_elem?, sym, subst,
}
use edna.Bytestring.{substr, substr_from, equal}
use edna.Proto.{edna_ok}
use edna.Os.{Os, IsMutex}
use edna.Comm.Frame.{recv_from_client, send_to_client}
use edna.Comm.AidMap.Sockets.{
  erase_socket, erase-IsSorted, erase-IsInjective, unregister_lem, has_socket-erase_socket,
}
use edna.Comm.{
  Comm, no_app_selected, starts_with, sw_not_supported, sw_failure, select_header, select_by_aid,
  give_up, rapdu, exchange, select_and_exchange, transceive,
}
use edna.Comm.Invariant.{IsValid}

-- The three ways in which an exchange ends.
data Outcome (c : Comm) : Bool × List ℕ × Comm → Type 0 where
  unselected :
      int_eq c.selected_application no_app_selected ≡ true → Outcome c (true, sw_not_supported, c)
  answered :
      (rsp : List ℕ) → starts_with edna_ok rsp ≡ true → Outcome c (true, substr_from rsp 1, c)
  lost : Outcome c (
    false,
    sw_not_supported,
    record c {
      application_registry = erase_socket c.selected_application c.application_registry;
      selected_application = no_app_selected;
    },
  )

module _ {W : Type 0} (os : Os W) (held : W → Bool) (mutex : IsMutex os held) (c : Comm) where
  abbrev Ends : Bool × List ℕ × Comm → W → Type 0
  Ends r w' = Outcome c r × (held w' ≡ false)

  freed :
      (b : Bool) (w : W)
      → held (if b then os.close c.selected_application (os.unlock w) else os.unlock w) ≡ false
  freed true w = mutex.close_keeps _ _ ∙ mutex.unlock_frees w
  freed false w = mutex.unlock_frees w

  give_up-Ends : (w : W) → Ensures Ends (give_up os c w)
  unfolding give_up
  give_up-Ends w =
      rw (unregister_lem os c.selected_application c.application_registry (os.unlock w))
        (done-Ensures Ends _ _ (lost, freed _ w))

  rapdu-Ends : (o : Option (List ℕ)) (w : W) → Ensures Ends (rapdu os c o w)
  unfolding rapdu
  rapdu-Ends none w = give_up-Ends w
  rapdu-Ends (some rsp) w = elim (Bool-cases (starts_with edna_ok rsp)) [
    | inl e ↦ rw e (done-Ensures Ends _ _ (answered rsp e, mutex.unlock_frees w))
    | inr e ↦ rw e (give_up-Ends w)
  ]

  exchange-Ends :
      (fuel : ℕ) (apdu : List ℕ) (w : W) → held w ≡ false → Ensures Ends (exchange os fuel c apdu w)
  unfolding exchange
  exchange-Ends fuel apdu w free =
      elim (Bool-cases (int_eq c.selected_application no_app_selected)) [
        | inl e ↦ rw e (done-Ensures Ends _ w (unselected e, free))
        | inr e ↦ rw e (
            then-Ensures Ends (send_to_client os c.selected_application _) _ (os.lock w) (λ sent w1.
              if-Ensures Ends sent _ _ w1
                (then-Ensures Ends (recv_from_client os fuel c.selected_application []) _ w1
                  rapdu-Ends)
                (give_up-Ends w1)))
      ]

-- The object that an exchange leaves: what the selection made of it after a success; after a failure
-- nothing is selected, and the socket that was is out of the registry.
unfoldable pub after_exchange : Bool → Comm → Comm
after_exchange true d = d
after_exchange false d = record d {
  application_registry = erase_socket d.selected_application d.application_registry;
  selected_application = no_app_selected;
}

pub record IsExchange (c : Comm) (apdu : List ℕ) (r : Bool × List ℕ × Comm) : Type 0 where
  pub valid : IsValid r.2
  pub object : r.2 ≡ after_exchange r.0 (chosen c apdu)

Outcome-object :
    (c : Comm) (apdu : List ℕ) (d : Comm) {r : Bool × List ℕ × Comm}
    → Outcome d r
    → d ≡ chosen c apdu
    → r.2 ≡ after_exchange r.0 (chosen c apdu)
unfolding after_exchange
Outcome-object c apdu d (unselected e) same = same
Outcome-object c apdu d (answered rsp e) same = same
Outcome-object c apdu d lost same = ap (after_exchange false) same

after_exchange-IsValid : (b : Bool) (d : Comm) → IsValid d → IsValid (after_exchange b d)
unfolding after_exchange
after_exchange-IsValid true d v = v
after_exchange-IsValid false d v = record {
  well_formed = record {
    sorted = erase-IsSorted d.selected_application d.application_registry v.well_formed.sorted;
    injective =
        (erase-IsInjective d.selected_application d.application_registry v.well_formed.injective).0;
    sockets =
        has_socket-erase_socket no_app_selected d.selected_application d.application_registry
          v.well_formed.sockets;
  };
  selected = inl refl;
}

module _ {W : Type 0} (os : Os W) (held : W → Bool) (mutex : IsMutex os held) where
  abbrev Left : Comm → List ℕ → Bool × List ℕ × Comm → W → Type 0
  Left c apdu r w' = (r.2 ≡ after_exchange r.0 (chosen c apdu)) × (held w' ≡ false)

  exchange-Left :
      (fuel : ℕ) (c : Comm) (apdu : List ℕ) (d : Comm) (w : W)
      → d ≡ chosen c apdu
      → held w ≡ false
      → Ensures (Left c apdu) (exchange os fuel d apdu w)
  exchange-Left fuel c apdu d w same free =
      mono-Ensures (Ends os held mutex d) (Left c apdu) (exchange os fuel d apdu w)
        (λ r w' p. (Outcome-object c apdu d p.0 same, p.1))
        (exchange-Ends os held mutex d fuel apdu w free)

  -- The object that `transceive` leaves, for every object.
  pub transceive-object :
      (fuel : ℕ) (c : Comm) (apdu : List ℕ) (w : W)
      → held w ≡ false
      → Ensures
          (λ r w'. (r.2 ≡ after_exchange r.0 (chosen c apdu)) × (held w' ≡ false))
          (transceive os fuel c apdu w)
  unfolding transceive select_and_exchange after_exchange
  transceive-object fuel c apdu w free = elim (Bool-cases (equal (substr apdu 0 3) select_header)) [
    | inr e ↦ rw e (exchange-Left fuel c apdu c w (chosen_other c apdu e) free)
    | inl e ↦ elim (Option-cases (get_elem? apdu 4)) [
      | inl f ↦
          rw (e, f)
            (done-Ensures (Left c apdu) (true, sw_failure, c) w (chosen_short c apdu e f, free))
      | inr (n, f) ↦
          rw (e, f)
            (exchange-Left fuel c apdu (select_by_aid c (substr apdu 5 n)) w
              (chosen_select c apdu n e f) free)
    ]
  ]

  pub transceive-IsExchange :
      (fuel : ℕ) (c : Comm) (apdu : List ℕ) (w : W)
      → IsValid c
      → held w ≡ false
      → Ensures (λ r w'. IsExchange c apdu r × (held w' ≡ false)) (transceive os fuel c apdu w)
  transceive-IsExchange fuel c apdu w v free =
      mono-Ensures (Left c apdu) (λ r w'. IsExchange c apdu r × (held w' ≡ false)) _
        (λ r w' p. (
          record {
            valid = subst IsValid (sym p.0) (
                after_exchange-IsValid r.0 (chosen c apdu)
                  (Chooses-IsValid (chosen-Chooses c apdu) v));
            object = p.0;
          },
          p.1,
        ))
        (transceive-object fuel c apdu w free)

-- With a length byte, an APDU goes to the application that is selected after it has been looked at.
pub transceive-chosen :
    {W : Type 0} (os : Os W) (fuel : ℕ) (c : Comm) (apdu : List ℕ) (w : W)
    → 5 ≤ length apdu
    → transceive os fuel c apdu w ≡ exchange os fuel (chosen c apdu) apdu w
unfolding transceive select_and_exchange chosen
transceive-chosen os fuel c apdu w h = elim (Bool-cases (equal (substr apdu 0 3) select_header)) [
  | inr e ↦ rw e
  | inl e ↦ elim (Option-cases (get_elem? apdu 4)) [
    | inl f ↦ absurd (omega (arith, get_elem?-none apdu 4 f))
    | inr (x, f) ↦ rw (e, f)
  ]
]
