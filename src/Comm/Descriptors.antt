-- ===== src/Comm/Descriptors.antt =====
-- bin/edna_comm.cpp: the sockets of the registry against the table of open descriptors of the process.
pub mod Handshake
pub mod Calls
pub mod Reach
mod Runs
use edna.Base.{
  ℕ, ◌≡◌, refl, sym, subst, ◌∙◌, inl, inr, Bool, true, false, ◌||◌, List, none, ℤ, int_eq,
  int_eq_iff, is_neg, if◌then◌else◌, Bool-cases, arith,
}
use edna.Os.{Os, IsTable}
use edna.Comm.{Comm}
use edna.Comm.AidMap.{Registry, find, assign}
use edna.Comm.AidMap.Sockets.{
  IsInjective, has_socket, erase_socket, has_socket-erase_socket, erase-IsInjective,
  has_socket-assign_free,
}

module _ {W : Type 0} (is_open : ℤ → W → Bool) where
  -- Every socket of the registry is open.
  abbrev pub AreOpen : Registry → W → Type 0
  AreOpen m w = (k : ℤ) → has_socket k m ≡ true → is_open k w ≡ true

  -- The registry of an object.
  abbrev pub HasOpen : Comm → W → Type 0
  HasOpen c w = AreOpen c.application_registry w

module _ {W : Type 0} (os : Os W) (is_open : ℤ → W → Bool) (table : IsTable os is_open) where
  pub same-AreOpen :
      (m : Registry) (w v : W)
      → ((k : ℤ) → is_open k v ≡ is_open k w)
      → AreOpen is_open m w
      → AreOpen is_open m v
  same-AreOpen m w v same a k h = same k ∙ a k h

  pub close-AreOpen :
      (m : Registry) (fd : ℤ) (w : W)
      → has_socket fd m ≡ false
      → AreOpen is_open m w
      → AreOpen is_open m (os.close fd w)
  close-AreOpen m fd w out a k h = elim (Bool-cases (int_eq fd k)) [
    | inl e ↦
        let same : fd ≡ k = (int_eq_iff fd k).0 e in
        cc (h, subst (λ t. has_socket t m ≡ false) same out)
    | inr e ↦ table.close_closes k fd w ∙ rw e (a k h)
  ]

  erase-AreOpen :
      (m : Registry) (fd : ℤ) (w : W) → AreOpen is_open m w → AreOpen is_open (erase_socket fd m) w
  erase-AreOpen m fd w a k h = elim (Bool-cases (has_socket k m)) [
    | inl e ↦ a k e
    | inr e ↦ cc (h, has_socket-erase_socket k fd m e)
  ]

  -- After a socket is taken out, and closed if it was there.
  pub unregistered-AreOpen :
      (m : Registry) (fd : ℤ) (w : W)
      → IsInjective m
      → AreOpen is_open m w
      → AreOpen is_open (erase_socket fd m) (if has_socket fd m then os.close fd w else w)
  unregistered-AreOpen m fd w i a = on_test (has_socket fd m)
    where
      on_test : (b : Bool) → AreOpen is_open (erase_socket fd m) (if b then os.close fd w else w)
      on_test true =
          close-AreOpen (erase_socket fd m) fd w (erase-IsInjective fd m i).1
            (erase-AreOpen m fd w a)
      on_test false = erase-AreOpen m fd w a

  pub assign-AreOpen :
      (m : Registry) (aid : List ℕ) (fd : ℤ) (w : W)
      → find aid m ≡ none
      → is_open fd w ≡ true
      → AreOpen is_open m w
      → AreOpen is_open (assign aid fd m) w
  assign-AreOpen m aid fd w free here a k h = elim (Bool-cases (int_eq fd k)) [
    | inl e ↦ subst (λ t. is_open t w ≡ true) ((int_eq_iff fd k).0 e) here
    | inr e ↦ a k (cc (h, has_socket-assign_free k aid fd m free, e))
  ]
