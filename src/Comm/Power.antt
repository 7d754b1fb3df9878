-- ===== src/Comm/Power.antt =====
-- bin/edna_comm.cpp: the power calls.
use edna.Base.{ℕ, ◌≡◌, refl, Bool, false, List, Ensures, done-Ensures, then-Ensures}
use edna.Os.{Os, IsMutex}
use edna.Comm.{Comm, no_app_selected, application_selected, notify, broadcast}

-- After a power call nothing is selected, the registry is as before, and the mutex is free.
abbrev pub PowerDone : {W : Type 0} → (W → Bool) → Comm → Comm → W → Type 0
PowerDone held c c' w' =
    (c' ≡ record c { selected_application = no_app_selected })
    × (application_selected c' ≡ false)
    × (held w' ≡ false)

module _ {W : Type 0} (os : Os W) (held : W → Bool) (mutex : IsMutex os held) (fuel : ℕ)
    (c : Comm) where
  pub broadcast_lem :
      (cmd : List ℕ) (w : W) → Ensures (PowerDone held c) (broadcast os fuel cmd c w)
  unfolding broadcast application_selected
  broadcast_lem cmd w =
      then-Ensures (PowerDone held c) (notify os fuel cmd c.application_registry) _ (os.lock w)
        (λ _ w'.
          done-Ensures (PowerDone held c) _ (os.unlock w') (refl, refl, mutex.unlock_frees w'))
