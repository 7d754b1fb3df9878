-- ===== src/Emulator/Undefined.antt =====
-- bin/edna_emu.cpp: the start of run, up to the command that sets ATQ and SAK.
mod Runs
use edna.Base.{
  Io, ℕ, ◌≡◌, ◌∙◌, refl, ◌⊎◌, inl, inr, Bool-cases, true, false, Bool, List, [], ◌∷◌, Option, none,
  some, ℤ, done, fault, Run,
}
use edna.Bytestring.{push_ushort}
use edna.Os.{Os}
use edna.Comm.{Comm}
use edna.Emulator.{Reader, Settings, set_atq_sak, run_emulator}
use edna.Emulator.Events.{IsApart}
use edna.Emulator.Ends.{IsConnecting}

-- The configuration has a name, ATQ and SAK, and PC/SC gives a context and connects the reader.
pub record IsConnected {W : Type 0} (reader : Reader W) (name : Option (List ℕ))
    (atq sak : Option ℤ) (w : W) : Type 0 where
  pub named : (x : ℕ) × (rest : List ℕ) × (name ≡ some (x ∷ rest))
  pub has_atq : (a : ℤ) × (atq ≡ some a)
  pub has_sak : (a : ℤ) × (sak ≡ some a)
  pub established : (reader.establish w).0 ≡ true
  pub connects : (reader.connect (reader.establish w).1).0 ≡ true

set_atq_sak_undefined : (atq sak : ℤ) → set_atq_sak atq sak ≡ fault
unfolding set_atq_sak push_ushort
set_atq_sak_undefined atq sak = refl

different : (b : Bool) → b ≡ true → ¬ (b ≡ false)
different b e = λ h. cc (e, h)

module _ {W : Type 0} (os : Os W) (reader : Reader W) (settings : Settings) (fuel : ℕ)
    (held : W → Bool) (apart : IsApart reader held) (left : W → ℕ) (has_context : W → Bool)
    (connecting : IsConnecting reader held left has_context) (others : Comm → Io W Comm)
    (rounds waits : ℕ) where
  -- The run returns the object as it was, with the mutex free and no context of PC/SC.
  abbrev pub GivenUp : Comm → Run (Comm × W) → Type 0
  GivenUp c r = (v : W) × (r ≡ done (c, v)) × (held v ≡ false) × (has_context v ≡ false)

  -- The calls to the reader leave the mutex alone, PC/SC gives a context only where it says so, and a
  -- release ends it. From a world with the mutex free and no context, the run of the emulator does one
  -- of two things. Where the configuration has the reader's name, ATQ and SAK, and PC/SC gives a context
  -- and connects the reader, the behaviour is undefined: ATQ is appended by an operator that returns
  -- nothing. Anywhere else it returns with the object as it was, the mutex free and no context.
  pub run_emulator_ends :
      (name : Option (List ℕ)) (atq sak : Option ℤ) (c : Comm) (w : W)
      → held w ≡ false
      → has_context w ≡ false
      → (IsConnected reader name atq sak w
          × (run_emulator os reader settings fuel others rounds waits name atq sak c w ≡ fault))
        ⊎ (¬ (IsConnected reader name atq sak w)
            × GivenUp c (run_emulator os reader settings fuel others rounds waits name atq sak c w))
  unfolding run_emulator
  run_emulator_ends none atq sak c w free out = inr (λ h. cc (h.named.2), (w, refl, free, out))
  run_emulator_ends (some []) atq sak c w free out = inr (λ h. cc (h.named.2), (w, refl, free, out))
  run_emulator_ends (some (x ∷ name)) none sak c w free out =
      inr (λ h. cc (h.has_atq.1), (w, refl, free, out))
  run_emulator_ends (some (x ∷ name)) (some atq) none c w free out =
      inr (λ h. cc (h.has_sak.1), (w, refl, free, out))
  run_emulator_ends (some (x ∷ name)) (some atq) (some sak) c w free out =
      let w1 = (reader.establish w).1 in
      elim (Bool-cases (reader.establish w).0) [
        | inr e ↦ inr (
          λ h. different _ h.established e,
          rw e
              (w1, refl, connecting.establish_frees w ∙ free, connecting.establish_fails w e ∙ out),
        )
        | inl e ↦ elim (Bool-cases (reader.connect w1).0) [
          | inl f ↦ inl (
            record {
              named = (x, name, refl);
              has_atq = (atq, refl);
              has_sak = (sak, refl);
              established = e;
              connects = f;
            },
            rw (e, f, set_atq_sak_undefined atq sak) refl,
          )
          | inr f ↦ inr (
            λ h. different _ h.connects f,
            rw (e, f)
                (
                  reader.release (reader.connect w1).1,
                  refl,
                  apart.release_keeps _
                      ∙ connecting.connect_frees w1
                      ∙ connecting.establish_frees w
                      ∙ free,
                  connecting.releases _,
                ),
          )
        ]
      ]
