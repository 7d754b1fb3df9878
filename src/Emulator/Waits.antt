-- ===== src/Emulator/Waits.antt =====
-- bin/edna_emu.cpp: the wait for an event of the reader ends.
use edna.Base.{
  ℕ, zero, suc, ◌<◌, ◌≤◌, ◌≡◌, ◌≢◌, fault, ◌∙◌, refl, Bool, true, false, List, Option, none, some,
  Option-cases, inl, inr, Io, pure, call, ◌>>=◌, ◌==◌, if◌then◌else◌, length, get_elem?,
  get_elem?-none, Succeeds, bind-Succeeds, mono-Succeeds, arith,
}
use edna.Os.{Os, IsBounded, IsLively, IsMutex, OsKeeps}
use edna.Emulator.{
  Reader, Settings, Event, aborted, cancelled, happened, wait_event, close_reader,
  transceive_control, wait,
}
use edna.Emulator.Events.{IsApart}
use edna.Emulator.Keeps.{ReaderKeeps}

-- cancel() comes in the end: from the world `w` on, should_cancel is found unset at most `left w` times,
-- for each look that finds it unset uses one of them, and no other call gives one back. The reader
-- answers the command that waits for an event with two bytes at least.
pub record IsStopped {W : Type 0} (os : Os W) (reader : Reader W) (held : W → Bool) (left : W → ℕ)
    : Type 0 where
  pub look_spends :
      (w : W) → (reader.cancel_requested w).0 ≡ false → left (reader.cancel_requested w).1 < left w
  pub look_keeps : (w : W) → left (reader.cancel_requested w).1 ≤ left w
  pub look_frees : (w : W) → held (reader.cancel_requested w).1 ≡ held w
  pub os_keeps : (n : ℕ) → OsKeeps os (λ w. left w ≤ n)
  pub reader_keeps : (n : ℕ) → ReaderKeeps reader (λ w. left w ≤ n)
  pub answers :
      (w : W) (bytes : List ℕ) → (reader.control wait_event w).0 ≡ some bytes → 1 < length bytes

module _ {W : Type 0} (os : Os W) (reader : Reader W) (settings : Settings) (fuel : ℕ)
    (enough : 0xffff ≤ fuel) (bounded : IsBounded os) (lively : IsLively os) (held : W → Bool)
    (mutex : IsMutex os held) (apart : IsApart reader held) (left : W → ℕ)
    (stops : IsStopped os reader held left) where
  -- The mutex is free, and should_cancel is found unset at most `n` more times.
  abbrev Free : ℕ → W → Type 0
  Free n w = (held w ≡ false) × (left w ≤ n)

  abbrev Spoken : ℕ → Option (List ℕ) → W → Type 0
  Spoken n o w = Free n w × ((bytes : List ℕ) → o ≡ some bytes → 1 < length bytes)

  wait_event-Spoken :
      (n : ℕ) (w : W)
      → Free n w
      → Succeeds (Spoken n) (transceive_control os reader settings fuel wait_event w)
  unfolding transceive_control close_reader
  wait_event-Spoken n w h =
      let keeps = stops.reader_keeps n in
      let less = keeps.control_keeps wait_event w h.1 in
      elim (Option-cases (reader.control wait_event w).0) [
        | inl e ↦ rw e (
          none,
          _,
          refl,
          (
            (
              apart.release_keeps _
                  ∙ apart.disconnect_keeps _
                  ∙ apart.control_keeps wait_event w
                  ∙ h.0,
              keeps.release_keeps _ (keeps.disconnect_keeps _ less),
            ),
            λ bytes f. cc f,
          ),
        )
        | inr (bytes, e) ↦ rw e (
          some bytes,
          _,
          refl,
          (
            (apart.control_keeps wait_event w ∙ h.0, less),
            λ bytes' f. stops.answers w bytes' (e ∙ f),
          ),
        )
      ]

  pub weaken : {n m : ℕ} → n ≤ m → (w : W) → Free n w → Free m w
  weaken le w h = (h.0, omega (arith, h.1))

  pub look-Free :
      (n : ℕ) (w : W)
      → Free n w
      → Free (left (reader.cancel_requested w).1) (reader.cancel_requested w).1
  look-Free n w h = (stops.look_frees w ∙ h.0, omega arith)

  abbrev Waited : ℕ → Event → W → Type 0
  Waited n e w = Free n w

  -- One more round of the wait, unless should_cancel is set.
  abbrev again : Io W Event → Io W Event
  again rest = do
    cancel ← call reader.cancel_requested
    elim cancel [ true ↦ pure cancelled | false ↦ rest ]

  again-Waited :
      (rest : Io W Event) (n : ℕ) (w : W)
      → ((k : ℕ) (v : W) → k < n → Free k v → Succeeds (Waited k) (rest v))
      → Free n w
      → Succeeds (Waited n) (again rest w)
  again-Waited rest n w go h = on_look (reader.cancel_requested w).0 refl
    where
      k : ℕ
      k = left (reader.cancel_requested w).1

      on_look :
          (b : Bool)
          → (reader.cancel_requested w).0 ≡ b
          → Succeeds (Waited n) (
              (elim b as (λ x. Io W Event) [ true ↦ pure cancelled | false ↦ rest ])
                (reader.cancel_requested w).1)
      on_look true e =
          (cancelled, _, refl, weaken (omega (arith, stops.look_keeps w, h.1)) _ (look-Free n w h))
      on_look false e =
          mono-Succeeds (Waited k) (Waited n) _
            (λ x v. weaken (omega (arith, stops.look_spends w e, h.1)) v)
            (go k _ (omega (arith, stops.look_spends w e, h.1)) (look-Free n w h))

  -- What follows the reader's answer, by its second byte.
  abbrev answered : Io W Event → Option ℕ → Io W Event
  answered rest none w = fault
  answered rest (some event) w =
      let more = again rest w in if event == 0x00 then more else pure (happened event) w

  answered-Waited :
      (rest : Io W Event) (n : ℕ) (o : Option ℕ) (w : W)
      → o ≢ none
      → ((k : ℕ) (v : W) → k < n → Free k v → Succeeds (Waited k) (rest v))
      → Free n w
      → Succeeds (Waited n) (answered rest o w)
  answered-Waited rest n none w some_byte go h = absurd (some_byte refl)
  answered-Waited rest n (some event) w some_byte go h = on_event (event == 0x00)
    where
      on_event :
          (b : Bool) → Succeeds (Waited n) (if b then again rest w else pure (happened event) w)
      on_event true = again-Waited rest n w go h
      on_event false = (happened event, w, refl, h)

  pub wait-Succeeds :
      (waits n : ℕ) (w : W)
      → n < waits
      → Free n w
      → Succeeds (Waited n) (wait os reader settings fuel waits w)
  unfolding wait
  wait-Succeeds zero n w lt h = absurd (omega arith)
  wait-Succeeds (suc waits) n w lt h =
      bind-Succeeds (Spoken n) (Waited n) (transceive_control os reader settings fuel wait_event) _
        w (wait_event-Spoken n w h)
        (λ o v k. on_answer (λ m u less. wait-Succeeds waits m u (omega (arith, less, lt))) o v k)
    where
      on_answer :
          ((k : ℕ) (v : W)
            → k < n
            → Free k v
            → Succeeds (Waited k) (wait os reader settings fuel waits v))
          → (o : Option (List ℕ)) (v : W) → Spoken n o v
          → Succeeds (Waited n) (
              (elim o as (λ x. Io W Event) [
                | none ↦ pure aborted
                | some bytes ↦ answered (wait os reader settings fuel waits) (get_elem? bytes 1)
              ])
                v)
      on_answer go none v k = (aborted, v, refl, k.0)
      on_answer go (some bytes) v k =
          answered-Waited (wait os reader settings fuel waits) n (get_elem? bytes 1) v
            (λ e. absurd (omega (arith, get_elem?-none bytes 1 e, k.1 bytes refl))) go k.0
