-- ===== src/Client/Cancel.antt =====
-- lib/edna_lib_export.cpp: edna_lib_cancel, called while the event loop waits.
use edna.Base.{
  ℕ, zero, suc, ◌<◌, ◌≡◌, refl, ◌∙◌, true, false, [], ◌∷◌, ℤ, Io, done, Succeeds, arith,
}
use edna.Codes.{EdnaRv, ok}
use edna.Os.{Os}
use edna.Client.{ClientState, Callbacks, lib_cancel, cancelled, event_loop, loop_and_process}

module _ {W : Type 0} (os : Os W) (others : ClientState → Io W ClientState) where
  -- The daemon says nothing; `left` counts how many times select(2) times out before another thread
  -- calls edna_lib_cancel.
  pub record IsQuiet (left : W → ℕ) : Type 0 where
    pub select_idle : (fd : ℤ) (w : W) → (os.select (fd ∷ []) w).0.1 fd ≡ false
    pub select_keeps : (fd : ℤ) (w : W) → left (os.select (fd ∷ []) w).1 ≡ left w
    pub waits :
        (l : ClientState) (w : W) (n : ℕ)
        → left w ≡ suc n
        → (v : W) × (others l w ≡ done (l, v)) × (left v ≡ n)
    pub cancels : (l : ClientState) (w : W) → left w ≡ 0 → others l w ≡ done (lib_cancel l, w)

  module _ (cb : Callbacks W) (left : W → ℕ) (quiet : IsQuiet left) (fuel : ℕ) where
    abbrev Ended : ClientState → EdnaRv × ClientState → W → Type 0
    Ended l r v = r ≡ (ok, record l { must_cancel = false })

    abbrev cleared : ClientState → ClientState
    cleared l = record l { must_cancel = false }

    event_loop-Ended :
        (rounds n : ℕ) (l : ClientState) (w : W)
        → left w ≡ n
        → n < rounds
        → Succeeds (Ended l) (event_loop os cb others rounds fuel (cleared l) w)
    unfolding event_loop cancelled lib_cancel
    event_loop-Ended zero n l w e h = absurd (omega (arith, h))
    event_loop-Ended (suc rounds) zero l w e h =
        rw
          (quiet.cancels (cleared l) (os.select (l.daemon_socket ∷ []) w).1
            (quiet.select_keeps l.daemon_socket w ∙ e))
          (_, _, refl, refl)
    event_loop-Ended (suc rounds) (suc n) l w e h =
        let (v, waited, e') =
          quiet.waits (cleared l) (os.select (l.daemon_socket ∷ []) w).1 n
            (quiet.select_keeps l.daemon_socket w ∙ e) in
        rw (waited, quiet.select_idle l.daemon_socket w)
          (event_loop-Ended rounds n l v e' (omega (arith, h)))

    -- edna_lib_cancel ends the event loop: while the daemon says nothing, and another thread calls it
    -- after some time-outs of select, edna_lib_loop_and_process returns ERV_OK, with the flag cleared and
    -- the rest of the static variables as they were; one round for each time-out and one more are enough.
    pub loop_and_process_cancelled :
        (rounds : ℕ) (l : ClientState) (w : W)
        → left w < rounds
        → Succeeds
            (λ r v. r ≡ (ok, record l { must_cancel = false }))
            (loop_and_process os cb others true rounds fuel l w)
    unfolding loop_and_process
    loop_and_process_cancelled rounds l w h = event_loop-Ended rounds (left w) l w refl h
