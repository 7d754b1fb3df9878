-- ===== src/Comm/Frame/Send.antt =====
-- bin/edna_comm.cpp: send_to_client writes a message as one frame, and the peer reads it back.
use edna.Base.{
  ℕ, ◌≤◌, ◌<◌, ◌≡◌, sym, ap, ◌∙◌, inl, inr, Bool, true, List, [], ◌++◌, ℤ, pos, int_eq, int_eq_iff,
  Run, done, ltb, length, Bool-cases, append-nil, le→ltb_false, lt→ltb, arith,
}
use edna.Os.{Os, IsStream}
use edna.Comm.Frame.{frame, send_to_client, recv_from_client}
use edna.Comm.Frame.Receive.{Reads, recv_from_client-frame}

module _ {W : Type 0} (os : Os W) (fd : ℤ) where
  -- Up to 0xffff bytes: one write of the whole frame, and the answer says whether it was taken whole.
  pub send_to_client-frame :
      (tx : List ℕ) (w : W)
      → length tx ≤ 0xffff
      → send_to_client os fd tx w
        ≡ done (
          int_eq (os.write fd (frame tx) w).0 (pos (length (frame tx))),
          (os.write fd (frame tx) w).1,
        )
  unfolding send_to_client
  send_to_client-frame tx w h = rw (le→ltb_false 0xffff (length tx) h)

  -- Above: true, with nothing written.
  pub send_to_client_long :
      (tx : List ℕ) (w : W) → 0xffff < length tx → send_to_client os fd tx w ≡ done (true, w)
  unfolding send_to_client
  send_to_client_long tx w h = rw (lt→ltb 0xffff (length tx) h)

  -- It always returns.
  pub send_to_client_total :
      (tx : List ℕ) (w : W) → (b : Bool) × (w' : W) × (send_to_client os fd tx w ≡ done (b, w'))
  send_to_client_total tx w = elim (Bool-cases (ltb 0xffff (length tx))) [
    | inl e ↦ (true, w, send_to_client_long tx w (ground arith))
    | inr e ↦ (
      int_eq (os.write fd (frame tx) w).0 (pos (length (frame tx))),
      (os.write fd (frame tx) w).1,
      send_to_client-frame tx w (ground arith),
    )
  ]

-- What is written to `fd` and taken whole arrives behind what waits at the other end.
abbrev pub IsLink : {W : Type 0} → Os W → ℤ → (W → List ℕ) → Type 0
IsLink {W} os fd pending =
    (bytes : List ℕ) (w : W)
    → (os.write fd bytes w).0 ≡ pos (length bytes)
    → pending (os.write fd bytes w).1 ≡ pending w ++ bytes

module _ {W : Type 0} (os : Os W) (fd peer : ℤ) (pending : W → List ℕ) (link : IsLink os fd pending)
    (stream : IsStream os peer pending) where
  -- Two ends of a stream, where nothing waits at the peer: a message of at most 0xffff bytes that
  -- send_to_client reports as sent is exactly what recv_from_client gives the peer, with nothing left
  -- behind it. As many reads as the message has bytes are enough.
  pub recv-send :
      (fuel : ℕ) (rx tx : List ℕ) (w w' : W)
      → length tx ≤ 0xffff
      → length tx ≤ fuel
      → pending w ≡ []
      → send_to_client os fd tx w ≡ done (true, w')
      → Reads os peer pending stream (recv_from_client os fuel peer rx w') tx []
  recv-send fuel rx tx w w' h hf quiet sent =
      recv_from_client-frame os peer pending stream fuel rx tx [] w' (omega arith) hf arrived
    where
      same :
          ◌≡◌ {A = Run (Bool × W)}
            (done (
              int_eq (os.write fd (frame tx) w).0 (pos (length (frame tx))),
              (os.write fd (frame tx) w).1,
            ))
            (done (true, w'))
      same = sym (send_to_client-frame os fd tx w h) ∙ sent

      taken : (os.write fd (frame tx) w).0 ≡ pos (length (frame tx))
      taken = (int_eq_iff _ _).0 (cc (same))

      world : (os.write fd (frame tx) w).1 ≡ w'
      world = cc (same)

      arrived : pending w' ≡ frame tx ++ []
      arrived =
          sym (ap pending world)
          ∙ link (frame tx) w taken
          ∙ ap (λ (l : List ℕ). l ++ frame tx) quiet
          ∙ sym (append-nil (frame tx))
