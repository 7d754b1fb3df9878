-- ===== src/Comm/Handshake.antt =====
-- bin/edna_comm.cpp: new_client with a client that keeps to the protocol.
use edna.Base.{
  ℕ, suc, ◌≤◌, ◌<◌, ◌≡◌, refl, ◌∙◌, true, List, [], ◌∷◌, ◌++◌, Option, none, some, ℤ, pos,
  int_eq_iff, Run, done, length, le→ltb_false, arith,
}
use edna.Bytestring.{push_byte}
use edna.Bytestring.Slice.{substr_from_lem}
use edna.Proto.{api_version, get_api_version, register_aid, edna_ok, aid_exists}
use edna.Os.{Os, IsStream, IsOpen}
use edna.Comm.Frame.{frame, send_to_client}
use edna.Comm.Frame.Receive.{recv_from_client-frame}
use edna.Comm.Frame.Send.{send_to_client-frame}
use edna.Comm.AidMap.{find, assign}
use edna.Comm.{Comm, refuse, answer, register, greet, new_client}

module _ {W : Type 0} (os : Os W) (fd : ℤ) (pending : W → List ℕ) (stream : IsStream os fd pending)
    (writable : IsOpen os fd pending) where
  -- A write that is taken whole is a success.
  pub sent_whole :
      (tx : List ℕ) (w : W)
      → length tx ≤ 0xffff
      → send_to_client os fd tx w ≡ done (true, (os.write fd (frame tx) w).1)
  sent_whole tx w h =
      send_to_client-frame os fd tx w h
      ∙ rw (writable.write_whole (frame tx) w, (int_eq_iff (pos (length (frame tx))) _).1 refl)

  module _ (fuel : ℕ) (enough : 0xffff ≤ fuel) (c : Comm) (aid : List ℕ) (some_aid : 0 < length aid)
      (short : length aid < 0xffff) where
    register_message :
        (w : W)
        → register os c fd (some (register_aid ∷ aid)) w
          ≡ answer os c fd aid (find aid c.application_registry) w
    unfolding register
    register_message w = rw (
      le→ltb_false (suc (length aid)) 2 (omega arith),
      substr_from_lem (register_aid ∷ aid) 1 (omega arith),
    )

    greet_version :
        (rest : List ℕ) (w : W)
        → pending w ≡ frame (register_aid ∷ aid) ++ rest
        → (w' : W) × (greet os fuel c fd (some (get_api_version ∷ [])) w
            ≡ answer os c fd aid (find aid c.application_registry) w')
          × (pending w' ≡ rest)
    unfolding greet push_byte
    greet_version rest w p =
        let w1 : W = (os.write fd (frame (api_version ∷ [])) w).1 in
        let p1 : pending w1 ≡ frame (register_aid ∷ aid) ++ rest =
          writable.write_leaves (frame (api_version ∷ [])) w ∙ p in
        let (w2, e, p2) =
          recv_from_client-frame os fd pending stream fuel [] (register_aid ∷ aid) rest w1
            (omega arith) (omega arith) p1 in
        (w2, rw (sent_whole (api_version ∷ []) w (omega arith), e) (register_message w2), p2)

    -- The end of the handshake, by what the registry says of the AID: EDNA_OK, and an entry of the
    -- socket; or AID_EXISTS, and the socket closed.
    abbrev pub concluded : W → Option ℤ → Run (Comm × W)
    concluded w none = done (
      record c { application_registry = assign aid fd c.application_registry },
      (os.write fd (frame (edna_ok ∷ [])) w).1,
    )
    concluded w (some s) = done (c, os.close fd (os.write fd (frame (aid_exists ∷ [])) w).1)

    answer_lem : (o : Option ℤ) (w : W) → answer os c fd aid o w ≡ concluded w o
    unfolding answer refuse push_byte
    answer_lem none w = rw (sent_whole (edna_ok ∷ []) w (omega arith))
    answer_lem (some s) w = rw (sent_whole (aid_exists ∷ []) w (omega arith))

    -- On a stream socket a client asks for the version and then sends an AID of 1 to 65534 bytes; 0xffff reads are
    -- enough for a message, and the socket takes what is written. Then new_client returns with
    -- exactly the two messages read. If nobody had the AID, the last answer is EDNA_OK, and the
    -- registry is the one with the socket at that AID; if it was taken, the last answer is
    -- AID_EXISTS, the socket is closed, and the object is as before.
    pub new_client_handshake :
        (rest : List ℕ) (w : W)
        → pending w ≡ frame (get_api_version ∷ []) ++ (frame (register_aid ∷ aid) ++ rest)
        → (w' : W) × (pending w' ≡ rest)
          × (new_client os fuel c fd w ≡ concluded w' (find aid c.application_registry))
    unfolding new_client
    new_client_handshake rest w p =
        let (w1, e1, p1) =
          recv_from_client-frame os fd pending stream fuel [] (get_api_version ∷ []) _ w
            (omega arith) (omega arith) p in
        let (w2, e2, p2) = greet_version rest w1 p1 in
        (w2, p2, rw (e1, e2) (answer_lem (find aid c.application_registry) w2))
