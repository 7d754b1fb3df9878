-- ===== src/Comm/Delivery.antt =====
-- bin/edna_comm.cpp: transceive with an application that answers, and with one that cannot.
use edna.Base.{
  ℕ, ◌^◌, ◌≤◌, ◌<◌, ◌≡◌, refl, ◌∙◌, true, false, List, [], ◌∷◌, ◌++◌, some, ℤ, pos, int_eq,
  int_eq_iff, done, ◌>>=◌, length, take-append, arith,
}
use edna.Bytestring.{append, substr, equal, of_hex}
use edna.Bytestring.Slice.{substr_lem, substr_from_lem}
use edna.Bytestring.Order.{equal_iff}
use edna.Proto.{transceive_apdu, edna_ok}
use edna.Os.{Os, IsStream}
use edna.Comm.Frame.{frame, recv_from_client, send_to_client}
use edna.Comm.Frame.Receive.{recv_from_client-frame}
use edna.Comm.Frame.Send.{send_to_client-frame, send_to_client_long}
use edna.Comm.AidMap.{find}
use edna.Comm.{
  Comm, no_app_selected, select_header, select_by_aid, rapdu, exchange, select_and_exchange,
  transceive,
}

-- A SELECT by name: class 00, instruction a4, p1 04, any p2, the AID behind its length, and any rest.
unfoldable pub select_apdu : ℕ → List ℕ → List ℕ → List ℕ
select_apdu p2 aid le = 0x00 ∷ 0xa4 ∷ 0x04 ∷ p2 ∷ length aid ∷ (aid ++ le)

is_select :
    (p2 : ℕ) (aid le : List ℕ)
    → length (aid ++ le) < 2 ^ 16
    → equal (substr (select_apdu p2 aid le) 0 3) select_header ≡ true
unfolding of_hex select_apdu
is_select p2 aid le h =
    rw (substr_lem (select_apdu p2 aid le) 0 3 (omega arith))
      ((equal_iff (0x00 ∷ 0xa4 ∷ 0x04 ∷ []) select_header).1 refl)

aid_of_select :
    (p2 : ℕ) (aid le : List ℕ)
    → length (aid ++ le) < 2 ^ 16
    → substr (select_apdu p2 aid le) 5 (length aid) ≡ aid
unfolding select_apdu
aid_of_select p2 aid le h =
    substr_lem (select_apdu p2 aid le) 5 (length aid) (omega arith) ∙ take-append aid le

select_known :
    (c : Comm) (aid : List ℕ) (fd : ℤ)
    → find aid c.application_registry ≡ some fd
    → select_by_aid c aid ≡ record c { selected_application = fd }
unfolding select_by_aid
select_known c aid fd e = rw (e, select_by_aid)

module _ {W : Type 0} (os : Os W) (fd : ℤ) (pending : W → List ℕ) (stream : IsStream os fd pending)
    (fuel : ℕ) (enough : 0xffff ≤ fuel) (real : int_eq fd no_app_selected ≡ false) where
  -- The world after the request has been written under the mutex.
  abbrev pub asked : List ℕ → W → W
  asked apdu w = (os.write fd (frame (transceive_apdu ∷ apdu)) (os.lock w)).1

  -- The application's socket takes the request whole, and its answer is the next thing that waits:
  -- EDNA_OK and the bytes of the R-APDU.
  pub record Answers (apdu answer rest : List ℕ) (w : W) : Type 0 where
    pub fits : length apdu < 0xffff
    pub answer_fits : length answer < 0xffff
    pub taken :
        (os.write fd (frame (transceive_apdu ∷ apdu)) (os.lock w)).0
        ≡ pos (length (frame (transceive_apdu ∷ apdu)))
    pub answered : pending (asked apdu w) ≡ frame (edna_ok ∷ answer) ++ rest

  exchange_delivers :
      (c : Comm) (apdu answer rest : List ℕ) (w : W)
      → c.selected_application ≡ fd
      → Answers apdu answer rest w
      → (w' : W) × (exchange os fuel c apdu w ≡ done ((true, answer, c), os.unlock w'))
        × (pending w' ≡ rest)
  unfolding exchange rapdu append
  exchange_delivers c apdu answer rest w sel a =
      let (w1, e, p) =
        recv_from_client-frame os fd pending stream fuel [] (edna_ok ∷ answer) rest (asked apdu w)
          (omega (arith, a.answer_fits)) (omega (arith, a.answer_fits)) a.answered in
      let sent : send_to_client os fd (transceive_apdu ∷ apdu) (os.lock w)
          ≡ done (true, asked apdu w) =
        send_to_client-frame os fd (transceive_apdu ∷ apdu) (os.lock w) (omega (arith, a.fits))
        ∙ rw (a.taken, (int_eq_iff (pos (length (frame (transceive_apdu ∷ apdu)))) _).1 refl) in
      (
        w1,
        rw (
          sel,
          real,
          sent,
          e,
          substr_from_lem (edna_ok ∷ answer) 1 (omega (arith, a.answer_fits)),
        ),
        p,
      )

  -- On a stream socket, whose number is not -1, with 0xffff reads for a message: the client takes the
  -- request whole, its answer is the next thing that waits, and both are below 0xffff bytes. Then a
  -- SELECT of a registered AID makes its socket the selected one, hands the whole SELECT to that
  -- client, reads exactly its answer, returns it, and gives the mutex back, whatever was selected
  -- before.
  pub transceive_select :
      (c : Comm) (p2 : ℕ) (aid le answer rest : List ℕ) (w : W)
      → find aid c.application_registry ≡ some fd
      → Answers (select_apdu p2 aid le) answer rest w
      → (w' : W) × (transceive os fuel c (select_apdu p2 aid le) w
          ≡ done ((true, answer, record c { selected_application = fd }), os.unlock w'))
        × (pending w' ≡ rest)
  unfolding transceive select_and_exchange select_apdu
  transceive_select c p2 aid le answer rest w found a =
      let short : length (aid ++ le) < 2 ^ 16 = omega (arith, a.fits) in
      rw (is_select p2 aid le short, aid_of_select p2 aid le short, select_known c aid fd found)
        (exchange_delivers (record c { selected_application = fd }) (select_apdu p2 aid le) answer
          rest w refl a)

  -- On a stream socket, whose number is not -1, with 0xffff reads for a message: the client takes the
  -- request whole, its answer is the next thing that waits, and both are below 0xffff bytes. Then an
  -- APDU that is no SELECT by name goes to the selected client, exactly its answer is read and
  -- returned, the mutex is given back, and the object stays as it is.
  pub transceive_forward :
      (c : Comm) (apdu answer rest : List ℕ) (w : W)
      → equal (substr apdu 0 3) select_header ≡ false
      → c.selected_application ≡ fd
      → Answers apdu answer rest w
      → (w' : W) × (transceive os fuel c apdu w ≡ done ((true, answer, c), os.unlock w'))
        × (pending w' ≡ rest)
  unfolding transceive
  transceive_forward c apdu answer rest w other sel a =
      rw other (exchange_delivers c apdu answer rest w sel a)

module _ {W : Type 0} (os : Os W) where
  -- While an application is selected, an APDU of 0xffff bytes or more is not sent, for the message with its command byte is too long;
  -- yet the exchange goes on to read an answer of the selected client, with the mutex held.
  pub exchange_long :
      (fuel : ℕ) (c : Comm) (apdu : List ℕ) (w : W)
      → int_eq c.selected_application no_app_selected ≡ false
      → 0xffff ≤ length apdu
      → exchange os fuel c apdu w
        ≡ (recv_from_client os fuel c.selected_application [] >>= rapdu os c) (os.lock w)
  unfolding exchange append
  exchange_long fuel c apdu w real long = rw (
    real,
    send_to_client_long os c.selected_application (transceive_apdu ∷ apdu) (os.lock w)
        (omega arith),
  )
