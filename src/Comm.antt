-- ===== src/Comm.antt =====
-- bin/edna_comm.h and edna_comm.cpp, under src: the class edna_comm_thread. The object's fields are
-- a record, and what it shares with the operating system is the world of `Os`. Log messages are
-- left out. The fuel bounds the reads of one message.
pub mod Frame
pub mod AidMap
pub mod Invariant
pub mod Selection
pub mod Exchange
pub mod Handshake
pub mod Delivery
pub mod Power
pub mod Serve
pub mod Total
pub mod Keeps
pub mod Correct
pub mod Reach
pub mod Card
pub mod Descriptors
pub mod Thread
pub mod Life
pub mod Whole
mod Runs
use edna.Base.{
  ℕ, ◌+◌, Bool, true, false, not, ◌&&◌, ◌||◌, List, [], ◌∷◌, Option, none, some, ℤ, pos, minus_one,
  int_eq, is_neg, Io, pure, run, call, ◌>>=◌, ◌>>◌, ltb, ◌==◌, if◌then◌else◌, length, get_elem?,
}
use edna.Bytestring.{append, push_byte, substr, substr_from, of_hex, equal}
use edna.Proto.{
  api_version, get_api_version, register_aid, disconnect, power_up, power_down, transceive_apdu,
  edna_ok, aid_exists,
}
use edna.Os.{Os}
use Frame.{recv_from_client, send_to_client}
use AidMap.{Registry, find, assign, unregister_by_socket}

abbrev pub no_app_selected : ℤ
no_app_selected = minus_one

pub record Comm : Type 0 where
  pub application_registry : Registry
  pub selected_application : ℤ
  pub should_run : Bool

-- The constructor.
unfoldable pub init : Comm
init = record {
  application_registry = [];
  selected_application = no_app_selected;
  should_run = true;
}

-- `b.size() > 0 && b[0] == x`
abbrev pub starts_with : ℕ → List ℕ → Bool
starts_with x [] = false
starts_with x (y ∷ b) = y == x

unfoldable pub application_selected : Comm → Bool
application_selected c = not (int_eq c.selected_application no_app_selected)

unfoldable pub select_by_aid : Comm → List ℕ → Comm
select_by_aid c aid = elim (find aid c.application_registry) [
  | some fd ↦ record c { selected_application = fd }
  | none ↦ c
]

-- The bytes 00 a4 04 of a SELECT by name, and the status words 6d00 and 6f00.
abbrev pub select_header : List ℕ
select_header = of_hex (b'0' ∷ b'0' ∷ b'a' ∷ b'4' ∷ b'0' ∷ b'4' ∷ [])

abbrev pub sw_not_supported : List ℕ
sw_not_supported = of_hex (b'6' ∷ b'd' ∷ b'0' ∷ b'0' ∷ [])

abbrev pub sw_failure : List ℕ
sw_failure = of_hex (b'6' ∷ b'f' ∷ b'0' ∷ b'0' ∷ [])

module _ {W : Type 0} (os : Os W) where
  -- close(client_fd); return;
  unfoldable pub refuse : Comm → ℤ → Io W Comm
  refuse c fd = do run (os.close fd); pure c

  -- The answer to a registration, by what the registry says of the AID.
  unfoldable pub answer : Comm → ℤ → List ℕ → Option ℤ → Io W Comm
  answer c fd aid (some other) = do _ ← send_to_client os fd (push_byte [] aid_exists); refuse c fd
  answer c fd aid none = do
    sent ← send_to_client os fd (push_byte [] edna_ok)
    if sent
        then pure (record c { application_registry = assign aid fd c.application_registry })
        else refuse c fd

  -- From the message of the client that should register an AID on.
  unfoldable pub register : Comm → ℤ → Option (List ℕ) → Io W Comm
  register c fd none = refuse c fd
  register c fd (some reg_aid) =
      let aid = substr_from reg_aid 1 in
      if ltb (length reg_aid) 2 || not (starts_with register_aid reg_aid)
      then refuse c fd
      else answer c fd aid (find aid c.application_registry)

  -- From the message of the client that should ask for the version on.
  unfoldable pub greet : ℕ → Comm → ℤ → Option (List ℕ) → Io W Comm
  greet fuel c fd none = refuse c fd
  greet fuel c fd (some req_api_ver) =
      if not (length req_api_ver == 1) || not (starts_with get_api_version req_api_ver)
      then refuse c fd
      else do
        sent ← send_to_client os fd (push_byte [] api_version)
        if sent
            then (do reg_aid ← recv_from_client os fuel fd []; register c fd reg_aid)
            else refuse c fd

  unfoldable pub new_client : ℕ → Comm → ℤ → Io W Comm
  new_client fuel c fd = do
    req_api_ver ← recv_from_client os fuel fd []
    greet fuel c fd req_api_ver

  -- Both error exits of the exchange.
  unfoldable pub give_up : Comm → Io W (Bool × List ℕ × Comm)
  give_up c = do
    run os.unlock
    registry ← unregister_by_socket os c.selected_application c.application_registry
    pure (
      false,
      sw_not_supported,
      record c { application_registry = registry; selected_application = no_app_selected },
    )

  -- The answer of the selected application.
  unfoldable pub rapdu : Comm → Option (List ℕ) → Io W (Bool × List ℕ × Comm)
  rapdu c none = give_up c
  rapdu c (some rsp) =
      if starts_with edna_ok rsp
      then (do run os.unlock; pure (true, substr_from rsp 1, c))
      else give_up c

  -- The exchange with the selected application, if there is one.
  unfoldable pub exchange : ℕ → Comm → List ℕ → Io W (Bool × List ℕ × Comm)
  exchange fuel c apdu =
      if int_eq c.selected_application no_app_selected then pure (true, sw_not_supported, c) else do
        run os.lock
        sent ← send_to_client os c.selected_application (append (transceive_apdu ∷ []) apdu)
        if sent
            then (do
              apdu_rsp ← recv_from_client os fuel c.selected_application []
              rapdu c apdu_rsp)
            else give_up c

  -- A SELECT by name: `apdu.size() < 5` means that byte 4, the length of the AID, is missing.
  unfoldable pub select_and_exchange : ℕ → Comm → List ℕ → Option ℕ → Io W (Bool × List ℕ × Comm)
  select_and_exchange fuel c apdu none = pure (true, sw_failure, c)
  select_and_exchange fuel c apdu (some aid_len) =
      exchange fuel (select_by_aid c (substr apdu 5 aid_len)) apdu

  unfoldable pub transceive : ℕ → Comm → List ℕ → Io W (Bool × List ℕ × Comm)
  transceive fuel c apdu =
      if equal (substr apdu 0 3) select_header
      then select_and_exchange fuel c apdu (get_elem? apdu 4)
      else exchange fuel c apdu

  -- The loop of the two power calls: each client is told, and its answer read and thrown away.
  unfoldable pub notify : ℕ → List ℕ → Registry → Io W (Unit {0})
  notify fuel cmd [] = pure tt
  notify fuel cmd ((k, fd) ∷ m) = do
    sent ← send_to_client os fd cmd
    _ ← if sent then recv_from_client os fuel fd [] else pure none
    notify fuel cmd m

  -- What the two power calls share: the selection is dropped, and every client is told.
  unfoldable pub broadcast : ℕ → List ℕ → Comm → Io W Comm
  broadcast fuel cmd c = do
    run os.lock
    notify fuel cmd c.application_registry
    run os.unlock
    pure (record c { selected_application = no_app_selected })

  unfoldable pub powerup_on_select : ℕ → Comm → Io W Comm
  powerup_on_select fuel c = broadcast fuel (power_up ∷ []) c

  unfoldable pub powerdown_on_deselect : ℕ → Comm → Io W Comm
  powerdown_on_deselect fuel c = broadcast fuel (power_down ∷ []) c

  unfoldable pub unregister : Comm → ℤ → Io W Comm
  unregister c fd = do
    registry ← unregister_by_socket os fd c.application_registry
    pure (record c { application_registry = registry })

  -- A message of a registered client outside an exchange.
  unfoldable pub client_message : Comm → ℤ → Option (List ℕ) → Io W Comm
  client_message c fd none = unregister c fd
  client_message c fd (some rx) = if starts_with disconnect rx then unregister c fd else pure c

  -- The first client of the registry that is ready; the list is what the iterator has before it.
  unfoldable pub serve_client : ℕ → Comm → (ℤ → Bool) → Registry → Io W Comm
  serve_client fuel c ready [] = pure c
  serve_client fuel c ready ((k, fd) ∷ m) =
      let rest = serve_client fuel c ready m in
      if ready fd then (do rx ← recv_from_client os fuel fd []; client_message c fd rx) else rest

  -- One round of the loop of `threadproc`, after `select` has found something. A negative result of
  -- `accept` goes on with the next round, whatever errno says.
  unfoldable pub serve : ℕ → Comm → ℤ → (ℤ → Bool) → Io W Comm
  serve fuel c socket_fd ready =
      if ready socket_fd
      then (do
        new_client_fd ← call (os.accept socket_fd)
        if is_neg new_client_fd then pure c else new_client fuel c new_client_fd)
      else serve_client fuel c ready c.application_registry
