-- ===== src/Comm/AidMap.antt =====
-- bin/edna_comm.h and edna_comm.cpp, under src: the application registry, a
-- std::map<bytestring, int> from AIDs to sockets. Its entries stand in the order of operator<.
pub mod Laws
pub mod Sockets
use edna.Base.{
  ℕ, Bool, true, List, [], ◌∷◌, Option, none, some, ℤ, int_eq, Io, pure, run, ◌>>=◌, ◌>>◌,
  if◌then◌else◌,
}
use edna.Bytestring.{less}
use edna.Os.{Os}

abbrev pub Registry : Type 0
Registry = List (List ℕ × ℤ)

-- std::map::find: the first entry that is not less than the key, unless the key is less than it.
unfoldable pub find : List ℕ → Registry → Option ℤ
find aid [] = none
find aid ((k, fd) ∷ m) =
    let rest = find aid m in if less k aid then rest else if less aid k then none else some fd

-- `application_registry[aid] = fd`
unfoldable pub assign : List ℕ → ℤ → Registry → Registry
assign aid fd [] = (aid, fd) ∷ []
assign aid fd ((k, s) ∷ m) =
    let rest = assign aid fd m in
    if less k aid then (k, s) ∷ rest else if less aid k then (aid, fd) ∷ (k, s) ∷ m else (k, fd) ∷ m

module _ {W : Type 0} (os : Os W) where
  -- The first entry with the socket is erased, and the socket closed.
  unfoldable pub unregister_by_socket : ℤ → Registry → Io W Registry
  unregister_by_socket fd [] = pure []
  unregister_by_socket fd ((k, s) ∷ m) =
      if int_eq s fd
      then (do run (os.close fd); pure m)
      else (do m' ← unregister_by_socket fd m; pure ((k, s) ∷ m'))
