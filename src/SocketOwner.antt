-- ===== src/SocketOwner.antt =====
-- src/socketowner.cpp, include/socketowner.hpp: which calls own a socket.
-- An owner is its `ownerid`, a socket a number; closing the socket of a deleted owner is left to the
-- sockets.
pub mod Linked
pub mod Reachable
use sipp.Base.{
  ℕ, ◌+◌, Bool, true, false, List, [], ◌∷◌, Option, none, some, ltb, ◌==◌, if◌then◌else◌, has,
  erase,
}
use sipp.Base.Update.{update}

-- `call_socket` of each owner, the maps of `socket_to_owners`, in the order of their keys, `none` for a
-- socket with no map, and `nextownerid`.
pub record Owners : Type 0 where
  pub call_socket : ℕ → Option ℕ
  pub socket_to_owners : ℕ → Option (List ℕ)
  pub nextownerid : ℕ

-- What is left of a program before its first owner.
unfoldable pub no_owners : Owners
no_owners = record { call_socket = λ _. none; socket_to_owners = λ _. none; nextownerid = 1 }

-- `map::insert`, which changes nothing when the key is there
unfoldable pub insert_owner : ℕ → List ℕ → List ℕ
insert_owner id [] = id ∷ []
insert_owner id (x ∷ xs) =
    let rest = insert_owner id xs in
    if id == x then x ∷ xs else if ltb id x then id ∷ x ∷ xs else x ∷ rest

-- `socketowner::socketowner`
unfoldable pub new_owner : Owners → Owners × ℕ
new_owner o = (
  record o {
    call_socket = update o.call_socket o.nextownerid none;
    nextownerid = o.nextownerid + 1;
  },
  o.nextownerid,
)

-- The map of a socket, a new one where it has none.
abbrev pub owner_map : Option (List ℕ) → List ℕ
owner_map none = []
owner_map (some l) = l

-- `socketowner::add_owner_to_socket`
unfoldable pub add_owner_to_socket : ℕ → ℕ → Owners → Owners
add_owner_to_socket id socket o = record o {
  socket_to_owners =
      update o.socket_to_owners socket
        (some (insert_owner id (owner_map (o.socket_to_owners socket))));
}

-- `socketowner::associate_socket`: `none` is a null pointer
unfoldable pub associate_socket : ℕ → Option ℕ → Owners → Owners
associate_socket id none o = o
associate_socket id (some socket) o =
    add_owner_to_socket id socket (record o { call_socket = update o.call_socket id (some socket) })

-- The map of a socket, which goes with its last owner.
abbrev pub map_or_none : List ℕ → Option (List ℕ)
map_or_none [] = none
map_or_none (x ∷ xs) = some (x ∷ xs)

-- `socketowner::remove_owner_from_socket`: `none` when an assertion fails, as it does on a null pointer
unfoldable pub remove_owner_from_socket : ℕ → Option ℕ → Owners → Option Owners
remove_owner_from_socket id none o = none
remove_owner_from_socket id (some socket) o = elim (o.socket_to_owners socket) [
  | none ↦ none
  | some l ↦
      if has id l
      then some (record o {
        socket_to_owners = update o.socket_to_owners socket (map_or_none (erase id l));
      })
      else none
]

-- `socketowner::dissociate_socket`, with the socket that it returns
unfoldable pub dissociate_socket : ℕ → Owners → Option (Owners × Option ℕ)
dissociate_socket id o = elim (remove_owner_from_socket id (o.call_socket id) o) [
  | none ↦ none
  | some o' ↦ some (record o' { call_socket = update o'.call_socket id none }, o.call_socket id)
]

-- `socketowner::~socketowner`, with the socket that it closes
unfoldable pub delete_owner : ℕ → Owners → Option (Owners × Option ℕ)
delete_owner id o = elim (o.call_socket id) [
  | none ↦ some (o, none)
  | some _ ↦ dissociate_socket id o
]

-- `get_owners_for_socket`
unfoldable pub get_owners_for_socket : ℕ → Owners → List ℕ
get_owners_for_socket socket o = owner_map (o.socket_to_owners socket)
