-- ===== src/SocketOwner/Reachable.antt =====
-- The runs of src/socketowner.cpp: owners come, take sockets, give them up and go, in any order.
use sipp.Base.{ℕ, ◌<◌, ◌≡◌, sym, ap, subst, ◌∙◌, Option, none, some}
use sipp.SocketOwner.{
  Owners, no_owners, new_owner, associate_socket, dissociate_socket, delete_owner,
}
use sipp.SocketOwner.Linked.{
  Linked, associate_socket-Linked, dissociate_socket-Linked, delete_owner-Linked, no_owners-Linked,
  new_owner-Linked,
}

-- An owner takes a socket when it has none, and gives up the one that it has.
pub data Step : Owners → Owners → Type 0 where
  created : (o : Owners) → Step o (new_owner o).0
  associated :
      (id socket : ℕ) (o : Owners)
      → id < o.nextownerid
      → o.call_socket id ≡ none
      → Step o (associate_socket id (some socket) o)
  dissociated :
      (id socket : ℕ) (o o' : Owners)
      → o.call_socket id ≡ some socket
      → dissociate_socket id o ≡ some (o', some socket)
      → Step o o'
  deleted :
      (id : ℕ) (o o' : Owners) (closed : Option ℕ)
      → delete_owner id o ≡ some (o', closed)
      → Step o o'

pub data Reachable : Owners → Type 0 where
  started : Reachable no_owners
  next : {o o' : Owners} → Reachable o → Step o o' → Reachable o'

state_or : Owners → Option (Owners × Option ℕ) → Owners
state_or d none = d
state_or d (some (o, _)) = o

Step-Linked : {o o' : Owners} → Linked o → Step o o' → Linked o'
unfolding state_or
Step-Linked v (created o) = new_owner-Linked o v
Step-Linked v (associated id socket o small free) = associate_socket-Linked id socket o v small free
Step-Linked v (dissociated id socket o o' e q) =
    let (x, r, w, _) = dissociate_socket-Linked id socket o v e in
    subst Linked (ap (state_or o) (sym r ∙ q)) w
Step-Linked v (deleted id o o' closed q) =
    let (x, r, w, _) = delete_owner-Linked id o v in subst Linked (ap (state_or o) (sym r ∙ q)) w

-- In whatever order owners come, take a socket when they have none, give it up and go: the owners of a
-- socket, as `get_owners_for_socket` lists them, are just those whose socket it is, each once, in the
-- order of their numbers; and a socket with no owner has no map.
pub Reachable-Linked : (o : Owners) → Reachable o → Linked o
Reachable-Linked o started = no_owners-Linked
Reachable-Linked o (next {o = before} r e) = Step-Linked (Reachable-Linked before r) e
