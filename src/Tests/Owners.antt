-- ===== src/Tests/Owners.antt =====
-- The model of src/socketowner.cpp with two owners of one socket.
use sipp.Base.{◌≡◌, refl, arith, some, [], ◌∷◌}
use sipp.SocketOwner.{
  Owners, no_owners, new_owner, associate_socket, add_owner_to_socket, insert_owner,
  get_owners_for_socket,
}
use sipp.SocketOwner.Linked.{Linked}
use sipp.SocketOwner.Reachable.{Reachable, started, next, created, associated, Reachable-Linked}

abbrev two_owners : Owners
two_owners = (new_owner (new_owner no_owners).0).0

-- Owner 2 takes socket 9, then owner 1.
abbrev second_has : Owners
second_has = associate_socket 2 (some 9) two_owners

abbrev both_have : Owners
both_have = associate_socket 1 (some 9) second_has

both_have-Reachable : Reachable both_have
unfolding new_owner no_owners associate_socket add_owner_to_socket
both_have-Reachable =
    next
      (next (next (next started (created no_owners)) (created (new_owner no_owners).0))
        (associated 2 9 two_owners (ground arith) refl))
      (associated 1 9 second_has (ground arith) refl)

in_order : get_owners_for_socket 9 both_have ≡ 1 ∷ 2 ∷ []
unfolding new_owner no_owners associate_socket add_owner_to_socket insert_owner
    get_owners_for_socket
in_order = refl

Reachable-Linked_example : Linked both_have
Reachable-Linked_example = Reachable-Linked both_have both_have-Reachable
