-- ===== src/Tests/Listeners.antt =====
-- Runs of the table of src/listener.cpp, with a hash that puts keys of one length together.
use sipp.Base.{ℕ, ◌≡◌, refl, Bool, true, List, [], ◌∷◌, Option, none, some, ◌==◌, length, ◌++◌}
use sipp.Listener.{Table, get_listener}
use sipp.Listener.Object.{Listener, new_listener, delete_listener}
use sipp.Listener.Refined.{
  ListenerCall, listens, unlistens, run_calls, map_calls, no_listeners, run_calls-get_listener,
}
use sipp.Listener.Safe.{delete_listener-get_listener}

abbrev hash : List ℕ → ℕ
hash key = length key

-- Listener 9 is a dead call.
abbrev dead : ℕ → Bool
dead owner = owner == 9

abbrev early : List ListenerCall
early = listens 1 (97 ∷ []) ∷ listens 2 (98 ∷ []) ∷ listens 3 (99 ∷ []) ∷ listens 9 (97 ∷ []) ∷ []

abbrev late : List ListenerCall
late = unlistens 2 (99 ∷ []) ∷ unlistens 2 (98 ∷ []) ∷ listens 4 (101 ∷ []) ∷ []

abbrev found : List ListenerCall → List ℕ → Option (Option ℕ)
found calls key = elim (run_calls hash dead calls no_listeners) [
  | none ↦ none
  | some t ↦ get_listener hash dead key t
]

-- A dead call leaves a key to a live one.
live_call : found early (97 ∷ []) ≡ some (some 1)
unfolding run_calls get_listener
live_call = refl

-- A key whose slot moves back is found.
moved_back : found (early ++ late) (99 ∷ []) ≡ some (some 3)
unfolding run_calls get_listener
moved_back = refl

gone : found (early ++ late) (98 ∷ []) ≡ some none
unfolding run_calls get_listener
gone = refl

run_calls-get_listener_example :
    (t : Table) × (run_calls hash dead late no_listeners ≡ some t)
    × ((key : List ℕ)
        → get_listener hash dead key t ≡ some (map_calls hash dead late (λ _. none) key))
run_calls-get_listener_example = run_calls-get_listener hash dead late

delete_listener-get_listener_example :
    (t t' t'' end : Table) × (l : Listener) × (run_calls hash dead early no_listeners ≡ some t)
    × (new_listener hash dead 5 (100 ∷ []) true t ≡ some (l, t'))
    × (run_calls hash dead late t' ≡ some t'')
    × (delete_listener hash dead 5 l t'' ≡ some (true, end))
    × ((key : List ℕ) → get_listener hash dead key end ≡ some (some 5) → ⊥)
delete_listener-get_listener_example =
    delete_listener-get_listener hash dead 5 (100 ∷ []) early late refl refl
