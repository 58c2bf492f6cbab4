-- ===== src/Listener/Object.antt =====
-- The class `listener` of src/listener.cpp and include/listener.hpp: an object by its number `this`, with the
-- table. An assertion that fails is `none`.
use sipp.Base.{ℕ, Bool, true, false, List, Option, none, some, leb, if◌then◌else◌, length}
use sipp.Listener.{Table, listen, unlisten}

-- The fields of `listener`
pub record Listener : Type 0 where
  pub id : List ℕ
  pub listening : Bool
  pub own_id : Bool

module _ (key_hash : List ℕ → ℕ) (is_dead : ℕ → Bool) where
  -- `startListening`
  unfoldable pub start_listening : ℕ → Listener → Table → Option (Listener × Table)
  unfolding listen
  start_listening this l t =
      if l.listening then none else elim (listen key_hash is_dead this l.id t) [
        | none ↦ none
        | some t' ↦ some (record l { listening = true }, t')
      ]

  -- `stopListening`
  unfoldable pub stop_listening : ℕ → Listener → Table → Option (Listener × Table)
  unfolding unlisten
  stop_listening this l t =
      if l.listening
      then elim (unlisten key_hash is_dead this l.id t) [
        | none ↦ none
        | some t' ↦ some (record l { listening = false }, t')
      ]
      else none

  -- `listener::listener` of an id, with a copy of it
  unfoldable pub new_listener : ℕ → List ℕ → Bool → Table → Option (Listener × Table)
  unfolding start_listening
  new_listener this id listening t =
      let l : Listener = record { id = id; listening = false; own_id = true } in
      if listening then start_listening this l t else some (l, t)

  -- `listener::listener` of an id with storage of some size
  unfoldable pub stored_listener : List ℕ → ℕ → Listener
  stored_listener id size = record { id = id; listening = false; own_id = leb size (length id) }

  -- `listener::~listener`: whether it frees the id, and the table
  unfoldable pub delete_listener : ℕ → Listener → Table → Option (Bool × Table)
  unfolding stop_listening
  delete_listener this l t =
      if l.listening
      then elim (stop_listening this l t) [ none ↦ none | some (l', t') ↦ some (l'.own_id, t') ]
      else some (l.own_id, t)
