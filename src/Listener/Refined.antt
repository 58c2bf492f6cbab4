-- ===== src/Listener/Refined.antt =====
-- The table of src/listener.cpp is a map from keys to owners.
use sipp.Base.{
  ℕ, ◌≡◌, refl, ap, subst, Bool, false, List, [], ◌∷◌, Option, none, some, ◌==◌, arith, Bool-cases,
  inl, inr,
}
use sipp.Base.Update.{update}
use sipp.Base.Bytes.{bytes_eq, bytes_eq_iff}
use sipp.Listener.{Part, Table, no_slots, part_of, in_part, listen, unlisten, get_listener}
use sipp.Listener.Sound.{IsSoundPart}
use sipp.Listener.Insert.{Says}
use sipp.Listener.Find.{Says-unique, find_slot-Found}
use sipp.Listener.Listen.{listened, listen_part-IsSoundPart}
use sipp.Listener.Unlisten.{unlistened, unlisten_part-IsSoundPart}

-- The table before any call.
abbrev pub no_listeners : Table
no_listeners = λ _. no_slots

-- A call of `listen` or `unlisten` by an owner for a key.
pub data ListenerCall : Type 0 where
  listens : ℕ → List ℕ → ListenerCall
  unlistens : ℕ → List ℕ → ListenerCall

module _ (key_hash : List ℕ → ℕ) (is_dead : ℕ → Bool) where
  unfoldable pub run_call : ListenerCall → Table → Option Table
  unfolding listen unlisten
  run_call (listens this key) t = listen key_hash is_dead this key t
  run_call (unlistens this key) t = unlisten key_hash is_dead this key t

  -- The calls in order.
  unfoldable pub run_calls : List ListenerCall → Table → Option Table
  unfolding run_call
  run_calls [] t = some t
  run_calls (c ∷ cs) t = elim (run_call c t) [ none ↦ none | some t' ↦ run_calls cs t' ]

  -- What they do to a map.
  abbrev pub map_call : ListenerCall → (List ℕ → Option ℕ) → List ℕ → Option ℕ
  map_call (listens this key) m k = listened key_hash is_dead this key k (m k)
  map_call (unlistens this key) m k = unlistened this key k (m k)

  abbrev pub map_calls : List ListenerCall → (List ℕ → Option ℕ) → List ℕ → Option ℕ
  map_calls [] m = m
  map_calls (c ∷ cs) m = map_calls cs (map_call c m)

  pub record Shows (t : Table) (m : List ℕ → Option ℕ) : Type 0 where
    pub parts : (n : ℕ) → IsSoundPart key_hash (t n)
    pub says :
        (key : List ℕ)
        → Says
            (t (part_of key_hash is_dead key)).slots
            (t (part_of key_hash is_dead key)).size
            key
            (m key)

  pub get_listener-Shows :
      (key : List ℕ) (t : Table) (m : List ℕ → Option ℕ)
      → Shows t m
      → get_listener key_hash is_dead key t ≡ some (m key)
  unfolding get_listener
  get_listener-Shows key t m s =
      let part = t (part_of key_hash is_dead key) in
      elim (find_slot-Found key_hash is_dead key part (s.parts _)) [
        | inl (e, absent) ↦
            rw (get_listener, e)
              (ap some (
                Says-unique key_hash is_dead part.slots part.size key none (m key) (s.parts _).sound
                  (inl (refl, absent)) (s.says key)))
        | inr (i, slot, e, l, held, same) ↦
            rw (get_listener, e)
              (ap some (
                Says-unique key_hash is_dead part.slots part.size key (some slot.owner) (m key)
                  (s.parts _).sound (inr (i, slot, l, held, same, refl)) (s.says key)))
      ]

  -- The part of a key changes, and what it says of its keys.
  module _ (key : List ℕ) (part : Part) (t : Table) (m : List ℕ → Option ℕ)
      (change : List ℕ → Option ℕ → Option ℕ) where
    abbrev here : ℕ
    here = part_of key_hash is_dead key

    in_part-Shows :
        Shows t m
        → IsSoundPart key_hash part
        → ((k : List ℕ) (v : Option ℕ)
            → Says (t here).slots (t here).size k v
            → Says part.slots part.size k (change k v))
        → ((k : List ℕ) (v : Option ℕ) → bytes_eq k key ≡ false → change k v ≡ v)
        → Shows (update t here part) (λ k. change k (m k))
    in_part-Shows s sound keeps others = record {
      parts = λ n. elim (Bool-cases (n == here)) [ inl e ↦ rw e sound | inr e ↦ rw e (s.parts n) ];
      says = λ k. elim (Bool-cases (part_of key_hash is_dead k == here)) [
        | inl e ↦
            let same : part_of key_hash is_dead k ≡ here = ground arith in
            rw e (keeps k (m k) (subst (λ n. Says (t n).slots (t n).size k (m k)) same (s.says k)))
        | inr e ↦ elim (Bool-cases (bytes_eq k key)) [
          | inl one ↦
              let same = ap (part_of key_hash is_dead) ((bytes_eq_iff k key).0 one) in
              absurd (ground arith)
          | inr other ↦ rw (e, others k (m k) other) (s.says k)
        ]
      ];
    }

  pub listen-Shows :
      (this : ℕ) (key : List ℕ) (t : Table) (m : List ℕ → Option ℕ)
      → Shows t m
      → (t' : Table) × (listen key_hash is_dead this key t ≡ some t')
        × Shows t' (map_call (listens this key) m)
  unfolding listen
  listen-Shows this key t m s =
      let (part, e, sound, keeps) =
        listen_part-IsSoundPart key_hash is_dead this key (t (part_of key_hash is_dead key))
          (s.parts _) in
      (
        update t (part_of key_hash is_dead key) part,
        rw (listen, in_part, e) refl,
        in_part-Shows key part t m (listened key_hash is_dead this key) s sound keeps
            (λ k v c. rw c refl),
      )

  pub unlisten-Shows :
      (this : ℕ) (key : List ℕ) (t : Table) (m : List ℕ → Option ℕ)
      → Shows t m
      → (t' : Table) × (unlisten key_hash is_dead this key t ≡ some t')
        × Shows t' (map_call (unlistens this key) m)
  unfolding unlisten
  unlisten-Shows this key t m s =
      let (part, e, sound, keeps) =
        unlisten_part-IsSoundPart key_hash is_dead this key (t (part_of key_hash is_dead key))
          (s.parts _) in
      (
        update t (part_of key_hash is_dead key) part,
        rw (unlisten, in_part, e) refl,
        in_part-Shows key part t m (unlistened this key) s sound keeps (λ k v c. rw c refl),
      )

  pub run_calls-Shows :
      (calls : List ListenerCall) (t : Table) (m : List ℕ → Option ℕ)
      → Shows t m
      → (t' : Table) × (run_calls calls t ≡ some t') × Shows t' (map_calls calls m)
  unfolding run_calls run_call
  run_calls-Shows [] t m s = (t, refl, s)
  run_calls-Shows (listens this key ∷ cs) t m s =
      let (next, e, shown) = listen-Shows this key t m s in
      let (t', g, shown') = run_calls-Shows cs next (map_call (listens this key) m) shown in
      (t', rw (run_calls, run_call, e) g, shown')
  run_calls-Shows (unlistens this key ∷ cs) t m s =
      let (next, e, shown) = unlisten-Shows this key t m s in
      let (t', g, shown') = run_calls-Shows cs next (map_call (unlistens this key) m) shown in
      (t', rw (run_calls, run_call, e) g, shown')

  pub no_listeners-Shows : Shows no_listeners (λ _. none)
  no_listeners-Shows = record {
    parts = λ n. record {
      sound = record {
        hashed = λ i slot l e. absurd (omega arith);
        reached = λ i j slot l m e d f. omega arith;
        once = λ i j a b l m e f k. absurd (omega arith);
      };
      counted = refl;
      room = inl refl;
    };
    says = λ key. inl (refl, (λ j slot l e k. omega arith));
  }

  -- After any calls of listen and unlisten from the empty table, which all come to an end, get_listener finds
  -- for each key the owner that a plain map has after them: the last to listen to it, but for a dead call that
  -- leaves the key to a live one, and none once its owner stops to listen.
  pub run_calls-get_listener :
      (calls : List ListenerCall)
      → (t : Table) × (run_calls calls no_listeners ≡ some t)
        × ((key : List ℕ)
            → get_listener key_hash is_dead key t ≡ some (map_calls calls (λ _. none) key))
  run_calls-get_listener calls =
      let (t, e, s) = run_calls-Shows calls no_listeners (λ _. none) no_listeners-Shows in
      (t, e, (λ key. get_listener-Shows key t (map_calls calls (λ _. none)) s))
