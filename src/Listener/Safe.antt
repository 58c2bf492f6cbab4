-- ===== src/Listener/Safe.antt =====
-- A listener of src/listener.cpp that is deleted leaves no key behind that leads to it.
use sipp.Base.{
  ℕ, ◌≡◌, refl, sym, ◌∙◌, Bool, true, false, not, ◌&&◌, List, [], ◌∷◌, Option, none, some, ◌==◌,
  arith, Bool-cases, inl, inr, some_injective, none-some, ==_refl,
}
use sipp.Base.Bytes.{bytes_eq, bytes_eq_iff}
use sipp.Listener.{Table, get_listener}
use sipp.Listener.Listen.{claimed}
use sipp.Listener.Unlisten.{released}
use sipp.Listener.Object.{Listener, start_listening, stop_listening, new_listener, delete_listener}
use sipp.Listener.Refined.{
  ListenerCall, listens, unlistens, run_calls, map_call, map_calls, no_listeners,
  no_listeners-Shows, run_calls-Shows, listen-Shows, unlisten-Shows, get_listener-Shows,
}

abbrev caller : ListenerCall → ℕ
caller (listens this key) = this
caller (unlistens this key) = this

-- No call is one of `this`.
abbrev pub by_others : ℕ → List ListenerCall → Bool
by_others this [] = true
by_others this (c ∷ cs) = not (caller c == this) && by_others this cs

-- All keys of `this` are of a kind.
abbrev Held : ℕ → (List ℕ → Type 0) → (List ℕ → Option ℕ) → Type 0
Held this p m = (k : List ℕ) → m k ≡ some this → p k

released-some : (this other : ℕ) (v : Option ℕ) → released other v ≡ some this → v ≡ some this
released-some this other none e = e
released-some this other (some owner) e = elim (Bool-cases (owner == other)) [
  | inl t ↦ absurd (none-some none this refl (rw t at e))
  | inr t ↦ rw t at e
]

module _ (key_hash : List ℕ → ℕ) (is_dead : ℕ → Bool) (this : ℕ) where
  claimed-some :
      (other : ℕ) (v : Option ℕ)
      → (other == this) ≡ false
      → claimed is_dead other v ≡ some this
      → v ≡ some this
  claimed-some other none n e = let same = some_injective other this e in absurd (ground arith)
  claimed-some other (some owner) n e = elim (Bool-cases (not (is_dead owner) && is_dead other)) [
    | inl t ↦ rw t at e
    | inr t ↦ let same = some_injective other this (rw t at e) in absurd (ground arith)
  ]

  map_call-Held :
      (c : ListenerCall) (p : List ℕ → Type 0) (m : List ℕ → Option ℕ)
      → (caller c == this) ≡ false
      → Held this p m
      → Held this p (map_call key_hash is_dead c m)
  map_call-Held (listens other key) p m n h k e = elim (Bool-cases (bytes_eq k key)) [
    | inl t ↦ h k (claimed-some other (m k) n (rw t at e))
    | inr t ↦ h k (rw t at e)
  ]
  map_call-Held (unlistens other key) p m n h k e = elim (Bool-cases (bytes_eq k key)) [
    | inl t ↦ h k (released-some this other (m k) (rw t at e))
    | inr t ↦ h k (rw t at e)
  ]

  map_calls-Held :
      (calls : List ListenerCall) (p : List ℕ → Type 0) (m : List ℕ → Option ℕ)
      → by_others this calls ≡ true
      → Held this p m
      → Held this p (map_calls key_hash is_dead calls m)
  map_calls-Held [] p m n h = h
  map_calls-Held (c ∷ cs) p m n h =
      map_calls-Held cs p (map_call key_hash is_dead c m) (ground arith)
        (map_call-Held c p m (ground arith) h)

  -- Its id is the only key of a listener that starts to listen.
  start-Held :
      (id : List ℕ) (m : List ℕ → Option ℕ)
      → Held this (λ _. ⊥) m
      → Held this (λ k. k ≡ id) (map_call key_hash is_dead (listens this id) m)
  start-Held id m h k e = elim (Bool-cases (bytes_eq k id)) [
    | inl t ↦ (bytes_eq_iff k id).0 t
    | inr t ↦ absurd (h k (rw t at e))
  ]

  stop-Held :
      (id : List ℕ) (m : List ℕ → Option ℕ)
      → Held this (λ k. k ≡ id) m
      → Held this (λ _. ⊥) (map_call key_hash is_dead (unlistens this id) m)
  stop-Held id m h k e = elim (Bool-cases (bytes_eq k id)) [
    | inl t ↦ nothing (m k) (rw t at e)
    | inr t ↦ absurd (ground (arith, (bytes_eq_iff k id).1 (h k (rw t at e))))
  ]
    where
      nothing : (v : Option ℕ) → released this v ≡ some this → ⊥
      nothing v e =
          let was = released-some this this v e in
          none-some none this refl (rw (was, ==_refl this) at e)

  -- A listener starts to listen as it is made and is deleted later, whatever other listeners do before and in
  -- between. All these calls come to an end, its assertions hold, it frees its id, and then no key leads to it.
  pub delete_listener-get_listener :
      (id : List ℕ) (early late : List ListenerCall)
      → by_others this early ≡ true
      → by_others this late ≡ true
      → (t t' t'' end : Table) × (l : Listener) × (run_calls key_hash is_dead early no_listeners
          ≡ some t)
        × (new_listener key_hash is_dead this id true t ≡ some (l, t'))
        × (run_calls key_hash is_dead late t' ≡ some t'')
        × (delete_listener key_hash is_dead this l t'' ≡ some (true, end))
        × ((key : List ℕ) → get_listener key_hash is_dead key end ≡ some (some this) → ⊥)
  unfolding new_listener start_listening stop_listening delete_listener
  delete_listener-get_listener id early late o o' =
      let m = map_calls key_hash is_dead early (λ _. none) in
      let m' = map_call key_hash is_dead (listens this id) m in
      let m'' = map_calls key_hash is_dead late m' in
      let (t, e, s) =
        run_calls-Shows key_hash is_dead early no_listeners (λ _. none)
          (no_listeners-Shows key_hash is_dead) in
      let (t', e', s') = listen-Shows key_hash is_dead this id t m s in
      let (t'', e'', s'') = run_calls-Shows key_hash is_dead late t' m' s' in
      let (end, f, shown) = unlisten-Shows key_hash is_dead this id t'' m'' s'' in
      let never : Held this (λ _. ⊥) m =
        map_calls-Held early (λ _. ⊥) (λ _. none) o (λ k x. none-some none this refl x) in
      let only = map_calls-Held late (λ k. k ≡ id) m' o' (start-Held id m never) in
      let gone = stop-Held id m'' only in
      (
        t,
        t',
        t'',
        end,
        record { id = id; listening = true; own_id = true },
        e,
        rw (new_listener, start_listening, e') refl,
        e'',
        rw (delete_listener, stop_listening, f) refl,
        (λ key x.
            gone key
              (some_injective _ _ (sym (get_listener-Shows key_hash is_dead key end _ shown) ∙ x))),
      )
