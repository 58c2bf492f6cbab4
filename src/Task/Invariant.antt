-- ===== src/Task/Invariant.antt =====
-- What the wheels of src/task.cpp keep: each waiting task stands once, in the list that its
-- `pauselist` names, at the place of its wake time.
use mathlib.Core.Bool.{false≢true}
use sipp.Base.{
  ℕ, ◌≡◌, ◌≢◌, ◌⊎◌, inl, inr, refl, sym, ap, subst, ◌∙◌, Bool, true, false, List, [], ◌∷◌, ◌++◌,
  ◌==◌, ==_refl, ==_iff, arith, Bool-cases, has, erase, Nodup, has-append, has-erase_ne,
  has-erase_self, Nodup-erase, Nodup-snoc,
}
use sipp.Task.{Slot, slot_eq, set_list, Scheduler, push_slot, take_slot}
use sipp.Task.Slots.{slot_eq_iff}

-- A task waits: the list of its `pauselist` holds it.
abbrev pub waits : Scheduler → ℕ → Bool
waits s u = has u (s.lists (s.pauselist u))

module _ (P : Slot → ℕ → Type 0) where
  -- `P` says where a task may stand.
  pub record IsSorted (s : Scheduler) : Type 0 where
    pub standing :
        (l : Slot) (u : ℕ)
        → has u (s.lists l) ≡ true
        → P l u × (s.pauselist u ≡ l) × (s.running u ≡ false)
    pub once : (l : Slot) → Nodup (s.lists l)

pub set_list_lem :
    (f : Slot → List ℕ) (k j : Slot) (v : List ℕ)
    → ((k ≡ j) × (set_list f k v j ≡ v)) ⊎ ((k ≢ j) × (set_list f k v j ≡ f j))
set_list_lem f k j v = elim (Bool-cases (slot_eq j k)) [
  | inl e ↦ inl (sym ((slot_eq_iff j k).0 e), rw e)
  | inr e ↦ inr ((λ p. ground (arith, (slot_eq_iff j k).1 (sym p))), rw e)
]

module _ {P : Slot → ℕ → Type 0} (s : Scheduler) (v : IsSorted P s) where
  -- A task out of its list is in none.
  pub take_slot-has_self : (t : ℕ) (j : Slot) → has t ((take_slot t s).lists j) ≡ false
  unfolding take_slot
  take_slot-has_self t j =
      elim (set_list_lem s.lists (s.pauselist t) j (erase t (s.lists (s.pauselist t)))) [
        | inl (e, q) ↦ rw q (has-erase_self t (s.lists (s.pauselist t)) (v.once (s.pauselist t)))
        | inr (n, q) ↦ rw q (elim (Bool-cases (has t (s.lists j))) [
          | inl y ↦ absurd (n (v.standing j t y).1)
          | inr z ↦ z
        ])
      ]

  pub take_slot-has_ne :
      (t u : ℕ) (j : Slot) → t ≢ u → has u ((take_slot t s).lists j) ≡ has u (s.lists j)
  unfolding take_slot
  take_slot-has_ne t u j n =
      elim (set_list_lem s.lists (s.pauselist t) j (erase t (s.lists (s.pauselist t)))) [
        | inl (e, q) ↦ rw (q, has-erase_ne t u _ n) (ap (λ l. has u (s.lists l)) e)
        | inr (m, q) ↦ rw q
      ]

  pub take_slot-IsSorted : (t : ℕ) → IsSorted P (take_slot t s)
  take_slot-IsSorted t = record { standing = stands; once = λ l. single l }
    where
      stands :
          (l : Slot) (u : ℕ)
          → has u ((take_slot t s).lists l) ≡ true
          → P l u × ((take_slot t s).pauselist u ≡ l) × ((take_slot t s).running u ≡ false)
      stands l u h = elim (Bool-cases (t == u)) [
        | inl e ↦ absurd (
            false≢true (
              sym (take_slot-has_self t l)
              ∙ ap (λ (k : ℕ). has k ((take_slot t s).lists l)) ((==_iff t u).0 e)
              ∙ h))
        | inr n ↦
            unfold take_slot in
            v.standing l u (sym (take_slot-has_ne t u l (λ p. ground arith)) ∙ h)
      ]

      single : (l : Slot) → Nodup ((take_slot t s).lists l)
      single l = elim (set_list_lem s.lists (s.pauselist t) l (erase t (s.lists (s.pauselist t)))) [
        | inl (e, q) ↦ unfold take_slot in rw q (Nodup-erase t _ (v.once (s.pauselist t)))
        | inr (m, q) ↦ unfold take_slot in rw q (v.once l)
      ]

pub push_slot-has_ne :
    (l : Slot) (t u : ℕ) (s : Scheduler) (j : Slot)
    → t ≢ u
    → has u ((push_slot l t s).lists j) ≡ has u (s.lists j)
unfolding push_slot
push_slot-has_ne l t u s j n = elim (set_list_lem s.lists l j (s.lists l ++ t ∷ [])) [
  | inl (e, q) ↦ rw (q, ← e, has-append u (s.lists l) (t ∷ [])) (ground arith)
  | inr (m, q) ↦ rw q
]

pub push_slot-lists_ne :
    (l j : Slot) (t : ℕ) (s : Scheduler) → l ≢ j → (push_slot l t s).lists j ≡ s.lists j
unfolding push_slot
push_slot-lists_ne l j t s n = elim (set_list_lem s.lists l j (s.lists l ++ t ∷ [])) [
  | inl (e, q) ↦ absurd (n e)
  | inr (m, q) ↦ q
]

pub push_slot-lists_self :
    (l : Slot) (t : ℕ) (s : Scheduler) → (push_slot l t s).lists l ≡ s.lists l ++ t ∷ []
unfolding push_slot
push_slot-lists_self l t s = rw ((slot_eq_iff l l).1 refl)

pub push_slot-pauselist_self :
    (l : Slot) (t : ℕ) (s : Scheduler) → (push_slot l t s).pauselist t ≡ l
unfolding push_slot
push_slot-pauselist_self l t s = rw (==_refl t)

pub push_slot-pauselist_ne :
    (l : Slot) (t u : ℕ) (s : Scheduler) → t ≢ u → (push_slot l t s).pauselist u ≡ s.pauselist u
unfolding push_slot
push_slot-pauselist_ne l t u s n = ground arith

pub push_slot-has_self :
    (l : Slot) (t : ℕ) (s : Scheduler) → has t ((push_slot l t s).lists l) ≡ true
push_slot-has_self l t s =
    rw (push_slot-lists_self l t s, has-append t (s.lists l) (t ∷ []), ==_refl t) (ground arith)

-- A pushed task waits, and the others are as before.
pub push_slot-waits_self : (l : Slot) (t : ℕ) (s : Scheduler) → waits (push_slot l t s) t ≡ true
push_slot-waits_self l t s = rw (push_slot-pauselist_self l t s) (push_slot-has_self l t s)

pub push_slot-waits_ne :
    (l : Slot) (t u : ℕ) (s : Scheduler) → t ≢ u → waits (push_slot l t s) u ≡ waits s u
push_slot-waits_ne l t u s n =
    rw (push_slot-pauselist_ne l t u s n) (push_slot-has_ne l t u s (s.pauselist u) n)

module _ {P : Slot → ℕ → Type 0} where
  pub push_slot-IsSorted :
      (l : Slot) (t : ℕ) (s : Scheduler)
      → IsSorted P s
      → P l t
      → s.running t ≡ false
      → ((j : Slot) → has t (s.lists j) ≡ false)
      → IsSorted P (push_slot l t s)
  push_slot-IsSorted l t s v p r none_has = record { standing = stands; once = single }
    where
      self :
          {j : Slot}
          → has t ((push_slot l t s).lists j) ≡ true
          → P j t × ((push_slot l t s).pauselist t ≡ j) × ((push_slot l t s).running t ≡ false)
      self {j} h = elim (set_list_lem s.lists l j (s.lists l ++ t ∷ [])) [
        | inl (e, q) ↦
            subst
              (λ (k : Slot).
                P k t × ((push_slot l t s).pauselist t ≡ k) × ((push_slot l t s).running t ≡ false))
              e (p, push_slot-pauselist_self l t s, unfold push_slot in r)
        | inr (m, q) ↦
            absurd
              (false≢true (sym (none_has j) ∙ sym (ap (has t) (push_slot-lists_ne l j t s m)) ∙ h))
      ]

      other :
          {j : Slot} {u : ℕ}
          → has u ((push_slot l t s).lists j) ≡ true
          → t ≢ u
          → P j u × ((push_slot l t s).pauselist u ≡ j) × ((push_slot l t s).running u ≡ false)
      other {j} {u} h n =
          let (a, b, c) = v.standing j u (sym (push_slot-has_ne l t u s j n) ∙ h) in
          (a, push_slot-pauselist_ne l t u s n ∙ b, unfold push_slot in c)

      stands :
          (j : Slot) (u : ℕ)
          → has u ((push_slot l t s).lists j) ≡ true
          → P j u × ((push_slot l t s).pauselist u ≡ j) × ((push_slot l t s).running u ≡ false)
      stands j u h = elim (Bool-cases (t == u)) [
        | inl e ↦
            subst
              (λ (k : ℕ).
                P j k × ((push_slot l t s).pauselist k ≡ j) × ((push_slot l t s).running k ≡ false))
              ((==_iff t u).0 e)
              (self (
                subst (λ (k : ℕ). has k ((push_slot l t s).lists j) ≡ true) (sym ((==_iff t u).0 e))
                  h))
        | inr n ↦ other h (λ p. ground arith)
      ]

      single : (j : Slot) → Nodup ((push_slot l t s).lists j)
      single j = elim (set_list_lem s.lists l j (s.lists l ++ t ∷ [])) [
        | inl (e, q) ↦ unfold push_slot in rw q (Nodup-snoc t _ (v.once l) (none_has l))
        | inr (m, q) ↦ unfold push_slot in rw q (v.once j)
      ]

  pub standing-waits :
      (s : Scheduler)
      → IsSorted P s
      → (l : Slot) (u : ℕ) → has u (s.lists l) ≡ true
      → waits s u ≡ true
  standing-waits s v l u h = ap (λ k. has u (s.lists k)) (v.standing l u h).1 ∙ h
