-- ===== src/Listener/Sound.antt =====
-- What a part of src/listener.cpp keeps: its slots can be found by probing, and are counted.
use sipp.Base.{
  ℕ, zero, suc, ◌+◌, ◌≤◌, ◌<◌, ◌≡◌, refl, ap, false, List, Option, none, some, ◌==◌, arith,
  Bool-cases, Option-cases, ◌⊎◌, inl, inr, ==_refl,
}
use sipp.Base.Update.{update}
use sipp.Listener.{Slot, Part, home_slot}
use sipp.Listener.Cyclic.{dist}

abbrev pub taken : Option Slot → ℕ
taken none = 0
taken (some _) = 1

-- The slots that are taken, of the first `n`.
abbrev pub occupied : ℕ → (ℕ → Option Slot) → ℕ
occupied zero slots = 0
occupied (suc n) slots = taken (slots n) + occupied n slots

occupied-update_past :
    (n i : ℕ) (slots : ℕ → Option Slot) (v : Option Slot)
    → n ≤ i
    → occupied n (update slots i v) ≡ occupied n slots
occupied-update_past zero i slots v h = refl
occupied-update_past (suc n) i slots v h =
    let other : (n == i) ≡ false = ground arith in
    rw (other, occupied-update_past n i slots v (omega arith)) refl

pub occupied-update :
    (n i : ℕ) (slots : ℕ → Option Slot) (v : Option Slot)
    → i < n
    → occupied n (update slots i v) + taken (slots i) ≡ occupied n slots + taken v
occupied-update zero i slots v h = absurd (omega arith)
occupied-update (suc n) i slots v h = elim (Bool-cases (n == i)) [
  | inl e ↦
      let same : n ≡ i = ground arith in
      let past = occupied-update_past n i slots v (omega arith) in
      rw (e, past) (omega (arith, ap (λ k. taken (slots k)) same))
  | inr e ↦ rw e (omega (arith, occupied-update n i slots v (ground arith)))
]

pub free_slot_of :
    (n : ℕ) (slots : ℕ → Option Slot) → occupied n slots < n → (f : ℕ) × (f < n) × (slots f ≡ none)
free_slot_of zero slots h = absurd (omega arith)
free_slot_of (suc n) slots h = elim (Option-cases (slots n)) [
  | inl e ↦ (n, omega arith, e)
  | inr (slot, e) ↦
      let (f, l, g) = free_slot_of n slots (omega (arith, ap taken e)) in (f, omega arith, g)
]

pub update_self : (slots : ℕ → Option Slot) (i : ℕ) (v : Option Slot) → update slots i v i ≡ v
update_self slots i v = rw (==_refl i) refl

pub update_other :
    (slots : ℕ → Option Slot) (i j : ℕ) (v : Option Slot)
    → (j ≡ i → ⊥)
    → update slots i v j ≡ slots j
update_other slots i j v h = let other : (j == i) ≡ false = ground arith in rw other refl

pub occupied-le : (n : ℕ) (slots : ℕ → Option Slot) → occupied n slots ≤ n
occupied-le zero slots = omega arith
occupied-le (suc n) slots = elim (Option-cases (slots n)) [
  | inl e ↦ omega (arith, ap taken e, occupied-le n slots)
  | inr (slot, e) ↦ omega (arith, ap taken e, occupied-le n slots)
]

pub update_cases :
    (slots : ℕ → Option Slot) (i j : ℕ) (v : Option Slot)
    → ((j ≡ i) × (update slots i v j ≡ v)) ⊎ ((j ≡ i → ⊥) × (update slots i v j ≡ slots j))
update_cases slots i j v = elim (Bool-cases (j == i)) [
  | inl e ↦ inl (ground arith, rw e refl)
  | inr e ↦ inr ((λ f. ground arith), rw e refl)
]

-- The slots from the home of a taken one up to it are taken.
abbrev pub Reached : (ℕ → Option Slot) → ℕ → Type 0
Reached slots size =
    (i j : ℕ) (slot : Slot)
    → i < size
    → j < size
    → slots i ≡ some slot
    → dist size (home_slot size slot.hash) j < dist size (home_slot size slot.hash) i
    → slots j ≡ none
    → ⊥

module _ (key_hash : List ℕ → ℕ) where
  pub record IsSound (slots : ℕ → Option Slot) (size : ℕ) : Type 0 where
    pub hashed :
        (i : ℕ) (slot : Slot) → i < size → slots i ≡ some slot → slot.hash ≡ key_hash slot.key
    pub reached : Reached slots size
    pub once :
        (i j : ℕ) (a b : Slot)
        → i < size
        → j < size
        → slots i ≡ some a
        → slots j ≡ some b
        → a.key ≡ b.key
        → i ≡ j

  -- A part: sound slots, all counted, with one that is free.
  pub record IsSoundPart (part : Part) : Type 0 where
    pub sound : IsSound part.slots part.size
    pub counted : part.used ≡ occupied part.size part.slots
    pub room : part.size ≡ 0 ⊎ part.used < part.size
