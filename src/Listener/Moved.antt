-- ===== src/Listener/Moved.antt =====
-- The slots of src/listener.cpp when `free_slot` moves one back into the hole.
use sipp.Base.{
  ℕ, ◌<◌, ◌≡◌, refl, sym, ap, ◌∙◌, List, Option, none, some, arith, ◌⊎◌, inl, inr, none-some,
}
use sipp.Base.Update.{update}
use sipp.Listener.{Slot}
use sipp.Listener.Sound.{taken, occupied, occupied-update, update_cases, update_self, update_other}
use sipp.Listener.Insert.{Says}

-- The slots but for the hole, whose owner goes last.
abbrev pub emptied : (ℕ → Option Slot) → ℕ → ℕ → Option Slot
emptied slots hole = update slots hole none

module _ (slots : ℕ → Option Slot) (size hole i : ℕ) (slot : Slot) (in_hole : hole < size)
    (in_i : i < size) (apart : i ≡ hole → ⊥) (held : slots i ≡ some slot) where
  abbrev before : ℕ → Option Slot
  before = emptied slots hole

  abbrev after : ℕ → Option Slot
  after = emptied (update slots hole (some slot)) i

  pub before_hole : before hole ≡ none
  before_hole = update_self slots hole none

  pub before_held : before i ≡ some slot
  before_held = update_other slots hole i none apart ∙ held

  -- The moved slot, its old place and the other ones.
  pub after_cases :
      (j : ℕ)
      → ((j ≡ hole) × (after j ≡ some slot))
        ⊎ (((j ≡ i) × (after j ≡ none)) ⊎ ((j ≡ hole → ⊥) × ((j ≡ i → ⊥) × (after j ≡ before j))))
  after_cases j = elim (update_cases (update slots hole (some slot)) i j none) [
    | inl (here, e) ↦ inr (inl (here, e))
    | inr (not_i, e) ↦ elim (update_cases slots hole j (some slot)) [
      | inl (here, f) ↦ inl (here, e ∙ f)
      | inr (not_hole, f) ↦
          inr (inr (not_hole, (not_i, e ∙ f ∙ sym (update_other slots hole j none not_hole))))
    ]
  ]

  -- Where a slot was, which is not where another one was.
  pub origin :
      (j : ℕ) (a : Slot)
      → j < size
      → after j ≡ some a
      → (k : ℕ) × (k < size)
        × (before k ≡ some a)
        × (((j ≡ hole) × (k ≡ i)) ⊎ ((j ≡ k) × (k ≡ i → ⊥)))
  origin j a l e = elim (after_cases j) [
    | inl (here, f) ↦ (i, in_i, before_held ∙ sym f ∙ e, inl (here, refl))
    | inr (inl (here, f)) ↦ absurd (none-some (after j) a f e)
    | inr (inr (not_hole, (not_i, f))) ↦ (j, l, sym f ∙ e, inr (refl, not_i))
  ]

  pub after-once :
      ((j k : ℕ) (a b : Slot)
        → j < size
        → k < size
        → before j ≡ some a
        → before k ≡ some b
        → a.key ≡ b.key
        → j ≡ k)
      → (j k : ℕ) (a b : Slot) → j < size
      → k < size
      → after j ≡ some a
      → after k ≡ some b
      → a.key ≡ b.key
      → j ≡ k
  after-once once j k a b l m e f same =
      let (j', l', e', was) = origin j a l e in
      let (k', m', f', had) = origin k b m f in
      let one = once j' k' a b l' m' e' f' same in
      elim was [
        | inl (jh, ji) ↦ elim had [
          | inl (kh, ki) ↦ jh ∙ sym kh
          | inr (kk, n) ↦ absurd (n (sym one ∙ ji))
        ]
        | inr (jj, n) ↦ elim had [
          | inl (kh, ki) ↦ absurd (n (one ∙ ki))
          | inr (kk, _) ↦ jj ∙ one ∙ sym kk
        ]
      ]

  pub after-Says : (key : List ℕ) (v : Option ℕ) → Says before size key v → Says after size key v
  after-Says key v (inl (e, absent)) =
      inl (e, (λ j a l f same. let (k, m, g, _) = origin j a l f in absent k a m g same))
  after-Says key v (inr (j, a, l, f, same, e)) = elim (after_cases j) [
    | inl (here, _) ↦ absurd (none-some (before hole) a before_hole (sym (ap before here) ∙ f))
    | inr (inl (here, _)) ↦
        inr (hole, a, in_hole, update_hole ∙ sym before_held ∙ sym (ap before here) ∙ f, same, e)
    | inr (inr (_, (_, g))) ↦ inr (j, a, l, g ∙ f, same, e)
  ]
    where
      update_hole : after hole ≡ some slot
      update_hole =
          update_other (update slots hole (some slot)) i hole none (λ e. apart (sym e))
          ∙ update_self slots hole (some slot)

  pub occupied-after : occupied size after ≡ occupied size before
  occupied-after = omega (
    arith,
    occupied-update size hole slots (some slot) in_hole,
    occupied-update size i (update slots hole (some slot)) none in_i,
    occupied-update size hole slots none in_hole,
    ap taken (update_other slots hole i (some slot) apart ∙ held),
  )
