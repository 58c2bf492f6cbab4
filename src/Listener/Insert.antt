-- ===== src/Listener/Insert.antt =====
-- A slot of src/listener.cpp that is filled where `probe` says.
use sipp.Base.{
  ℕ, ◌<◌, ◌≡◌, refl, sym, ap, subst, ◌∙◌, false, List, Option, none, some, if◌then◌else◌, arith,
  Bool-cases, ◌⊎◌, inl, inr, some_injective, none-some,
}
use sipp.Base.Update.{update}
use sipp.Base.Bytes.{bytes_eq, bytes_eq_iff}
use sipp.Listener.{Slot, home_slot}
use sipp.Listener.Cyclic.{dist}
use sipp.Listener.Sound.{IsSound, update_cases, update_self}
use sipp.Listener.Probe.{Absent, Probed}

-- What the slots say of a key: no owner, or the owner of its slot.
abbrev pub Says : (ℕ → Option Slot) → ℕ → List ℕ → Option ℕ → Type 0
Says slots size key v =
    ((v ≡ none) × Absent slots size key)
    ⊎ ((j : ℕ) × (slot : Slot) × (j < size)
        × (slots j ≡ some slot)
        × (slot.key ≡ key)
        × (v ≡ some slot.owner))

module _ (key_hash : List ℕ → ℕ) (slots : ℕ → Option Slot) (size r : ℕ) (new : Slot)
    (s : IsSound key_hash slots size) (h : new.hash ≡ key_hash new.key)
    (p : Probed slots size (home_slot size (key_hash new.key)) new.key r) where
  abbrev filled : ℕ → Option Slot
  filled = update slots r (some new)

  -- Another slot has another key.
  other_slot : (j : ℕ) (b : Slot) → j < size → (j ≡ r → ⊥) → slots j ≡ some b → b.key ≡ new.key → ⊥
  other_slot j b l n e k = elim p.2 [
    | inl (free, absent) ↦ absent j b l e k
    | inr (slot, held, same) ↦ n (s.once j r b slot l p.0 e held (k ∙ sym same))
  ]

  filled-once :
      (i j : ℕ) (a b : Slot)
      → i < size
      → j < size
      → filled i ≡ some a
      → filled j ≡ some b
      → a.key ≡ b.key
      → i ≡ j
  filled-once i j a b l m e f k = elim (update_cases slots r i (some new)) [
    | inl (i_there, c) ↦ elim (update_cases slots r j (some new)) [
      | inl (j_there, d) ↦ i_there ∙ sym j_there
      | inr (away, d) ↦
          let is_new = ap (λ (x : Slot). x.key) (some_injective new a (sym c ∙ e)) in
          absurd (other_slot j b m away (sym d ∙ f) (sym k ∙ sym is_new))
    ]
    | inr (away, c) ↦ elim (update_cases slots r j (some new)) [
      | inl (j_there, d) ↦
          let is_new = ap (λ (x : Slot). x.key) (some_injective new b (sym d ∙ f)) in
          absurd (other_slot i a l away (sym c ∙ e) (k ∙ sym is_new))
      | inr (away', d) ↦ s.once i j a b l m (sym c ∙ e) (sym d ∙ f) k
    ]
  ]

  filled-hashed :
      (i : ℕ) (slot : Slot) → i < size → filled i ≡ some slot → slot.hash ≡ key_hash slot.key
  filled-hashed i slot l e = elim (update_cases slots r i (some new)) [
    | inl (there, c) ↦
        subst (λ (x : Slot). x.hash ≡ key_hash x.key) (some_injective new slot (sym c ∙ e)) h
    | inr (away, c) ↦ s.hashed i slot l (sym c ∙ e)
  ]

  filled-reached :
      (i j : ℕ) (slot : Slot)
      → i < size
      → j < size
      → filled i ≡ some slot
      → dist size (home_slot size slot.hash) j < dist size (home_slot size slot.hash) i
      → filled j ≡ none
      → ⊥
  filled-reached i j slot l m e d f = elim (update_cases slots r j (some new)) [
    | inl (there, c) ↦ none-some (filled j) new f c
    | inr (away, c) ↦ elim (update_cases slots r i (some new)) [
      | inl (here, g) ↦
          let is_new = some_injective new slot (sym g ∙ e) in
          let home : home_slot size slot.hash ≡ home_slot size (key_hash new.key) =
            ap (λ (x : Slot). home_slot size x.hash) (sym is_new) ∙ ap (home_slot size) h in
          let d' : dist size (home_slot size (key_hash new.key)) j
              < dist size (home_slot size (key_hash new.key)) r =
            subst
              (λ k.
                dist size (home_slot size (key_hash new.key)) j
                < dist size (home_slot size (key_hash new.key)) k)
              here (subst (λ a. dist size a j < dist size a i) home d) in
          let (other, g') = p.1 j m d' in none-some (slots j) other (sym c ∙ f) g'
      | inr (away', g) ↦ s.reached i j slot l m (sym g ∙ e) d (sym c ∙ f)
    ]
  ]

  pub filled-IsSound : IsSound key_hash filled size
  filled-IsSound = record { hashed = filled-hashed; reached = filled-reached; once = filled-once }

  -- What the slots say is changed at its key.
  pub filled-Says :
      (key : List ℕ) (v : Option ℕ)
      → Says slots size key v
      → Says filled size key (if bytes_eq key new.key then some new.owner else v)
  filled-Says key v says = elim (Bool-cases (bytes_eq key new.key)) [
    | inl t ↦ rw t (
        inr
          (r, new, p.0, update_self slots r (some new), sym ((bytes_eq_iff key new.key).0 t), refl))
    | inr t ↦ rw t (elim says [
      | inl (e, absent) ↦ inl (
        e,
        (λ j slot l f k. elim (update_cases slots r j (some new)) [
          | inl (there, c) ↦
              differ key t (sym k ∙ ap (λ (x : Slot). x.key) (some_injective slot new (sym f ∙ c)))
          | inr (away, c) ↦ absent j slot l (sym c ∙ f) k
        ]),
      )
      | inr (j, slot, l, f, k, e) ↦ elim (update_cases slots r j (some new)) [
        | inl (there, c) ↦ absurd (elim p.2 [
          | inl (free, _) ↦ none-some (slots r) slot free (sym (ap slots there) ∙ f)
          | inr (held, g, same) ↦ differ key t (
              sym k
              ∙ ap (λ (x : Slot). x.key) (some_injective slot held (sym f ∙ ap slots there ∙ g))
              ∙ same)
        ])
        | inr (away, c) ↦ inr (j, slot, l, c ∙ f, k, e)
      ]
    ])
  ]
    where
      differ : (key : List ℕ) → bytes_eq key new.key ≡ false → key ≡ new.key → ⊥
      differ key t e = ground (arith, (bytes_eq_iff key new.key).1 e)
