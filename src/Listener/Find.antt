-- ===== src/Listener/Find.antt =====
-- `find_slot` of src/listener.cpp finds the slot of a key in its part, if it has one.
use sipp.Base.{
  ℕ, ◌<◌, ◌≡◌, refl, sym, ap, ◌∙◌, Bool, List, Option, none, some, ◌==◌, arith, Bool-cases, ◌⊎◌,
  inl, inr, some_injective,
}
use sipp.Listener.{Slot, Part, find_slot}
use sipp.Listener.Sound.{IsSound, IsSoundPart}
use sipp.Listener.Probe.{Absent, probe-Probed}
use sipp.Listener.Insert.{Says}

module _ (key_hash : List ℕ → ℕ) (is_dead : ℕ → Bool) where
  -- The slots say one thing of a key.
  pub Says-unique :
      (slots : ℕ → Option Slot) (size : ℕ) (key : List ℕ) (v w : Option ℕ)
      → IsSound key_hash slots size
      → Says slots size key v
      → Says slots size key w
      → v ≡ w
  Says-unique slots size key v w s (inl (e, absent)) (inl (f, _)) = e ∙ sym f
  Says-unique slots size key v w s (inl (e, absent)) (inr (j, a, l, f, same, _)) =
      absurd (absent j a l f same)
  Says-unique slots size key v w s (inr (j, a, l, f, same, _)) (inl (e, absent)) =
      absurd (absent j a l f same)
  Says-unique slots size key v w s (inr (j, a, l, f, same, e)) (inr (k, b, m, g, same', e')) =
      let here = s.once j k a b l m f g (same ∙ sym same') in
      let one = some_injective a b (sym f ∙ ap slots here ∙ g) in
      e ∙ ap (λ (x : Slot). some x.owner) one ∙ sym e'

  pub find_slot-Found :
      (key : List ℕ) (part : Part)
      → IsSoundPart key_hash part
      → ((find_slot key_hash is_dead key part ≡ some none) × Absent part.slots part.size key)
        ⊎ ((i : ℕ) × (slot : Slot) × (find_slot key_hash is_dead key part ≡ some (some (i, slot)))
            × (i < part.size)
            × (part.slots i ≡ some slot)
            × (slot.key ≡ key))
  unfolding find_slot
  find_slot-Found key part s = elim (Bool-cases (part.size == 0)) [
    | inl t ↦ inl (rw (find_slot, t) refl, (λ j a l e same. absurd (ground arith)))
    | inr t ↦
        let room : part.used < part.size = elim s.room [
          | inl e ↦ absurd (ground arith)
          | inr less ↦ less
        ] in
        let (r, found, (l, _, at)) =
          probe-Probed key_hash part.slots part.size key s.sound part.used
            (omega (arith, s.counted)) in
        elim at [
          | inl (e, absent) ↦ inl (rw (find_slot, t, found, e) refl, absent)
          | inr (slot, e, same) ↦ inr (r, slot, rw (find_slot, t, found, e) refl, l, e, same)
        ]
  ]
