-- ===== src/Listener/Probe.antt =====
-- `probe` of src/listener.cpp finds the slot of a key, or tells that it has none.
use sipp.Base.{
  ℕ, zero, suc, ◌+◌, ◌<◌, ◌≡◌, refl, sym, ap, subst, ◌∙◌, false, ◌&&◌, List, Option, none, some,
  ltb, ◌==◌, arith, Bool-cases, Option-cases, ◌⊎◌, inl, inr, some_injective, none-some,
}
use sipp.Base.Bytes.{bytes_eq, bytes_eq_iff}
use sipp.Listener.{Slot, home_slot, probe_from, probe}
use sipp.Listener.Cyclic.{
  dist, next_slot, next_slot_lem, next_slot-lt, dist-next_slot, dist-lt, dist-injective, dist_self,
}
use sipp.Listener.Sound.{IsSound, occupied, free_slot_of}

pub home_slot-lt : (size hash : ℕ) → 0 < size → home_slot size hash < size
unfolding home_slot
home_slot-lt size hash h = omega arith

pub lt_or : (a b : ℕ) → (a < b) ⊎ ((a ≡ b) ⊎ (b < a))
lt_or a b = elim (Bool-cases (ltb a b)) [
  | inl e ↦ inl (ground arith)
  | inr e ↦ elim (Bool-cases (a == b)) [
    | inl f ↦ inr (inl (ground arith))
    | inr f ↦ inr (inr (ground arith))
  ]
]

pub other_key :
    {h : ℕ} {key : List ℕ} (slot : Slot)
    → ((slot.hash == h) && bytes_eq slot.key key) ≡ false
    → slot.key ≡ key
    → slot.hash ≡ h
    → ⊥
other_key {key = key} slot t k same = ground (arith, (bytes_eq_iff slot.key key).1 k)

-- No slot has the key.
abbrev pub Absent : (ℕ → Option Slot) → ℕ → List ℕ → Type 0
Absent slots size key = (j : ℕ) (slot : Slot) → j < size → slots j ≡ some slot → slot.key ≡ key → ⊥

-- The slot of the key, or the free one where the key would go: those before it are taken by others.
abbrev pub Probed : (ℕ → Option Slot) → ℕ → ℕ → List ℕ → ℕ → Type 0
Probed slots size home key i =
    (i < size)
    × ((j : ℕ)
        → j < size
        → dist size home j < dist size home i
        → (slot : Slot) × (slots j ≡ some slot))
    × (((slots i ≡ none) × Absent slots size key)
        ⊎ ((slot : Slot) × (slots i ≡ some slot) × (slot.key ≡ key)))

module _ (key_hash : List ℕ → ℕ) (slots : ℕ → Option Slot) (size : ℕ) (key : List ℕ)
    (s : IsSound key_hash slots size) where
  abbrev home : ℕ
  home = home_slot size (key_hash key)

  abbrev Passed : ℕ → Type 0
  Passed i =
      (j : ℕ)
      → j < size
      → dist size home j < dist size home i
      → (slot : Slot) × (slots j ≡ some slot) × (slot.key ≡ key → ⊥)

  free-Absent : (i : ℕ) → i < size → Passed i → slots i ≡ none → Absent slots size key
  free-Absent i l p e j slot m f k =
      let same : home_slot size slot.hash ≡ home =
        ap (home_slot size) (s.hashed j slot m f ∙ ap key_hash k) in
      elim (lt_or (dist size home j) (dist size home i)) [
        | inl less ↦
            let (other, g, away) = p j m less in
            away (ap (λ (x : Slot). x.key) (some_injective other slot (sym g ∙ f)) ∙ k)
        | inr (inl eq) ↦
            let there =
              dist-injective size home j i (home_slot-lt size (key_hash key) (omega arith)) m l
                eq in
            none-some (slots i) slot e (sym (ap slots there) ∙ f)
        | inr (inr more) ↦
            s.reached j i slot m l f (subst (λ h. dist size h i < dist size h j) (sym same) more) e
      ]

  probe_from-Probed :
      (n i f : ℕ)
      → i < size
      → f < size
      → slots f ≡ none
      → Passed i
      → dist size home f < dist size home i + n
      → (r : ℕ) × (probe_from n slots size key (key_hash key) i ≡ some r)
        × Probed slots size home key r
  unfolding probe_from
  probe_from-Probed zero i f l m e p d =
      let (slot, g, away) = p f m (omega arith) in absurd (none-some (slots f) slot e g)
  probe_from-Probed (suc n) i f l m e p d = elim (Option-cases (slots i)) [
    | inl g ↦ (
      i,
      rw (probe_from, g) refl,
      (l, (λ j k q. let (slot, h, _) = p j k q in (slot, h)), inl (g, free-Absent i l p g)),
    )
    | inr (slot, g) ↦ elim (Bool-cases ((slot.hash == key_hash key) && bytes_eq slot.key key)) [
      | inl t ↦ (
        i,
        rw (probe_from, g, t) refl,
        (
          l,
          (λ j k q. let (slot, h, _) = p j k q in (slot, h)),
          inr (slot, g, (bytes_eq_iff slot.key key).0 (ground arith)),
        ),
      )
      | inr t ↦
          let low = home_slot-lt size (key_hash key) (omega arith) in
          let away : slot.key ≡ key → ⊥ =
            (λ k. other_key slot t k (s.hashed i slot l g ∙ ap key_hash k)) in
          let before : dist size home i < dist size home f =
            elim (lt_or (dist size home f) (dist size home i)) [
              | inl less ↦ let (slot', h, _) = p f m less in absurd (none-some (slots f) slot' e h)
              | inr (inl eq) ↦
                  let there = dist-injective size home f i low m l eq in
                  absurd (none-some (slots f) slot e (ap slots there ∙ g))
              | inr (inr more) ↦ more
            ] in
          let fits = dist-lt size home f low m in
          let up : dist size home (next_slot size i) ≡ dist size home i + 1 =
            dist-next_slot size home i low l (omega arith) in
          let passed : Passed (next_slot size i) = (λ j k q.
            elim (lt_or (dist size home j) (dist size home i)) [
              | inl less ↦ p j k less
              | inr (inl eq) ↦
                  let there = dist-injective size home j i low k l eq in
                  (slot, ap slots there ∙ g, away)
              | inr (inr more) ↦ absurd (omega arith)
            ]) in
          let (r, found, probed) =
            probe_from-Probed n (next_slot size i) f (next_slot-lt size i l) m e passed
              (omega arith) in
          (r, rw (probe_from, g, t, next_slot_lem size i l) found, probed)
    ]
  ]

  -- With a free slot `probe` comes to the slot of the key, or to the free one where the key would go.
  pub probe-Probed :
      (used : ℕ)
      → occupied size slots < size
      → (r : ℕ) × (probe (record { slots = slots; size = size; used = used }) key (key_hash key)
          ≡ some r)
        × Probed slots size home key r
  unfolding probe
  probe-Probed used o =
      let low = home_slot-lt size (key_hash key) (omega arith) in
      let (f, m, e) = free_slot_of size slots o in
      probe_from-Probed size home f low m e (λ j k q. absurd (omega (arith, dist_self size home)))
        (omega (arith, dist-lt size home f low m, dist_self size home))
