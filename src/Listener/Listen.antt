-- ===== src/Listener/Listen.antt =====
-- `listen` of src/listener.cpp on the part of a key.
use sipp.Base.{
  ℕ, ◌+◌, ◌<◌, ◌≡◌, refl, sym, ap, subst, ◌∙◌, Bool, true, not, ◌&&◌, List, Option, none, some,
  if◌then◌else◌, arith, Bool-cases, inl, inr,
}
use sipp.Base.Update.{update}
use sipp.Base.Bytes.{bytes_eq, bytes_eq_iff}
use sipp.Listener.{Slot, Part, home_slot, probe, take_slot, with_room, listen_part}
use sipp.Listener.Sound.{IsSound, IsSoundPart, taken, occupied, occupied-update}
use sipp.Listener.Probe.{Probed, probe-Probed}
use sipp.Listener.Insert.{Says, filled-IsSound, filled-Says}
use sipp.Listener.Grow.{with_room-IsSoundPart}

abbrev pub owner_of : Option Slot → Option ℕ
owner_of none = none
owner_of (some slot) = some slot.owner

-- The owner of a key after `this` listens to it, by the one before.
abbrev pub claimed : (ℕ → Bool) → ℕ → Option ℕ → Option ℕ
claimed is_dead this none = some this
claimed is_dead this (some owner) =
    if not (is_dead owner) && is_dead this then some owner else some this

module _ (key_hash : List ℕ → ℕ) (is_dead : ℕ → Bool) where
  -- The slot that `probe` comes to tells what the slots say of the key.
  pub Probed-Says :
      (slots : ℕ → Option Slot) (size home r : ℕ) (key : List ℕ) (v : Option ℕ)
      → IsSound key_hash slots size
      → Probed slots size home key r
      → Says slots size key v
      → v ≡ owner_of (slots r)
  Probed-Says slots size home r key v s (l, _, inl (free, absent)) (inl (e, _)) =
      e ∙ ap owner_of (sym free)
  Probed-Says slots size home r key v s (l, _, inl (free, absent)) (inr (j, slot, m, f, k, e)) =
      absurd (absent j slot m f k)
  Probed-Says slots size home r key v s (l, _, inr (slot, held, same)) (inl (e, absent)) =
      absurd (absent r slot l held same)
  Probed-Says slots size home r key v s (l, _, inr (slot, held, same))
        (inr (j, other, m, f, k, e)) =
      let here : j ≡ r = s.once j r other slot m l f held (k ∙ sym same) in
      e ∙ ap owner_of (sym f ∙ ap slots here)

  -- What a key has for an owner after `this` listens to `key`.
  abbrev pub listened : ℕ → List ℕ → List ℕ → Option ℕ → Option ℕ
  listened this key k v = if bytes_eq k key then claimed is_dead this v else v

  module _ (this : ℕ) (key : List ℕ) where
    abbrev own : Slot
    own = record { key = key; owner = this; hash = key_hash key }

    -- The part after `listen`, where `probe` comes to a slot `r` that holds `o`.
    abbrev claimed_part : ℕ → Option Slot → Part → Part
    claimed_part r none part = record part {
      slots = update part.slots r (some own);
      used = part.used + 1;
    }
    claimed_part r (some slot) part =
        if not (is_dead slot.owner) && is_dead this
        then part
        else record part { slots = update part.slots r (some own) }

    module _ (part : Part) (r : ℕ) (s : IsSound key_hash part.slots part.size)
        (counted : part.used ≡ occupied part.size part.slots) (room : part.used + 1 < part.size)
        (p : Probed part.slots part.size (home_slot part.size (key_hash key)) key r) where
      claimed_part-IsSoundPart :
          (o : Option Slot) → part.slots r ≡ o → IsSoundPart key_hash (claimed_part r o part)
      claimed_part-IsSoundPart none e = record {
        sound = filled-IsSound key_hash part.slots part.size r own s refl p;
        counted =
            omega
              (arith, occupied-update part.size r part.slots (some own) p.0, ap taken e, counted);
        room = inr room;
      }
      claimed_part-IsSoundPart (some slot) e =
          elim (Bool-cases (not (is_dead slot.owner) && is_dead this)) [
            | inl t ↦ rw t (record { sound = s; counted = counted; room = inr (omega arith) })
            | inr t ↦ rw t (record {
              sound = filled-IsSound key_hash part.slots part.size r own s refl p;
              counted = omega (
                arith,
                occupied-update part.size r part.slots (some own) p.0,
                ap taken e,
                counted,
              );
              room = inr (omega arith);
            })
          ]

      filled :
          (k : List ℕ) (v : Option ℕ)
          → Says part.slots part.size k v
          → Says
              (update part.slots r (some own))
              part.size
              k
              (if bytes_eq k key then some this else v)
      filled = filled-Says key_hash part.slots part.size r own s refl p

      owned :
          (o : Option Slot)
          → part.slots r ≡ o
          → (k : List ℕ) (v : Option ℕ) → bytes_eq k key ≡ true
          → Says part.slots part.size k v
          → v ≡ owner_of o
      owned o e k v t says =
          Probed-Says part.slots part.size (home_slot part.size (key_hash key)) r key v s p
            (subst (λ x. Says part.slots part.size x v) ((bytes_eq_iff k key).0 t) says)
          ∙ ap owner_of e

      claimed_part-Says :
          (o : Option Slot)
          → part.slots r ≡ o
          → (k : List ℕ) (v : Option ℕ) → Says part.slots part.size k v
          → Says
              (claimed_part r o part).slots
              (claimed_part r o part).size
              k
              (listened this key k v)
      claimed_part-Says none e k v says = elim (Bool-cases (bytes_eq k key)) [
        | inl t ↦
            let now : some this ≡ listened this key k v = rw (t, owned none e k v t says) refl in
            subst (λ x. Says (update part.slots r (some own)) part.size k x) now
              (rw t at (filled k v says))
        | inr t ↦ rw t (rw t at (filled k v says))
      ]
      claimed_part-Says (some slot) e k v says =
          elim (Bool-cases (not (is_dead slot.owner) && is_dead this)) [
            | inl c ↦ elim (Bool-cases (bytes_eq k key)) [
              | inl t ↦
                  let was = owned (some slot) e k v t says in
                  let now : v ≡ listened this key k v = rw (t, was, c) refl in
                  rw c (subst (λ x. Says part.slots part.size k x) now says)
              | inr t ↦ rw (c, t) says
            ]
            | inr c ↦ elim (Bool-cases (bytes_eq k key)) [
              | inl t ↦
                  let now : some this ≡ listened this key k v =
                    rw (t, owned (some slot) e k v t says, c) refl in
                  rw c (
                    subst (λ x. Says (update part.slots r (some own)) part.size k x) now
                      (rw t at (filled k v says)))
              | inr t ↦ rw (c, t) (rw t at (filled k v says))
            ]
          ]

    listen_part-claimed_part :
        (part mid : Part) (r : ℕ) (o : Option Slot)
        → with_room part ≡ some mid
        → probe mid key (key_hash key) ≡ some r
        → mid.slots r ≡ o
        → listen_part key_hash is_dead this key part ≡ some (claimed_part r o mid)
    unfolding listen_part take_slot
    listen_part-claimed_part part mid r none g found e =
        rw (listen_part, take_slot, g, found, e) (rw e refl)
    listen_part-claimed_part part mid r (some slot) g found e =
        rw (listen_part, take_slot, g, found, e) (rw e refl)

  pub listen_part-IsSoundPart :
      (this : ℕ) (key : List ℕ) (part : Part)
      → IsSoundPart key_hash part
      → (part' : Part) × (listen_part key_hash is_dead this key part ≡ some part')
        × IsSoundPart key_hash part'
        × ((k : List ℕ) (v : Option ℕ)
            → Says part.slots part.size k v
            → Says part'.slots part'.size k (listened this key k v))
  listen_part-IsSoundPart this key part s =
      let (mid, g, sound, counted, room, keeps) = with_room-IsSoundPart key_hash part s in
      let (r, found, p) =
        probe-Probed key_hash mid.slots mid.size key sound mid.used (omega arith) in
      (
        claimed_part this key r (mid.slots r) mid,
        listen_part-claimed_part this key part mid r (mid.slots r) g found refl,
        claimed_part-IsSoundPart this key mid r sound counted room p (mid.slots r) refl,
        (λ k v says.
            claimed_part-Says this key mid r sound counted room p (mid.slots r) refl k v
              (keeps k v says)),
      )
