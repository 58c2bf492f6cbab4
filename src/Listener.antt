-- ===== src/Listener.antt =====
-- src/listener.cpp, include/listener.hpp: the table of the keys that listeners take messages for. A
-- listener is a number and a key a text. A slot without an owner is `none`: the code reads no other field
-- of it. `x & mask` is `x % size`, the number of slots being a power of two, and a part with no slots yet
-- has `size` 0.
pub mod Cyclic
pub mod Sound
pub mod Probe
pub mod Insert
pub mod Grow
pub mod Find
pub mod Listen
pub mod Moved
pub mod Free
pub mod Freed
pub mod Unlisten
pub mod Object
pub mod Refined
pub mod Safe
use sipp.Base.{
  ℕ, zero, suc, ◌+◌, ◌-◌, ◌*◌, ◌/◌, ◌%◌, Bool, true, false, not, ◌&&◌, ◌||◌, List, [], ◌∷◌, Option,
  none, some, ltb, leb, ◌==◌, if◌then◌else◌,
}
use sipp.Base.Update.{update}
use sipp.Base.Bytes.{bytes_eq}

-- `listener_slot`: `len` is the length of `key`
pub record Slot : Type 0 where
  pub key : List ℕ
  pub owner : ℕ
  pub hash : ℕ

-- `listener_part`
pub record Part : Type 0 where
  pub slots : ℕ → Option Slot
  pub size : ℕ
  pub used : ℕ

abbrev pub listener_parts : ℕ
listener_parts = 1024

abbrev pub no_slots : Part
no_slots = record { slots = λ _. none; size = 0; used = 0 }

-- `home_slot`
unfoldable pub home_slot : ℕ → ℕ → ℕ
home_slot size hash = hash / listener_parts % size

-- The loop of `probe` from a slot on, with a number of rounds: `none` if they are not enough.
unfoldable pub probe_from : ℕ → (ℕ → Option Slot) → ℕ → List ℕ → ℕ → ℕ → Option ℕ
probe_from zero slots size key hash i = none
probe_from (suc n) slots size key hash i = elim (slots i) [
  | none ↦ some i
  | some slot ↦ elim ((slot.hash == hash) && bytes_eq slot.key key) [
    | true ↦ some i
    | false ↦ probe_from n slots size key hash ((i + 1) % size)
  ]
]

-- `probe`: no slot is visited twice
unfoldable pub probe : Part → List ℕ → ℕ → Option ℕ
unfolding probe_from home_slot
probe part key hash = probe_from part.size part.slots part.size key hash (home_slot part.size hash)

-- `*probe(part, slot.key, slot.len, slot.hash) = slot`
unfoldable pub put_slot : Slot → Part → Option Part
unfolding probe
put_slot slot part = elim (probe part slot.key slot.hash) [
  | none ↦ none
  | some i ↦ some (record part { slots = update part.slots i (some slot) })
]

-- The loop of `grow` from slot `i` of the old part on, with the number of slots that are left.
unfoldable pub grow_from : ℕ → ℕ → Part → Part → Option Part
unfolding put_slot
grow_from zero i old part = some part
grow_from (suc n) i old part = elim (old.slots i) [
  | none ↦ grow_from n (i + 1) old part
  | some slot ↦ elim (put_slot slot part) [
    | none ↦ none
    | some part' ↦ grow_from n (i + 1) old part'
  ]
]

unfoldable pub grow : Part → Option Part
unfolding grow_from
grow old =
    grow_from old.size 0 old
      (record old { slots = λ _. none; size = if old.size == 0 then 8 else old.size * 2 })

-- The part that `take_slot` takes a slot of, at most 3/4 full.
unfoldable pub with_room : Part → Option Part
unfolding grow
with_room part =
    if (part.size == 0) || ltb (part.size * 3) ((part.used + 1) * 4) then grow part else some part

-- `take_slot`: the part and the slot in it
unfoldable pub take_slot : List ℕ → ℕ → Part → Option (Part × ℕ)
unfolding with_room probe
take_slot key hash part = elim (with_room part) [
  | none ↦ none
  | some part' ↦ elim (probe part' key hash) [
    | none ↦ none
    | some i ↦ elim (part'.slots i) [
      | none ↦ some (record part' { used = part'.used + 1 }, i)
      | some _ ↦ some (part', i)
    ]
  ]
]

-- The loop of `free_slot`, with a number of rounds: the last hole and the slots.
unfoldable pub free_from : ℕ → ℕ → ℕ → ℕ → (ℕ → Option Slot) → Option (ℕ × (ℕ → Option Slot))
unfolding home_slot
free_from zero size hole i slots = none
free_from (suc n) size hole i slots = elim (slots i) [
  | none ↦ some (hole, slots)
  | some slot ↦
      elim (leb ((i + size - hole) % size) ((i + size - home_slot size slot.hash) % size)) [
        | true ↦ free_from n size i ((i + 1) % size) (update slots hole (some slot))
        | false ↦ free_from n size hole ((i + 1) % size) slots
      ]
]

-- `free_slot`: a slot that is taken is counted, so that `used` is not 0
unfoldable pub free_slot : ℕ → Part → Option Part
unfolding free_from
free_slot hole part =
    elim (free_from part.size part.size hole ((hole + 1) % part.size) part.slots) [
      | none ↦ none
      | some (last, slots) ↦
          some (record part { slots = update slots last none; used = part.used - 1 })
    ]

-- The parts, by number: `listeners.parts`
abbrev pub Table : Type 0
Table = ℕ → Part

-- `key_hash`, `std::hash` cut to 32 bits, and the test for a `deadcall`
module _ (key_hash : List ℕ → ℕ) (is_dead : ℕ → Bool) where
  abbrev pub part_of : List ℕ → ℕ
  part_of key = key_hash key % listener_parts

  -- `find_slot` in its part: the slot, and `none` in it for a null pointer
  unfoldable pub find_slot : List ℕ → Part → Option (Option (ℕ × Slot))
  unfolding probe
  find_slot key part = elim (part.size == 0) [
    | true ↦ some none
    | false ↦ elim (probe part key (key_hash key)) [
      | none ↦ none
      | some i ↦ elim (part.slots i) [ none ↦ some none | some slot ↦ some (some (i, slot)) ]
    ]
  ]

  -- Whether `listen` leaves a slot to its owner.
  abbrev pub leaves : ℕ → Option Slot → Bool
  leaves this none = false
  leaves this (some slot) = not (is_dead slot.owner) && is_dead this

  -- `listener::listen` in the part of the key
  unfoldable pub listen_part : ℕ → List ℕ → Part → Option Part
  unfolding take_slot
  listen_part this key part = elim (take_slot key (key_hash key) part) [
    | none ↦ none
    | some (part', i) ↦ some (
        if leaves this (part'.slots i) then part' else record part' {
          slots =
              update part'.slots i (some (record { key = key; owner = this; hash = key_hash key }));
        })
  ]

  -- `listener::unlisten` in the part of the key
  unfoldable pub unlisten_part : ℕ → List ℕ → Part → Option Part
  unfolding find_slot free_slot
  unlisten_part this key part = elim (find_slot key part) [
    | none ↦ none
    | some none ↦ some part
    | some (some (i, slot)) ↦ if slot.owner == this then free_slot i part else some part
  ]

  -- The change of the part of a key.
  abbrev pub in_part : (Part → Option Part) → List ℕ → Table → Option Table
  in_part f key t = elim (f (t (part_of key))) [
    | none ↦ none
    | some part ↦ some (update t (part_of key) part)
  ]

  unfoldable pub listen : ℕ → List ℕ → Table → Option Table
  unfolding listen_part
  listen this key t = in_part (listen_part this key) key t

  unfoldable pub unlisten : ℕ → List ℕ → Table → Option Table
  unfolding unlisten_part
  unlisten this key t = in_part (unlisten_part this key) key t

  -- `get_listener`
  unfoldable pub get_listener : List ℕ → Table → Option (Option ℕ)
  unfolding find_slot
  get_listener key t = elim (find_slot key (t (part_of key))) [
    | none ↦ none
    | some none ↦ some none
    | some (some (i, slot)) ↦ some (some slot.owner)
  ]
