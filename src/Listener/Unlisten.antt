-- ===== src/Listener/Unlisten.antt =====
-- `free_slot` and `unlisten` of src/listener.cpp on the part of a key.
use sipp.Base.{
  ℕ, ◌-◌, ◌<◌, ◌≡◌, refl, sym, ap, subst, ◌∙◌, Bool, true, false, List, Option, none, some, ◌==◌,
  if◌then◌else◌, arith, Bool-cases, inl, inr, some_injective, none-some,
}
use sipp.Base.Bytes.{bytes_eq, bytes_eq_iff}
use sipp.Listener.{Slot, Part, free_slot, unlisten_part}
use sipp.Listener.Cyclic.{
  dist, next_slot, next_slot_lem, next_slot-lt, dist-next_slot, dist-lt, dist_self, dist_apart,
}
use sipp.Listener.Sound.{
  IsSound, IsSoundPart, taken, occupied-update, free_slot_of, update_cases, update_other,
}
use sipp.Listener.Insert.{Says}
use sipp.Listener.Find.{Says-unique, find_slot-Found}
use sipp.Listener.Moved.{emptied}
use sipp.Listener.Free.{IsFreeing}
use sipp.Listener.Freed.{free_from-IsSound}

-- The owner of a key after `this` stops to listen to it, by the one before.
abbrev pub released : ℕ → Option ℕ → Option ℕ
released this none = none
released this (some owner) = if owner == this then none else some owner

-- What a key has for an owner after `this` stops to listen to `key`.
abbrev pub unlistened : ℕ → List ℕ → List ℕ → Option ℕ → Option ℕ
unlistened this key k v = if bytes_eq k key then released this v else v

module _ (key_hash : List ℕ → ℕ) (is_dead : ℕ → Bool) where
  module _ (slots : ℕ → Option Slot) (size r : ℕ) (slot : Slot) (s : IsSound key_hash slots size)
      (l : r < size) (held : slots r ≡ some slot) where
    emptied-Says :
        (key : List ℕ) (v : Option ℕ)
        → Says slots size key v
        → Says (emptied slots r) size key (if bytes_eq key slot.key then none else v)
    emptied-Says key v says = elim (Bool-cases (bytes_eq key slot.key)) [
      | inl t ↦ rw t (
          inl (
            refl,
            (λ j a m e same. elim (update_cases slots r j none) [
              | inl (_, c) ↦ none-some (emptied slots r j) a c e
              | inr (away, c) ↦
                  away (
                    s.once j r a slot m l (sym c ∙ e) held (same ∙ (bytes_eq_iff key slot.key).0 t))
            ]),
          ))
      | inr t ↦ rw t (elim says [
        | inl (e, absent) ↦ inl (
          e,
          (λ j a m f same. elim (update_cases slots r j none) [
            | inl (_, c) ↦ none-some (emptied slots r j) a c f
            | inr (_, c) ↦ absent j a m (sym c ∙ f) same
          ]),
        )
        | inr (j, a, m, f, same, e) ↦
            let away : j ≡ r → ⊥ = λ x.
              let one = some_injective a slot (sym f ∙ ap slots x ∙ held) in
              differ key t (sym same ∙ ap (λ (o : Slot). o.key) one) in
            inr (j, a, m, update_other slots r j none away ∙ f, same, e)
      ])
    ]
      where
        differ : (key : List ℕ) → bytes_eq key slot.key ≡ false → key ≡ slot.key → ⊥
        differ key t e = ground (arith, (bytes_eq_iff key slot.key).1 e)

    start-IsFreeing : 1 < size → IsFreeing key_hash size slots r (next_slot size r)
    start-IsFreeing two =
        let one : dist size r (next_slot size r) ≡ 1 =
          dist-next_slot size r r l l (omega (arith, dist_self size r))
          ∙ omega (arith, dist_self size r) in
        let kept = λ (j : ℕ) (a : Slot) (e : emptied slots r j ≡ some a). kept_slot j a e in
        record {
          in_hole = l;
          in_i = next_slot-lt size r l;
          apart = λ x. absurd (omega (arith, one, ap (dist size r) x, dist_self size r));
          hashed = λ j a m e. s.hashed j a m (kept j a e).1;
          once = λ j k a b m n e f same. s.once j k a b m n (kept j a e).1 (kept k b f).1 same;
          cut = λ p q a m n e d f. elim (update_cases slots r q none) [
            | inl (here, _) ↦ (here, omega (arith, one, dist_apart size r p l m (kept p a e).0))
            | inr (away, c) ↦ absurd (s.reached p q a m n (kept p a e).1 d (sym c ∙ f))
          ];
          between = λ p m n d f. absurd (omega (arith, one, dist_apart size r p l m n));
        }
      where
        kept_slot :
            (j : ℕ) (a : Slot) → emptied slots r j ≡ some a → (j ≡ r → ⊥) × (slots j ≡ some a)
        kept_slot j a e = elim (update_cases slots r j none) [
          | inl (_, c) ↦ absurd (none-some (emptied slots r j) a c e)
          | inr (away, c) ↦ (away, sym c ∙ e)
        ]

  free_slot-IsSoundPart :
      (part : Part) (r : ℕ) (slot : Slot)
      → IsSoundPart key_hash part
      → r < part.size
      → part.slots r ≡ some slot
      → (part' : Part) × (free_slot r part ≡ some part')
        × IsSoundPart key_hash part'
        × ((k : List ℕ) (v : Option ℕ)
            → Says part.slots part.size k v
            → Says part'.slots part'.size k (if bytes_eq k slot.key then none else v))
  unfolding free_slot
  free_slot-IsSoundPart part r slot s l held =
      let room : part.used < part.size = elim s.room [
        | inl e ↦ absurd (omega arith)
        | inr less ↦ less
      ] in
      let (f, m, free) = free_slot_of part.size part.slots (omega (arith, s.counted)) in
      let away : f ≡ r → ⊥ = λ x. none-some (part.slots f) slot free (ap part.slots x ∙ held) in
      let two : 1 < part.size =
        omega (arith, dist_apart part.size r f l m away, dist-lt part.size r f l m) in
      let (last, slots', g, sound, count, keeps) =
        free_from-IsSound key_hash part.size part.size f r (next_slot part.size r) part.slots m away
          free (start-IsFreeing part.slots part.size r slot s.sound l held two)
          (dist-lt part.size (next_slot part.size r) f (next_slot-lt part.size r l) m) in
      let fewer = occupied-update part.size r part.slots none l in
      (
        record part { slots = emptied slots' last; used = part.used - 1 },
        rw (free_slot, next_slot_lem part.size r l, g) refl,
        record {
          sound = sound;
          counted = omega (arith, s.counted, count, fewer, ap taken held);
          room = inr (omega arith);
        },
        (λ k v says. keeps k _ (emptied-Says part.slots part.size r slot s.sound l held k v says)),
      )

  pub unlisten_part-IsSoundPart :
      (this : ℕ) (key : List ℕ) (part : Part)
      → IsSoundPart key_hash part
      → (part' : Part) × (unlisten_part key_hash is_dead this key part ≡ some part')
        × IsSoundPart key_hash part'
        × ((k : List ℕ) (v : Option ℕ)
            → Says part.slots part.size k v
            → Says part'.slots part'.size k (unlistened this key k v))
  unfolding unlisten_part
  unlisten_part-IsSoundPart this key part s = elim (find_slot-Found key_hash is_dead key part s) [
    | inl (e, absent) ↦ (
      part,
      rw (unlisten_part, e) refl,
      s,
      (λ k v says. stays k v none (inl (refl, absent)) refl says),
    )
    | inr (i, slot, e, l, held, same) ↦ elim (Bool-cases (slot.owner == this)) [
      | inl t ↦
          let (part', g, sound, keeps) = free_slot-IsSoundPart part i slot s l held in
          (
            part',
            rw (unlisten_part, e, t) g,
            sound,
            (λ k v says.
                subst (Says part'.slots part'.size k) (leaves_none k v slot i says l held same t)
                  (keeps k v says)),
          )
      | inr t ↦ (
        part,
        rw (unlisten_part, e, t) refl,
        s,
        (λ k v says.
            stays k v (some slot.owner) (inr (i, slot, l, held, same, refl)) (rw t refl) says),
      )
    ]
  ]
    where
      said :
          (k : List ℕ) (v w : Option ℕ)
          → bytes_eq k key ≡ true
          → Says part.slots part.size k v
          → Says part.slots part.size key w
          → v ≡ w
      said k v w t says says' =
          Says-unique key_hash is_dead part.slots part.size key v w s.sound
            (subst (λ x. Says part.slots part.size x v) ((bytes_eq_iff k key).0 t) says) says'

      stays :
          (k : List ℕ) (v w : Option ℕ)
          → Says part.slots part.size key w
          → released this w ≡ w
          → Says part.slots part.size k v
          → Says part.slots part.size k (unlistened this key k v)
      stays k v w says' e says = elim (Bool-cases (bytes_eq k key)) [
        | inl t ↦
            let one = said k v w t says says' in
            subst (Says part.slots part.size k) (rw t (one ∙ sym e ∙ sym (ap (released this) one)))
              says
        | inr t ↦ rw t says
      ]

      leaves_none :
          (k : List ℕ) (v : Option ℕ) (slot : Slot) (i : ℕ)
          → Says part.slots part.size k v
          → i < part.size
          → part.slots i ≡ some slot
          → slot.key ≡ key
          → (slot.owner == this) ≡ true
          → (if bytes_eq k slot.key then none else v) ≡ unlistened this key k v
      leaves_none k v slot i says l held same t = elim (Bool-cases (bytes_eq k key)) [
        | inl c ↦
            let one = said k v (some slot.owner) c says (inr (i, slot, l, held, same, refl)) in
            rw (same, c, one, t) refl
        | inr c ↦ rw (same, c) refl
      ]
