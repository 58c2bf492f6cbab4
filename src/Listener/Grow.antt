-- ===== src/Listener/Grow.antt =====
-- `grow` of src/listener.cpp moves the slots of a part into a larger one.
use sipp.Base.{
  ℕ, zero, suc, ◌+◌, ◌*◌, ◌<◌, ◌≡◌, refl, sym, ap, subst, ◌∙◌, List, Option, none, some, ltb, ◌==◌,
  if◌then◌else◌, arith, Bool-cases, Option-cases, inl, inr, none-some, ◌||◌,
}
use sipp.Base.Update.{update}
use sipp.Listener.{Slot, Part, home_slot, probe, put_slot, grow_from, grow, with_room}
use sipp.Listener.Sound.{
  IsSound, IsSoundPart, taken, occupied, occupied-le, occupied-update, update_cases, update_self,
}
use sipp.Listener.Probe.{Probed, probe-Probed}
use sipp.Listener.Insert.{Says, filled-IsSound}

module _ (key_hash : List ℕ → ℕ) where
  -- The new slots are those of the old ones below `i`.
  record IsMoved (old : ℕ → Option Slot) (i : ℕ) (part : Part) : Type 0 where
    pub sound : IsSound key_hash part.slots part.size
    pub count : occupied part.size part.slots ≡ occupied i old
    pub there :
        (j : ℕ) (slot : Slot)
        → j < i
        → old j ≡ some slot
        → (k : ℕ) × (k < part.size) × (part.slots k ≡ some slot)
    pub from :
        (k : ℕ) (slot : Slot)
        → k < part.size
        → part.slots k ≡ some slot
        → (j : ℕ) × (j < i) × (old j ≡ some slot)

  filled-IsMoved :
      (old : ℕ → Option Slot) (size i r : ℕ) (slot : Slot) (part : Part)
      → IsSound key_hash old size
      → i < size
      → old i ≡ some slot
      → IsMoved old i part
      → slot.hash ≡ key_hash slot.key
      → Probed part.slots part.size (home_slot part.size (key_hash slot.key)) slot.key r
      → part.slots r ≡ none
      → IsMoved old (suc i) (record part { slots = update part.slots r (some slot) })
  filled-IsMoved old size i r slot part s l e m h p free = record {
    sound = filled-IsSound key_hash part.slots part.size r slot m.sound h p;
    count = omega (
      arith,
      occupied-update part.size r part.slots (some slot) p.0,
      ap taken free,
      ap taken e,
      m.count,
    );
    there = λ j other k f. elim (Bool-cases (j == i)) [
      | inl t ↦
          let here : j ≡ i = ground arith in
          (r, p.0, update_self part.slots r (some slot) ∙ sym e ∙ sym (ap old here) ∙ f)
      | inr t ↦
          let (q, n, g) = m.there j other (ground arith) f in
          elim (update_cases part.slots r q (some slot)) [
            | inl (same, c) ↦
                absurd (none-some (part.slots r) other free (sym (ap part.slots same) ∙ g))
            | inr (away, c) ↦ (q, n, c ∙ g)
          ]
    ];
    from = λ k other n f. elim (update_cases part.slots r k (some slot)) [
      | inl (same, c) ↦ (i, omega arith, e ∙ sym c ∙ f)
      | inr (away, c) ↦ let (j, q, g) = m.from k other n (sym c ∙ f) in (j, omega arith, g)
    ];
  }

  -- One slot more.
  put_slot-IsMoved :
      (old : ℕ → Option Slot) (size i : ℕ) (slot : Slot) (part : Part)
      → IsSound key_hash old size
      → i < size
      → size < part.size
      → old i ≡ some slot
      → IsMoved old i part
      → (part' : Part) × (put_slot slot part ≡ some part')
        × (part'.size ≡ part.size)
        × (part'.used ≡ part.used)
        × IsMoved old (suc i) part'
  unfolding put_slot
  put_slot-IsMoved old size i slot part s l big e m =
      let hash = s.hashed i slot l e in
      let (r, found, p) =
        probe-Probed key_hash part.slots part.size slot.key m.sound part.used
          (omega (arith, m.count, occupied-le i old)) in
      let found' : probe part slot.key slot.hash ≡ some r = ap (probe part slot.key) hash ∙ found in
      let free : part.slots r ≡ none = elim p.2 [
        | inl (f, _) ↦ f
        | inr (other, g, same) ↦
            let (j, k, f) = m.from r other p.0 g in
            absurd (omega (arith, s.once j i other slot (omega arith) l f e same))
      ] in
      (
        record part { slots = update part.slots r (some slot) },
        rw (put_slot, found') refl,
        refl,
        refl,
        filled-IsMoved old size i r slot part s l e m hash p free,
      )

  next-IsMoved :
      (old : ℕ → Option Slot) (i : ℕ) (part : Part)
      → old i ≡ none
      → IsMoved old i part
      → IsMoved old (suc i) part
  next-IsMoved old i part e m = record {
    sound = m.sound;
    count = omega (arith, m.count, ap taken e);
    there = λ j slot k f. elim (Bool-cases (j == i)) [
      | inl t ↦
          let here : j ≡ i = ground arith in
          absurd (none-some (old i) slot e (sym (ap old here) ∙ f))
      | inr t ↦ m.there j slot (ground arith) f
    ];
    from = λ k slot n f. let (j, q, g) = m.from k slot n f in (j, omega arith, g);
  }

  grow_from-IsMoved :
      (n i : ℕ) (old part : Part)
      → IsSound key_hash old.slots old.size
      → i + n ≡ old.size
      → old.size < part.size
      → IsMoved old.slots i part
      → (part' : Part) × (grow_from n i old part ≡ some part')
        × (part'.size ≡ part.size)
        × (part'.used ≡ part.used)
        × IsMoved old.slots old.size part'
  unfolding grow_from
  grow_from-IsMoved zero i old part s k big m =
      (part, refl, refl, refl, subst (λ j. IsMoved old.slots j part) (omega arith) m)
  grow_from-IsMoved (suc n) i old part s k big m =
      let up : suc i ≡ i + 1 = omega arith in
      elim (Option-cases (old.slots i)) [
        | inl e ↦
            let (part', g, size, used, m') =
              grow_from-IsMoved n (i + 1) old part s (omega arith) big
                (subst (λ j. IsMoved old.slots j part) up (next-IsMoved old.slots i part e m)) in
            (part', rw (grow_from, e) g, size, used, m')
        | inr (slot, e) ↦
            let (next, f, size, used, m') =
              put_slot-IsMoved old.slots old.size i slot part s (omega arith) big e m in
            let (part', g, size', used', m'') =
              grow_from-IsMoved n (i + 1) old next s (omega arith) (omega (arith, size))
                (subst (λ j. IsMoved old.slots j next) up m') in
            (part', rw (grow_from, e, f) g, size' ∙ size, used' ∙ used, m'')
      ]

  moved-Says :
      (old : ℕ → Option Slot) (size : ℕ) (part : Part) (key : List ℕ) (v : Option ℕ)
      → IsMoved old size part
      → Says old size key v
      → Says part.slots part.size key v
  moved-Says old size part key v m (inl (e, absent)) =
      inl (e, (λ k slot n f same. let (j, q, g) = m.from k slot n f in absent j slot q g same))
  moved-Says old size part key v m (inr (j, slot, l, f, k, e)) =
      let (q, n, g) = m.there j slot l f in inr (q, slot, n, g, k, e)

  occupied_empty : (n : ℕ) → occupied n (λ _. none) ≡ 0
  occupied_empty zero = refl
  occupied_empty (suc n) = omega (arith, occupied_empty n)

  empty-IsMoved :
      (old : ℕ → Option Slot) (size used : ℕ)
      → IsMoved old 0 (record { slots = λ _. none; size = size; used = used })
  empty-IsMoved old size used = record {
    sound = record {
      hashed = λ i slot l e. absurd (none-some none slot refl e);
      reached = λ i j slot l m e d f. none-some none slot refl e;
      once = λ i j a b l m e f k. absurd (none-some none a refl e);
    };
    count = occupied_empty size;
    there = λ j slot l e. absurd (omega arith);
    from = λ k slot l e. absurd (none-some none slot refl e);
  }

  larger : ℕ → ℕ
  larger size = if size == 0 then 8 else size * 2

  larger-lt :
      (part : Part)
      → IsSoundPart key_hash part
      → (part.size < larger part.size) × (part.used + 1 < larger part.size)
  unfolding larger
  larger-lt part s = elim s.room [
    | inl none_yet ↦
        let nothing : part.used ≡ 0 = s.counted ∙ ap (λ n. occupied n part.slots) none_yet in
        (ground arith, ground arith)
    | inr less ↦ (ground arith, ground arith)
  ]

  -- The part that `take_slot` goes on with has a slot left to take, and says of each key what it said.
  pub with_room-IsSoundPart :
      (part : Part)
      → IsSoundPart key_hash part
      → (part' : Part) × (with_room part ≡ some part')
        × IsSound key_hash part'.slots part'.size
        × (part'.used ≡ occupied part'.size part'.slots)
        × (part'.used + 1 < part'.size)
        × ((key : List ℕ) (v : Option ℕ)
            → Says part.slots part.size key v
            → Says part'.slots part'.size key v)
  unfolding with_room grow larger
  with_room-IsSoundPart part s =
      elim (Bool-cases ((part.size == 0) || ltb (part.size * 3) ((part.used + 1) * 4))) [
        | inl t ↦
            let (part', g, size, used, m) =
              grow_from-IsMoved part.size 0 part
                (record part { slots = λ _. none; size = larger part.size }) s.sound (omega arith)
                (larger-lt part s).0 (empty-IsMoved part.slots (larger part.size) part.used) in
            (
              part',
              rw t g,
              m.sound,
              used ∙ s.counted ∙ sym m.count,
              omega (arith, size, used, (larger-lt part s).1),
              (λ key v. moved-Says part.slots part.size part' key v m),
            )
        | inr t ↦ (part, rw t refl, s.sound, s.counted, ground arith, (λ key v says. says))
      ]
