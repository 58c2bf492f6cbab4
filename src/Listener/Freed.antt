-- ===== src/Listener/Freed.antt =====
-- The loop of `free_slot` of src/listener.cpp comes to an end and keeps the owners of the keys.
use sipp.Base.{
  ℕ, zero, suc, ◌+◌, ◌≤◌, ◌<◌, ◌≡◌, refl, sym, ap, subst, ◌∙◌, List, Option, none, some, leb, arith,
  Bool-cases, Option-cases, inl, inr, some_injective, none-some,
}
use sipp.Base.Update.{update}
use sipp.Listener.{Slot, home_slot, free_from}
use sipp.Listener.Cyclic.{
  dist, next_slot, next_slot_lem, next_slot-lt, dist-next_slot, dist-next_slot_fst, dist-lt,
  dist-injective, dist_self, dist_lem, dist_past, dist_apart,
}
use sipp.Listener.Sound.{IsSound, occupied, update_self, update_other}
use sipp.Listener.Probe.{home_slot-lt, lt_or}
use sipp.Listener.Insert.{Says}
use sipp.Listener.Moved.{
  emptied, before_held, after_cases, origin, after-once, after-Says, occupied-after,
}
use sipp.Listener.Free.{Cut, IsFreeing, free-IsSound, kept-IsFreeing}

module _ (key_hash : List ℕ → ℕ) (size : ℕ) where
  moved-Cut :
      (slots : ℕ → Option Slot) (hole i : ℕ) (slot : Slot)
      → IsFreeing key_hash size slots hole i
      → slots i ≡ some slot
      → dist size hole i ≤ dist size (home_slot size slot.hash) i
      → 1 < size
      → Cut key_hash size (update slots hole (some slot)) i (next_slot size i)
  moved-Cut slots hole i slot s e more two p q other l m f d g =
      let after = emptied (update slots hole (some slot)) i in
      let not_i : p ≡ i → ⊥ = λ x.
        none-some (after i) other (update_self (update slots hole (some slot)) i none)
          (sym (ap after x) ∙ f) in
      let one : dist size i (next_slot size i) ≡ 1 =
        dist-next_slot size i i s.in_i s.in_i (omega (arith, dist_self size i))
        ∙ omega (arith, dist_self size i) in
      (
        elim (after_cases slots size hole i slot s.in_hole s.in_i s.apart e q) [
          | inl (_, h) ↦ absurd (none-some (after q) slot g h)
          | inr (inl (here, _)) ↦ here
          | inr (inr (not_hole, (_, h))) ↦
              let free = sym h ∙ g in
              let (k, n, was, where_from) =
                origin slots size hole i slot s.in_hole s.in_i s.apart e p other l f in
              absurd (
                not_hole
                  (s.cut k q other n m was
                    (elim where_from [
                      | inl (in_hole, in_i) ↦
                          subst
                            (λ y.
                              dist size (home_slot size other.hash) q
                              < dist size (home_slot size other.hash) y)
                            (sym in_i)
                            (longer other
                              (some_injective slot other (
                                sym (before_held slots size hole i slot s.in_hole s.in_i s.apart e)
                                ∙ sym (ap (emptied slots hole) in_i)
                                ∙ was))
                              (subst
                                (λ y.
                                  dist size (home_slot size other.hash) q
                                  < dist size (home_slot size other.hash) y)
                                in_hole d))
                      | inr (same, _) ↦
                          subst
                            (λ y.
                              dist size (home_slot size other.hash) q
                              < dist size (home_slot size other.hash) y)
                            same d
                    ])
                    free).0)
        ],
        omega (arith, one, dist_apart size i p s.in_i l not_i),
      )
    where
      longer :
          (o : Slot)
          → slot ≡ o
          → dist size (home_slot size o.hash) q < dist size (home_slot size o.hash) hole
          → dist size (home_slot size o.hash) q < dist size (home_slot size o.hash) i
      longer o same c =
          let past : dist size hole i ≤ dist size (home_slot size o.hash) i =
            subst (λ (x : Slot). dist size hole i ≤ dist size (home_slot size x.hash) i) same
              more in
          omega (
            arith,
            dist_past size (home_slot size o.hash) hole i
                (home_slot-lt size o.hash (omega (arith, s.in_i))) s.in_hole s.in_i past,
          )

  moved-IsFreeing :
      (slots : ℕ → Option Slot) (hole i : ℕ) (slot : Slot)
      → IsFreeing key_hash size slots hole i
      → slots i ≡ some slot
      → dist size hole i ≤ dist size (home_slot size slot.hash) i
      → 1 < size
      → IsFreeing key_hash size (update slots hole (some slot)) i (next_slot size i)
  moved-IsFreeing slots hole i slot s e more two =
      let one : dist size i (next_slot size i) ≡ 1 =
        dist-next_slot size i i s.in_i s.in_i (omega (arith, dist_self size i))
        ∙ omega (arith, dist_self size i) in
      record {
        in_hole = s.in_i;
        in_i = next_slot-lt size i s.in_i;
        apart = λ x. absurd (omega (arith, one, ap (dist size i) x, dist_self size i));
        hashed = λ j a l f.
            let (k, n, was, _) = origin slots size hole i slot s.in_hole s.in_i s.apart e j a l f in
            s.hashed k a n was;
        once = after-once slots size hole i slot s.in_hole s.in_i s.apart e s.once;
        cut = moved-Cut slots hole i slot s e more two;
        between = λ p l n d f. absurd (omega (arith, one, dist_apart size i p s.in_i l n));
      }

  fits :
      (f hole i : ℕ) (slots : ℕ → Option Slot)
      → f < size
      → (f ≡ hole → ⊥)
      → slots f ≡ none
      → IsFreeing key_hash size slots hole i
      → (i ≡ f → ⊥)
      → dist size hole i + 1 < size
  fits f hole i slots l not_hole e s not_f = elim (lt_or (dist size hole f) (dist size hole i)) [
    | inl near ↦ absurd (s.between f l not_hole near e)
    | inr (inl same) ↦ absurd (not_f (sym (dist-injective size hole f i s.in_hole l s.in_i same)))
    | inr (inr far) ↦ omega (arith, dist-lt size hole f s.in_hole l)
  ]

  -- The loop ends at a free slot, `f` at the latest, with the owners of every key kept.
  pub free_from-IsSound :
      (n f hole i : ℕ) (slots : ℕ → Option Slot)
      → f < size
      → (f ≡ hole → ⊥)
      → slots f ≡ none
      → IsFreeing key_hash size slots hole i
      → dist size i f < n
      → (last : ℕ) × (slots' : ℕ → Option Slot) × (free_from n size hole i slots
          ≡ some (last, slots'))
        × IsSound key_hash (emptied slots' last) size
        × (occupied size (emptied slots' last) ≡ occupied size (emptied slots hole))
        × ((key : List ℕ) (v : Option ℕ)
            → Says (emptied slots hole) size key v
            → Says (emptied slots' last) size key v)
  unfolding free_from
  free_from-IsSound zero f hole i slots l n e s d = absurd (omega arith)
  free_from-IsSound (suc n) f hole i slots l not_hole e s d = elim (Option-cases (slots i)) [
    | inl g ↦ (
      hole,
      slots,
      rw (free_from, g) refl,
      free-IsSound key_hash size slots hole i s g,
      refl,
      (λ key v says. says),
    )
    | inr (slot, g) ↦
        let home = home_slot-lt size slot.hash (omega arith) in
        let not_f : i ≡ f → ⊥ = λ x. none-some (slots f) slot e (sym (ap slots x) ∙ g) in
        let near = dist-next_slot_fst size i f s.in_i l not_f in
        elim (Bool-cases (leb (dist size hole i) (dist size (home_slot size slot.hash) i))) [
          | inl t ↦
              let two : 1 < size = omega (
                arith,
                dist_apart size hole i s.in_hole s.in_i s.apart,
                dist-lt size hole i s.in_hole s.in_i,
              ) in
              let (last, slots', r, sound, count, keeps) =
                free_from-IsSound n f i (next_slot size i) (update slots hole (some slot)) l
                  (λ x. not_f (sym x)) (update_other slots hole f (some slot) not_hole ∙ e)
                  (moved-IsFreeing slots hole i slot s g (ground arith) two) (omega arith) in
              (
                last,
                slots',
                rw
                    (
                      free_from,
                      g,
                      dist_lem size hole i s.in_hole s.in_i,
                      dist_lem size (home_slot size slot.hash) i home s.in_i,
                      t,
                      next_slot_lem size i s.in_i,
                    )
                    r,
                sound,
                count ∙ occupied-after slots size hole i slot s.in_hole s.in_i s.apart g,
                (λ key v says.
                    keeps key v
                      (after-Says slots size hole i slot s.in_hole s.in_i s.apart g key v says)),
              )
          | inr t ↦
              let (last, slots', r, sound, count, keeps) =
                free_from-IsSound n f hole (next_slot size i) slots l not_hole e
                  (kept-IsFreeing key_hash size slots hole i slot s g (ground arith)
                    (fits f hole i slots l not_hole e s not_f))
                  (omega arith) in
              (
                last,
                slots',
                rw
                    (
                      free_from,
                      g,
                      dist_lem size hole i s.in_hole s.in_i,
                      dist_lem size (home_slot size slot.hash) i home s.in_i,
                      t,
                      next_slot_lem size i s.in_i,
                    )
                    r,
                sound,
                count,
                keeps,
              )
        ]
  ]
