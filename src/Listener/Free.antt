-- ===== src/Listener/Free.antt =====
-- The loop of `free_slot` of src/listener.cpp leaves slots that probing finds.
use sipp.Base.{
  ℕ, ◌+◌, ◌≤◌, ◌<◌, ◌≡◌, sym, ap, subst, ◌∙◌, List, Option, none, some, arith, inl, inr,
  some_injective, none-some,
}
use sipp.Listener.{Slot, home_slot}
use sipp.Listener.Cyclic.{
  dist, next_slot, next_slot-lt, dist-next_slot, dist-injective, dist_self, dist_through,
  dist_strict, dist_beyond,
}
use sipp.Listener.Sound.{IsSound, update_other}
use sipp.Listener.Probe.{home_slot-lt, lt_or}
use sipp.Listener.Moved.{emptied, before_held}

module _ (key_hash : List ℕ → ℕ) (size : ℕ) where
  -- Only the slots from `i` on may be cut off from their home, and only by the hole.
  abbrev pub Cut : (ℕ → Option Slot) → ℕ → ℕ → Type 0
  Cut slots hole i =
      (p q : ℕ) (slot : Slot)
      → p < size
      → q < size
      → emptied slots hole p ≡ some slot
      → dist size (home_slot size slot.hash) q < dist size (home_slot size slot.hash) p
      → emptied slots hole q ≡ none
      → (q ≡ hole) × (dist size hole i ≤ dist size hole p)

  -- What the loop keeps, at slot `i`.
  pub record IsFreeing (slots : ℕ → Option Slot) (hole i : ℕ) : Type 0 where
    pub in_hole : hole < size
    pub in_i : i < size
    pub apart : i ≡ hole → ⊥
    pub hashed :
        (j : ℕ) (slot : Slot)
        → j < size
        → emptied slots hole j ≡ some slot
        → slot.hash ≡ key_hash slot.key
    pub once :
        (j k : ℕ) (a b : Slot)
        → j < size
        → k < size
        → emptied slots hole j ≡ some a
        → emptied slots hole k ≡ some b
        → a.key ≡ b.key
        → j ≡ k
    pub cut : Cut slots hole i
    pub between :
        (p : ℕ)
        → p < size
        → (p ≡ hole → ⊥)
        → dist size hole p < dist size hole i
        → slots p ≡ none
        → ⊥

  -- At a free slot no slot is cut off.
  pub free-IsSound :
      (slots : ℕ → Option Slot) (hole i : ℕ)
      → IsFreeing slots hole i
      → slots i ≡ none
      → IsSound key_hash (emptied slots hole) size
  free-IsSound slots hole i s e = record {
    hashed = s.hashed;
    once = s.once;
    reached = λ p q slot l m f d g.
        let h = home_slot-lt size slot.hash (omega arith) in
        let (there, after) = s.cut p q slot l m f d g in
        let free : emptied slots hole i ≡ none = update_other slots hole i none s.apart ∙ e in
        let d' : dist size (home_slot size slot.hash) hole
            < dist size (home_slot size slot.hash) p =
          subst
            (λ x. dist size (home_slot size slot.hash) x < dist size (home_slot size slot.hash) p)
            there d in
        let other : p ≡ i → ⊥ =
          λ x. none-some (emptied slots hole i) slot free (sym (ap (emptied slots hole) x) ∙ f) in
        s.apart
          (s.cut p i slot l s.in_i f
            (dist_beyond size (home_slot size slot.hash) hole i p h s.in_hole s.in_i l d'
              (dist_strict size hole i p s.in_hole s.in_i l other after))
            free).0;
  }

  pub kept-IsFreeing :
      (slots : ℕ → Option Slot) (hole i : ℕ) (slot : Slot)
      → IsFreeing slots hole i
      → slots i ≡ some slot
      → dist size (home_slot size slot.hash) i < dist size hole i
      → dist size hole i + 1 < size
      → IsFreeing slots hole (next_slot size i)
  kept-IsFreeing slots hole i slot s e less fits =
      let up : dist size hole (next_slot size i) ≡ dist size hole i + 1 =
        dist-next_slot size hole i s.in_hole s.in_i fits in
      record {
        in_hole = s.in_hole;
        in_i = next_slot-lt size i s.in_i;
        apart = λ x. absurd (omega (arith, up, ap (dist size hole) x, dist_self size hole));
        hashed = s.hashed;
        once = s.once;
        cut = λ p q other l m f d g.
            let (there, after) = s.cut p q other l m f d g in
            let not_i : p ≡ i → ⊥ = λ x.
              let same : slot ≡ other = some_injective slot other (
                sym (before_held slots size hole i slot s.in_hole s.in_i s.apart e)
                ∙ sym (ap (emptied slots hole) x)
                ∙ f) in
              cut_short slot.hash
                (subst
                  (λ (o : Slot).
                    dist size (home_slot size o.hash) hole < dist size (home_slot size o.hash) i)
                  (sym same)
                  (subst
                    (λ y.
                      dist size (home_slot size other.hash) hole
                      < dist size (home_slot size other.hash) y)
                    x
                    (subst
                      (λ y.
                        dist size (home_slot size other.hash) y
                        < dist size (home_slot size other.hash) p)
                      there d)))
                less in
            (there, omega (arith, up, dist_strict size hole i p s.in_hole s.in_i l not_i after));
        between = λ p l n d f. elim (lt_or (dist size hole p) (dist size hole i)) [
          | inl near ↦ s.between p l n near f
          | inr (inl same) ↦
              none-some (slots i) slot
                (sym (ap slots (dist-injective size hole p i s.in_hole l s.in_i same)) ∙ f) e
          | inr (inr far) ↦ absurd (omega (arith, up))
        ];
      }
    where
      cut_short :
          (hash : ℕ)
          → dist size (home_slot size hash) hole < dist size (home_slot size hash) i
          → dist size (home_slot size hash) i < dist size hole i
          → ⊥
      cut_short hash d c = omega (
        arith,
        dist_through size (home_slot size hash) hole i
            (home_slot-lt size hash (omega (arith, s.in_i))) s.in_hole s.in_i (omega arith),
      )
