-- ===== src/Base/Count.antt =====
-- How many of a list of identifiers pass a test.
use Prim.Native.Nat.{ℕ, suc, ◌+◌}
use mathlib.Core.Path.{◌≡◌, refl, sym, ap, ◌∙◌}
use mathlib.Core.Bool.{false≢true, Bool, true, false, not, ◌&&◌}
use mathlib.Core.List.{List, [], ◌∷◌, ◌++◌}
use mathlib.Core.Logic.{inl, inr}
use native.Mathlib.Omega.{arith}
use sipp.Base.Tests.{◌==◌, if◌then◌else◌, ==_refl, ==_iff, Bool-cases}
use sipp.Base.Lists.{length, has, erase, Nodup}

abbrev pub count_of : (ℕ → Bool) → List ℕ → ℕ
count_of p [] = 0
count_of p (x ∷ xs) = if p x then suc (count_of p xs) else count_of p xs

pub count_of-same :
    (p q : ℕ → Bool) (xs : List ℕ)
    → ((u : ℕ) → has u xs ≡ true → p u ≡ q u)
    → count_of p xs ≡ count_of q xs
count_of-same p q [] h = refl
count_of-same p q (x ∷ xs) h =
    ground
      (arith, h x (ground (arith, ==_refl x)), count_of-same p q xs (λ u k. h u (ground arith)))

-- One that passed no longer does.
pub count_of-drop :
    (t : ℕ) (p q : ℕ → Bool) (xs : List ℕ)
    → Nodup xs
    → has t xs ≡ true
    → p t ≡ true
    → q t ≡ false
    → ((u : ℕ) → (t == u) ≡ false → p u ≡ q u)
    → count_of p xs ≡ suc (count_of q xs)
count_of-drop t p q [] n a b c h = ground arith
count_of-drop t p q (x ∷ xs) n a b c h = elim (Bool-cases (t == x)) [
  | inl y ↦
      let e : t ≡ x = (==_iff t x).0 y in
      let away : (u : ℕ) → has u xs ≡ true → p u ≡ q u = (λ u k. h u (elim (Bool-cases (t == u)) [
        | inl z ↦ absurd (false≢true (sym n.0 ∙ ap (λ w. has w xs) (sym e ∙ (==_iff t u).0 z) ∙ k))
        | inr z ↦ z
      ])) in
      ground (arith, count_of-same p q xs away, e)
  | inr z ↦ ground (arith, h x z, count_of-drop t p q xs n.1 (ground arith) b c h)
]

-- Those of `ts` passed and no longer do.
pub count_of-remove :
    (p : ℕ → Bool) (ts xs : List ℕ)
    → Nodup ts
    → Nodup xs
    → ((u : ℕ) → has u ts ≡ true → (p u ≡ true) × (has u xs ≡ true))
    → count_of p xs ≡ count_of (λ u. p u && not (has u ts)) xs + length ts
count_of-remove p [] xs m n h =
    ground (arith, count_of-same p (λ u. p u && not (has u [])) xs (λ u k. ground arith))
count_of-remove p (t ∷ ts) xs m n h =
    let rest = count_of-remove p ts xs m.1 n (λ u k. h u (ground arith)) in
    let self = h t (ground (arith, ==_refl t)) in
    let last =
      count_of-drop t (λ u. p u && not (has u ts)) (λ u. p u && not (has u (t ∷ ts))) xs n self.1
        (ground (arith, m.0, self.0)) (ground (arith, ==_refl t)) (λ u k. ground arith) in
    omega (arith, rest, last)

pub count_of-snoc :
    (p : ℕ → Bool) (t : ℕ) (xs : List ℕ) → p t ≡ false → count_of p (xs ++ t ∷ []) ≡ count_of p xs
count_of-snoc p t [] h = ground arith
count_of-snoc p t (x ∷ xs) h = ground (arith, count_of-snoc p t xs h)

pub count_of-erase :
    (p : ℕ → Bool) (t : ℕ) (xs : List ℕ) → p t ≡ false → count_of p (erase t xs) ≡ count_of p xs
count_of-erase p t [] h = refl
count_of-erase p t (x ∷ xs) h = ground (arith, count_of-erase p t xs h, (==_iff x t).0, h)
