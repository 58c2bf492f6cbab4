-- ===== src/Base/Lists.antt =====
-- Lists measured and indexed by native numbers, and lists of identifiers as C++ containers of
-- pointers: membership as a test, and the removal of one element.
use Prim.Native.Nat.{ℕ, zero, suc, ◌+◌, ◌-◌, ◌≤◌, ◌<◌}
use mathlib.Core.Path.{◌≡◌, refl, sym, ap, ◌∙◌}
use mathlib.Core.Bool.{Bool, true, false, ◌||◌}
use mathlib.Core.List.{List, [], ◌∷◌, ◌++◌}
use mathlib.Core.Option.{Option, none, some}
use native.Mathlib.Omega.{arith}
use sipp.Base.Tests.{◌==◌, if◌then◌else◌}

module _ {ℓ} {A : Type ℓ} where
  abbrev pub length : List A → ℕ
  length [] = 0
  length (x ∷ xs) = suc (length xs)

  abbrev pub get_elem? : List A → ℕ → Option A
  get_elem? [] i = none
  get_elem? (x ∷ xs) zero = some x
  get_elem? (x ∷ xs) (suc i) = get_elem? xs i

  abbrev pub get_or : List A → ℕ → A → A
  get_or [] i d = d
  get_or (x ∷ xs) zero d = x
  get_or (x ∷ xs) (suc i) d = get_or xs i d

  -- A write out of bounds changes nothing.
  abbrev pub set : List A → ℕ → A → List A
  set [] i v = []
  set (x ∷ xs) zero v = v ∷ xs
  set (x ∷ xs) (suc i) v = x ∷ set xs i v

  abbrev pub take : ℕ → List A → List A
  take zero xs = []
  take (suc n) [] = []
  take (suc n) (x ∷ xs) = x ∷ take n xs

  abbrev pub drop : ℕ → List A → List A
  drop zero xs = xs
  drop (suc n) [] = []
  drop (suc n) (x ∷ xs) = drop n xs

  abbrev pub replicate : ℕ → A → List A
  replicate zero a = []
  replicate (suc n) a = a ∷ replicate n a

  pub length-append : (xs ys : List A) → length (xs ++ ys) ≡ length xs + length ys
  length-append [] ys = omega arith
  length-append (x ∷ xs) ys = omega (arith, length-append xs ys)

  pub length-set : (xs : List A) (i : ℕ) (v : A) → length (set xs i v) ≡ length xs
  length-set [] i v = refl
  length-set (x ∷ xs) zero v = refl
  length-set (x ∷ xs) (suc i) v = ap suc (length-set xs i v)

  pub length-replicate : (n : ℕ) (a : A) → length (replicate n a) ≡ n
  length-replicate zero a = refl
  length-replicate (suc n) a = ap suc (length-replicate n a)

  pub length-take_le :
      (n : ℕ) (xs : List A) → (length (take n xs) ≤ n) × (length (take n xs) ≤ length xs)
  length-take_le zero xs = omega arith
  length-take_le (suc n) [] = omega arith
  length-take_le (suc n) (x ∷ xs) = omega (arith, length-take_le n xs)

  pub drop-append : (xs ys : List A) → drop (length xs) (xs ++ ys) ≡ ys
  drop-append [] ys = refl
  drop-append (x ∷ xs) ys = drop-append xs ys

  pub take-append : (xs ys : List A) → take (length xs) (xs ++ ys) ≡ xs
  take-append [] ys = refl
  take-append (x ∷ xs) ys = ap (λ zs. x ∷ zs) (take-append xs ys)

  pub length-drop : (n : ℕ) (xs : List A) → length (drop n xs) ≡ length xs - n
  length-drop zero xs = omega arith
  length-drop (suc n) [] = omega arith
  length-drop (suc n) (x ∷ xs) = omega (arith, length-drop n xs)

  drop-nil : (k : ℕ) → drop k [] ≡ []
  drop-nil zero = refl
  drop-nil (suc k) = refl

  pub drop-drop : (n m : ℕ) (xs : List A) → drop m (drop n xs) ≡ drop (n + m) xs
  drop-drop zero m xs = let e : m ≡ 0 + m = omega arith in ap (λ k. drop k xs) e
  drop-drop (suc n) m [] = drop-nil m ∙ sym (drop-nil (suc n + m))
  drop-drop (suc n) m (x ∷ xs) =
      let e : suc (n + m) ≡ suc n + m = omega arith in
      drop-drop n m xs ∙ ap (λ k. drop k (x ∷ xs)) e

abbrev pub has : ℕ → List ℕ → Bool
has t [] = false
has t (x ∷ xs) = (x == t) || has t xs

-- `list::erase` of the node that holds `t`.
abbrev pub erase : ℕ → List ℕ → List ℕ
erase t [] = []
erase t (x ∷ xs) = if x == t then xs else x ∷ erase t xs

abbrev pub Nodup : List ℕ → Type 0
Nodup [] = Unit
Nodup (x ∷ xs) = (has x xs ≡ false) × Nodup xs

pub has-append : (t : ℕ) (xs ys : List ℕ) → has t (xs ++ ys) ≡ (has t xs || has t ys)
has-append t [] ys = refl
has-append t (x ∷ xs) ys = ground (arith, has-append t xs ys)

pub has-erase_ne : (t u : ℕ) (xs : List ℕ) → (t ≡ u → ⊥) → has u (erase t xs) ≡ has u xs
has-erase_ne t u [] h = refl
has-erase_ne t u (x ∷ xs) h = ground (arith, has-erase_ne t u xs h)

pub has-erase_self : (t : ℕ) (xs : List ℕ) → Nodup xs → has t (erase t xs) ≡ false
has-erase_self t [] h = refl
has-erase_self t (x ∷ xs) h = ground (arith, has-erase_self t xs h.1)

pub Nodup-erase : (t : ℕ) (xs : List ℕ) → Nodup xs → Nodup (erase t xs)
Nodup-erase t [] h = tt
Nodup-erase t (x ∷ xs) h = ground (arith, Nodup-erase t xs h.1, has-erase_ne t x xs)

pub Nodup-snoc : (t : ℕ) (xs : List ℕ) → Nodup xs → has t xs ≡ false → Nodup (xs ++ t ∷ [])
Nodup-snoc t [] h a = (refl, tt)
Nodup-snoc t (x ∷ xs) h a = ground (arith, Nodup-snoc t xs h.1, has-append x xs (t ∷ []))

pub length-erase : (t : ℕ) (xs : List ℕ) → has t xs ≡ true → suc (length (erase t xs)) ≡ length xs
length-erase t [] h = ground arith
length-erase t (x ∷ xs) h = ground (arith, length-erase t xs)

pub Nodup-append :
    (xs ys : List ℕ)
    → Nodup xs
    → Nodup ys
    → ((u : ℕ) → has u ys ≡ true → has u xs ≡ false)
    → Nodup (xs ++ ys)
Nodup-append [] ys p q r = q
Nodup-append (x ∷ xs) ys p q r = (
  ground (arith, has-append x xs ys, r x, p.0),
  Nodup-append xs ys p.1 q (λ u h. ground (arith, r u h)),
)

pub get_elem?-lt {ℓ} :
    {A : Type ℓ} (xs : List A) (i : ℕ) → i < length xs → (x : A) × (get_elem? xs i ≡ some x)
get_elem?-lt [] i h = absurd (omega arith)
get_elem?-lt (x ∷ xs) zero h = (x, refl)
get_elem?-lt (x ∷ xs) (suc i) h = get_elem?-lt xs i (omega arith)
