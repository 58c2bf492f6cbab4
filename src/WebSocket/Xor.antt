-- ===== src/WebSocket/Xor.antt =====
-- A byte masked twice is the byte.
use Prim.Native.Nat.{bit_xor, differ, digits, bit_xor-bitwise}
use native.Mathlib.Nat.{le_refl}
use sipp.Base.{
  ℕ, zero, suc, ◌+◌, ◌*◌, ◌/◌, ◌%◌, ◌≤◌, ◌<◌, ◌≡◌, refl, ap, ◌∙◌, List, [], ◌∷◌, length, arith,
}
use sipp.WebSocket.Frame.{masked_from}

abbrev xor_digits : ℕ → ℕ → ℕ → ℕ
xor_digits n a b = digits (λ b. b) differ n a b

xor_digits_fuel : (n m a b : ℕ) → a ≤ n → a ≤ m → xor_digits n a b ≡ xor_digits m a b
xor_digits_fuel zero zero a b p q = refl
xor_digits_fuel zero (suc m) zero b p q = refl
xor_digits_fuel zero (suc m) (suc a) b p q = absurd (omega arith)
xor_digits_fuel (suc n) zero zero b p q = refl
xor_digits_fuel (suc n) zero (suc a) b p q = absurd (omega arith)
xor_digits_fuel (suc n) (suc m) zero b p q = refl
xor_digits_fuel (suc n) (suc m) (suc a) b p q =
    omega (arith, xor_digits_fuel n m (suc a / 2) (b / 2) (omega arith) (omega arith))

differ_zero : (n : ℕ) → differ 0 n ≡ n
differ_zero n = refl

-- The lowest digit.
bit_xor_step : (a b : ℕ) → bit_xor a b ≡ bit_xor (a / 2) (b / 2) * 2 + differ (a % 2) (b % 2)
bit_xor_step zero b = simp bit_xor-bitwise (omega (arith, differ_zero (b % 2)))
bit_xor_step (suc a) b = omega (
  arith,
  bit_xor-bitwise (suc a) b,
  bit_xor-bitwise (suc a / 2) (b / 2),
  xor_digits_fuel a (suc a / 2) (suc a / 2) (b / 2) (omega arith) (le_refl _),
)

differ_digits : (a b : ℕ) → a < 2 → b < 2 → (differ a b < 2) × (differ (differ a b) b ≡ a)
differ_digits zero zero p q = (omega arith, refl)
differ_digits zero (suc zero) p q = (omega arith, refl)
differ_digits (suc zero) zero p q = (omega arith, refl)
differ_digits (suc zero) (suc zero) p q = (omega arith, refl)
differ_digits (suc (suc a)) b p q = absurd (omega arith)
differ_digits zero (suc (suc b)) p q = absurd (omega arith)
differ_digits (suc zero) (suc (suc b)) p q = absurd (omega arith)

bit_xor_twice_within : (n a b : ℕ) → a ≤ n → b ≤ n → bit_xor (bit_xor a b) b ≡ a
bit_xor_twice_within zero zero zero p q = refl
bit_xor_twice_within zero (suc a) b p q = absurd (omega arith)
bit_xor_twice_within zero zero (suc b) p q = absurd (omega arith)
bit_xor_twice_within (suc n) a b p q =
    let (small, back) = differ_digits (a % 2) (b % 2) (omega arith) (omega arith) in
    let high : bit_xor a b / 2 ≡ bit_xor (a / 2) (b / 2) = omega (arith, bit_xor_step a b) in
    let low : bit_xor a b % 2 ≡ differ (a % 2) (b % 2) = omega (arith, bit_xor_step a b) in
    let ih = bit_xor_twice_within n (a / 2) (b / 2) (omega arith) (omega arith) in
    let h : bit_xor (bit_xor a b / 2) (b / 2) ≡ a / 2 = ap (λ t. bit_xor t (b / 2)) high ∙ ih in
    let l : differ (bit_xor a b % 2) (b % 2) ≡ a % 2 = ap (λ t. differ t (b % 2)) low ∙ back in
    omega (arith, bit_xor_step (bit_xor a b) b)

pub bit_xor_twice : (a b : ℕ) → bit_xor (bit_xor a b) b ≡ a
bit_xor_twice a b = bit_xor_twice_within (a + b) a b (omega arith) (omega arith)

pub masked_from_twice :
    (mask : List ℕ) (i : ℕ) (xs : List ℕ) → masked_from mask i (masked_from mask i xs) ≡ xs
unfolding masked_from
masked_from_twice mask i [] = refl
masked_from_twice mask i (x ∷ xs) =
    ap (λ y. y ∷ masked_from mask (i + 1) (masked_from mask (i + 1) xs)) (bit_xor_twice x _)
    ∙ ap (λ ys. x ∷ ys) (masked_from_twice mask (i + 1) xs)

pub length-masked_from :
    (mask : List ℕ) (i : ℕ) (xs : List ℕ) → length (masked_from mask i xs) ≡ length xs
unfolding masked_from
length-masked_from mask i [] = refl
length-masked_from mask i (x ∷ xs) = ap suc (length-masked_from mask (i + 1) xs)
