-- ===== src/InFile/Printf/Decimal.antt =====
-- The numbers that `expand_printf_field` of src/infile.cpp prints, read back.
use sipp.Base.{
  ℕ, zero, suc, ◌+◌, ◌*◌, ◌-◌, ◌/◌, ◌%◌, ◌≤◌, ◌<◌, ◌≡◌, refl, sym, ap, ◌∙◌, true, false, List, [],
  ◌∷◌, ◌++◌, none, arith, ◌==◌, ==_iff, ltb, length, replicate, Bool-cases, inl, inr,
}
use sipp.Base.Int.{ℤ, pos, negsuc}
use sipp.Base.Bytes.{is_digit, is_space, digits_value, strtol, long_max, codes}
use sipp.InFile.Printf.{
  ok, decimal_onto, print_number, convert, read_flags, read_capped, read_precision, expand_loop,
  expand_printf_field,
}

abbrev ten_to : ℕ → ℕ
ten_to zero = 1
ten_to (suc k) = 10 * ten_to k

digit : (n : ℕ) → is_digit (b'0' + n % 10) ≡ true
digit n = ground arith

-- Digits before `acc` are a number that `acc` goes on from.
decimal_onto-digits_value :
    (k n : ℕ) (acc : List ℕ)
    → n < ten_to k
    → digits_value 0 (decimal_onto k n acc) ≡ digits_value n acc
unfolding decimal_onto
decimal_onto-digits_value zero n acc h = ap (λ m. digits_value m acc) (omega arith)
decimal_onto-digits_value (suc k) n acc h =
    let rest = decimal_onto-digits_value k (n / 10) ((b'0' + n % 10) ∷ acc) (omega arith) in
    elim (Bool-cases (n == 0)) [
      | inl y ↦ rw y (sym (ap (λ m. digits_value m acc) ((==_iff n 0).0 y)))
      | inr z ↦ rw z (rest ∙ rw (digit n) (ap (λ m. digits_value m acc) (omega arith)))
    ]

-- Empty, or a digit first.
abbrev DigitFirst : List ℕ → Type 0
DigitFirst [] = Unit
DigitFirst (c ∷ _) = is_digit c ≡ true

decimal_onto-DigitFirst :
    (k n : ℕ) (acc : List ℕ) → DigitFirst acc → DigitFirst (decimal_onto k n acc)
unfolding decimal_onto
decimal_onto-DigitFirst zero n acc h = h
decimal_onto-DigitFirst (suc k) n acc h = elim (Bool-cases (n == 0)) [
  | inl y ↦ rw y h
  | inr z ↦ rw z (decimal_onto-DigitFirst k (n / 10) ((b'0' + n % 10) ∷ acc) (ground arith))
]

-- The digits that are printed, "0" for 0.
abbrev digits_of : List ℕ → List ℕ
digits_of ds = replicate (1 - length ds) b'0' ++ ds

digits_of-shape :
    (ds : List ℕ) (n : ℕ)
    → digits_value 0 ds ≡ n
    → DigitFirst ds
    → (c : ℕ) × (p : List ℕ) × (digits_of ds ≡ c ∷ p)
      × (is_digit c ≡ true)
      × (digits_value 0 (c ∷ p) ≡ n)
digits_of-shape [] n e f = (b'0', [], refl, refl, e)
digits_of-shape (c ∷ p) n e f =
    let z : 1 - suc (length p) ≡ 0 = omega arith in
    (c, p, ap (λ (k : ℕ). replicate k b'0' ++ c ∷ p) z, f, e)

-- The numbers that a `long` holds.
abbrev pub InLong : ℤ → Type 0
InLong (pos n) = n ≤ long_max
InLong (negsuc n) = n ≤ long_max

strtol-digits :
    (c n : ℕ) (p : List ℕ)
    → is_digit c ≡ true
    → digits_value 0 (c ∷ p) ≡ n
    → n ≤ long_max
    → strtol (c ∷ p) ≡ pos n
strtol-digits c n p d v h =
    let no_space : is_space c ≡ false = ground arith in
    let no_minus : (c == b'-') ≡ false = ground arith in
    let no_plus : (c == b'+') ≡ false = ground arith in
    let inside : ltb long_max n ≡ false = ground arith in
    rw (no_space, no_minus, no_plus, v, inside) refl

strtol-minus :
    (n : ℕ) (p : List ℕ) → digits_value 0 p ≡ suc n → n ≤ long_max → strtol (b'-' ∷ p) ≡ negsuc n
strtol-minus n p v h =
    let inside : ltb (long_max + 1) (suc n) ≡ false = ground arith in
    let some_n : (suc n == 0) ≡ false = ground arith in
    let less : suc n - 1 ≡ n = omega arith in rw (v, inside, some_n, less) refl

no_padding : (m : ℕ) (p : List ℕ) → replicate (0 - m) b' ' ++ p ≡ p
no_padding m p = let z : 0 - m ≡ 0 = omega arith in ap (λ (k : ℕ). replicate k b' ' ++ p) z

-- A number is printed by "%d" so that `strtol` reads it back, negative or not.
strtol-print_number :
    (value : ℤ) → InLong value → strtol (print_number false false 0 none value) ≡ value
unfolding print_number
strtol-print_number (pos n) h =
    let ds = decimal_onto 20 n [] in
    let (c, p, e, d, v) =
      digits_of-shape ds n (decimal_onto-digits_value 20 n [] (ground arith))
        (decimal_onto-DigitFirst 20 n [] tt) in
    ap strtol (no_padding (length (digits_of ds)) (digits_of ds) ∙ e) ∙ strtol-digits c n p d v h
strtol-print_number (negsuc n) h =
    let ds = decimal_onto 20 (suc n) [] in
    let (c, p, e, d, v) =
      digits_of-shape ds (suc n) (decimal_onto-digits_value 20 (suc n) [] (ground arith))
        (decimal_onto-DigitFirst 20 (suc n) [] tt) in
    ap strtol (no_padding (suc (length (digits_of ds))) (b'-' ∷ digits_of ds))
    ∙ strtol-minus n (digits_of ds) (ap (digits_value 0) e ∙ v) h

-- A field "%d" is expanded to the decimal number of the value, which `strtol` reads back.
pub expand_printf_field-strtol :
    (value : ℤ)
    → InLong value
    → (text : List ℕ) × (expand_printf_field value (codes "%d") ≡ ok text) × (strtol text ≡ value)
unfolding expand_printf_field expand_loop convert read_flags read_capped read_precision
expand_printf_field-strtol value h =
    (print_number false false 0 none value, refl, strtol-print_number value h)
