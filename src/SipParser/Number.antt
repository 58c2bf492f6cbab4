-- ===== src/SipParser/Number.antt =====
-- `header_number` of src/sip_parser.cpp.
use sipp.Base.{
  ℕ, ◌+◌, ◌≡◌, refl, Bool, true, false, not, ◌&&◌, List, [], ◌∷◌, ◌==◌, ltb, arith, if◌then◌else◌,
  Bool-cases, inl, inr, ==_iff, ◌∙◌,
}
use sipp.Base.Int.{ℤ, pos, negsuc}
use sipp.Base.Bytes.{
  at, is_space, is_digit, digits_value, long_max, clamp_long, strtol, strtol_signed, skip_while,
}

-- What `std::from_chars` of a view reports for a `long`.
pub data FromChars : Type 0 where
  parsed : ℤ → FromChars
  invalid : FromChars
  result_out_of_range : FromChars

abbrev from_digits : Bool → List ℕ → FromChars
from_digits minus [] = invalid
from_digits minus (c ∷ p) =
    if not (is_digit c)
    then invalid
    else if ltb (if minus then long_max + 1 else long_max) (digits_value 0 (c ∷ p))
    then result_out_of_range
    else parsed (clamp_long minus (digits_value 0 (c ∷ p)))

-- `std::from_chars`, which takes a '-' but no '+'
abbrev from_chars : List ℕ → FromChars
from_chars [] = invalid
from_chars (c ∷ p) = if c == b'-' then from_digits true p else from_digits false (c ∷ p)

-- `if (p + 1 < end && *p == '+' && p[1] != '-') p++`
abbrev skip_plus : List ℕ → List ℕ
skip_plus (c ∷ d ∷ p) = if c == b'+' && not (d == b'-') then d ∷ p else c ∷ d ∷ p
skip_plus p = p

-- `header_number`
unfoldable pub header_number : List ℕ → ℤ
header_number value =
    let p = skip_plus (skip_while is_space value) in
    elim (from_chars p) [
      | parsed n ↦ n
      | invalid ↦ pos 0
      | result_out_of_range ↦ if at p 0 == b'-' then negsuc long_max else pos long_max
    ]

from_digits_lem :
    (minus : Bool) (p : List ℕ)
    → elim (from_digits minus p) [
      | parsed n ↦ n
      | invalid ↦ pos 0
      | result_out_of_range ↦ if minus then negsuc long_max else pos long_max
    ]
      ≡ clamp_long minus (digits_value 0 p)
from_digits_lem true [] = refl
from_digits_lem false [] = refl
from_digits_lem true (c ∷ p) = ground arith
from_digits_lem false (c ∷ p) = ground arith

-- What `header_number` makes of the value after the spaces.
abbrev pub number_at : List ℕ → ℤ
number_at p = elim (from_chars p) [
  | parsed n ↦ n
  | invalid ↦ pos 0
  | result_out_of_range ↦ if at p 0 == b'-' then negsuc long_max else pos long_max
]

number_at-minus : (p : List ℕ) → number_at (b'-' ∷ p) ≡ clamp_long true (digits_value 0 p)
number_at-minus p = from_digits_lem true p

number_at-digits :
    (c : ℕ) (p : List ℕ)
    → (c == b'-') ≡ false
    → number_at (c ∷ p) ≡ clamp_long false (digits_value 0 (c ∷ p))
number_at-digits c p h = ground arith

number_at-skip_plus : (q : List ℕ) → number_at (skip_plus q) ≡ strtol_signed q
number_at-skip_plus [] = refl
number_at-skip_plus (c ∷ []) = ground arith
number_at-skip_plus (c ∷ d ∷ p) = elim (Bool-cases (c == b'+' && not (d == b'-'))) [
  | inl e ↦ rw e (number_at-digits d p (ground arith) ∙ ground arith)
  | inr e ↦ rw e (elim (Bool-cases (c == b'-')) [
    | inl m ↦ rw ((==_iff c b'-').0 m) (number_at-minus (d ∷ p))
    | inr n ↦ number_at-digits c (d ∷ p) n ∙ ground arith
  ])
]

-- `header_number` reads the number at the start of a value as `strtol` does in base 10: the same
-- spaces, signs and digits, and the same limits of a `long` on a number out of range.
pub header_number-strtol : (value : List ℕ) → header_number value ≡ strtol value
unfolding header_number
header_number-strtol value = number_at-skip_plus (skip_while is_space value)
