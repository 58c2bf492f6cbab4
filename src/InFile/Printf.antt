-- ===== src/InFile/Printf.antt =====
-- The PRINTF fields of src/infile.cpp: `expand_printf_field`, and the errors of the injection files.
pub mod Expand
pub mod Decimal
use sipp.Base.{
  ℕ, zero, suc, ◌+◌, ◌-◌, ◌*◌, ◌/◌, ◌%◌, Bool, true, false, ◌&&◌, ◌||◌, List, [], ◌∷◌, ◌++◌, Option,
  none, some, ◌==◌, if◌then◌else◌, length, replicate, min,
}
use sipp.Base.Int.{ℤ, pos, negsuc}
use sipp.Base.Bytes.{is_digit}

-- What stops the program: an `ERROR`, or a failed assertion.
pub data Fault : Type 0 where
  assert_failed : Fault
  invalid_index_file : Fault
  insert_in_printf : Fault
  invalid_line : Fault
  no_such_user : Fault
  ran_off_line : Fault
  only_decimal : Fault
  unknown_file_type : Fault
  invalid_specification : Fault
  no_virtual_line : Fault
  zero_lines : Fault
  out_of_fuel : Fault

pub data Result {ℓ} (A : Type ℓ) : Type ℓ where
  ok : A → Result A
  err : Fault → Result A

infixl 5 ◌>>=◌
abbrev pub ◌>>=◌ {ℓ κ} : {A : Type ℓ} {B : Type κ} → Result A → (A → Result B) → Result B
ok a >>= f = f a
err e >>= f = err e

abbrev pub sipp_max_msg_size : ℕ
sipp_max_msg_size = 65536

-- The decimal digits of a number before `acc`, none for 0; the fuel is the number of digits at most.
unfoldable pub decimal_onto : ℕ → ℕ → List ℕ → List ℕ
decimal_onto zero n acc = acc
decimal_onto (suc k) n acc =
    let rest = decimal_onto k (n / 10) ((b'0' + n % 10) ∷ acc) in if n == 0 then acc else rest

abbrev pub magnitude : ℤ → ℕ
magnitude (pos n) = n
magnitude (negsuc n) = suc n

abbrev pub sign_of : ℤ → List ℕ
sign_of (pos n) = []
sign_of (negsuc n) = b'-' ∷ []

-- `snprintf` of a `long long` by "%[-][0]*[.*]lld": a precision is the least number of digits, 1 if there
-- is none.
unfoldable pub print_number : Bool → Bool → ℕ → Option ℕ → ℤ → List ℕ
print_number left_align zero_pad width precision value =
    let digits = decimal_onto 20 (magnitude value) [] in
    let least : ℕ = elim precision [ none ↦ 1 | some p ↦ p ] in
    let number = sign_of value ++ (replicate (least - length digits) b'0' ++ digits) in
    let padding = width - length number in
    if left_align
    then number ++ replicate padding b' '
    else if zero_pad
    then sign_of value ++ (replicate (padding + (least - length digits)) b'0' ++ digits)
    else replicate padding b' ' ++ number

-- A conversion's flags, and the text behind them.
pub record Flags : Type 0 where
  pub left_align : Bool
  pub zero_pad : Bool
  pub rest : List ℕ

unfoldable pub read_flags : Bool → Bool → List ℕ → Flags
read_flags left pad [] = record { left_align = left; zero_pad = pad; rest = [] }
read_flags left pad (c ∷ p) =
    let more = read_flags (left || c == b'-') (pad || c == b'0') p in
    if c == b'-' || c == b'0'
    then more
    else record { left_align = left; zero_pad = pad; rest = c ∷ p }

-- The digits of a width or precision, capped, and the text behind them.
unfoldable pub read_capped : ℕ → List ℕ → ℕ × List ℕ
read_capped n [] = (n, [])
read_capped n (c ∷ p) =
    let more = read_capped (min (n * 10 + (c - b'0')) sipp_max_msg_size) p in
    if is_digit c then more else (n, c ∷ p)

-- The precision, none without a point, and the text behind it.
unfoldable pub read_precision : List ℕ → Option ℕ × List ℕ
read_precision [] = (none, [])
read_precision (c ∷ p) =
    if c == b'.' then (some (read_capped 0 p).0, (read_capped 0 p).1) else (none, c ∷ p)

-- The end of a conversion: only 'd' prints.
abbrev pub convert_end : ℤ → Bool → Bool → ℕ → Option ℕ → List ℕ → Result (List ℕ × List ℕ)
convert_end value left_align zero_pad width precision [] = err ran_off_line
convert_end value left_align zero_pad width precision (c ∷ q) =
    if c == b'd'
    then ok (print_number left_align zero_pad width precision value, q)
    else err only_decimal

-- One conversion, behind its '%': what it prints, and the text behind it. A precision makes the flag for
-- zeros void.
unfoldable pub convert : ℤ → List ℕ → Result (List ℕ × List ℕ)
convert value p =
    let flags = read_flags false false p in
    let (width, after_width) = read_capped 0 flags.rest in
    let (precision, rest) = read_precision after_width in
    let zero_pad = flags.zero_pad && (elim precision [ none ↦ true | some _ ↦ false ]) in
    convert_end value flags.left_align zero_pad width precision rest

-- The loop of `expand_printf_field`; each round takes a character at least
unfoldable pub expand_loop : ℕ → ℤ → List ℕ → List ℕ → Result (List ℕ)
expand_loop zero value p out = err out_of_fuel
expand_loop (suc n) value [] out = ok out
expand_loop (suc n) value (c ∷ p) out = elim (c == b'%') [
  | false ↦ expand_loop n value p (out ++ c ∷ [])
  | true ↦ elim p [
    | [] ↦ err ran_off_line
    | d ∷ q ↦ elim (d == b'%') [
      | true ↦ expand_loop n value q (out ++ b'%' ∷ [])
      | false ↦ elim (convert value (d ∷ q)) [
        | err e ↦ err e
        | ok (piece, rest) ↦ expand_loop n value rest (out ++ piece)
      ]
    ]
  ]
]

-- `expand_printf_field`
unfoldable pub expand_printf_field : ℤ → List ℕ → Result (List ℕ)
expand_printf_field value field = expand_loop (length field + 1) value field []
