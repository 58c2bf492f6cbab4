-- ===== src/InFile/Printf/Expand.antt =====
-- `expand_printf_field` of src/infile.cpp: its loop ends, and text is kept.
use sipp.Base.{
  ℕ, zero, suc, ◌+◌, ◌*◌, ◌-◌, ◌≤◌, ◌<◌, ◌≡◌, ◌≢◌, sym, ap, ◌∙◌, Bool, false, ◌||◌, List, [], ◌∷◌,
  ◌++◌, Option, arith, ◌==◌, ==_iff, Bool-cases, inl, inr, if◌then◌else◌, length, min,
}
use sipp.Base.Int.{ℤ}
use mathlib.Core.List.{append_assoc, append-nil}
use sipp.InFile.Printf.{
  Result, ok, err, out_of_fuel, read_flags, read_capped, read_precision, convert, convert_end,
  expand_loop, expand_printf_field, sipp_max_msg_size,
}

read_flags-rest : (left pad : Bool) (p : List ℕ) → length (read_flags left pad p).rest ≤ length p
unfolding read_flags
read_flags-rest left pad [] = omega arith
read_flags-rest left pad (c ∷ p) =
    ground (arith, read_flags-rest (left || c == b'-') (pad || c == b'0') p)

read_capped-rest : (n : ℕ) (p : List ℕ) → length (read_capped n p).1 ≤ length p
unfolding read_capped
read_capped-rest n [] = omega arith
read_capped-rest n (c ∷ p) =
    ground (arith, read_capped-rest (min (n * 10 + (c - b'0')) sipp_max_msg_size) p)

read_precision-rest : (p : List ℕ) → length (read_precision p).1 ≤ length p
unfolding read_precision
read_precision-rest [] = omega arith
read_precision-rest (c ∷ p) = ground (arith, read_capped-rest 0 p)

-- A conversion that is printed took a character; one that fails does not run out of fuel.
Converts : ℕ → Result (List ℕ × List ℕ) → Type 0
Converts n (ok (piece, rest)) = length rest < n
Converts n (err e) = e ≢ out_of_fuel

convert_end-Converts :
    (value : ℤ) (left pad : Bool) (width n : ℕ) (precision : Option ℕ) (rest : List ℕ)
    → length rest ≤ n
    → Converts n (convert_end value left pad width precision rest)
unfolding Converts
convert_end-Converts value left pad width n precision [] h = λ e. ground arith
convert_end-Converts value left pad width n precision (c ∷ q) h = elim (Bool-cases (c == b'd')) [
  | inl y ↦ rw y (omega arith)
  | inr z ↦ rw z (λ e. ground arith)
]

convert-Converts : (value : ℤ) (p : List ℕ) → Converts (length p) (convert value p)
unfolding convert
convert-Converts value p =
    let flags = read_flags false false p in
    let rest = (read_precision (read_capped 0 flags.rest).1).1 in
    let fits : length rest ≤ length p =
      (omega (
        arith,
        read_flags-rest false false p,
        read_capped-rest 0 flags.rest,
        read_precision-rest (read_capped 0 flags.rest).1,
      )) in
    convert_end-Converts value flags.left_align _ _ (length p) _ rest fits

-- The loop after a conversion.
after_convert :
    (n m : ℕ) (value : ℤ) (out : List ℕ) (r : Result (List ℕ × List ℕ))
    → Converts m r
    → m ≤ n
    → ((rest more : List ℕ) → length rest < n → expand_loop n value rest more ≢ err out_of_fuel)
    → (elim r [ err e ↦ err e | ok (piece, rest) ↦ expand_loop n value rest (out ++ piece) ])
      ≢ err out_of_fuel
unfolding Converts
after_convert n m value out (err e) c h on = λ q. ground (arith, c)
after_convert n m value out (ok (piece, rest)) c h on = on rest (out ++ piece) (omega arith)

expand_loop-ends :
    (n : ℕ) (value : ℤ) (p out : List ℕ)
    → length p < n
    → expand_loop n value p out ≢ err out_of_fuel
unfolding expand_loop
expand_loop-ends zero value p out h = absurd (omega arith)
expand_loop-ends (suc n) value [] out h = λ e. ground arith
expand_loop-ends (suc n) value (c ∷ []) out h = elim (Bool-cases (c == b'%')) [
  | inl y ↦ rw (y, expand_loop) (λ e. ground arith)
  | inr z ↦ rw (z, expand_loop) (expand_loop-ends n value [] (out ++ c ∷ []) (omega arith))
]
expand_loop-ends (suc n) value (c ∷ d ∷ q) out h = elim (Bool-cases (c == b'%')) [
  | inr z ↦ rw (z, expand_loop) (expand_loop-ends n value (d ∷ q) (out ++ c ∷ []) (omega arith))
  | inl y ↦ elim (Bool-cases (d == b'%')) [
    | inl w ↦ rw (y, expand_loop, w) (expand_loop-ends n value q (out ++ b'%' ∷ []) (omega arith))
    | inr x ↦
        rw (y, expand_loop, x)
          (after_convert n (length (d ∷ q)) value out (convert value (d ∷ q))
            (convert-Converts value (d ∷ q)) (omega arith)
            (λ rest more k. expand_loop-ends n value rest more k))
  ]
]

-- The expansion of a field comes to a text or stops at an error of the field: its loop ends.
pub expand_printf_field-ends :
    (value : ℤ) (field : List ℕ) → expand_printf_field value field ≢ err out_of_fuel
unfolding expand_printf_field
expand_printf_field-ends value field =
    expand_loop-ends (length field + 1) value field [] (omega arith)

-- A text with each '%' doubled.
abbrev pub escaped : List ℕ → List ℕ
escaped [] = []
escaped (c ∷ p) = if c == b'%' then b'%' ∷ b'%' ∷ escaped p else c ∷ escaped p

expand_loop-escaped :
    (n : ℕ) (value : ℤ) (p out : List ℕ)
    → length (escaped p) < n
    → expand_loop n value (escaped p) out ≡ ok (out ++ p)
unfolding expand_loop
expand_loop-escaped zero value p out h = absurd (omega arith)
expand_loop-escaped (suc n) value [] out h = ap (λ o. ok o) (sym (append-nil out))
expand_loop-escaped (suc n) value (c ∷ p) out h = elim (Bool-cases (c == b'%')) [
  | inl y ↦
      let e : c ≡ b'%' = (==_iff c b'%').0 y in
      rw (y, expand_loop)
        (expand_loop-escaped n value p (out ++ b'%' ∷ []) (ground (arith, y))
          ∙ ap (λ o. ok o) (append_assoc out (b'%' ∷ []) p ∙ ap (λ x. out ++ x ∷ p) (sym e)))
  | inr z ↦
      rw (z, expand_loop, z)
        (expand_loop-escaped n value p (out ++ c ∷ []) (ground (arith, z))
          ∙ ap (λ o. ok o) (append_assoc out (c ∷ []) p))
]

-- A text with its '%'s doubled is expanded to the text itself, whatever the value.
pub expand_printf_field-escaped :
    (value : ℤ) (text : List ℕ) → expand_printf_field value (escaped text) ≡ ok text
unfolding expand_printf_field
expand_printf_field-escaped value text =
    expand_loop-escaped (length (escaped text) + 1) value text [] (omega arith)
