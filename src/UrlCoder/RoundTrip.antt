-- ===== src/UrlCoder/RoundTrip.antt =====
-- `url_decode` of src/urlcoder.cpp undoes `url_encode`, and reads it only.
use sipp.Base.{
  ℕ, suc, ◌+◌, ◌*◌, ◌/◌, ◌%◌, ◌<◌, ◌≡◌, refl, ap, ◌∙◌, true, false, List, [], ◌∷◌, ◌++◌, ltb, ◌==◌,
  length, arith, inl, inr, Bool-cases, lt→ltb, ltb→lt,
}
use sipp.Base.Bytes.{is_xdigit}
use sipp.UrlCoder.{is_kept, hex_digit, hex_value, encode_byte, url_encode, decode_from, url_decode}

-- The bytes of a string with no NUL.
abbrev pub IsText : List ℕ → Type 0
IsText [] = Unit
IsText (c ∷ p) = (0 < c) × (c < 256) × IsText p

hex_digit_lem : (n : ℕ) → n < 16 → (is_xdigit (hex_digit n) ≡ true) × (hex_value (hex_digit n) ≡ n)
hex_digit_lem n h = ground arith

decode-escape :
    (x y : ℕ) (rest : List ℕ)
    → is_xdigit x ≡ true
    → is_xdigit y ≡ true
    → decode_from 0 (b'%' ∷ x ∷ y ∷ rest) ≡ (hex_value x * 16 + hex_value y) ∷ decode_from 0 rest
unfolding decode_from
decode-escape x y rest hx hy =
    let enough : ltb 1 (suc (suc (length rest))) ≡ true =
      lt→ltb 1 (suc (suc (length rest))) (omega arith) in
    ground arith

decode-percent :
    (a b : ℕ) (rest : List ℕ)
    → a < 16
    → b < 16
    → decode_from 0 (b'%' ∷ hex_digit a ∷ hex_digit b ∷ rest) ≡ (a * 16 + b) ∷ decode_from 0 rest
decode-percent a b rest ha hb =
    let (xa, va) = hex_digit_lem a ha in
    let (xb, vb) = hex_digit_lem b hb in
    decode-escape (hex_digit a) (hex_digit b) rest xa xb
    ∙ ap (λ (v : ℕ). v ∷ decode_from 0 rest) (omega arith)

decode_kept :
    (c : ℕ) (rest : List ℕ) → is_kept c ≡ true → decode_from 0 (c ∷ rest) ≡ c ∷ decode_from 0 rest
unfolding decode_from
decode_kept c rest h = ground arith

decode-encode_byte :
    (c : ℕ) (rest : List ℕ)
    → c < 256
    → decode_from 0 (encode_byte c ++ rest) ≡ c ∷ decode_from 0 rest
unfolding encode_byte
decode-encode_byte c rest h = elim (Bool-cases (is_kept c)) [
  | inl k ↦ rw k (decode_kept c rest k)
  | inr n ↦ rw n (elim (Bool-cases (ltb c 16)) [
    | inl s ↦ rw s (
        decode-percent 0 c rest (omega arith) (ltb→lt c 16 s)
        ∙ ap (λ (v : ℕ). v ∷ decode_from 0 rest) (omega arith))
    | inr b ↦ rw b (
        decode-percent (c / 16) (c % 16) rest (omega arith) (omega arith)
        ∙ ap (λ (v : ℕ). v ∷ decode_from 0 rest) (omega arith))
  ])
]

zero_test : (c : ℕ) → 0 < c → (c == 0) ≡ false
zero_test c h = ground arith

-- Decoding what `url_encode` made of a string with no NUL gives the string.
pub url_decode-url_encode : (s : List ℕ) → IsText s → url_decode (url_encode s) ≡ s
unfolding url_decode url_encode
url_decode-url_encode [] h = refl
url_decode-url_encode (c ∷ p) h =
    rw (zero_test c h.0)
      (decode-encode_byte c (url_encode p) h.1 ∙ ap (λ l. c ∷ l) (url_decode-url_encode p h.2))
