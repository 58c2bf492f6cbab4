-- ===== src/UrlCoder.antt =====
-- src/urlcoder.cpp: percent encoding of strings of bytes.
pub mod RoundTrip
use sipp.Base.{
  ℕ, zero, suc, ◌+◌, ◌-◌, ◌*◌, ◌/◌, ◌%◌, Bool, true, false, ◌&&◌, ◌||◌, List, [], ◌∷◌, ◌++◌, ltb,
  leb, ◌==◌, if◌then◌else◌, length,
}
use sipp.Base.Bytes.{at, is_alnum, is_digit, is_xdigit}

-- The bytes that are not encoded.
abbrev pub is_kept : ℕ → Bool
is_kept c = is_alnum c || c == b'-' || c == b'_' || c == b'.' || c == b'~'

-- A digit of `sprintf("%X")`.
abbrev pub hex_digit : ℕ → ℕ
hex_digit n = if ltb n 10 then b'0' + n else b'A' + (n - 10)

-- What one byte is encoded to.
unfoldable pub encode_byte : ℕ → List ℕ
encode_byte c =
    if is_kept c
    then c ∷ []
    else if ltb c 16
    then b'%' ∷ b'0' ∷ hex_digit c ∷ []
    else b'%' ∷ hex_digit (c / 16) ∷ hex_digit (c % 16) ∷ []

-- `url_encode`, up to the first NUL
unfoldable pub url_encode : List ℕ → List ℕ
unfolding encode_byte
url_encode [] = []
url_encode (c ∷ p) = if c == 0 then [] else encode_byte c ++ url_encode p

-- The value of a hexadecimal digit, as `std::stoi` reads it.
abbrev pub hex_value : ℕ → ℕ
hex_value c = if is_digit c then c - b'0' else if leb b'a' c then c - b'a' + 10 else c - b'A' + 10

-- The loop of `url_decode`, with the number of bytes that it is still to step over.
unfoldable pub decode_from : ℕ → List ℕ → List ℕ
decode_from n [] = []
decode_from (suc n) (c ∷ p) = decode_from n p
decode_from zero (c ∷ p) =
    elim (c == b'%' && ltb 1 (length p) && is_xdigit (at p 0) && is_xdigit (at p 1)) [
      | true ↦ (hex_value (at p 0) * 16 + hex_value (at p 1)) ∷ decode_from 2 p
      | false ↦ (if c == b'+' then b' ' else c) ∷ decode_from 0 p
    ]

-- `url_decode`
unfoldable pub url_decode : List ℕ → List ℕ
unfolding decode_from
url_decode = decode_from 0
