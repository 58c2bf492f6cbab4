-- ===== src/WebSocket/Utf8.antt =====
-- `WebSocket::is_utf8` of src/websocket.cpp. The bits of a byte are read by `/` and `%`: `c & 0xe0`
-- is 0xc0 when `c / 32` is 6, and `c & 0x1f` is `c % 32`.
use sipp.Base.{
  ℕ, zero, suc, ◌+◌, ◌-◌, ◌*◌, ◌/◌, ◌%◌, Bool, true, false, ◌&&◌, ◌||◌, not, List, [], ◌∷◌, Option,
  none, some, ltb, leb, ◌==◌, if◌then◌else◌, length,
}
pub mod Encoded

-- By the first byte of a code point past ASCII: the bytes that follow it, the least code point of that
-- length, and the bits that the first byte has of it.
abbrev pub lead : ℕ → Option (ℕ × ℕ × ℕ)
lead c =
    if c / 32 == 6
    then some (1, 0x80, c % 32)
    else if c / 16 == 14
    then some (2, 0x800, c % 16)
    else if c / 8 == 30
    then some (3, 0x10000, c % 8)
    else none

-- The loop on `k`, with the number of bytes that it still reads: `none` where it returns false, or has
-- found the text too short.
unfoldable pub continuation : ℕ → ℕ → List ℕ → Option (ℕ × List ℕ)
continuation zero c s = some (c, s)
continuation (suc k) c [] = none
continuation (suc k) c (x ∷ s) = if x / 64 == 2 then continuation k (c * 64 + x % 64) s else none

-- No overlong form, surrogate, or code point past Unicode's.
abbrev pub is_allowed : ℕ → ℕ → Bool
is_allowed least c = not (ltb c least || ltb 0x10ffff c || (leb 0xd800 c && leb c 0xdfff))

-- The loop on `i`, on the bytes from there on; each round reads one at least.
unfoldable pub is_utf8_from : ℕ → List ℕ → Bool
unfolding continuation
is_utf8_from n [] = true
is_utf8_from zero (c ∷ s) = false
is_utf8_from (suc n) (c ∷ s) = elim (ltb c 0x80) [
  | true ↦ is_utf8_from n s
  | false ↦ elim (lead c) [
    | none ↦ false
    | some (k, least, bits) ↦ elim (continuation k bits s) [
      | none ↦ false
      | some (point, rest) ↦ elim (is_allowed least point) [
        | true ↦ is_utf8_from n rest
        | false ↦ false
      ]
    ]
  ]
]

unfoldable pub is_utf8 : List ℕ → Bool
unfolding is_utf8_from
is_utf8 s = is_utf8_from (length s) s
