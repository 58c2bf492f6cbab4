-- ===== src/Strings.antt =====
-- src/strings.cpp: addresses with ports, hexadecimal digits, and the wrapping of help texts.
pub mod Address
pub mod Wrap
use sipp.Base.{
  ℕ, zero, suc, ◌+◌, ◌-◌, ◌*◌, Bool, true, false, not, ◌&&◌, ◌||◌, List, [], ◌∷◌, ◌++◌, Option,
  none, some, ltb, leb, ◌==◌, if◌then◌else◌, length, take, drop, replicate, get_or,
}
use sipp.Base.Int.{ℤ, pos, negsuc}
use sipp.Base.Bytes.{strchr, strtol, span_not, is_space, is_digit, to_lower}

-- What follows the first `c`, and what stands before it.
abbrev pub cut_at : ℕ → List ℕ → Option (List ℕ × List ℕ)
cut_at c [] = none
cut_at c (x ∷ p) =
    if x == c
    then some ([], p)
    else elim (cut_at c p) [ none ↦ none | some (a, b) ↦ some (x ∷ a, b) ]

-- `atol` of the text after a colon, if there is one
abbrev pub port_after : Option (List ℕ × List ℕ) → ℤ
port_after none = pos 0
port_after (some (_, p)) = strtol p

-- An address with no text in brackets: a port only behind an only colon.
unfoldable pub plain_host : List ℕ → List ℕ × ℤ
plain_host addr = elim (cut_at b':' addr) [
  | none ↦ (addr, pos 0)
  | some (host, p) ↦ elim (cut_at b':' p) [ none ↦ (host, strtol p) | some _ ↦ (addr, pos 0) ]
]

-- `get_host_and_port`: the host and what `*port` is set to, before its conversion to `int`
unfoldable pub get_host_and_port : List ℕ → List ℕ × ℤ
unfolding plain_host
get_host_and_port addr = elim (cut_at b'[' addr) [
  | none ↦ plain_host addr
  | some (_, p) ↦ elim (cut_at b']' p) [
    | none ↦ plain_host addr
    | some (host, rest) ↦ (host, port_after (cut_at b':' rest))
  ]
]

-- `get_decimal_from_hex`, on a byte that is a hexadecimal digit
unfoldable pub get_decimal_from_hex : ℕ → ℕ
get_decimal_from_hex hex = if is_digit hex then hex - b'0' else to_lower hex - b'a' + 10

-- The variables of the loop of `wrap`.
pub record Wrapped : Type 0 where
  pub out : List ℕ
  pub line : ℕ
  pub pos : ℕ
  pub indent : Bool

-- `while (k > line && !isspace(out[k])) k--`
unfoldable pub last_space : List ℕ → ℕ → ℕ → ℕ
last_space out line zero = zero
last_space out line (suc k) =
    let lower = last_space out line k in
    if ltb line (suc k) && not (is_space (get_or out (suc k) 0)) then lower else suc k

-- One round of the loop, up to the test of the position: a line feed starts a line.
unfoldable pub put : ℕ → ℕ → List ℕ → Wrapped → Wrapped
put offset c p w =
    let out = w.out ++ c ∷ [] in
    if c == 10
    then record {
      out = out ++ replicate offset b' ';
      line = length (out ++ replicate offset b' ');
      pos = 1;
      indent = get_or p 0 0 == b'-';
    }
    else record w { out = out; pos = w.pos + 1 }

-- The rest of the round, past the line's end.
unfoldable pub break_line : ℕ → Wrapped → Wrapped
unfolding last_space
break_line offset w =
    let newline = 10 ∷ replicate (if w.indent then offset + 2 else offset) b' ' in
    let k = last_space w.out w.line (length w.out - 1) in
    if ltb w.line k
    then (let out = take k w.out ++ (newline ++ drop (suc k) w.out) in
        record w {
          out = out;
          line = k + length newline;
          pos = length out - (k + length newline) + 1;
        })
    else (let out = take (length w.out - 1) w.out ++ (newline ++ drop (length w.out - 1) w.out) in
        record w { out = out; line = length out - 1; pos = 2 })

-- The loop of `wrap`.
unfoldable pub wrap_loop : ℕ → ℕ → List ℕ → Wrapped → Wrapped
wrap_loop offset size [] w = w
wrap_loop offset size (c ∷ p) w =
    let w' = put offset c p w in
    wrap_loop offset size p (if leb w'.pos size then w' else break_line offset w')

-- `wrap`
unfoldable pub wrap : List ℕ → ℕ → ℕ → List ℕ
wrap in_text offset size =
    (wrap_loop offset size in_text (record { out = []; line = 0; pos = 0; indent = false })).out
