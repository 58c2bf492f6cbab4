-- ===== src/WebSocket/Http.antt =====
-- The texts of the handshake of src/websocket.cpp: `trim`, `header`, `has_token`, and the functions of
-- `std::string` and of C that they use.
use sipp.Base.{
  ℕ, zero, suc, ◌+◌, Bool, true, false, ◌&&◌, List, [], ◌∷◌, ◌++◌, Option, none, some, ltb, ◌==◌,
  if◌then◌else◌, length, drop,
}
use sipp.Base.Bytes.{at, codes, is_blank, starts, starts_icase, skip_while, span_not}

abbrev pub crlf : List ℕ
crlf = 13 ∷ 10 ∷ []

-- `s.find(pattern)`
unfoldable pub position : List ℕ → List ℕ → Option ℕ
position pattern [] = if starts pattern [] then some 0 else none
position pattern (c ∷ s) =
    if starts pattern (c ∷ s)
    then some 0
    else elim (position pattern s) [ none ↦ none | some i ↦ some (suc i) ]

-- What `c_str()` shows to a function of C.
abbrev c_str : List ℕ → List ℕ
c_str [] = []
c_str (c ∷ s) = if c == 0 then [] else c ∷ c_str s

-- `!strcasecmp(s.c_str(), word)`, for a word with no NUL
unfoldable pub same_word : List ℕ → List ℕ → Bool
same_word word s = starts_icase word (c_str s) && (length (c_str s) == length word)

-- Up to the last byte that is no blank.
unfoldable pub without_end : List ℕ → List ℕ
without_end [] = []
without_end (c ∷ s) = elim (without_end s) [
  | [] ↦ if is_blank c then [] else c ∷ []
  | d ∷ r ↦ c ∷ d ∷ r
]

unfoldable pub trim : List ℕ → List ℕ
unfolding without_end
trim s = without_end (skip_while is_blank s)

-- The bytes before the first CRLF, all without one.
unfoldable pub line_of : List ℕ → List ℕ
line_of [] = []
line_of (c ∷ s) = if starts crlf (c ∷ s) then [] else c ∷ line_of s

-- The first CRLF and what comes behind it.
unfoldable pub from_crlf : List ℕ → List ℕ
from_crlf [] = []
from_crlf (c ∷ s) = if starts crlf (c ∷ s) then c ∷ s else from_crlf s

-- Its line: `values` with the value of a line of that name
unfoldable pub add_value : List ℕ → List ℕ → List ℕ → List ℕ
unfolding trim
add_value name line values =
    if ltb (length name) (length line) && (at line (length name) == b':') && starts_icase name line
    then (elim values [ [] ↦ [] | c ∷ s ↦ c ∷ (s ++ b',' ∷ []) ])
      ++ trim (drop (length name + 1) line)
    else values

-- The loop of `header`, on the head from `bol` on, a CRLF or nothing; each round goes to the next line.
unfoldable pub header_from : ℕ → List ℕ → List ℕ → List ℕ → List ℕ
unfolding line_of from_crlf add_value
header_from zero name rest values = values
header_from (suc n) name [] values = values
header_from (suc n) name (c ∷ []) values = values
header_from (suc n) name (c ∷ d ∷ []) values = values
header_from (suc n) name (c ∷ d ∷ e ∷ s) values =
    header_from n name (from_crlf (e ∷ s)) (add_value name (line_of (e ∷ s)) values)

unfoldable pub header : List ℕ → List ℕ → List ℕ
unfolding header_from from_crlf
header head name = header_from (length head) name (from_crlf head) []

-- The loop of `has_token`; each round takes the text before a comma.
unfoldable pub has_token_from : ℕ → List ℕ → List ℕ → Bool
unfolding same_word trim
has_token_from zero list token = false
has_token_from (suc n) list token =
    let piece = span_not (codes ",") list in
    let rest = has_token_from n (drop (length piece + 1) list) token in
    if same_word token (trim piece)
    then true
    else if ltb (length piece) (length list)
    then rest
    else false

unfoldable pub has_token : List ℕ → List ℕ → Bool
unfolding has_token_from
has_token list token = has_token_from (length list + 1) list token
