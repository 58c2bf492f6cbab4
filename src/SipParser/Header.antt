-- ===== src/SipParser/Header.antt =====
-- The names and values of headers in src/sip_parser.cpp, for `get_header`. A line is what is left of
-- the message after the LF that the code's pointer `line` stands at.
use sipp.Base.{
  ℕ, Bool, true, false, not, ◌&&◌, ◌||◌, List, [], ◌∷◌, Option, none, some, ◌==◌, if◌then◌else◌,
  length,
}
use sipp.Base.Bytes.{codes, at, is_blank, to_lower, starts_icase}

-- `struct header_name`, with no `compact` for a null pointer, and `none` for the code -1
pub record HeaderName : Type 0 where
  pub name : List ℕ
  pub compact : List ℕ
  pub first : ℕ
  pub second : Option ℕ
  pub compact_first : Option ℕ

-- `compact_names`: the lower case name, and the compact form from its letter on
abbrev pub compact_names : List (List ℕ × List ℕ)
compact_names =
    (codes "call-id:", codes "i:")
    ∷ (codes "contact:", codes "m:")
    ∷ (codes "content-encoding:", codes "e:")
    ∷ (codes "content-length:", codes "l:")
    ∷ (codes "content-type:", codes "c:")
    ∷ (codes "from:", codes "f:")
    ∷ (codes "to:", codes "t:")
    ∷ (codes "via:", codes "v:")
    ∷ []

-- The loop of `internal_compact_header_name`, with the pointer past the LF.
unfoldable pub compact_in : List (List ℕ × List ℕ) → List ℕ → Option (List ℕ)
compact_in [] name = none
compact_in ((n, compact) ∷ rest) name =
    if length n == length name && at n 0 == to_lower (at name 0) && starts_icase name n
    then some compact
    else compact_in rest name

-- `internal_compact_header_name`
unfoldable pub internal_compact_header_name : List ℕ → Option (List ℕ)
unfolding compact_in
internal_compact_header_name = compact_in compact_names

abbrev pub lower_second : List ℕ → Option ℕ
lower_second (_ ∷ c ∷ _) = some (to_lower c)
lower_second _ = none

-- `internal_header_name`
unfoldable pub internal_header_name : List ℕ → HeaderName
unfolding internal_compact_header_name
internal_header_name name = elim (internal_compact_header_name name) [
  | none ↦ record {
    name = name;
    compact = [];
    first = to_lower (at name 0);
    second = lower_second name;
    compact_first = none;
  }
  | some compact ↦ record {
    name = name;
    compact = compact;
    first = to_lower (at name 0);
    second = lower_second name;
    compact_first = some (to_lower (at compact 0));
  }
]

abbrev pub code_eq : Option ℕ → ℕ → Bool
code_eq none c = false
code_eq (some n) c = c == n

abbrev pub second_fits : Option ℕ → ℕ → Bool
second_fits none c = true
second_fits (some n) c = to_lower c == n

-- Whether a line has the name or its compact form.
unfoldable pub line_has : HeaderName → List ℕ → Bool
line_has h line =
    let c = to_lower (at line 0) in
    c == h.first && second_fits h.second (at line 1) && starts_icase h.name line
    || code_eq h.compact_first c && at line 1 == at h.compact 1

-- `internal_match_header`, byte by byte from `ptr` on, with the byte before it, none at the start of the
-- message: the line after the LF that it returns.
unfoldable pub internal_match_header : HeaderName → Option ℕ → List ℕ → Option (List ℕ)
unfolding line_has
internal_match_header h before [] = none
internal_match_header h before (c ∷ p) =
    let next = internal_match_header h (some c) p in
    elim (c == 10) [
      | false ↦ next
      | true ↦ elim (at p 0 == 13 && at p 1 == 10 && code_eq before 13) [
        | true ↦ none
        | false ↦ if line_has h p then some p else next
      ]
    ]

-- `while (*src != ':') src++; src++;`: the line has its name's colon
abbrev pub past_colon : List ℕ → List ℕ
past_colon [] = []
past_colon (c ∷ p) = if c == b':' then p else past_colon p

abbrev pub drop_spaces : List ℕ → List ℕ
drop_spaces [] = []
drop_spaces (c ∷ p) = if c == b' ' then drop_spaces p else c ∷ p

-- Up to the LF that no space or tab follows, and what is left from that LF on.
unfoldable pub folded_value : List ℕ → List ℕ × List ℕ
folded_value [] = ([], [])
folded_value (c ∷ p) =
    let (value, rest) = folded_value p in
    if c == 10 && not (is_blank (at p 0)) then ([], c ∷ p) else (c ∷ value, rest)

abbrev pub last_byte : List ℕ → ℕ
last_byte [] = 0
last_byte (c ∷ []) = c
last_byte (_ ∷ c ∷ p) = last_byte (c ∷ p)

abbrev pub without_last : List ℕ → List ℕ
without_last [] = []
without_last (c ∷ []) = []
without_last (c ∷ d ∷ p) = c ∷ without_last (d ∷ p)

-- `internal_header_value`: where the value starts, and the value up to `*end`. The CRLF before the blank
-- line's is not part of it.
unfoldable pub internal_header_value : List ℕ → List ℕ × List ℕ
unfolding folded_value
internal_header_value line =
    let src = drop_spaces (past_colon line) in
    let (value, rest) = folded_value src in
    (
      src,
      if at rest 0 == 10 && last_byte value == 13 && at rest 1 == 13 && at rest 2 == 10
          then without_last value
          else value,
    )
