-- ===== src/SipParser/Join.antt =====
-- `get_header` of src/sip_parser.cpp: the headers of a name, joined, or the one header where it is.
pub mod Bounds
pub mod InPlace
use sipp.Base.{
  ℕ, zero, suc, ◌+◌, ◌-◌, ◌*◌, Bool, true, false, not, ◌&&◌, ◌||◌, List, [], ◌∷◌, ◌++◌, Option,
  none, some, ltb, ◌==◌, if◌then◌else◌, length, take, drop,
}
use sipp.Base.Bytes.{codes, at, has_byte, bytes_eq}
use sipp.SipParser.{max_header_len}
use sipp.SipParser.Header.{
  HeaderName, internal_header_name, internal_match_header, internal_header_value, last_byte,
  without_last, drop_spaces, code_eq,
}

-- `MAX_HEADER_LEN * 10 - 1`
abbrev pub max_join : ℕ
max_join = 20489

-- The outcome of `internal_append`: `dest`, whether `src` was appended, and `*cut`.
pub record Appended : Type 0 where
  pub dest : List ℕ
  pub fits : Bool
  pub cut : Bool

-- `internal_append`; `dest` never has more than `max_join` characters
unfoldable pub internal_append : List ℕ → List ℕ → Bool → Appended
internal_append dest src cut =
    let room = max_join - length dest in
    if ltb room (length src)
    then (if length dest == 0
        then record { dest = take room src; fits = false; cut = true }
        else record { dest = dest; fits = false; cut = cut })
    else record { dest = dest ++ src; fits = true; cut = cut }

-- Characters of `set` at the end go, but the first `keep` stay.
unfoldable pub trim_end : (ℕ → Bool) → ℕ → List ℕ → List ℕ
trim_end test keep [] = []
trim_end test (suc k) (c ∷ p) = c ∷ trim_end test k p
trim_end test zero (c ∷ p) =
    let rest = trim_end test zero p in if test c && length rest == 0 then [] else c ∷ rest

abbrev pub end_space : ℕ → Bool
end_space c = c == b' ' || c == 13 || c == b'\t'

abbrev pub end_space_or_lf : ℕ → Bool
end_space_or_lf c = c == b' ' || c == 13 || c == 10 || c == b'\t'

-- The separator before another header.
abbrev pub separator : List ℕ → List ℕ
separator dest = if not (length dest == 0) && last_byte dest == b':' then codes " " else codes ", "

-- One more header: the separator, then its value.
unfoldable pub join_value : List ℕ → List ℕ → Bool → Appended
join_value dest value cut =
    if length dest == 0
    then internal_append dest value cut
    else (let trimmed = trim_end end_space_or_lf 0 dest in
        let a = internal_append trimmed (separator trimmed) cut in
        if a.fits then internal_append a.dest value a.cut else a)

-- `internal_match_header(message, *src ? src + 1 : src, h)`
unfoldable pub match_after : HeaderName → List ℕ → Option (List ℕ)
match_after h [] = none
match_after h (c ∷ p) = internal_match_header h (some c) p

-- The text so far, and whether it was cut. `none`: out of fuel.
-- The loop `while (line)` of `internal_join_headers`.
unfoldable pub join_loop : ℕ → HeaderName → Option (List ℕ) → List ℕ → Bool → Option (List ℕ × Bool)
join_loop fuel h none dest cut = some (dest, cut)
join_loop zero h (some line) dest cut = none
join_loop (suc fuel) h (some line) dest cut =
    let (src, value) = internal_header_value line in
    let a = join_value dest value cut in
    elim a.fits [
      | false ↦ some (a.dest, a.cut)
      | true ↦ join_loop fuel h (match_after h src) a.dest a.cut
    ]

-- Of doubled `c`s the first stays; `before` is the last character kept.
unfoldable pub drop_doubled : ℕ → Option ℕ → List ℕ → List ℕ
drop_doubled c before [] = []
drop_doubled c before (x ∷ p) =
    if x == c && code_eq before c then drop_doubled c before p else x ∷ drop_doubled c (some x) p

-- What `internal_join_headers` does to the joined text at the end.
unfoldable pub join_end : List ℕ → Bool → List ℕ
join_end dest cut =
    if length dest == 0 || cut
    then dest
    else drop_doubled 10 none (drop_doubled 13 none (drop_spaces (trim_end end_space 1 dest)))

-- `internal_join_headers`: each round of the loop is at a later line of the message
unfoldable pub internal_join_headers : ℕ → List ℕ → HeaderName → Bool → Option (List ℕ)
internal_join_headers fuel line h content =
    let a : Appended =
      if content
      then record { dest = []; fits = true; cut = false }
      else internal_append [] h.name false in
    elim (join_loop fuel h (if a.fits then some line else none) a.dest a.cut) [
      | none ↦ none
      | some (dest, cut) ↦ some (join_end dest cut)
    ]

-- Two CRs in a row.
abbrev pub doubled_cr : List ℕ → Bool
doubled_cr [] = false
doubled_cr (c ∷ p) = (c == 13 && at p 0 == 13) || doubled_cr p

-- The one header with its name, where it is, if the message has it so.
unfoldable pub in_place_named : List ℕ → List ℕ → List ℕ → List ℕ → Option (List ℕ)
in_place_named name line src value =
    if not (last_byte name == b':')
      || has_byte b':' (without_last name)
      || at name 0 == b' '
      || at line 1 == b':' && ltb 2 (length name)
      || not (bytes_eq (take (length name) line) name)
    then none
    else (let offset = length line - length src in
        let text = trim_end end_space (length name) (take (offset + length value) line) in
        if ltb (length name) (length text)
            && (not (offset == length name + 1) || not (at line (length name) == b' '))
          || ltb max_join (length name + 1 + length value)
          || doubled_cr text
        then none
        else some text)

-- The one header's content, where it is.
unfoldable pub in_place_content : List ℕ → Option (List ℕ)
in_place_content value =
    let text = trim_end end_space 1 value in
    if ltb max_join (length value) || doubled_cr text then none else some text

-- The text in place, if the message has it so.
abbrev pub or_joined : Option (List ℕ) → Option (List ℕ) → Option (List ℕ)
or_joined none joined = joined
or_joined (some text) joined = some text

-- `get_header` from the first line with the header on.
unfoldable pub header_found : ℕ → List ℕ → Bool → HeaderName → List ℕ → Option (List ℕ)
header_found fuel name content h line =
    let joined = internal_join_headers fuel line h content in
    let (src, value) = internal_header_value line in
    elim (match_after h src) [
      | some _ ↦ joined
      | none ↦
          if content
          then (if length value == 0 then some [] else or_joined (in_place_content value) joined)
          else or_joined (in_place_named name line src value) joined
    ]

-- `get_header`, on a message or none: the text that the result views. `none`: out of fuel.
unfoldable pub get_header : List ℕ → List ℕ → Bool → Option (List ℕ)
get_header message name content =
    if length message == 0
    then some []
    else if length name == 0 || not (has_byte b':' name)
    then some []
    else elim (internal_match_header (internal_header_name name) none message) [
      | none ↦ some []
      | some line ↦ header_found (length message) name content (internal_header_name name) line
    ]

-- `get_header_content`
unfoldable pub get_header_content : List ℕ → List ℕ → Option (List ℕ)
unfolding get_header
get_header_content message name = get_header message name true
