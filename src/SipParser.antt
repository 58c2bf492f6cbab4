-- ===== src/SipParser.antt =====
-- src/sip_parser.cpp, include/sip_parser.hpp: the mini SIP parser. This file has the functions that
-- search a message for one header or parameter; `get_header` is in the child modules.
-- A message is the list of its bytes before the NUL, a pointer into it what is left there, and
-- `none` a null pointer. The warnings that are logged change no result.
pub mod Number
pub mod Find
pub mod Message
pub mod Param
pub mod Reply
pub mod Header
pub mod Join
use sipp.Base.{
  ℕ, zero, suc, ◌+◌, ◌-◌, Bool, true, false, not, ◌&&◌, ◌||◌, List, [], ◌∷◌, Option, none, some,
  ltb, ◌==◌, if◌then◌else◌, length, drop, take,
}
use sipp.Base.Bytes.{
  codes, at, is_blank, to_lower, starts_icase, strstr, strchr, span_not, skip_while, strtol,
  strtoul, to_ulong,
}

abbrev pub max_header_len : ℕ
max_header_len = 2049

abbrev pub cr : ℕ
cr = 13

abbrev pub lf : ℕ
lf = 10

-- The loop of `internal_skip_lws`, with the number of bytes that it is still to step over.
unfoldable pub skip_lws_at : ℕ → List ℕ → Option (List ℕ)
skip_lws_at n [] = some []
skip_lws_at (suc n) (c ∷ p) = skip_lws_at n p
skip_lws_at zero (c ∷ p) = elim (is_blank c) [
  | true ↦ skip_lws_at zero p
  | false ↦ elim (c == cr && at p 0 == lf) [
    | true ↦ elim (is_blank (at p 1)) [ true ↦ skip_lws_at 2 p | false ↦ none ]
    | false ↦ some (c ∷ p)
  ]
]

-- `internal_skip_lws`
unfoldable pub internal_skip_lws : List ℕ → Option (List ℕ)
unfolding skip_lws_at
internal_skip_lws = skip_lws_at zero

-- The loop of `internal_hdrchr`, with the byte before.
unfoldable pub hdrchr_from : ℕ → ℕ → List ℕ → Option (List ℕ)
hdrchr_from needle before [] = none
hdrchr_from needle before (c ∷ p) =
    if c == needle
    then some (c ∷ p)
    else if c == lf && before == cr && not (at p 0 == b' ') && not (at p 0 == b'\t')
    then none
    else hdrchr_from needle c p

-- `internal_hdrchr`: the byte before the first is not read, as no LF stands there
unfoldable pub internal_hdrchr : List ℕ → ℕ → Option (List ℕ)
unfolding hdrchr_from
internal_hdrchr p needle = if at p 0 == lf then none else hdrchr_from needle 0 p

-- `internal_hdrend`: the bytes before the end that it returns
unfoldable pub internal_hdrend : List ℕ → List ℕ
internal_hdrend [] = []
internal_hdrend (c ∷ p) =
    if c == cr && at p 0 == lf && not (is_blank (at p 1)) then [] else c ∷ internal_hdrend p

-- What the loop of `internal_find_param` comes to.
pub data Search : Type 0 where
  found : List ℕ → Search
  absent : Search
  out_of_fuel : Search

-- The loop of `internal_find_param`, each round past a semicolon.
unfoldable pub find_param_loop : ℕ → List ℕ → List ℕ → Search
find_param_loop zero name p = out_of_fuel
find_param_loop (suc n) name p = elim (internal_hdrchr p b';') [
  | none ↦ absent
  | some semicolon ↦ elim (internal_skip_lws (drop 1 semicolon)) [
    | none ↦ absent
    | some [] ↦ absent
    | some (c ∷ q) ↦ elim (starts_icase name (c ∷ q) && at (c ∷ q) (length name) == b'=') [
      | true ↦ found (drop (length name + 1) (c ∷ q))
      | false ↦ find_param_loop n name (c ∷ q)
    ]
  ]
]

abbrev pub to_pointer : Search → Option (List ℕ)
to_pointer (found p) = some p
to_pointer _ = none

-- `internal_find_param`: each round takes a byte at least
unfoldable pub internal_find_param : List ℕ → List ℕ → Option (List ℕ)
internal_find_param p name = to_pointer (find_param_loop (length p + 1) name p)

-- The test of one line in `internal_find_header`: the pointer after the header's name, if the line has it
-- with a colon behind.
unfoldable pub header_colon : List ℕ → List ℕ → List ℕ → Option (List ℕ)
header_colon name shortname p =
    let c = to_lower (at p 0) in
    let is_long = c == to_lower (at name 0) && starts_icase name p in
    let is_short = not is_long && c == to_lower (at shortname 0) && starts_icase shortname p in
    let tmp = skip_while is_blank (drop (length (if is_short then shortname else name)) p) in
    if (is_long || is_short) && at tmp 0 == b':' then some (drop 1 tmp) else none

-- The loop of `internal_find_header`, byte by byte: at the start of a line it tests the header, at its LF
-- it goes on with the next line or ends. The byte before the message counts as no CR, as does the LF
-- before each line.
unfoldable pub find_header_from : List ℕ → List ℕ → Bool → Bool → ℕ → List ℕ → Option (List ℕ)
find_header_from name shortname content line_start before [] = none
find_header_from name shortname content line_start before (c ∷ p) =
    let next = find_header_from name shortname content (c == lf) c p in
    let onwards =
      if c == lf && (not (before == cr) || at p 0 == cr && at p 1 == lf) then none else next in
    elim (if line_start then header_colon name shortname (c ∷ p) else none) [
      | some value ↦ if content then internal_skip_lws value else some (c ∷ p)
      | none ↦ onwards
    ]

-- `internal_find_header`, which every caller gives a short name
unfoldable pub internal_find_header : List ℕ → List ℕ → List ℕ → Bool → Option (List ℕ)
internal_find_header msg name shortname content =
    find_header_from name shortname content true lf msg

-- What the result of `get_call_id` is made from: the header's content.
unfoldable pub call_id_of : List ℕ → List ℕ
call_id_of content =
    let id = internal_hdrend content in if ltb max_header_len (length id + 1) then [] else id

-- `get_call_id`
unfoldable pub get_call_id : List ℕ → List ℕ
get_call_id msg = elim (internal_find_header msg (codes "Call-ID") (codes "i") true) [
  | none ↦ []
  | some content ↦ call_id_of content
]

-- The tag of a To header, from the header's content on.
unfoldable pub tag_of : List ℕ → Option (List ℕ)
tag_of to_hdr =
    let addr : List ℕ = elim (internal_hdrchr to_hdr b'>') [ none ↦ to_hdr | some p ↦ p ] in
    elim (internal_find_param addr (codes "tag")) [
      | none ↦ none
      | some p ↦ some (take (max_header_len - 1) (span_not (codes " ;\t\r\n") p))
    ]

-- `get_peer_tag`
unfoldable pub get_peer_tag : List ℕ → Option (List ℕ)
get_peer_tag msg = elim (internal_find_header msg (codes "To") (codes "t") true) [
  | none ↦ none
  | some to_hdr ↦ tag_of to_hdr
]

-- `get_first_line`, of a message or of none
unfoldable pub get_first_line : Option (List ℕ) → List ℕ
get_first_line none = []
get_first_line (some message) = span_not (codes "\r\n") message

-- `strstr` for the first spelling of the CSeq header that the message has
unfoldable pub find_cseq : List (List ℕ) → List ℕ → Option (List ℕ)
find_cseq [] msg = none
find_cseq (name ∷ names) msg = elim (strstr name msg) [
  | none ↦ find_cseq names msg
  | some p ↦ some p
]

-- `get_cseq_value`
unfoldable pub get_cseq_value : List ℕ → ℕ
unfolding find_cseq
get_cseq_value msg =
    elim (find_cseq
      (codes "\r\nCSeq:" ∷ codes "\r\nCSEQ:" ∷ codes "\r\ncseq:" ∷ codes "\r\nCseq:" ∷ []) msg) [
        | none ↦ 0
        | some p ↦ elim (skip_while is_blank (drop 7 p)) [ [] ↦ 0 | c ∷ q ↦ strtoul (c ∷ q) ]
      ]

-- `get_reply_code`: `atol` reads on from the place found in the first line
unfoldable pub get_reply_code : Option (List ℕ) → ℕ
unfolding get_first_line
get_reply_code none = 0
get_reply_code (some msg) =
    let in_line = length (span_not (codes "\r\n") msg) in
    let before = length (span_not (codes " \t") (take in_line msg)) in
    let code = skip_while is_blank (drop before (take in_line msg)) in
    elim code [ [] ↦ 0 | c ∷ q ↦ to_ulong (strtol (drop (in_line - length (c ∷ q)) msg)) ]
