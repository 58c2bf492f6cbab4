-- ===== src/SipParser/Join/InPlace.antt =====
-- `get_header_content` of src/sip_parser.cpp: a header that is returned where it is, is what joining it
-- would give.
use sipp.Base.{
  ℕ, zero, suc, ◌≤◌, ◌<◌, ◌≡◌, refl, sym, ap, ◌∙◌, Bool, true, false, not, ◌&&◌, ◌||◌, List, [],
  ◌∷◌, Option, none, some, arith, ltb, ◌==◌, ==_iff, Bool-cases, inl, inr, Option-cases,
  if◌then◌else◌, length,
}
use sipp.Base.Bytes.{at, has_byte}
use sipp.SipParser.Header.{
  code_eq, drop_spaces, past_colon, HeaderName, internal_header_name, internal_match_header,
  internal_header_value, folded_value, without_last,
}
use sipp.SipParser.Join.{
  max_join, Appended, internal_append, trim_end, end_space, join_value, join_loop, match_after,
  drop_doubled, join_end, doubled_cr, internal_join_headers, header_found, get_header,
  get_header_content, in_place_content,
}

-- The same headers, always joined.
abbrev pub joined_content : List ℕ → List ℕ → Option (List ℕ)
joined_content message name =
    if length message == 0
    then some []
    else if length name == 0 || not (has_byte b':' name)
    then some []
    else elim (internal_match_header (internal_header_name name) none message) [
      | none ↦ some []
      | some line ↦ internal_join_headers (length message) line (internal_header_name name) true
    ]

abbrev doubled : ℕ → List ℕ → Bool
doubled c [] = false
doubled c (x ∷ p) = (x == c && at p 0 == c) || doubled c p

doubled_cr-doubled : (p : List ℕ) → doubled_cr p ≡ doubled 13 p
doubled_cr-doubled [] = refl
doubled_cr-doubled (x ∷ p) = ground (arith, doubled_cr-doubled p)

drop_doubled-same :
    (c : ℕ) (before : Option ℕ) (p : List ℕ)
    → doubled c p ≡ false
    → (code_eq before c && (at p 0 == c)) ≡ false
    → drop_doubled c before p ≡ p
unfolding drop_doubled
drop_doubled-same c before [] h b = refl
drop_doubled-same c before (x ∷ p) h b = ground (arith, drop_doubled-same c (some x) p)

folded_value-at : (p : List ℕ) → (at p 0 == 10) ≡ false → at (folded_value p).0 0 ≡ at p 0
unfolding folded_value
folded_value-at [] h = refl
folded_value-at (x ∷ p) h = ground arith

folded_value-doubled : (p : List ℕ) → doubled 10 (folded_value p).0 ≡ false
unfolding folded_value
folded_value-doubled [] = refl
folded_value-doubled (x ∷ p) = ground (arith, folded_value-doubled p, folded_value-at p)

without_last-at :
    (c : ℕ) (p : List ℕ)
    → (c == 0) ≡ false
    → (at p 0 == c) ≡ false
    → (at (without_last p) 0 == c) ≡ false
without_last-at c [] z h = ground arith
without_last-at c (x ∷ []) z h = ground arith
without_last-at c (x ∷ y ∷ p) z h = ground arith

without_last-doubled :
    (c : ℕ) (p : List ℕ)
    → (c == 0) ≡ false
    → doubled c p ≡ false
    → doubled c (without_last p) ≡ false
without_last-doubled c [] z h = refl
without_last-doubled c (x ∷ []) z h = refl
without_last-doubled c (x ∷ y ∷ p) z h =
    ground (arith, without_last-doubled c (y ∷ p), without_last-at c (y ∷ p))

trim_end-at :
    (test : ℕ → Bool) (k c : ℕ) (p : List ℕ)
    → (c == 0) ≡ false
    → (at p 0 == c) ≡ false
    → (at (trim_end test k p) 0 == c) ≡ false
unfolding trim_end
trim_end-at test k c [] z h = ground arith
trim_end-at test zero c (x ∷ p) z h = ground arith
trim_end-at test (suc k) c (x ∷ p) z h = ground arith

trim_end-doubled :
    (test : ℕ → Bool) (k c : ℕ) (p : List ℕ)
    → (c == 0) ≡ false
    → doubled c p ≡ false
    → doubled c (trim_end test k p) ≡ false
unfolding trim_end
trim_end-doubled test k c [] z h = ground arith
trim_end-doubled test zero c (x ∷ p) z h =
    ground (arith, trim_end-doubled test zero c p, trim_end-at test zero c p)
trim_end-doubled test (suc k) c (x ∷ p) z h =
    ground (arith, trim_end-doubled test k c p, trim_end-at test k c p)

drop_spaces-at : (p : List ℕ) → (at (drop_spaces p) 0 == b' ') ≡ false
drop_spaces-at [] = refl
drop_spaces-at (x ∷ p) = ground (arith, drop_spaces-at p)

drop_spaces-same : (p : List ℕ) → (at p 0 == b' ') ≡ false → drop_spaces p ≡ p
drop_spaces-same [] h = refl
drop_spaces-same (x ∷ p) h = ground arith

folded_value-first :
    (p : List ℕ) → (at p 0 == b' ') ≡ false → (at (folded_value p).0 0 == b' ') ≡ false
unfolding folded_value
folded_value-first [] h = refl
folded_value-first (x ∷ p) h = ground arith

-- A value has no doubled LF, and no space at its start.
value-doubled : (line : List ℕ) → doubled 10 (internal_header_value line).1 ≡ false
unfolding internal_header_value
value-doubled line =
    let v = (folded_value (drop_spaces (past_colon line))).0 in
    let h = folded_value-doubled (drop_spaces (past_colon line)) in
    ground (arith, h, without_last-doubled 10 v refl h)

value-first : (line : List ℕ) → (at (internal_header_value line).1 0 == b' ') ≡ false
unfolding internal_header_value
value-first line =
    let v = (folded_value (drop_spaces (past_colon line))).0 in
    let h = folded_value-first (drop_spaces (past_colon line)) (drop_spaces-at (past_colon line)) in
    ground (arith, h, without_last-at b' ' v refl h)

-- What the end of the join leaves of a value with no doubled CR.
join_end-value :
    (v : List ℕ)
    → doubled 10 v ≡ false
    → (at v 0 == b' ') ≡ false
    → doubled_cr (trim_end end_space 1 v) ≡ false
    → 0 < length v
    → join_end v false ≡ trim_end end_space 1 v
unfolding join_end
join_end-value v h f d l =
    let t = trim_end end_space 1 v in
    let spaces = drop_spaces-same t (trim_end-at end_space 1 b' ' v refl f) in
    let crs = drop_doubled-same 13 none t (sym (doubled_cr-doubled t) ∙ d) refl in
    let lfs = drop_doubled-same 10 none t (trim_end-doubled end_space 1 10 v refl h) refl in
    let some_v : (length v == 0) ≡ false = ground arith in rw (some_v, spaces, crs, lfs) refl

join_end-empty : (v : List ℕ) → length v ≡ 0 → join_end v false ≡ []
unfolding join_end
join_end-empty [] h = refl
join_end-empty (x ∷ v) h = absurd (omega arith)

join_value-first :
    (v : List ℕ)
    → length v ≤ max_join
    → join_value [] v false ≡ record { dest = v; fits = true; cut = false }
unfolding join_value internal_append
join_value-first v l = let fits : ltb max_join (length v) ≡ false = ground arith in rw (fits) refl

-- The join of one header.
join_one :
    (fuel : ℕ) (line : List ℕ) (h : HeaderName)
    → match_after h (internal_header_value line).0 ≡ none
    → length (internal_header_value line).1 ≤ max_join
    → internal_join_headers (suc fuel) line h true
      ≡ some (join_end (internal_header_value line).1 false)
unfolding internal_join_headers join_loop
join_one fuel line h m l =
    let first = join_value-first (internal_header_value line).1 l in
    rw (first, internal_join_headers, join_loop, m)
      (ap (λ (a : Appended). some (join_end a.dest a.cut)) first)

header_found-joined :
    (fuel : ℕ) (name : List ℕ) (h : HeaderName) (line : List ℕ)
    → header_found (suc fuel) name true h line ≡ internal_join_headers (suc fuel) line h true
unfolding header_found in_place_content
header_found-joined fuel name h line =
    let v = (internal_header_value line).1 in
    let t = trim_end end_space 1 v in
    elim (Option-cases (match_after h (internal_header_value line).0)) [
      | inr (next, e) ↦ rw (e, header_found) refl
      | inl e ↦ elim (Bool-cases (length v == 0)) [
        | inl z ↦
            let empty : length v ≡ 0 = (==_iff (length v) 0).0 z in
            rw (e, header_found, z)
              (sym
                (join_one fuel line h e (omega (arith, empty)) ∙ ap some (join_end-empty v empty)))
        | inr n ↦ elim (Bool-cases (ltb max_join (length v) || doubled_cr t)) [
          | inl y ↦ rw (e, header_found, n, in_place_content, y) refl
          | inr r ↦
              rw (e, header_found, n, in_place_content, r)
                (sym (
                  join_one fuel line h e (ground arith)
                  ∙ ap some (
                      join_end-value v (value-doubled line) (value-first line) (ground arith)
                        (ground arith))))
        ]
      ]
    ]

-- `get_header_content` gives what joining the headers gives, also where it returns the only one of them as
-- it stands in the message: trimmed, and with no doubled CR or LF.
pub get_header_content-joined_content :
    (message name : List ℕ) → get_header_content message name ≡ joined_content message name
unfolding get_header_content get_header
get_header_content-joined_content [] name = refl
get_header_content-joined_content (c ∷ message) name =
    let h = internal_header_name name in
    elim (Option-cases (internal_match_header h none (c ∷ message))) [
      | inl e ↦ ground (arith, e)
      | inr (line, e) ↦ ground (arith, e, header_found-joined (length message) name h line)
    ]
