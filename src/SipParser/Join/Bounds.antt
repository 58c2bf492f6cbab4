-- ===== src/SipParser/Join/Bounds.antt =====
-- `get_header` of src/sip_parser.cpp stays within its limit, and its loop within its fuel.
use native.Mathlib.Nat.{le_trans}
use sipp.Base.{
  ℕ, zero, suc, ◌+◌, ◌-◌, ◌≤◌, ◌<◌, ◌≡◌, refl, Bool, true, false, List, [], ◌∷◌, Option, none, some,
  arith, ◌==◌, Bool-cases, inl, inr, Option-cases, if◌then◌else◌, length, length-take_le,
  length-append, take,
}
use sipp.SipParser.Header.{
  drop_spaces, HeaderName, internal_header_name, internal_match_header, internal_header_value,
  past_colon,
}
use sipp.SipParser.Join.{
  max_join, internal_append, trim_end, end_space, end_space_or_lf, join_value, join_loop,
  match_after, drop_doubled, join_end, separator, internal_join_headers, or_joined, header_found,
  get_header, in_place_named, in_place_content,
}

length-trim_end :
    (test : ℕ → Bool) (keep : ℕ) (xs : List ℕ) → length (trim_end test keep xs) ≤ length xs
unfolding trim_end
length-trim_end test keep [] = omega arith
length-trim_end test (suc k) (c ∷ p) = omega (arith, length-trim_end test k p)
length-trim_end test zero (c ∷ p) = ground (arith, length-trim_end test zero p)

length-drop_doubled :
    (c : ℕ) (before : Option ℕ) (xs : List ℕ) → length (drop_doubled c before xs) ≤ length xs
unfolding drop_doubled
length-drop_doubled c before [] = omega arith
length-drop_doubled c before (x ∷ p) =
    ground (arith, length-drop_doubled c before p, length-drop_doubled c (some x) p)

length-drop_spaces : (xs : List ℕ) → length (drop_spaces xs) ≤ length xs
length-drop_spaces [] = omega arith
length-drop_spaces (c ∷ p) = ground (arith, length-drop_spaces p)

length-internal_append :
    (dest src : List ℕ) (cut : Bool)
    → length dest ≤ max_join
    → length (internal_append dest src cut).dest ≤ max_join
unfolding internal_append
length-internal_append dest src cut h =
    ground (arith, length-append dest src, length-take_le (max_join - length dest) src)

length-join_value :
    (dest value : List ℕ) (cut : Bool)
    → length dest ≤ max_join
    → length (join_value dest value cut).dest ≤ max_join
unfolding join_value
length-join_value dest value cut h =
    let trimmed = trim_end end_space_or_lf 0 dest in
    let fits = le_trans (length-trim_end end_space_or_lf 0 dest) h in
    elim (Bool-cases (length dest == 0)) [
      | inl e ↦ rw e (length-internal_append dest value cut h)
      | inr e ↦ rw e (elim (Bool-cases (internal_append trimmed (separator trimmed) cut).fits) [
        | inl f ↦
            rw f (length-internal_append _ value _ (length-internal_append trimmed _ cut fits))
        | inr f ↦ rw f (length-internal_append trimmed _ cut fits)
      ])
    ]

length-join_loop :
    (fuel : ℕ) (h : HeaderName) (line : Option (List ℕ)) (dest : List ℕ) (cut : Bool)
    → length dest ≤ max_join
    → (out : List ℕ) (c : Bool) → join_loop fuel h line dest cut ≡ some (out, c)
    → length out ≤ max_join
unfolding join_loop
length-join_loop fuel h none dest cut le out c e = ground arith
length-join_loop zero h (some line) dest cut le out c e = cc
length-join_loop (suc fuel) h (some line) dest cut le out c e =
    let (src, value) = internal_header_value line in
    let a = join_value dest value cut in
    ground (
      arith,
      length-join_value dest value cut le,
      length-join_loop fuel h (match_after h src) a.dest a.cut (length-join_value dest value cut le)
          out c,
    )

length-join_end : (dest : List ℕ) (cut : Bool) → length (join_end dest cut) ≤ length dest
unfolding join_end
length-join_end dest cut = ground (
  arith,
  length-drop_doubled 10 none (drop_doubled 13 none (drop_spaces (trim_end end_space 1 dest))),
  length-drop_doubled 13 none (drop_spaces (trim_end end_space 1 dest)),
  length-drop_spaces (trim_end end_space 1 dest),
  length-trim_end end_space 1 dest,
)

in_place_content_le :
    (value text : List ℕ) → in_place_content value ≡ some text → length text ≤ max_join
unfolding in_place_content
in_place_content_le value text e = ground (arith, length-trim_end end_space 1 value)

in_place_named_le :
    (name line src value text : List ℕ)
    → in_place_named name line src value ≡ some text
    → length text ≤ max_join
unfolding in_place_named
in_place_named_le name line src value text e =
    let whole = take ((length line - length src) + length value) line in
    ground (
      arith,
      length-trim_end end_space (length name) whole,
      length-take_le ((length line - length src) + length value) line,
    )

-- Each line found is shorter than what was searched.
match_shorter :
    (h : HeaderName) (before : Option ℕ) (p line : List ℕ)
    → internal_match_header h before p ≡ some line
    → length line < length p
unfolding internal_match_header
match_shorter h before [] line e = cc
match_shorter h before (c ∷ p) line e = ground (arith, match_shorter h (some c) p line)

match_after_le :
    (h : HeaderName) (src line : List ℕ) → match_after h src ≡ some line → length line < length src
unfolding match_after
match_after_le h [] line e = cc
match_after_le h (c ∷ p) line e = omega (arith, match_shorter h (some c) p line e)

past_colon_le : (p : List ℕ) → length (past_colon p) ≤ length p
past_colon_le [] = omega arith
past_colon_le (c ∷ p) = ground (arith, past_colon_le p)

value_le : (line : List ℕ) → length (internal_header_value line).0 ≤ length line
unfolding internal_header_value
value_le line = omega (arith, past_colon_le line, length-drop_spaces (past_colon line))

-- The joined headers so far: there, and within the limit.
abbrev FitsSoFar : Option (List ℕ × Bool) → Type 0
FitsSoFar none = ⊥
FitsSoFar (some (dest, _)) = length dest ≤ max_join

-- The loop has fuel enough for the lines that are left.
join_loop-FitsSoFar :
    (fuel : ℕ) (h : HeaderName) (line : Option (List ℕ)) (dest : List ℕ) (cut : Bool)
    → length dest ≤ max_join
    → ((l : List ℕ) → line ≡ some l → length l < fuel)
    → FitsSoFar (join_loop fuel h line dest cut)
unfolding join_loop
join_loop-FitsSoFar fuel h none dest cut le enough = le
join_loop-FitsSoFar zero h (some line) dest cut le enough = absurd (omega (arith, enough line refl))
join_loop-FitsSoFar (suc fuel) h (some line) dest cut le enough =
    let (src, value) = internal_header_value line in
    let a = join_value dest value cut in
    let next =
      join_loop-FitsSoFar fuel h (match_after h src) a.dest a.cut
        (length-join_value dest value cut le)
        (λ l m. omega (arith, enough line refl, value_le line, match_after_le h src l m)) in
    elim (Bool-cases a.fits) [
      | inl y ↦ rw (y, join_loop, FitsSoFar) next
      | inr n ↦ rw (n, join_loop, FitsSoFar) (length-join_value dest value cut le)
    ]

abbrev pub Fits : Option (List ℕ) → Type 0
Fits none = ⊥
Fits (some text) = length text ≤ max_join

joined-Fits :
    (r : Option (List ℕ × Bool))
    → FitsSoFar r
    → Fits (elim r [ none ↦ none | some (dest, cut) ↦ some (join_end dest cut) ])
joined-Fits none f = f
joined-Fits (some (dest, cut)) f = le_trans (length-join_end dest cut) f

internal_join_headers-Fits :
    (fuel : ℕ) (line : List ℕ) (h : HeaderName) (content : Bool)
    → length line < fuel
    → Fits (internal_join_headers fuel line h content)
unfolding internal_join_headers
internal_join_headers-Fits fuel line h true enough =
    joined-Fits (join_loop fuel h (some line) [] false)
      (join_loop-FitsSoFar fuel h (some line) [] false (omega arith) (λ l e. ground arith))
internal_join_headers-Fits fuel line h false enough =
    let a = internal_append [] h.name false in
    joined-Fits (join_loop fuel h (if a.fits then some line else none) a.dest a.cut) (
      join_loop-FitsSoFar fuel h (if a.fits then some line else none) a.dest a.cut
        (length-internal_append [] h.name false (omega arith)) (λ l e. ground arith))

or_joined-Fits :
    (o joined : Option (List ℕ))
    → ((text : List ℕ) → o ≡ some text → length text ≤ max_join)
    → Fits joined
    → Fits (or_joined o joined)
or_joined-Fits none joined h f = f
or_joined-Fits (some text) joined h f = h text refl

header_found-Fits :
    (fuel : ℕ) (name : List ℕ) (content : Bool) (h : HeaderName) (line : List ℕ)
    → length line < fuel
    → Fits (header_found fuel name content h line)
unfolding header_found
header_found-Fits fuel name content h line enough =
    let (src, value) = internal_header_value line in
    let joined = internal_join_headers fuel line h content in
    let joins = internal_join_headers-Fits fuel line h content enough in
    ground (
      arith,
      joins,
      or_joined-Fits (in_place_content value) joined (λ t e. in_place_content_le value t e) joins,
      or_joined-Fits (in_place_named name line src value) joined
          (λ t e. in_place_named_le name line src value t e) joins,
    )

-- `get_header` always comes to a text, of at most MAX_HEADER_LEN * 10 - 1 characters, for any
-- message and any name, whether it joins several headers or returns one where it is.
pub get_header-Fits :
    (message name : List ℕ) (content : Bool) → Fits (get_header message name content)
unfolding get_header
get_header-Fits message name content =
    let h = internal_header_name name in
    elim (Option-cases (internal_match_header h none message)) [
      | inl absent ↦ ground arith
      | inr (line, there) ↦ ground (
        arith,
        header_found-Fits (length message) name content h line
            (match_shorter h none message line there),
      )
    ]
