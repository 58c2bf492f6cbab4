-- ===== src/SipParser/Param.antt =====
-- The parameters that src/sip_parser.cpp looks for: `internal_find_param` ends, and the tag it gives.
use sipp.Base.{
  ℕ, zero, suc, ◌-◌, ◌≤◌, ◌<◌, ◌≡◌, ◌≢◌, ap, subst, inl, inr, true, false, ◌&&◌, List, [], ◌∷◌,
  Option, none, some, ◌==◌, ==_iff, arith, Bool-cases, Option-cases, length, length-take_le, take,
  drop, has,
}
use sipp.Base.Bytes.{at, codes, span_not, has_byte, starts_icase}
use sipp.SipParser.{
  max_header_len, skip_lws_at, internal_skip_lws, hdrchr_from, internal_hdrchr, out_of_fuel,
  find_param_loop, tag_of, get_peer_tag,
}

-- A pointer that went on: what is left is no more.
abbrev Within : ℕ → Option (List ℕ) → Type 0
Within n none = Unit
Within n (some p) = length p ≤ n

skip_lws_at-Within : (k : ℕ) (p : List ℕ) → Within (length p) (skip_lws_at k p)
unfolding skip_lws_at
skip_lws_at-Within k [] = omega arith
skip_lws_at-Within (suc k) (c ∷ p) = ground (arith, skip_lws_at-Within k p)
skip_lws_at-Within zero (c ∷ p) = ground (arith, skip_lws_at-Within zero p, skip_lws_at-Within 2 p)

-- The byte that was looked for, and what is behind it.
abbrev Behind : ℕ → Option (List ℕ) → Type 0
Behind n none = Unit
Behind n (some []) = ⊥
Behind n (some (c ∷ p)) = length p < n

hdrchr_from-Behind :
    (needle before : ℕ) (p : List ℕ) → Behind (length p) (hdrchr_from needle before p)
unfolding hdrchr_from
hdrchr_from-Behind needle before [] = tt
hdrchr_from-Behind needle before (c ∷ p) = ground (arith, hdrchr_from-Behind needle c p)

internal_hdrchr-Behind : (p : List ℕ) (needle : ℕ) → Behind (length p) (internal_hdrchr p needle)
unfolding internal_hdrchr
internal_hdrchr-Behind p needle = ground (arith, hdrchr_from-Behind needle 0 p)

Behind-drop : (s : List ℕ) (n : ℕ) → Behind n (some s) → suc (length (drop 1 s)) ≤ n
Behind-drop [] n h = absurd h
Behind-drop (c ∷ s) n h = omega arith

-- Past the semicolon that a round finds, and the blanks behind it, there is less left.
after_semicolon :
    (p semicolon : List ℕ)
    → internal_hdrchr p b';' ≡ some semicolon
    → Within (length (drop 1 semicolon)) (internal_skip_lws (drop 1 semicolon))
      × (suc (length (drop 1 semicolon)) ≤ length p)
unfolding internal_skip_lws
after_semicolon p semicolon e = (
  skip_lws_at-Within zero (drop 1 semicolon),
  Behind-drop semicolon (length p) (subst (Behind (length p)) e (internal_hdrchr-Behind p b';')),
)

-- A round that comes to a parameter takes its name, or goes on from there.
round-ends :
    (n : ℕ) (name p semicolon rest : List ℕ)
    → internal_hdrchr p b';' ≡ some semicolon
    → internal_skip_lws (drop 1 semicolon) ≡ some rest
    → find_param_loop n name rest ≢ out_of_fuel
    → find_param_loop (suc n) name p ≢ out_of_fuel
unfolding find_param_loop
round-ends n name p semicolon [] e f on = rw (e, find_param_loop, f) (λ q. ground arith)
round-ends n name p semicolon (c ∷ q) e f on =
    elim (Bool-cases (starts_icase name (c ∷ q) && (at (c ∷ q) (length name) == b'='))) [
      | inl y ↦ rw (e, find_param_loop, f, y) (λ r. ground arith)
      | inr z ↦ rw (e, find_param_loop, f, z) on
    ]

-- The loop of `internal_find_param` ends within as many rounds as the text has bytes, and one more.
pub find_param_loop-ends :
    (n : ℕ) (name p : List ℕ) → length p < n → find_param_loop n name p ≢ out_of_fuel
unfolding find_param_loop
find_param_loop-ends zero name p h = absurd (omega arith)
find_param_loop-ends (suc n) name p h = elim (Option-cases (internal_hdrchr p b';')) [
  | inl e ↦ rw (e, find_param_loop) (λ q. ground arith)
  | inr (semicolon, e) ↦
      let less = after_semicolon p semicolon e in
      elim (Option-cases (internal_skip_lws (drop 1 semicolon))) [
        | inl f ↦ rw (e, find_param_loop, f) (λ q. ground arith)
        | inr (rest, f) ↦
            let left : length rest ≤ length (drop 1 semicolon) =
              subst (Within (length (drop 1 semicolon))) f less.0 in
            round-ends n name p semicolon rest e f
              (find_param_loop-ends n name rest (omega (arith, left, less.1, h)))
      ]
]

-- The text of a tag: none of its end marks, and at most as long as a header may be.
abbrev pub IsTag : List ℕ → Type 0
IsTag t =
    (length t < max_header_len) × ((c : ℕ) → has c t ≡ true → has_byte c (codes " ;\t\r\n") ≡ false)

span_not-has_byte :
    (set p : List ℕ) (n c : ℕ) → has c (take n (span_not set p)) ≡ true → has_byte c set ≡ false
span_not-has_byte set [] zero c h = ground arith
span_not-has_byte set [] (suc n) c h = ground arith
span_not-has_byte set (x ∷ p) zero c h = ground arith
span_not-has_byte set (x ∷ p) (suc n) c h = elim (Bool-cases (has_byte x set)) [
  | inl y ↦ ground (arith, y, h)
  | inr z ↦ elim (Bool-cases (x == c)) [
    | inl e ↦ subst (λ u. has_byte u set ≡ false) ((==_iff x c).0 e) z
    | inr f ↦ span_not-has_byte set p n c (ground (arith, z, f, h))
  ]
]

cut_text-IsTag :
    (r : Option (List ℕ)) (tag : List ℕ)
    → (elim r [
      | none ↦ none
      | some p ↦ some (take (max_header_len - 1) (span_not (codes " ;\t\r\n") p))
    ])
      ≡ some tag
    → IsTag tag
cut_text-IsTag none tag e = ground arith
cut_text-IsTag (some p) tag e =
    let q = ap (λ o. elim o [ none ↦ [] | some t ↦ t ]) e in
    subst IsTag q (
      omega (arith, length-take_le (max_header_len - 1) (span_not (codes " ;\t\r\n") p)),
      λ c h. span_not-has_byte (codes " ;\t\r\n") p (max_header_len - 1) c h,
    )

found_header-IsTag :
    (r : Option (List ℕ)) (tag : List ℕ)
    → (elim r [ none ↦ none | some to_hdr ↦ tag_of to_hdr ]) ≡ some tag
    → IsTag tag
unfolding tag_of
found_header-IsTag none tag e = ground arith
found_header-IsTag (some to_hdr) tag e = cut_text-IsTag _ tag e

-- A tag that `get_peer_tag` finds has fewer than MAX_HEADER_LEN characters, and no space, tab, semicolon or
-- end of line.
pub get_peer_tag-IsTag : (msg tag : List ℕ) → get_peer_tag msg ≡ some tag → IsTag tag
unfolding get_peer_tag
get_peer_tag-IsTag msg tag e = found_header-IsTag _ tag e
