-- ===== src/SipParser/Message.antt =====
-- The Call-ID that src/sip_parser.cpp finds in a message that was written from its parts.
use mathlib.Core.List.{append_assoc}
use sipp.Base.{
  ℕ, ◌+◌, ◌<◌, ◌≡◌, refl, sym, ap, subst, ◌∙◌, inl, inr, true, false, ◌&&◌, ◌||◌, List, [], ◌∷◌,
  ◌++◌, Option, none, some, ltb, ◌==◌, arith, Bool-cases, if◌then◌else◌, length, length-append,
}
use sipp.Base.Bytes.{at, is_blank, codes}
use sipp.SipParser.{
  cr, lf, max_header_len, skip_lws_at, internal_skip_lws, internal_hdrend, header_colon,
  find_header_from, internal_find_header, call_id_of, get_call_id,
}
use sipp.SipParser.Find.{
  IsToken, IsLine, AreNames, same_icase, header_colon-header, header_colon-first,
}

-- A header is its name and its value; a first line is its word and what is behind its blank.
abbrev pub written_headers : List (List ℕ × List ℕ) → List ℕ → List ℕ
written_headers [] body = cr ∷ lf ∷ body
written_headers ((h, v) ∷ hs) body = h ++ b':' ∷ (b' ' ∷ (v ++ cr ∷ (lf ∷ written_headers hs body)))

abbrev pub written : List ℕ → List ℕ → List (List ℕ × List ℕ) → List ℕ → List ℕ
written word line hs body = word ++ b' ' ∷ (line ++ cr ∷ (lf ∷ written_headers hs body))

-- Text that is not empty and starts with no blank.
abbrev pub IsValue : List ℕ → Type 0
IsValue [] = ⊥
IsValue (c ∷ p) = (is_blank c ≡ false) × IsLine (c ∷ p)

abbrev pub AreHeaders : List (List ℕ × List ℕ) → Type 0
AreHeaders [] = Unit
AreHeaders ((h, v) ∷ hs) = IsToken h × (0 < length h) × IsValue v × AreHeaders hs

-- A line that starts with a token, a blank, and no colon behind it.
abbrev pub IsFirst : List ℕ → List ℕ → Type 0
IsFirst word [] = ⊥
IsFirst word (c ∷ line) =
    IsToken word × ((c == b':') ≡ false) × (is_blank c ≡ false) × IsLine (c ∷ line)

module _ (name shortname : List ℕ) where
  -- From the value of the first header of either name on.
  abbrev pub value_from : List (List ℕ × List ℕ) → List ℕ → Option (List ℕ)
  value_from [] body = none
  value_from ((h, v) ∷ hs) body =
      if same_icase name h || same_icase shortname h
      then some (v ++ cr ∷ (lf ∷ written_headers hs body))
      else value_from hs body

  -- What comes after a line.
  abbrev after_line : List ℕ → Option (List ℕ)
  after_line q =
      if at q 0 == cr && at q 1 == lf then none else find_header_from name shortname true true lf q

  scan-line :
      (l q : List ℕ) (before : ℕ)
      → IsLine l
      → find_header_from name shortname true false before (l ++ cr ∷ (lf ∷ q)) ≡ after_line q
  unfolding find_header_from
  scan-line [] q before h = refl
  scan-line (c ∷ l) q before h = ground (arith, scan-line l q c h.2)

  scan-start :
      (c : ℕ) (l q : List ℕ) (before : ℕ)
      → IsLine (c ∷ l)
      → header_colon name shortname ((c ∷ l) ++ cr ∷ (lf ∷ q)) ≡ none
      → find_header_from name shortname true true before ((c ∷ l) ++ cr ∷ (lf ∷ q)) ≡ after_line q
  unfolding find_header_from
  scan-start c l q before h e = rw (e, find_header_from, h.1) (scan-line l q c h.2)

  -- A line `a ++ b` that is not empty and has no header of either name.
  scan-other :
      (a b q : List ℕ) (before : ℕ)
      → IsLine (a ++ b)
      → 0 < length (a ++ b)
      → header_colon name shortname (a ++ (b ++ cr ∷ (lf ∷ q))) ≡ none
      → find_header_from name shortname true true before (a ++ (b ++ cr ∷ (lf ∷ q))) ≡ after_line q
  scan-other [] [] q before h k e = absurd (omega arith)
  scan-other [] (c ∷ l) q before h k e = scan-start c l q before h e
  scan-other (c ∷ l) b q before h k e =
      let assoc = append_assoc l b (cr ∷ (lf ∷ q)) in
      subst (λ r. find_header_from name shortname true true before (c ∷ r) ≡ after_line q) assoc
        (scan-start c (l ++ b) q before h
          (subst (λ r. header_colon name shortname (c ∷ r) ≡ none) (sym assoc) e))

  scan-found :
      (c : ℕ) (p value : List ℕ) (before : ℕ)
      → header_colon name shortname (c ∷ p) ≡ some value
      → find_header_from name shortname true true before (c ∷ p) ≡ internal_skip_lws value
  unfolding find_header_from
  scan-found c p value before e = rw (e, find_header_from) refl

skip-value : (v q : List ℕ) → IsValue v → internal_skip_lws (b' ' ∷ (v ++ q)) ≡ some (v ++ q)
unfolding internal_skip_lws skip_lws_at
skip-value [] q h = absurd h
skip-value (c ∷ p) q h = ground (arith, h.0, h.1)

internal_hdrend-value :
    (v q : List ℕ) → IsLine v → is_blank (at q 0) ≡ false → internal_hdrend (v ++ cr ∷ (lf ∷ q)) ≡ v
unfolding internal_hdrend
internal_hdrend-value [] q h b = ground (arith, b)
internal_hdrend-value (c ∷ p) q h b = ground (arith, h.0, internal_hdrend-value p q h.2 b)

IsValue-IsLine : (v : List ℕ) → IsValue v → IsLine v
IsValue-IsLine [] i = absurd i
IsValue-IsLine (c ∷ p) i = i.1

module _ {name shortname : List ℕ} (names : AreNames name shortname) where
  IsToken-IsLine : (h rest : List ℕ) → IsToken h → IsLine rest → IsLine (h ++ b':' ∷ rest)
  IsToken-IsLine [] rest m n = (refl, refl, n)
  IsToken-IsLine (c ∷ h) rest m n = (m.2, m.3, IsToken-IsLine h rest m.4 n)

  IsToken-blank : (h rest : List ℕ) → IsToken h → IsLine rest → IsLine (h ++ b' ' ∷ rest)
  IsToken-blank [] rest m n = (refl, refl, n)
  IsToken-blank (c ∷ h) rest m n = (m.2, m.3, IsToken-blank h rest m.4 n)

  -- A header's line, where a line starts.
  scan-header :
      (h v q : List ℕ) (before : ℕ)
      → IsToken h
      → 0 < length h
      → IsValue v
      → find_header_from name shortname true true before (h ++ b':' ∷ (b' ' ∷ (v ++ cr ∷ (lf ∷ q))))
        ≡ (if same_icase name h || same_icase shortname h
            then some (v ++ cr ∷ (lf ∷ q))
            else after_line name shortname q)
  scan-header [] v q before m k i = absurd (omega arith)
  scan-header (c ∷ h) v q before m k i =
      let test = header_colon-header name shortname (c ∷ h) (b' ' ∷ (v ++ cr ∷ (lf ∷ q))) names m in
      elim (Bool-cases (same_icase name (c ∷ h) || same_icase shortname (c ∷ h))) [
        | inl y ↦ rw y (
            scan-found name shortname c _ (b' ' ∷ (v ++ cr ∷ (lf ∷ q))) before (test ∙ rw y refl)
            ∙ skip-value v (cr ∷ (lf ∷ q)) i)
        | inr z ↦ rw z (
            scan-other name shortname (c ∷ h) (b':' ∷ (b' ' ∷ v)) q before
              (IsToken-IsLine (c ∷ h) (b' ' ∷ v) m (refl, refl, IsValue-IsLine v i)) (omega arith)
              (test ∙ rw z refl))
      ]

  find_header_from-headers :
      (hs : List (List ℕ × List ℕ)) (body : List ℕ)
      → AreHeaders hs
      → after_line name shortname (written_headers hs body) ≡ value_from name shortname hs body
  find_header_from-headers [] body a = refl
  find_header_from-headers (([], v) ∷ hs) body a = absurd (omega (arith, a.1))
  find_header_from-headers ((x ∷ h, v) ∷ hs) body (m, k, i, a) = rw m.2 (
      scan-header (x ∷ h) v (written_headers hs body) lf m k i
      ∙ ap
          (λ r.
            if same_icase name (x ∷ h) || same_icase shortname (x ∷ h)
            then some (v ++ cr ∷ (lf ∷ written_headers hs body))
            else r)
          (find_header_from-headers hs body a))

  -- In a message that was written from a first line and headers with values on one line,
  -- `internal_find_header` finds the value of the first header that has the name or the short name, whatever
  -- the case of its letters, and nothing when there is no such header.
  pub internal_find_header-written :
      (word line : List ℕ) (hs : List (List ℕ × List ℕ)) (body : List ℕ)
      → IsFirst word line
      → AreHeaders hs
      → internal_find_header (written word line hs body) name shortname true
        ≡ value_from name shortname hs body
  unfolding internal_find_header
  internal_find_header-written word [] hs body f a = absurd f
  internal_find_header-written word (c ∷ line) hs body (m, n, b, l) a =
      scan-other name shortname word (b' ' ∷ (c ∷ line)) (written_headers hs body) lf
        (IsToken-blank word (c ∷ line) m l) (omega (arith, length-append word (b' ' ∷ (c ∷ line))))
        (header_colon-first name shortname word (line ++ cr ∷ (lf ∷ written_headers hs body)) c
          names m n b)
      ∙ find_header_from-headers hs body a

-- The Call-ID that a message was written with.
abbrev pub call_id_in : List (List ℕ × List ℕ) → List ℕ
call_id_in [] = []
call_id_in ((h, v) ∷ hs) =
    if same_icase (codes "Call-ID") h || same_icase (codes "i") h
    then (if ltb max_header_len (length v + 1) then [] else v)
    else call_id_in hs

call_id_names : AreNames (codes "Call-ID") (codes "i")
call_id_names = record {
  long_token = ground arith;
  short_token = ground arith;
  some_short = omega arith;
  shorter = omega arith;
}

-- A header or the blank line starts with no blank: the value before it ends there.
headers-blank :
    (hs : List (List ℕ × List ℕ)) (body : List ℕ)
    → AreHeaders hs
    → is_blank (at (written_headers hs body) 0) ≡ false
headers-blank [] body a = refl
headers-blank (([], v) ∷ hs) body a = absurd (omega (arith, a.1))
headers-blank ((x ∷ h, v) ∷ hs) body a = a.0.1

call_id_of-value :
    (v q : List ℕ)
    → IsValue v
    → is_blank (at q 0) ≡ false
    → call_id_of (v ++ cr ∷ (lf ∷ q)) ≡ (if ltb max_header_len (length v + 1) then [] else v)
unfolding call_id_of
call_id_of-value v q i b = rw (internal_hdrend-value v q (IsValue-IsLine v i) b) refl

call_id_of-value_from :
    (hs : List (List ℕ × List ℕ)) (body : List ℕ)
    → AreHeaders hs
    → (elim (value_from (codes "Call-ID") (codes "i") hs body) [
      | none ↦ []
      | some content ↦ call_id_of content
    ])
      ≡ call_id_in hs
call_id_of-value_from [] body a = refl
call_id_of-value_from ((h, v) ∷ hs) body (m, k, i, a) =
    elim (Bool-cases (same_icase (codes "Call-ID") h || same_icase (codes "i") h)) [
      | inl y ↦ rw y (call_id_of-value v (written_headers hs body) i (headers-blank hs body a))
      | inr z ↦ rw z (call_id_of-value_from hs body a)
    ]

-- `get_call_id` of a message that was written from a first line and headers with values on one line is the
-- value of its first Call-ID header, in its long or short form and whatever the case of its letters, if
-- that has fewer than MAX_HEADER_LEN characters, and the empty text otherwise, or without such a header.
pub get_call_id-written :
    (word line : List ℕ) (hs : List (List ℕ × List ℕ)) (body : List ℕ)
    → IsFirst word line
    → AreHeaders hs
    → get_call_id (written word line hs body) ≡ call_id_in hs
unfolding get_call_id
get_call_id-written word line hs body f a =
    rw (internal_find_header-written call_id_names word line hs body f a, get_call_id)
      (call_id_of-value_from hs body a)
