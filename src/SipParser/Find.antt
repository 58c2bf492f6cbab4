-- ===== src/SipParser/Find.antt =====
-- `internal_find_header` of src/sip_parser.cpp on messages as they are written: a first line, headers, and
-- the blank line.
use sipp.Base.{
  ℕ, suc, ◌≤◌, ◌<◌, ◌≡◌, refl, ap, inl, inr, Bool, true, false, ◌&&◌, ◌||◌, List, [], ◌∷◌, ◌++◌,
  none, some, ◌==◌, arith, Bool-cases, if◌then◌else◌, length, drop,
}
use sipp.Base.Bytes.{at, to_lower, is_blank, starts_icase, skip_while}
use sipp.SipParser.{cr, lf, header_colon}

-- Text with no colon, blank or end of line.
abbrev pub IsToken : List ℕ → Type 0
IsToken [] = Unit
IsToken (c ∷ p) =
    ((c == b':') ≡ false)
    × (is_blank c ≡ false)
    × ((c == cr) ≡ false)
    × ((c == lf) ≡ false)
    × IsToken p

-- Text with no end of line.
abbrev pub IsLine : List ℕ → Type 0
IsLine [] = Unit
IsLine (c ∷ p) = ((c == cr) ≡ false) × ((c == lf) ≡ false) × IsLine p

-- Equal but for case.
abbrev pub same_icase : List ℕ → List ℕ → Bool
same_icase [] [] = true
same_icase (x ∷ a) (y ∷ b) = (to_lower x == to_lower y) && same_icase a b
same_icase _ _ = false

-- Whether the text has the name with a colon behind.
abbrev colon_after : List ℕ → List ℕ → Bool
colon_after name p =
    starts_icase name p && (at (skip_while is_blank (drop (length name) p)) 0 == b':')

colon_after-same_icase :
    (name h rest : List ℕ)
    → IsToken name
    → IsToken h
    → colon_after name (h ++ b':' ∷ rest) ≡ same_icase name h
colon_after-same_icase [] [] rest m n = refl
colon_after-same_icase [] (x ∷ h) rest m n = ground (arith, n.0, n.1)
colon_after-same_icase (y ∷ name) [] rest m n = ground (arith, m.0)
colon_after-same_icase (y ∷ name) (x ∷ h) rest m n =
    ground (arith, colon_after-same_icase name h rest)

-- A first line has a word, a blank, and something that is no colon.
colon_after_word :
    (name word rest : List ℕ) (c : ℕ)
    → IsToken name
    → IsToken word
    → (c == b':') ≡ false
    → is_blank c ≡ false
    → colon_after name (word ++ b' ' ∷ (c ∷ rest)) ≡ false
colon_after_word [] [] rest c m n a b = ground (arith, a, b)
colon_after_word [] (x ∷ word) rest c m n a b = ground (arith, n.0, n.1)
colon_after_word (y ∷ name) [] rest c m n a b = ground (arith, m.0, m.1)
colon_after_word (y ∷ name) (x ∷ word) rest c m n a b =
    ground (arith, colon_after_word name word rest c)

drop_same :
    (name h rest : List ℕ) → same_icase name h ≡ true → drop (length name) (h ++ rest) ≡ rest
drop_same [] [] rest e = refl
drop_same [] (x ∷ h) rest e = ground arith
drop_same (y ∷ name) [] rest e = ground arith
drop_same (y ∷ name) (x ∷ h) rest e = drop_same name h rest (ground arith)

length_same : (name h : List ℕ) → same_icase name h ≡ true → length name ≡ length h
length_same [] [] e = refl
length_same [] (x ∷ h) e = ground arith
length_same (y ∷ name) [] e = ground arith
length_same (y ∷ name) (x ∷ h) e = ap suc (length_same name h (ground arith))

starts_within :
    (name h rest : List ℕ)
    → IsToken name
    → starts_icase name (h ++ b':' ∷ rest) ≡ true
    → length name ≤ length h
starts_within [] h rest m e = omega arith
starts_within (y ∷ name) [] rest m e = ground (arith, m.0)
starts_within (y ∷ name) (x ∷ h) rest m e =
    omega (arith, starts_within name h rest m.4 (ground arith))

-- The names that a header is looked for by: a short one, and a longer one.
pub record AreNames (name shortname : List ℕ) : Type 0 where
  pub long_token : IsToken name
  pub short_token : IsToken shortname
  pub some_short : 0 < length shortname
  pub shorter : length shortname < length name

starts_first :
    (name p : List ℕ)
    → 0 < length name
    → starts_icase name p ≡ true
    → (to_lower (at p 0) == to_lower (at name 0)) ≡ true
starts_first [] p h e = absurd (omega arith)
starts_first (y ∷ name) [] h e = ground arith
starts_first (y ∷ name) (x ∷ p) h e = ground arith

-- The test of a header's line.
pub header_colon-header :
    (name shortname h rest : List ℕ)
    → AreNames name shortname
    → IsToken h
    → header_colon name shortname (h ++ b':' ∷ rest)
      ≡ (if same_icase name h || same_icase shortname h then some rest else none)
unfolding header_colon
header_colon-header name shortname h rest v n =
    let p = h ++ b':' ∷ rest in
    let long = colon_after-same_icase name h rest v.long_token n in
    let short = colon_after-same_icase shortname h rest v.short_token n in
    elim (Bool-cases (starts_icase name p)) [
      | inl y ↦
          let other : same_icase shortname h ≡ false = (elim (Bool-cases (same_icase shortname h)) [
            | inl k ↦ absurd (
                omega (
                  arith,
                  length_same shortname h k,
                  starts_within name h rest v.long_token y,
                  v.shorter,
                ))
            | inr k ↦ k
          ]) in
          ground (
            arith,
            long,
            other,
            y,
            starts_first name p (omega (arith, v.some_short, v.shorter)) y,
            drop_same name h (b':' ∷ rest),
          )
      | inr z ↦ ground (
        arith,
        long,
        short,
        z,
        starts_first shortname p v.some_short,
        drop_same shortname h (b':' ∷ rest),
      )
    ]

-- The test of a first line.
pub header_colon-first :
    (name shortname word rest : List ℕ) (c : ℕ)
    → AreNames name shortname
    → IsToken word
    → (c == b':') ≡ false
    → is_blank c ≡ false
    → header_colon name shortname (word ++ b' ' ∷ (c ∷ rest)) ≡ none
unfolding header_colon
header_colon-first name shortname word rest c v n a b = ground (
  arith,
  colon_after_word name word rest c v.long_token n a b,
  colon_after_word shortname word rest c v.short_token n a b,
)
