-- ===== src/WebSocket/Lines.antt =====
-- The functions of src/websocket.cpp that read the head of a handshake, on a head that was written in lines.
use mathlib.Core.List.{append_assoc}
use sipp.Base.{
  ℕ, zero, suc, ◌+◌, ◌≤◌, ◌<◌, ◌≡◌, refl, sym, ap, ◌∙◌, false, List, [], ◌∷◌, ◌++◌, some, ◌==◌,
  length, arith, length-append,
}
use sipp.Base.Bytes.{at, is_blank, starts, starts_icase}
use sipp.WebSocket.Http.{
  crlf, position, line_of, from_crlf, without_end, trim, add_value, header_from, header,
}

-- A line with no CR in it.
abbrev pub HasNoCr : List ℕ → Type 0
HasNoCr [] = Unit
HasNoCr (c ∷ l) = ((13 == c) ≡ false) × HasNoCr l

abbrev pub AreLines : List (List ℕ) → Type 0
AreLines [] = Unit
AreLines (l ∷ ls) = HasNoCr l × (0 < length l) × AreLines ls

pub HasNoCr-append : (a b : List ℕ) → HasNoCr a → HasNoCr b → HasNoCr (a ++ b)
HasNoCr-append [] b p q = q
HasNoCr-append (c ∷ a) b p q = (p.0, HasNoCr-append a b p.1 q)

-- Lines, each with its CRLF, before `s`.
abbrev pub lines_onto : List (List ℕ) → List ℕ → List ℕ
lines_onto [] s = s
lines_onto (l ∷ ls) s = l ++ 13 ∷ 10 ∷ lines_onto ls s

position-line :
    (l s : List ℕ) (k : ℕ)
    → HasNoCr l
    → position (crlf ++ crlf) s ≡ some k
    → position (crlf ++ crlf) (l ++ s) ≡ some (length l + k)
unfolding position
position-line [] s k h e = e ∙ ap some (omega arith)
position-line (c ∷ l) s k h e = rw (h.0, position-line l s k h.1 e) (ap some (omega arith))

position-skip :
    (c : ℕ) (s : List ℕ) (k : ℕ)
    → starts (crlf ++ crlf) (c ∷ s) ≡ false
    → position (crlf ++ crlf) s ≡ some k
    → position (crlf ++ crlf) (c ∷ s) ≡ some (suc k)
unfolding position
position-skip c s k h e = rw (h, e) refl

position-next :
    (c : ℕ) (s : List ℕ) (k : ℕ)
    → (13 == c) ≡ false
    → position (crlf ++ crlf) (c ∷ s) ≡ some k
    → position (crlf ++ crlf) (13 ∷ 10 ∷ c ∷ s) ≡ some (2 + k)
position-next c s k h e =
    position-skip 13 (10 ∷ c ∷ s) (suc k) (rw h refl) (position-skip 10 (c ∷ s) k refl e)
    ∙ ap some (omega arith)

-- The end of a head.
pub position-lines :
    (l : List ℕ) (ls : List (List ℕ)) (rest : List ℕ)
    → AreLines (l ∷ ls)
    → (k : ℕ) × (position (crlf ++ crlf) (lines_onto (l ∷ ls) (13 ∷ 10 ∷ rest)) ≡ some k)
      × (k + 2 ≡ length (lines_onto (l ∷ ls) []))
unfolding position
position-lines l [] rest a = (
  length l + 0,
  position-line l (13 ∷ 10 ∷ 13 ∷ 10 ∷ rest) 0 a.0 refl,
  omega (arith, length-append l (13 ∷ 10 ∷ [])),
)
position-lines l ([] ∷ ls) rest a = absurd (omega (arith, a.2.1))
position-lines l ((c ∷ l') ∷ ls) rest a =
    let (k, e, n) = position-lines (c ∷ l') ls rest a.2 in
    (
      length l + (2 + k),
      position-line l _ (2 + k) a.0
          (position-next c (l' ++ 13 ∷ 10 ∷ lines_onto ls (13 ∷ 10 ∷ rest)) k a.2.0.0 e),
      omega (arith, length-append l (13 ∷ 10 ∷ lines_onto ((c ∷ l') ∷ ls) [])),
    )

pub lines_onto-append : (ls : List (List ℕ)) (s : List ℕ) → lines_onto ls s ≡ lines_onto ls [] ++ s
lines_onto-append [] s = refl
lines_onto-append (l ∷ ls) s =
    ap (λ r. l ++ 13 ∷ 10 ∷ r) (lines_onto-append ls s)
    ∙ sym (append_assoc l (13 ∷ 10 ∷ lines_onto ls []) s)

pub line_of-line : (l s : List ℕ) → HasNoCr l → line_of (l ++ 13 ∷ 10 ∷ s) ≡ l
unfolding line_of
line_of-line [] s h = refl
line_of-line (c ∷ l) s h = rw h.0 (ap (λ r. c ∷ r) (line_of-line l s h.1))

from_crlf-line : (l s : List ℕ) → HasNoCr l → from_crlf (l ++ 13 ∷ 10 ∷ s) ≡ 13 ∷ 10 ∷ s
unfolding from_crlf
from_crlf-line [] s h = refl
from_crlf-line (c ∷ l) s h = rw h.0 (from_crlf-line l s h.1)

-- The values of a name, line by line.
abbrev pub values_in : List ℕ → List (List ℕ) → List ℕ → List ℕ
values_in name [] values = values
values_in name (l ∷ ls) values = values_in name ls (add_value name l values)

header_from-lines :
    (n : ℕ) (name : List ℕ) (ls : List (List ℕ)) (values : List ℕ)
    → AreLines ls
    → length ls < n
    → header_from n name (13 ∷ 10 ∷ lines_onto ls []) values ≡ values_in name ls values
unfolding header_from
header_from-lines zero name ls values a h = absurd (omega arith)
header_from-lines (suc n) name [] values a h = refl
header_from-lines (suc n) name ([] ∷ ls) values a h = absurd (omega (arith, a.1))
header_from-lines (suc n) name ((c ∷ l) ∷ ls) values (p, q, a) h =
    let line = line_of-line (c ∷ l) (lines_onto ls []) p in
    let later = from_crlf-line (c ∷ l) (lines_onto ls []) p in
    ap
      (λ r.
        header_from n name r
          (add_value name (line_of ((c ∷ l) ++ 13 ∷ 10 ∷ lines_onto ls [])) values))
      later
    ∙ ap (λ r. header_from n name (13 ∷ 10 ∷ lines_onto ls []) (add_value name r values)) line
    ∙ header_from-lines n name ls (add_value name (c ∷ l) values) a (omega arith)

length-lines_onto : (ls : List (List ℕ)) → length ls ≤ length (lines_onto ls [])
length-lines_onto [] = omega arith
length-lines_onto (l ∷ ls) =
    omega (arith, length-append l (13 ∷ 10 ∷ lines_onto ls []), length-lines_onto ls)

-- The values of a name in a head, behind its first line.
pub header-lines :
    (name l : List ℕ) (ls : List (List ℕ))
    → AreLines (l ∷ ls)
    → header (lines_onto (l ∷ ls) []) name ≡ values_in name ls []
unfolding header
header-lines name l ls a =
    ap (λ r. header_from (length (lines_onto (l ∷ ls) [])) name r [])
      (from_crlf-line l (lines_onto ls []) a.0)
    ∙ header_from-lines (length (lines_onto (l ∷ ls) [])) name ls [] (a.2)
        (omega (arith, length-append l (13 ∷ 10 ∷ lines_onto ls []), length-lines_onto ls))

-- A line of another name, and the first line of this one, whose value stands behind a blank.
pub add_value-other :
    (name line values : List ℕ)
    → starts_icase name line ≡ false
    → add_value name line values ≡ values
unfolding add_value
add_value-other name line values h = ground arith

pub trim-blank :
    (v : List ℕ) → without_end v ≡ v → (is_blank (at v 0) ≡ false) → trim (b' ' ∷ v) ≡ v
unfolding trim
trim-blank [] e h = refl
trim-blank (c ∷ v) e h = rw h e
