-- ===== src/SipParser/Reply.antt =====
-- `get_reply_code` of src/sip_parser.cpp on the first line of a message.
use sipp.Base.{
  ℕ, suc, ◌+◌, ◌*◌, ◌-◌, ◌≡◌, refl, ap, subst, ◌∙◌, true, false, List, [], ◌∷◌, ◌++◌, some, ltb,
  ◌==◌, arith, length, length-append, drop-append, take, drop,
}
use sipp.Base.Int.{pos}
use sipp.Base.Bytes.{
  at, codes, has_byte, is_blank, is_digit, is_space, long_max, span_not, strtol, to_ulong,
  digits_value,
}
use sipp.SipParser.{get_reply_code}

-- No byte of the set is in the text.
abbrev pub NoneOf : List ℕ → List ℕ → Type 0
NoneOf set [] = Unit
NoneOf set (c ∷ p) = (has_byte c set ≡ false) × NoneOf set p

span_not-append :
    (set word p : List ℕ) → NoneOf set word → span_not set (word ++ p) ≡ word ++ span_not set p
span_not-append set [] p h = refl
span_not-append set (c ∷ word) p h = rw h.0 (ap (λ q. c ∷ q) (span_not-append set word p h.1))

take-span_not : (set p : List ℕ) → take (length (span_not set p)) p ≡ span_not set p
take-span_not set [] = refl
take-span_not set (c ∷ p) = ground (arith, take-span_not set p)

drop-after : (word p : List ℕ) (c : ℕ) → drop (suc (length word)) (word ++ c ∷ p) ≡ p
drop-after [] p c = refl
drop-after (x ∷ word) p c = drop-after word p c

-- The code is read behind the first word and its blank.
reply_code_behind :
    (word p : List ℕ) (c : ℕ)
    → NoneOf (codes "\r\n") word
    → NoneOf (codes " \t") word
    → has_byte c (codes "\r\n") ≡ false
    → is_blank c ≡ false
    → get_reply_code (some (word ++ b' ' ∷ (c ∷ p))) ≡ to_ulong (strtol (c ∷ p))
unfolding get_reply_code
reply_code_behind word p c lines blanks here solid =
    let r = span_not (codes "\r\n") p in
    let msg = word ++ b' ' ∷ (c ∷ p) in
    let line : span_not (codes "\r\n") msg ≡ word ++ b' ' ∷ (c ∷ r) =
      span_not-append (codes "\r\n") word (b' ' ∷ (c ∷ p)) lines ∙ rw here refl in
    let taken : take (length (word ++ b' ' ∷ (c ∷ r))) msg ≡ word ++ b' ' ∷ (c ∷ r) =
      subst (λ l. take (length l) msg ≡ l) line (take-span_not (codes "\r\n") msg) in
    let first : span_not (codes " \t") (word ++ b' ' ∷ (c ∷ r)) ≡ word ++ [] =
      span_not-append (codes " \t") word (b' ' ∷ (c ∷ r)) blanks in
    let width : length (word ++ []) ≡ length word = omega (arith, length-append word []) in
    let behind : length (span_not (codes "\r\n") msg) - length (c ∷ r) ≡ suc (length word) =
      ap (λ l. length l - length (c ∷ r)) line
      ∙ omega (arith, length-append word (b' ' ∷ (c ∷ r))) in
    rw
      (
        get_reply_code,
        line,
        taken,
        first,
        width,
        drop-append word (b' ' ∷ (c ∷ r)),
        solid,
        behind,
        drop-after word (c ∷ p) b' ',
      )
      refl

three_digits :
    (a b c : ℕ) (q : List ℕ)
    → is_digit a ≡ true
    → is_digit b ≡ true
    → is_digit c ≡ true
    → is_digit (at q 0) ≡ false
    → digits_value 0 (a ∷ b ∷ c ∷ q) ≡ (a - b'0') * 100 + (b - b'0') * 10 + (c - b'0')
three_digits a b c [] x y z e = rw (x, y, z) (omega arith)
three_digits a b c (d ∷ q) x y z e = rw (x, y, z, e) (omega arith)

strtol-three_digits :
    (a b c : ℕ) (q : List ℕ)
    → is_digit a ≡ true
    → is_digit b ≡ true
    → is_digit c ≡ true
    → is_digit (at q 0) ≡ false
    → strtol (a ∷ b ∷ c ∷ q) ≡ pos ((a - b'0') * 100 + (b - b'0') * 10 + (c - b'0'))
strtol-three_digits a b c q x y z e =
    let no_space : is_space a ≡ false = ground arith in
    let no_minus : (a == b'-') ≡ false = ground arith in
    let no_plus : (a == b'+') ≡ false = ground arith in
    let inside : ltb long_max ((a - b'0') * 100 + (b - b'0') * 10 + (c - b'0')) ≡ false =
      ground arith in
    rw (no_space, no_minus, no_plus, three_digits a b c q x y z e, inside) refl

-- `get_reply_code` of a message whose first line is a word without a blank, a blank, three digits and
-- anything that starts with no digit, is the number of the three digits.
pub get_reply_code-written :
    (word q : List ℕ) (a b c : ℕ)
    → NoneOf (codes "\r\n") word
    → NoneOf (codes " \t") word
    → is_digit a ≡ true
    → is_digit b ≡ true
    → is_digit c ≡ true
    → is_digit (at q 0) ≡ false
    → get_reply_code (some (word ++ b' ' ∷ (a ∷ b ∷ c ∷ q)))
      ≡ (a - b'0') * 100 + (b - b'0') * 10 + (c - b'0')
get_reply_code-written word q a b c lines blanks x y z e =
    reply_code_behind word (b ∷ c ∷ q) a lines blanks (ground arith) (ground arith)
    ∙ ap to_ulong (strtol-three_digits a b c q x y z e)
