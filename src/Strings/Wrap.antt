-- ===== src/Strings/Wrap.antt =====
-- `wrap` of src/strings.cpp changes nothing but spaces.
use mathlib.Core.List.{append_assoc, append-nil}
use sipp.Base.{
  ℕ, zero, suc, ◌+◌, ◌-◌, ◌≤◌, ◌<◌, ◌≡◌, refl, sym, ap, ◌∙◌, true, List, [], ◌∷◌, ◌++◌, ltb, leb,
  ◌==◌, arith, if◌then◌else◌, length, take, drop, replicate, get_or, Bool-cases, ltb→lt, inl, inr,
  length-append,
}
use sipp.Base.Bytes.{is_space}
use sipp.Strings.{Wrapped, last_space, put, break_line, wrap_loop, wrap}

-- The characters that are no space.
abbrev pub printed : List ℕ → List ℕ
printed [] = []
printed (c ∷ p) = if is_space c then printed p else c ∷ printed p

printed-append : (a b : List ℕ) → printed (a ++ b) ≡ printed a ++ printed b
printed-append [] b = refl
printed-append (c ∷ p) b = ground (arith, printed-append p b)

printed-replicate : (n : ℕ) → printed (replicate n b' ') ≡ []
printed-replicate zero = refl
printed-replicate (suc n) = printed-replicate n

printed-newline : (n : ℕ) → printed (10 ∷ replicate n b' ') ≡ []
printed-newline n = printed-replicate n

-- A space that a newline takes the place of.
printed-replace :
    (k : ℕ) (xs new : List ℕ)
    → k < length xs
    → is_space (get_or xs k 0) ≡ true
    → printed new ≡ []
    → printed (take k xs ++ (new ++ drop (suc k) xs)) ≡ printed xs
printed-replace k [] new h s n = absurd (omega arith)
printed-replace zero (x ∷ xs) new h s n = ground (arith, printed-append new xs)
printed-replace (suc k) (x ∷ xs) new h s n = ground (arith, printed-replace k xs new)

printed-insert :
    (k : ℕ) (xs new : List ℕ)
    → printed new ≡ []
    → printed (take k xs ++ (new ++ drop k xs)) ≡ printed xs
printed-insert zero xs new n = ground (arith, printed-append new xs)
printed-insert (suc k) [] new n = ground (arith, printed-append new [])
printed-insert (suc k) (x ∷ xs) new n = ground (arith, printed-insert k xs new)

last_space_lem :
    (out : List ℕ) (line k : ℕ)
    → line < last_space out line k
    → (is_space (get_or out (last_space out line k) 0) ≡ true) × (last_space out line k ≤ k)
unfolding last_space
last_space_lem out line zero h = absurd (omega arith)
last_space_lem out line (suc k) h = ground (arith, last_space_lem out line k)

printed-put :
    (offset c : ℕ) (p : List ℕ) (w : Wrapped)
    → printed (put offset c p w).out ≡ printed w.out ++ printed (c ∷ [])
unfolding put
printed-put offset c p w = elim (Bool-cases (c == 10)) [
  | inl e ↦ ground (
    arith,
    e,
    printed-append (w.out ++ c ∷ []) (replicate offset b' '),
    printed-append w.out (c ∷ []),
    printed-replicate offset,
    append-nil (printed w.out ++ printed (c ∷ [])),
  )
  | inr e ↦ ground (arith, e, printed-append w.out (c ∷ []))
]

length-put : (offset c : ℕ) (p : List ℕ) (w : Wrapped) → 0 < length (put offset c p w).out
unfolding put
length-put offset c p w =
    ground
      (arith, length-append w.out (c ∷ []), length-append (w.out ++ c ∷ []) (replicate offset b' '))

printed-break_line :
    (offset : ℕ) (w : Wrapped)
    → 0 < length w.out
    → printed (break_line offset w).out ≡ printed w.out
unfolding break_line
printed-break_line offset w h =
    let n = if w.indent then offset + 2 else offset in
    let k = last_space w.out w.line (length w.out - 1) in
    elim (Bool-cases (ltb w.line k)) [
      | inl e ↦
          let f = last_space_lem w.out w.line (length w.out - 1) (ltb→lt w.line k e) in
          rw
            (
              e,
              printed-replace k w.out (10 ∷ replicate n b' ') (omega (arith, f.1, h)) f.0
                  (printed-newline n),
            )
            refl
      | inr e ↦
          rw
            (e, printed-insert (length w.out - 1) w.out (10 ∷ replicate n b' ') (printed-newline n))
            refl
    ]

abbrev round : ℕ → ℕ → ℕ → List ℕ → Wrapped → Wrapped
round offset size c p w =
    if leb (put offset c p w).pos size
    then put offset c p w
    else break_line offset (put offset c p w)

-- A round of the loop adds the character it reads and no other that is printed.
printed-round :
    (offset size c : ℕ) (p : List ℕ) (w : Wrapped)
    → printed (round offset size c p w).out ≡ printed w.out ++ printed (c ∷ [])
printed-round offset size c p w = elim (Bool-cases (leb (put offset c p w).pos size)) [
  | inl e ↦ rw (e) (printed-put offset c p w)
  | inr e ↦ rw (e) (
      printed-break_line offset (put offset c p w) (length-put offset c p w)
      ∙ printed-put offset c p w)
]

printed-wrap_loop :
    (offset size : ℕ) (p : List ℕ) (w : Wrapped)
    → printed (wrap_loop offset size p w).out ≡ printed w.out ++ printed p
unfolding wrap_loop
printed-wrap_loop offset size [] w = sym (append-nil (printed w.out))
printed-wrap_loop offset size (c ∷ p) w =
    printed-wrap_loop offset size p (round offset size c p w)
    ∙ ap (λ x. x ++ printed p) (printed-round offset size c p w)
    ∙ (append_assoc (printed w.out) (printed (c ∷ [])) (printed p)
        ∙ ap (λ x. printed w.out ++ x) (sym (printed-append (c ∷ []) p)))

-- Wrapping a text loses, adds and reorders no character but white space, whatever the indentation
-- and the width.
pub printed-wrap :
    (in_text : List ℕ) (offset size : ℕ) → printed (wrap in_text offset size) ≡ printed in_text
unfolding wrap
printed-wrap in_text offset size = printed-wrap_loop offset size in_text _
