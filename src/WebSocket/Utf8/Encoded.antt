-- ===== src/WebSocket/Utf8/Encoded.antt =====
-- The texts that `is_utf8` of src/websocket.cpp accepts.
use sipp.Base.{
  ℕ, zero, suc, ◌+◌, ◌*◌, ◌/◌, ◌%◌, ◌≤◌, ◌<◌, ◌≡◌, ◌↔◌, refl, sym, ap, ◌∙◌, ◌⊎◌, inl, inr, Bool,
  true, false, List, [], ◌∷◌, ◌++◌, Option, none, some, ltb, ◌==◌, if◌then◌else◌, length,
  length-append, Bool-cases, Option-cases, arith,
}
use sipp.WebSocket.Utf8.{lead, continuation, is_allowed, is_utf8_from, is_utf8}

false_not_true : false ≡ true → ⊥
false_not_true h = ground arith

-- A Unicode scalar value.
abbrev pub IsScalar : ℕ → Type 0
IsScalar c = (c ≤ 0x10ffff) × ((c < 0xd800) ⊎ (0xdfff < c))

abbrev pub AreScalars : List ℕ → Type 0
AreScalars [] = Unit
AreScalars (c ∷ cs) = IsScalar c × AreScalars cs

-- The bytes of one, by RFC 3629.
abbrev pub encoded : ℕ → List ℕ
encoded c =
    if ltb c 0x80
    then c ∷ []
    else if ltb c 0x800
    then (192 + c / 64) ∷ (128 + c % 64) ∷ []
    else if ltb c 0x10000
    then (224 + c / 4096) ∷ (128 + c / 64 % 64) ∷ (128 + c % 64) ∷ []
    else (240 + c / 262144) ∷ (128 + c / 4096 % 64) ∷ (128 + c / 64 % 64) ∷ (128 + c % 64) ∷ []

abbrev pub all_encoded : List ℕ → List ℕ
all_encoded [] = []
all_encoded (c ∷ cs) = encoded c ++ all_encoded cs

-- One round on a byte past ASCII and those that go with it.
round-lead :
    (n x k least bits point : ℕ) (s rest : List ℕ)
    → 128 ≤ x
    → lead x ≡ some (k, least, bits)
    → continuation k bits s ≡ some (point, rest)
    → is_allowed least point ≡ true
    → is_utf8_from (suc n) (x ∷ s) ≡ is_utf8_from n rest
unfolding is_utf8_from
round-lead n x k least bits point s rest h l c a =
    let high : ltb x 0x80 ≡ false = ground arith in rw (is_utf8_from, high, l, c, a) refl

continuation-two : (c : ℕ) (s : List ℕ) → continuation 1 (c / 64) ((128 + c % 64) ∷ s) ≡ some (c, s)
unfolding continuation
continuation-two c s = ground arith

continuation-three :
    (c : ℕ) (s : List ℕ)
    → continuation 2 (c / 4096) ((128 + c / 64 % 64) ∷ (128 + c % 64) ∷ s) ≡ some (c, s)
unfolding continuation
continuation-three c s = ground arith

continuation-four :
    (c : ℕ) (s : List ℕ)
    → continuation 3 (c / 262144) ((128 + c / 4096 % 64) ∷ (128 + c / 64 % 64) ∷ (128 + c % 64) ∷ s)
      ≡ some (c, s)
unfolding continuation
continuation-four c s = ground arith

-- One round reads the bytes of a scalar value.
round-encoded :
    (n c : ℕ) (s : List ℕ) → IsScalar c → is_utf8_from (suc n) (encoded c ++ s) ≡ is_utf8_from n s
unfolding is_utf8_from
round-encoded n c s (top, gap) = elim (Bool-cases (ltb c 0x80)) [
  | inl a ↦ rw a (rw (is_utf8_from, a) refl)
  | inr a ↦ elim (Bool-cases (ltb c 0x800)) [
    | inl b ↦
        rw (a, b)
          (round-lead n (192 + c / 64) 1 0x80 (c / 64) c ((128 + c % 64) ∷ s) s (omega arith)
            (ground arith) (continuation-two c s) (ground arith))
    | inr b ↦ elim (Bool-cases (ltb c 0x10000)) [
      | inl d ↦
          rw (a, b, d)
            (round-lead n (224 + c / 4096) 2 0x800 (c / 4096) c
              ((128 + c / 64 % 64) ∷ (128 + c % 64) ∷ s) s (omega arith) (ground arith)
              (continuation-three c s) (ground arith))
      | inr d ↦
          rw (a, b, d)
            (round-lead n (240 + c / 262144) 3 0x10000 (c / 262144) c
              ((128 + c / 4096 % 64) ∷ (128 + c / 64 % 64) ∷ (128 + c % 64) ∷ s) s (omega arith)
              (ground arith) (continuation-four c s) (ground arith))
    ]
  ]
]

length-encoded : (c : ℕ) → 0 < length (encoded c)
length-encoded c = ground arith

is_utf8_from-all_encoded :
    (n : ℕ) (cs : List ℕ)
    → AreScalars cs
    → length (all_encoded cs) ≤ n
    → is_utf8_from n (all_encoded cs) ≡ true
unfolding is_utf8_from
is_utf8_from-all_encoded zero [] a h = refl
is_utf8_from-all_encoded (suc n) [] a h = refl
is_utf8_from-all_encoded zero (c ∷ cs) a h =
    absurd (omega (arith, length-encoded c, length-append (encoded c) (all_encoded cs)))
is_utf8_from-all_encoded (suc n) (c ∷ cs) a h =
    round-encoded n c (all_encoded cs) a.0
    ∙ is_utf8_from-all_encoded n cs a.1
        (omega (arith, length-encoded c, length-append (encoded c) (all_encoded cs)))

-- The bytes that a round has read, from its tests.
read-two :
    (x : ℕ) (s : List ℕ) (point : ℕ) (rest : List ℕ)
    → (x / 32 == 6) ≡ true
    → continuation 1 (x % 32) s ≡ some (point, rest)
    → is_allowed 0x80 point ≡ true
    → IsScalar point × (x ∷ s ≡ encoded point ++ rest)
unfolding continuation
read-two x [] point rest l c a = ground arith
read-two x (y ∷ s) point rest l c a =
    let shape : ((y / 64 == 2) ≡ true) × (x % 32 * 64 + y % 64 ≡ point) × (s ≡ rest) =
      ground arith in
    let (t, e, r) = shape in (ground arith, rw (← e, ← r) (ground arith))

read-three :
    (x : ℕ) (s : List ℕ) (point : ℕ) (rest : List ℕ)
    → (x / 16 == 14) ≡ true
    → continuation 2 (x % 16) s ≡ some (point, rest)
    → is_allowed 0x800 point ≡ true
    → IsScalar point × (x ∷ s ≡ encoded point ++ rest)
unfolding continuation
read-three x [] point rest l c a = ground arith
read-three x (y ∷ []) point rest l c a = ground arith
read-three x (y ∷ z ∷ s) point rest l c a =
    let shape : ((y / 64 == 2) ≡ true)
        × ((z / 64 == 2) ≡ true)
        × ((x % 16 * 64 + y % 64) * 64 + z % 64 ≡ point)
        × (s ≡ rest) =
      ground arith in
    let (t, u, e, r) = shape in (ground arith, rw (← e, ← r) (ground arith))

read-four :
    (x : ℕ) (s : List ℕ) (point : ℕ) (rest : List ℕ)
    → (x / 8 == 30) ≡ true
    → continuation 3 (x % 8) s ≡ some (point, rest)
    → is_allowed 0x10000 point ≡ true
    → IsScalar point × (x ∷ s ≡ encoded point ++ rest)
unfolding continuation
read-four x [] point rest l c a = ground arith
read-four x (y ∷ []) point rest l c a = ground arith
read-four x (y ∷ z ∷ []) point rest l c a = ground arith
read-four x (y ∷ z ∷ w ∷ s) point rest l c a =
    let shape : ((y / 64 == 2) ≡ true)
        × ((z / 64 == 2) ≡ true)
        × ((w / 64 == 2) ≡ true)
        × (((x % 8 * 64 + y % 64) * 64 + z % 64) * 64 + w % 64 ≡ point)
        × (s ≡ rest) =
      ground arith in
    let (t, u, v, e, r) = shape in (ground arith, rw (← e, ← r) (ground arith))

-- The round past ASCII: what the later rounds read, and the scalar value before it.
abbrev round_with : (ℕ → List ℕ → Bool) → ℕ → Option (ℕ × ℕ × ℕ) → List ℕ → Bool
round_with later n l s = elim l [
  | none ↦ false
  | some (k, least, bits) ↦ elim (continuation k bits s) [
    | none ↦ false
    | some (point, rest) ↦ elim (is_allowed least point) [ true ↦ later n rest | false ↦ false ]
  ]
]

Later : ℕ → ℕ → List ℕ → Type 0
Later n x s =
    (c : ℕ) × (rest : List ℕ) × IsScalar c
    × (x ∷ s ≡ encoded c ++ rest)
    × (is_utf8_from n rest ≡ true)

from_round :
    (n x k least bits : ℕ) (s : List ℕ)
    → ((point : ℕ) (rest : List ℕ)
        → continuation k bits s ≡ some (point, rest)
        → is_allowed least point ≡ true
        → IsScalar point × (x ∷ s ≡ encoded point ++ rest))
    → round_with is_utf8_from n (some (k, least, bits)) s ≡ true
    → Later n x s
unfolding Later
from_round n x k least bits s reads h = elim (Option-cases (continuation k bits s)) [
  | inl e ↦ absurd (false_not_true (sym (rw (round_with, e) refl) ∙ h))
  | inr ((point, rest), e) ↦ elim (Bool-cases (is_allowed least point)) [
    | inl a ↦
        let (scalar, bytes) = reads point rest e a in
        (point, rest, scalar, bytes, sym (rw (round_with, e, a) refl) ∙ h)
    | inr a ↦ absurd (false_not_true (sym (rw (round_with, e, a) refl) ∙ h))
  ]
]

later : (n x : ℕ) (s : List ℕ) → is_utf8_from (suc n) (x ∷ s) ≡ true → Later n x s
unfolding is_utf8_from Later
later n x s h = elim (Bool-cases (ltb x 0x80)) [
  | inl a ↦ (x, s, ground arith, rw a refl, sym (rw (is_utf8_from, a) refl) ∙ h)
  | inr a ↦
      let g : round_with is_utf8_from n (lead x) s ≡ true = sym (rw (is_utf8_from, a) refl) ∙ h in
      elim (Bool-cases (x / 32 == 6)) [
        | inl b ↦ from_round n x 1 0x80 (x % 32) s (λ p r. read-two x s p r b) (rw b at g)
        | inr b ↦ elim (Bool-cases (x / 16 == 14)) [
          | inl c ↦ from_round n x 2 0x800 (x % 16) s (λ p r. read-three x s p r c) (rw (b, c) at g)
          | inr c ↦ elim (Bool-cases (x / 8 == 30)) [
            | inl d ↦
                from_round n x 3 0x10000 (x % 8) s (λ p r. read-four x s p r d) (rw (b, c, d) at g)
            | inr d ↦ absurd (false_not_true (rw (b, c, d) at g))
          ]
        ]
      ]
]

scalars_of :
    (n : ℕ) (s : List ℕ)
    → is_utf8_from n s ≡ true
    → (cs : List ℕ) × AreScalars cs × (s ≡ all_encoded cs)
unfolding is_utf8_from Later
scalars_of zero [] h = ([], tt, refl)
scalars_of (suc n) [] h = ([], tt, refl)
scalars_of zero (x ∷ s) h = absurd (false_not_true h)
scalars_of (suc n) (x ∷ s) h =
    let (c, rest, scalar, bytes, more) = later n x s h in
    let (cs, scalars, e) = scalars_of n rest more in
    (c ∷ cs, (scalar, scalars), bytes ∙ ap (λ r. encoded c ++ r) e)

-- `is_utf8` accepts just the texts that are the UTF-8 forms of Unicode scalar values: no overlong form, no
-- surrogate, nothing cut short, and nothing past U+10FFFF.
pub is_utf8_iff :
    (s : List ℕ) → (is_utf8 s ≡ true) ↔ ((cs : List ℕ) × AreScalars cs × (s ≡ all_encoded cs))
unfolding is_utf8
is_utf8_iff s = (
  (λ h. scalars_of (length s) s h),
  (λ (cs, a, e). rw e (is_utf8_from-all_encoded (length (all_encoded cs)) cs a (omega arith))),
)
