-- ===== src/InFile/Index.antt =====
-- The index of src/infile.cpp: what is sound of it, and `reIndex`, which keeps it so.
pub mod Insert
pub mod Replace
pub mod Build
use sipp.Base.{
  ℕ, zero, suc, ◌+◌, ◌-◌, ◌≤◌, ◌<◌, ◌≡◌, ◌≢◌, ◌↔◌, refl, sym, ap, ◌∙◌, subst, true, false, List, [],
  ◌∷◌, ◌++◌, Option, none, some, leb, arith, if◌then◌else◌, length, get_or, set, ◌⊎◌, Bool-cases,
  inl, inr, length-append, length-set,
}
use sipp.Base.Int.{pos}
use sipp.Base.Bytes.{bytes_eq_iff, bytes_eq}
use sipp.InFile.Printf.{Result, ok, err, insert_in_printf, invalid_line, ◌>>=◌}
use sipp.InFile.{
  FileContents, field_of, has_field, get_field, get_line, set_key, forget, re_index, de_index,
  index_from, index, lookup, insert, replace,
}

-- The key of a line of a plain file: its field's text, or the empty text.
abbrev pub line_key : ℕ → List ℕ → List ℕ
line_key field text = if has_field field text then field_of field text else []

abbrev pub key_of : FileContents → ℕ → ℕ → List ℕ
key_of f line field = line_key field (get_or f.file_lines line [])

-- A file with no PRINTF, whose counts are those of its lines.
pub record IsPlain (f : FileContents) : Type 0 where
  pub plain : f.printf_file ≡ false
  pub real : f.real_lines_in_file ≡ length f.file_lines
  pub num : f.num_lines_in_file ≡ length f.file_lines

-- Every key of the index leads to a line of the file that has it.
abbrev pub IsSound : FileContents → Type 0
IsSound f =
    (field : ℕ)
    → f.index_field ≡ some field
    → (key : List ℕ) (line : ℕ) → f.index_map key ≡ some line
    → (line < length f.file_lines) × (key_of f line field ≡ key)

pub get_field-key_of :
    (f : FileContents) (line field : ℕ)
    → IsPlain f
    → line < length f.file_lines
    → get_field f (pos line) field ≡ ok (key_of f line field)
unfolding get_field get_line
get_field-key_of f line field p h = let n = p.num in let q = p.plain in ground arith

pub re_index_lem :
    (line : ℕ) (f : FileContents) (field : ℕ)
    → IsPlain f
    → f.index_field ≡ some field
    → line < length f.file_lines
    → re_index line f
      ≡ ok (record f { index_map = set_key f.index_map (key_of f line field) (some line) })
unfolding re_index
re_index_lem line f field p e h =
    let r = p.real in ground (arith, get_field-key_of f line field p h)

pub de_index_lem :
    (line : ℕ) (f : FileContents) (field : ℕ)
    → IsPlain f
    → f.index_field ≡ some field
    → line < length f.file_lines
    → de_index line f ≡ ok (record f { index_map = forget line (key_of f line field) f.index_map })
unfolding de_index
de_index_lem line f field p e h =
    let r = p.real in ground (arith, get_field-key_of f line field p h)

pub set_key_lem :
    (m : List ℕ → Option ℕ) (k key : List ℕ) (line l : ℕ)
    → set_key m k (some line) key ≡ some l
    → ((k ≡ key) × (line ≡ l)) ⊎ (m key ≡ some l)
set_key_lem m k key line l e = elim (Bool-cases (bytes_eq key k)) [
  | inl y ↦ inl (sym ((bytes_eq_iff key k).0 y), ground arith)
  | inr z ↦ inr (ground arith)
]

-- A line's own entry is gone, and the others are as before.
pub forget_lem :
    (line l : ℕ) (k key : List ℕ) (m : List ℕ → Option ℕ)
    → forget line k m key ≡ some l
    → (m key ≡ some l) × ((k ≡ key) → line ≢ l)
forget_lem line l k key m e = elim (Bool-cases (bytes_eq key k)) [
  | inl y ↦ ground (arith, (bytes_eq_iff key k).0 y)
  | inr z ↦ ground (arith, bytes_eq_iff key k)
]

pub get_or-append :
    (xs ys : List (List ℕ)) (i : ℕ) → i < length xs → get_or (xs ++ ys) i [] ≡ get_or xs i []
get_or-append [] ys i h = absurd (omega arith)
get_or-append (x ∷ xs) ys zero h = refl
get_or-append (x ∷ xs) ys (suc i) h = get_or-append xs ys i (omega arith)

pub get_or-set_ne :
    (xs : List (List ℕ)) (i j : ℕ) (v : List ℕ) → i ≢ j → get_or (set xs i v) j [] ≡ get_or xs j []
get_or-set_ne [] i j v n = refl
get_or-set_ne (x ∷ xs) zero zero v n = absurd (n refl)
get_or-set_ne (x ∷ xs) zero (suc j) v n = refl
get_or-set_ne (x ∷ xs) (suc i) zero v n = refl
get_or-set_ne (x ∷ xs) (suc i) (suc j) v n = get_or-set_ne xs i j v (λ e. n (ap suc e))

-- `reIndex` keeps what is sound of the entries for other lines, and adds a sound one.
pub re_index_sound :
    (line : ℕ) (f : FileContents) (field : ℕ)
    → line < length f.file_lines
    → ((key : List ℕ) (l : ℕ)
        → f.index_map key ≡ some l
        → (l < length f.file_lines) × (key_of f l field ≡ key))
    → (key : List ℕ) (l : ℕ) → set_key f.index_map (key_of f line field) (some line) key ≡ some l
    → (l < length f.file_lines) × (key_of f l field ≡ key)
re_index_sound line f field h s key l e =
    elim (set_key_lem f.index_map (key_of f line field) key line l e) [
      | inl (k, q) ↦ (omega arith, subst (λ (n : ℕ). key_of f n field ≡ key) q k)
      | inr old ↦ s key l old
    ]

-- What an operation on a file comes to: a plain file with a sound index on the same field.
abbrev pub KeepsIndex : FileContents → Result FileContents → Type 0
KeepsIndex f (ok f') = IsPlain f' × IsSound f' × (f'.index_field ≡ f.index_field)
KeepsIndex f (err _) = ⊥

pub re_index-none : (line : ℕ) (f : FileContents) → f.index_field ≡ none → re_index line f ≡ ok f
unfolding re_index
re_index-none line f e = rw e

pub de_index-none : (line : ℕ) (f : FileContents) → f.index_field ≡ none → de_index line f ≡ ok f
unfolding de_index
de_index-none line f e = rw e

pub some_injective : (a b : ℕ) → some a ≡ some b → a ≡ b
some_injective a b e = cc

pub none_not_some : (a : ℕ) → ◌≡◌ {A = Option ℕ} none (some a) → ⊥
none_not_some a e = cc

pub re_index-KeepsIndex :
    (line : ℕ) (f : FileContents) (i : Option ℕ)
    → f.index_field ≡ i
    → IsPlain f
    → line < length f.file_lines
    → ((field : ℕ)
        → i ≡ some field
        → (key : List ℕ) (l : ℕ) → f.index_map key ≡ some l
        → (l < length f.file_lines) × (key_of f l field ≡ key))
    → KeepsIndex f (re_index line f)
re_index-KeepsIndex line f none e p h s =
    rw (re_index-none line f e) (p, (λ field q. absurd (none_not_some field (sym e ∙ q))), refl)
re_index-KeepsIndex line f (some field) e p h s = rw (re_index_lem line f field p e h) (
  record { plain = p.plain; real = p.real; num = p.num },
  (λ field' q.
      subst
        (λ (k : ℕ).
          (key : List ℕ) (l : ℕ)
          → set_key f.index_map (key_of f line field) (some line) key ≡ some l
          → (l < length f.file_lines) × (key_of f l k ≡ key))
        (some_injective field field' (sym e ∙ q)) (re_index_sound line f field h (s field refl))),
  refl,
)
