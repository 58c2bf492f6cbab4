-- ===== src/InFile/Fields.antt =====
-- The fields and lines of src/infile.cpp: reading back what a line was made of, and the choice of lines.
use sipp.Base.{
  ℕ, zero, suc, ◌+◌, ◌≤◌, ◌<◌, ◌≡◌, refl, ap, Bool, true, false, List, [], ◌∷◌, ◌++◌, none, some,
  leb, arith, length, get_or,
}
use sipp.Base.Int.{ℤ, pos, negsuc}
use sipp.Base.Bytes.{has_byte}
use sipp.InFile.Printf.{Result, ok, err}
use sipp.InFile.{
  FileContents, InputFileUsage, sequential_order, random_order, user, split_field, field_of,
  has_field, next_line_by, next_line, get_field, get_line,
}

-- No field has a semicolon.
abbrev pub ArePlain : List (List ℕ) → Type 0
ArePlain [] = Unit
ArePlain (f ∷ fs) = (has_byte b';' f ≡ false) × ArePlain fs

-- A line of these fields.
abbrev pub join_fields : List ℕ → List (List ℕ) → List ℕ
join_fields f [] = f
join_fields f (g ∷ gs) = f ++ (b';' ∷ join_fields g gs)

split_last : (f : List ℕ) → has_byte b';' f ≡ false → split_field f ≡ (f, none)
split_last [] h = refl
split_last (c ∷ p) h = ground (arith, split_last p)

split_first :
    (f rest : List ℕ) → has_byte b';' f ≡ false → split_field (f ++ (b';' ∷ rest)) ≡ (f, some rest)
split_first [] rest h = refl
split_first (c ∷ p) rest h = ground (arith, split_first p rest)

-- The fields of a line that was made by joining fields are those fields, in their order; a field behind
-- the last is the empty text, and the line has no such field.
pub field_of-join_fields :
    (f : List ℕ) (fs : List (List ℕ)) (i : ℕ)
    → ArePlain (f ∷ fs)
    → (field_of i (join_fields f fs) ≡ get_or (f ∷ fs) i [])
      × (has_field i (join_fields f fs) ≡ leb (i + 1) (length (f ∷ fs)))
unfolding field_of has_field
field_of-join_fields f [] zero h = (ap (λ p. p.0) (split_last f h.0), refl)
field_of-join_fields f [] (suc i) h = ground (arith, split_last f h.0)
field_of-join_fields f (g ∷ gs) zero h =
    (ap (λ p. p.0) (split_first f (join_fields g gs) h.0), ground arith)
field_of-join_fields f (g ∷ gs) (suc i) h =
    ground (arith, split_first f (join_fields g gs) h.0, field_of-join_fields g gs i h.1)

get_or-beyond : (xs : List (List ℕ)) (i : ℕ) → length xs ≤ i → get_or xs i [] ≡ []
get_or-beyond [] i h = refl
get_or-beyond (x ∷ xs) zero h = absurd (omega arith)
get_or-beyond (x ∷ xs) (suc i) h = get_or-beyond xs i (omega arith)

-- On a line of a file with no PRINTF that was made by joining fields, `getField` gives each field, and the
-- empty text for a field that the line does not have.
pub get_field-join_fields :
    (c : FileContents) (line i : ℕ) (f : List ℕ) (fs : List (List ℕ))
    → c.printf_file ≡ false
    → line < c.num_lines_in_file
    → get_line c line ≡ join_fields f fs
    → ArePlain (f ∷ fs)
    → get_field c (pos line) i ≡ ok (get_or (f ∷ fs) i [])
unfolding get_field
get_field-join_fields c line i f fs printf inside e plain =
    ground (arith, field_of-join_fields f fs i plain, get_or-beyond (f ∷ fs) i)

-- The line chosen, a counter within the file, and what else may come of `nextLine`.
abbrev pub ChoosesWithin : FileContents → Result (ℤ × FileContents) → Type 0
ChoosesWithin f (ok (pos line, f')) =
    (line < f.num_lines_in_file)
    × (f'.line_counter < f'.num_lines_in_file)
    × (f'.num_lines_in_file ≡ f.num_lines_in_file)
ChoosesWithin f (ok (negsuc n, f')) = (f.usage ≡ user) × (n ≡ 0)
ChoosesWithin f (err _) = f.usage ≡ user

next_line_by-ChoosesWithin :
    (u : InputFileUsage) (rand : ℕ) (f : FileContents) (user_id : ℕ) (advance : Bool)
    → f.usage ≡ u
    → f.line_counter < f.num_lines_in_file
    → ChoosesWithin f (next_line_by u rand f user_id advance)
next_line_by-ChoosesWithin random_order rand f user_id advance e h = omega arith
next_line_by-ChoosesWithin sequential_order rand f user_id true e h = omega arith
next_line_by-ChoosesWithin sequential_order rand f user_id false e h = omega arith
next_line_by-ChoosesWithin user rand f user_id advance e h = ground arith

-- From a counter within a file, `nextLine` chooses a line of the file, and leaves the counter within it,
-- whatever `rand()` returns and whether it advances. Only a USER file may give -1 or stop the program.
pub next_line-ChoosesWithin :
    (rand : ℕ) (f : FileContents) (user_id : ℕ) (advance : Bool)
    → f.line_counter < f.num_lines_in_file
    → ChoosesWithin f (next_line rand f user_id advance)
unfolding next_line
next_line-ChoosesWithin rand f user_id advance h =
    next_line_by-ChoosesWithin f.usage rand f user_id advance refl h
