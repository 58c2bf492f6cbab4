-- ===== src/InFile.antt =====
-- src/infile.cpp, include/infile.hpp: the injection files (`FileContents`). `Printf` has the numbered lines
-- of PRINTF files, `Load` the constructor, this file the lines, the fields and the index.
-- A count or line number is an `int` of the code that is not negative, unless its type is ℤ.
pub mod Printf
pub mod Load
pub mod Loaded
pub mod Fields
pub mod Index
pub mod Overrun
use sipp.Base.{
  ℕ, zero, suc, ◌+◌, ◌-◌, ◌*◌, ◌%◌, Bool, true, false, not, ◌&&◌, ◌||◌, List, [], ◌∷◌, ◌++◌, Option,
  none, some, ltb, leb, ◌==◌, if◌then◌else◌, length, get_elem?, get_or, set,
}
use sipp.Base.Int.{ℤ, pos, negsuc, ◌+ℤ◌, ◌*ℤ◌}
use sipp.Base.Bytes.{bytes_eq}
use Printf.{
  Result, ok, err, Fault, assert_failed, invalid_index_file, insert_in_printf, invalid_line,
  no_such_user, ◌>>=◌, expand_printf_field,
}

pub data InputFileUsage : Type 0 where
  sequential_order : InputFileUsage
  random_order : InputFileUsage
  user : InputFileUsage

-- The key of `index_map` is a field's text; `index_field` is `none` for -1.
pub record FileContents : Type 0 where
  pub usage : InputFileUsage
  pub line_counter : ℕ
  pub file_lines : List (List ℕ)
  pub printf_file : Bool
  pub printf_offset : ℤ
  pub printf_multiple : ℤ
  pub num_lines_in_file : ℕ
  pub real_lines_in_file : ℕ
  pub index_field : Option ℕ
  pub index_map : List ℕ → Option ℕ

-- `FileContents::getLine`
unfoldable pub get_line : FileContents → ℕ → List ℕ
get_line f line =
    get_or f.file_lines (if f.printf_file then line % f.real_lines_in_file else line) []

-- A text up to its first semicolon, and what is behind it, if it has one.
abbrev pub split_field : List ℕ → List ℕ × Option (List ℕ)
split_field [] = ([], none)
split_field (c ∷ p) =
    let (field, rest) = split_field p in if c == b';' then ([], some p) else (c ∷ field, rest)

-- The loop of `getField`, on what is left of the line: the field, or the empty text
unfoldable pub field_of : ℕ → List ℕ → List ℕ
field_of zero line = (split_field line).0
field_of (suc field) line = elim (split_field line).1 [
  | none ↦ []
  | some rest ↦ field_of field rest
]

-- Whether the line has the field: its loop then ends at 0.
unfoldable pub has_field : ℕ → List ℕ → Bool
has_field zero line = true
has_field (suc field) line = elim (split_field line).1 [
  | none ↦ false
  | some rest ↦ has_field field rest
]

-- `FileContents::getField`
unfoldable pub get_field : FileContents → ℤ → ℕ → Result (List ℕ)
get_field f (negsuc _) field = ok []
get_field f (pos line) field =
    if leb f.num_lines_in_file line
    then ok []
    else (let text = get_line f line in
        if not (has_field field text)
        then ok []
        else if f.printf_file
        then expand_printf_field (f.printf_offset +ℤ ◌*ℤ◌ (pos line) f.printf_multiple)
            (field_of field text)
        else ok (field_of field text))

-- `FileContents::numLines`
unfoldable pub num_lines : FileContents → ℕ
num_lines f = f.num_lines_in_file

abbrev pub next_line_by : InputFileUsage → ℕ → FileContents → ℕ → Bool → Result (ℤ × FileContents)
next_line_by random_order rand f user_id advance = ok (pos (rand % f.num_lines_in_file), f)
next_line_by sequential_order rand f user_id advance = ok (
  pos f.line_counter,
  if advance then record f { line_counter = (f.line_counter + 1) % f.num_lines_in_file } else f,
)
next_line_by user rand f user_id advance =
    if user_id == 0
    then ok (negsuc 0, f)
    else if leb f.num_lines_in_file (user_id - 1)
    then err no_such_user
    else ok (pos (user_id - 1), f)

-- `FileContents::nextLine`, with what `rand()` returns
unfoldable pub next_line : ℕ → FileContents → ℕ → Bool → Result (ℤ × FileContents)
next_line rand f user_id advance = next_line_by f.usage rand f user_id advance

-- `indexMap[key] = line`, and its `erase`
abbrev pub set_key : (List ℕ → Option ℕ) → List ℕ → Option ℕ → List ℕ → Option ℕ
set_key m key line k = if bytes_eq k key then line else m k

-- `FileContents::reIndex`
unfoldable pub re_index : ℕ → FileContents → Result FileContents
re_index line f = elim f.index_field [
  | none ↦ ok f
  | some field ↦
      if ltb line f.real_lines_in_file
      then (do
        key ← get_field f (pos line) field
        ok (record f { index_map = set_key f.index_map key (some line) }))
      else err assert_failed
]

-- `if (index_it->second == line) indexMap.erase(index_it)`
abbrev pub forget : ℕ → List ℕ → (List ℕ → Option ℕ) → List ℕ → Option ℕ
forget line key m k = elim (m key) [
  | none ↦ m k
  | some l ↦ if l == line then set_key m key none k else m k
]

-- `FileContents::deIndex`
unfoldable pub de_index : ℕ → FileContents → Result FileContents
de_index line f = elim f.index_field [
  | none ↦ ok f
  | some field ↦
      if ltb line f.real_lines_in_file
      then (do
        key ← get_field f (pos line) field
        ok (record f { index_map = forget line key f.index_map }))
      else err assert_failed
]

-- The loop of `FileContents::index`: `n` more lines from `line` on
unfoldable pub index_from : ℕ → ℕ → FileContents → Result FileContents
index_from zero line f = ok f
index_from (suc n) line f = do f' ← re_index line f; index_from n (line + 1) f'

-- `FileContents::index`
unfoldable pub index : ℕ → FileContents → Result FileContents
index field f =
    index_from f.num_lines_in_file 0 (record f { index_field = some field; index_map = λ _. none })

-- `FileContents::lookup`: `none` for -1
unfoldable pub lookup : FileContents → List ℕ → Result (Option ℕ)
lookup f key = elim f.index_field [ none ↦ err invalid_index_file | some _ ↦ ok (f.index_map key) ]

-- `FileContents::insert`
unfoldable pub insert : List ℕ → FileContents → Result FileContents
insert value f =
    if f.printf_file
    then err insert_in_printf
    else (let f' = record f {
      file_lines = f.file_lines ++ value ∷ [];
      real_lines_in_file = f.real_lines_in_file + 1;
      num_lines_in_file = f.num_lines_in_file + 1;
    } in
        re_index (f'.real_lines_in_file - 1) f')

-- `FileContents::replace`
unfoldable pub replace : ℤ → List ℕ → FileContents → Result FileContents
replace (negsuc _) value f = if f.printf_file then err insert_in_printf else err invalid_line
replace (pos line) value f =
    if f.printf_file
    then err insert_in_printf
    else if leb f.real_lines_in_file line
    then err invalid_line
    else (do
      f' ← de_index line f
      re_index line (record f' { file_lines = set f'.file_lines line value }))
