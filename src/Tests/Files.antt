-- ===== src/Tests/Files.antt =====
-- The models of src/infile.cpp and src/variables.cpp on a small file and small tables.
use sipp.Base.{
  ◌≢◌, ℕ, zero, suc, ◌<◌, ◌≡◌, refl, true, false, List, [], ◌∷◌, none, some, inl, inr, Bool-cases,
  arith, if◌then◌else◌,
}
use sipp.Base.Int.{pos, negsuc}
use sipp.Base.Bytes.{strtol, codes, bytes_eq, digits_value, skip_while, is_digit}
use sipp.InFile.{
  FileContents, sequential_order, has_field, field_of, get_line, get_field, next_line, insert,
  replace,
}
use sipp.InFile.Printf.{
  ok, err, out_of_fuel, expand_printf_field, expand_loop, convert, read_flags, read_capped,
  read_precision, print_number, decimal_onto,
}
use sipp.InFile.Printf.Decimal.{expand_printf_field-strtol}
use sipp.InFile.Printf.Expand.{expand_printf_field-ends}
use sipp.InFile.Fields.{ChoosesWithin, get_field-join_fields, next_line-ChoosesWithin}
use sipp.Base.Bytes.{bytes_eq_iff}
use sipp.InFile.Index.{key_of, IsPlain, IsSound, KeepsIndex}
use sipp.InFile.Index.Insert.{insert-KeepsIndex}
use sipp.InFile.Index.Replace.{replace-KeepsIndex}

-- A file of two lines with two fields, indexed on the first.
abbrev users : FileContents
users = record {
  usage = sequential_order;
  line_counter = 1;
  file_lines = codes "al;1" ∷ codes "bo;2" ∷ [];
  printf_file = false;
  printf_offset = pos 0;
  printf_multiple = pos 1;
  num_lines_in_file = 2;
  real_lines_in_file = 2;
  index_field = none;
  index_map = λ _. none;
}

abbrev indexed : FileContents
indexed = record users {
  index_field = some 0;
  index_map = λ k.
      if bytes_eq k (codes "al") then some 0 else if bytes_eq k (codes "bo") then some 1 else none;
}

indexed-IsPlain : IsPlain indexed
indexed-IsPlain = record { plain = refl; real = refl; num = refl }

lines-key_of :
    (key : List ℕ) (line : ℕ)
    → indexed.index_map key ≡ some line
    → (line < 2) × (key_of indexed line 0 ≡ key)
unfolding has_field field_of
lines-key_of key line h = elim (Bool-cases (bytes_eq key (codes "al"))) [
  | inl a ↦
      let k = (bytes_eq_iff key (codes "al")).0 a in
      let l : line ≡ 0 = ground arith in rw (l, k) (ground arith, refl)
  | inr b ↦ elim (Bool-cases (bytes_eq key (codes "bo"))) [
    | inl c ↦
        let k = (bytes_eq_iff key (codes "bo")).0 c in
        let l : line ≡ 1 = ground arith in rw (l, k) (ground arith, refl)
    | inr d ↦ ground arith
  ]
]

indexed-IsSound : IsSound indexed
indexed-IsSound zero e key line h = lines-key_of key line h
indexed-IsSound (suc field) e key line h = ground arith

get_field-join_fields_example : get_field users (pos 1) 1 ≡ ok (codes "2")
get_field-join_fields_example =
    get_field-join_fields users 1 1 (codes "bo") (codes "2" ∷ []) refl (ground arith)
      (unfold get_line in refl) (refl, (refl, tt))

next_line-ChoosesWithin_example : ChoosesWithin users (next_line 7 users 0 true)
next_line-ChoosesWithin_example = next_line-ChoosesWithin 7 users 0 true (ground arith)

insert-KeepsIndex_example : KeepsIndex indexed (insert (codes "cy;3") indexed)
insert-KeepsIndex_example = insert-KeepsIndex (codes "cy;3") indexed indexed-IsPlain indexed-IsSound

replace-KeepsIndex_example : KeepsIndex indexed (replace (pos 1) (codes "cy;3") indexed)
replace-KeepsIndex_example =
    replace-KeepsIndex 1 (codes "cy;3") indexed indexed-IsPlain indexed-IsSound (ground arith)

-- Three virtual lines of a file of two.
abbrev virtual_users : FileContents
virtual_users = record users { printf_file = true; num_lines_in_file = 3 }

-- The numbers in this file's first line are decimal.
abbrev read_number : List ℕ → ℕ × List ℕ
read_number t = (digits_value 0 t, skip_while is_digit t)

abbrev loaded : FileContents
loaded = record users { line_counter = 0; printf_file = true; num_lines_in_file = 3 }

expand_printf_field-ends_example : expand_printf_field (pos 7) (codes "u%03d%%") ≢ err out_of_fuel
expand_printf_field-ends_example = expand_printf_field-ends (pos 7) (codes "u%03d%%")

expands : expand_printf_field (pos 7) (codes "u%03d%%") ≡ ok (codes "u007%")
unfolding expand_printf_field expand_loop convert read_flags read_capped read_precision print_number
    decimal_onto
expands = refl

expand_printf_field-strtol_example :
    (text : List ℕ) × (expand_printf_field (negsuc 41) (codes "%d") ≡ ok text)
    × (strtol text ≡ negsuc 41)
expand_printf_field-strtol_example = expand_printf_field-strtol (negsuc 41) (ground arith)
