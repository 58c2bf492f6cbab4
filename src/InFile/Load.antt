-- ===== src/InFile/Load.antt =====
-- The constructor `FileContents::FileContents` of src/infile.cpp, and `get_printf_param`. The file is its
-- first line and the lines that `std::getline` gives after it.
use sipp.Base.{
  ℕ, zero, suc, ◌-◌, ◌%◌, ◌^◌, Bool, true, false, not, ◌&&◌, List, [], ◌∷◌, Option, none, some, ltb,
  ◌==◌, if◌then◌else◌, length, drop,
}
use sipp.Base.Int.{ℤ, pos, negsuc}
use sipp.Base.Bytes.{codes, at, is_alnum, starts, strstr}
use sipp.InFile.Printf.{
  Result, ok, err, unknown_file_type, invalid_specification, no_virtual_line, zero_lines, ◌>>=◌,
}
use sipp.InFile.{FileContents, InputFileUsage, sequential_order, random_order, user}

-- A trailing CR goes.
unfoldable pub without_cr : List ℕ → List ℕ
without_cr [] = []
without_cr (c ∷ []) = if c == 13 then [] else c ∷ []
without_cr (c ∷ d ∷ p) = c ∷ without_cr (d ∷ p)

-- The search of `get_printf_param`, byte by byte: past the first `key` that no letter or digit follows.
-- After one that is followed by such, the code goes on behind it, `skip` bytes.
unfoldable pub find_key : ℕ → List ℕ → List ℕ → Option (List ℕ)
find_key skip key [] = none
find_key (suc skip) key (c ∷ p) = find_key skip key p
find_key zero key (c ∷ p) = elim (starts key (c ∷ p)) [
  | false ↦ find_key zero key p
  | true ↦ elim (is_alnum (at (c ∷ p) (length key))) [
    | true ↦ find_key (length key - 1) key p
    | false ↦ some (drop (length key) (c ∷ p))
  ]
]

-- `get_printf_param`, with `strtoul(p, &end, 0)` as a function from a text to the number and what is left
unfoldable pub get_printf_param : (List ℕ → ℕ × List ℕ) → List ℕ → List ℕ → Result (Option ℕ)
unfolding find_key
get_printf_param strtoul0 line key = elim (find_key 0 key line) [
  | none ↦ ok none
  | some p ↦
      if not (at p 0 == b'=')
      then err invalid_specification
      else (let (value, end) = strtoul0 (drop 1 p) in
          if not (length end == 0) && not (at end 0 == b',')
          then err invalid_specification
          else ok (some value))
]

-- The data lines: up to the first empty one, with no comments.
unfoldable pub data_lines : List (List ℕ) → List (List ℕ)
unfolding without_cr
data_lines [] = []
data_lines ([] ∷ rest) = []
data_lines ((c ∷ p) ∷ rest) =
    let more = data_lines rest in if c == b'#' then more else without_cr (c ∷ p) ∷ more

abbrev pub contains : List ℕ → List ℕ → Bool
contains s line = elim (strstr s line) [ none ↦ false | some _ ↦ true ]

unfoldable pub usage_of : List ℕ → Result InputFileUsage
usage_of line =
    if contains (codes "RANDOM") line
    then ok random_order
    else if contains (codes "SEQUENTIAL") line
    then ok sequential_order
    else if contains (codes "USER") line
    then ok user
    else err unknown_file_type

-- The conversion of an `unsigned long` to `int`
abbrev pub to_int : ℕ → ℤ
to_int n = if ltb (n % 2 ^ 32) (2 ^ 31) then pos (n % 2 ^ 32) else negsuc (2 ^ 32 - n % 2 ^ 32 - 1)

abbrev pub or_default : Option ℕ → ℤ → ℤ
or_default none d = d
or_default (some v) d = to_int v

-- The number of virtual lines: none for a file that is not a PRINTF file.
unfoldable pub virtual_lines : Option ℕ → Result (Option ℕ)
virtual_lines none = ok none
virtual_lines (some v) = if v % 2 ^ 32 == 0 then err no_virtual_line else ok (some (v % 2 ^ 32))

-- The file with what its first line says and its lines, which may not be none.
unfoldable pub file_of :
    InputFileUsage → Option ℕ → Option ℕ → Option ℕ → List (List ℕ) → Result FileContents
file_of usage virtual offset multiple [] = err zero_lines
file_of usage virtual offset multiple (line ∷ more) = ok (record {
  usage = usage;
  line_counter = 0;
  file_lines = line ∷ more;
  printf_file = elim virtual [ none ↦ false | some _ ↦ true ];
  printf_offset = or_default offset (pos 0);
  printf_multiple = or_default multiple (pos 1);
  num_lines_in_file = elim virtual [ none ↦ length (line ∷ more) | some v ↦ v ];
  real_lines_in_file = length (line ∷ more);
  index_field = none;
  index_map = λ _. none;
})

-- `FileContents::FileContents`, on the first line and the others; the number of virtual lines is below
-- 2^31
unfoldable pub load : (List ℕ → ℕ × List ℕ) → List ℕ → List (List ℕ) → Result FileContents
load strtoul0 first rest = do
  let line = without_cr first
  usage ← usage_of line
  value ← get_printf_param strtoul0 line (codes "PRINTF")
  virtual ← virtual_lines value
  offset ← get_printf_param strtoul0 line (codes "PRINTFOFFSET")
  multiple ← get_printf_param strtoul0 line (codes "PRINTFMULTIPLE")
  file_of usage virtual offset multiple (data_lines rest)
