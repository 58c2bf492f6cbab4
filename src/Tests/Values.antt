-- ===== src/Tests/Values.antt =====
-- The models of src/variables.cpp on a variable and on two tables of names.
use sipp.Base.{
  ℕ, ◌≡◌, refl, Bool, true, false, if◌then◌else◌, not, List, [], ◌∷◌, none, some, arith, ◌==◌,
  subst, ◌<◌,
}
use sipp.Base.Bytes.{codes, digits_value, skip_while, is_digit}
use sipp.Variables.Value.{Doubles}
use sipp.Variables.Value.LastSet.{Value, number, flag, matching, after, Reads, after-Reads}
use sipp.Variables.Alloc.{AllocVariableTable, find, get_name, allocate, map_find}
use sipp.Base.Update.{update}
use sipp.Variables.Table.{VariableTable, Heap, get_var, new_table, put_table}
use sipp.Variables.Table.References.{put_table-new_table}
use sipp.Variables.Table.GetVar.{Mirrors, get_var-find}
use sipp.Variables.Alloc.Numbers.{Numbers, find-get_name}

-- Doubles that are whole numbers.
abbrev whole : Doubles
whole = record {
  Double = ℕ;
  nought = 0;
  one = 1;
  is_nonzero = λ n. not (n == 0);
  strtod = λ t. (digits_value 0 t, skip_while is_digit t);
}

-- A number, then a match, then a flag.
abbrev history : List (Value whole)
history = flag true ∷ matching (codes "12") ∷ number 7 ∷ []

after-Reads_example : Reads whole (after whole history) (flag true)
after-Reads_example = after-Reads whole history

abbrev root : AllocVariableTable
root = record {
  level = 0;
  size = 0;
  variable_map = [];
  variable_rev_map = λ _. none;
  variable_references = λ _. 0;
}

abbrev tables : List AllocVariableTable
tables = record root { level = 1 } ∷ root ∷ []

tables-Numbers : Numbers tables
unfolding map_find
tables-Numbers =
    ((λ n i e. ground arith), ground arith, refl, ((λ n i e. ground arith), ground arith, refl, tt))

-- The tables once the inner one has "user".
abbrev with_user : List AllocVariableTable
with_user = (allocate "user" (record root { level = 1 })).0 ∷ root ∷ []

find-get_name_example :
    Numbers with_user
    × (get_name with_user 257 ≡ some "user")
    × ((again : Bool) → (find "user" again with_user).1 ≡ some 257)
unfolding find allocate map_find
find-get_name_example = find-get_name "user" true tables with_user 257 tables-Numbers refl

-- A table of values for `with_user`: 1 is its inner table, 0 the outer one.
abbrev heap : Heap ℕ 0
heap a =
    if a == 1
    then some (record { count = 1; level = 1; size = 1; variables = 5 ∷ []; parent = some 0 })
    else if a == 0
    then some (record { count = 2; level = 0; size = 0; variables = []; parent = none })
    else none

with_user-Numbers : Numbers with_user
unfolding find allocate map_find
with_user-Numbers = (find-get_name "user" true tables with_user 257 tables-Numbers refl).0

heap-Mirrors : Mirrors ℕ 0 heap (some 1) with_user
unfolding allocate
heap-Mirrors = (_, refl, refl, refl, refl, (_, refl, refl, refl, refl, tt))

user_number : (find "user" false with_user).1 ≡ some 257
unfolding find allocate map_find
user_number = refl

get_var-find_example : (v : ℕ) × (get_var ℕ 0 2 1 257 heap ≡ some v)
get_var-find_example =
    get_var-find ℕ 0 2 1 257 "user" with_user heap with_user-Numbers heap-Mirrors (ground arith)
      user_number

-- The heap once the inner table has a child with two values.
abbrev with_child : Heap ℕ 0
with_child =
    update
      (update heap 1
        (some (record { count = 2; level = 1; size = 1; variables = 5 ∷ []; parent = some 0 })))
      2 (some (record { count = 1; level = 2; size = 2; variables = 0 ∷ 0 ∷ []; parent = some 1 }))

inner-IsHeld : (t : VariableTable ℕ 0) → heap 1 ≡ some t → 0 < t.count
inner-IsHeld t e = subst (λ o. elim o [ none ↦ ⊥ | some u ↦ 0 < u.count ]) e (ground arith)

new_child : new_table ℕ 0 2 (some 1) 2 heap ≡ some with_child
unfolding new_table
new_child = refl

put_table-new_table_example : put_table ℕ 0 2 2 with_child ≡ some heap
put_table-new_table_example =
    put_table-new_table ℕ 0 0 2 1 2 heap with_child refl inner-IsHeld new_child
