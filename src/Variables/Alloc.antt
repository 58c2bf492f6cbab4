-- ===== src/Variables/Alloc.antt =====
-- `AllocVariableTable` of src/variables.cpp: a table and its `av_parent`s, innermost first. A number is
-- `(index << 8) | level`, with a level below 256.
pub mod Numbers
use text.Mathlib.Text.{◌==◌ as str_eq}
use sipp.Base.{
  ℕ, zero, suc, ◌+◌, ◌-◌, ◌*◌, ◌/◌, ◌%◌, Bool, true, false, not, ◌&&◌, ◌||◌, List, [], ◌∷◌, Option,
  none, some, ltb, leb, ◌==◌, if◌then◌else◌,
}
use sipp.Base.Update.{update}
use Prim.Native.String.{String}

pub record AllocVariableTable : Type 0 where
  pub level : ℕ
  pub size : ℕ
  pub variable_map : List (String × ℕ)
  pub variable_rev_map : ℕ → Option String
  pub variable_references : ℕ → ℕ

abbrev pub level_bits_mod : ℕ
level_bits_mod = 256

abbrev pub new_level : List AllocVariableTable → ℕ
new_level [] = 0
new_level (p ∷ _) = p.level + 1

-- `AllocVariableTable::AllocVariableTable`, with `VariableTable::VariableTable`: `none` when its assertion
-- on the level fails
unfoldable pub new_alloc_table : List AllocVariableTable → Option AllocVariableTable
new_alloc_table parents =
    let level = new_level parents in
    if ltb level level_bits_mod
    then some (record {
      level = level;
      size = 0;
      variable_map = [];
      variable_rev_map = λ _. none;
      variable_references = λ _. 0;
    })
    else none

-- `variableMap.find`
unfoldable pub map_find : String → List (String × ℕ) → Option ℕ
map_find name [] = none
map_find name ((n, i) ∷ rest) = if str_eq n name then some i else map_find name rest

-- The new number of a table, and the table that has it.
unfoldable pub allocate : String → AllocVariableTable → AllocVariableTable × ℕ
allocate name t =
    let var_num = (t.size + 1) * level_bits_mod + t.level in
    (
      record t {
        size = t.size + 1;
        variable_map = (name, var_num) ∷ t.variable_map;
        variable_references = update t.variable_references var_num 1;
        variable_rev_map = update t.variable_rev_map var_num (some name);
      },
      var_num,
    )

-- One more reference to a number.
unfoldable pub refer : ℕ → AllocVariableTable → AllocVariableTable
refer i t = record t {
  variable_references = update t.variable_references i (t.variable_references i + 1);
}

-- `AllocVariableTable::find`: the tables after it, and the number, `none` for -1
unfoldable pub find : String → Bool → List AllocVariableTable → List AllocVariableTable × Option ℕ
find name alloc [] = ([], none)
find name alloc (t ∷ parents) =
    let (parents', above) = find name false parents in
    elim (map_find name t.variable_map) [
      | some i ↦ (refer i t ∷ parents, some i)
      | none ↦ elim above [
        | some i ↦ (t ∷ parents', some i)
        | none ↦
            if alloc
            then ((allocate name t).0 ∷ parents', some (allocate name t).1)
            else (t ∷ parents', none)
      ]
    ]

-- `AllocVariableTable::getName`: `none` when an assertion fails or there is no such name
unfoldable pub get_name : List AllocVariableTable → ℕ → Option String
get_name [] i = none
get_name (t ∷ parents) i =
    let above = get_name parents i in
    let this_level = i % level_bits_mod in
    if ltb t.level this_level
    then none
    else if this_level == t.level
    then t.variable_rev_map i
    else above

-- The loop of `AllocVariableTable::validate`: whether each variable but `_` is referenced twice
unfoldable pub referenced : AllocVariableTable → List (String × ℕ) → Bool
referenced t [] = true
referenced t ((name, i) ∷ rest) =
    (not (ltb (t.variable_references i) 2) || str_eq name "_") && referenced t rest

-- `AllocVariableTable::validate`: false when it stops with an error
unfoldable pub validate : List AllocVariableTable → Bool
unfolding referenced
validate [] = true
validate (t ∷ parents) = referenced t t.variable_map && validate parents
