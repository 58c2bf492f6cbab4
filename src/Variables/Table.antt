-- ===== src/Variables/Table.antt =====
-- `VariableTable` of src/variables.cpp: the tables of a call's values, with their reference counts.
-- A table is a number, its fields are those of the heap's cell of that number; `none` is a null
-- pointer or a table that was deleted.
pub mod GetVar
pub mod References
use sipp.Base.{
  ℕ, zero, suc, ◌+◌, ◌-◌, ◌/◌, ◌%◌, true, false, ◌&&◌, List, ◌++◌, Option, none, some, ltb, leb,
  ◌==◌, if◌then◌else◌, replicate, get_elem?,
}
use sipp.Base.Update.{update}

module _ (V : Type 0) (fresh : V) where
  pub record VariableTable : Type 0 where
    pub count : ℕ
    pub level : ℕ
    pub size : ℕ
    pub variables : List V
    pub parent : Option ℕ

  abbrev pub Heap : Type 0
  Heap = ℕ → Option VariableTable

  -- `VariableTable::getTable`: `none` for a dangling pointer
  unfoldable pub get_table : ℕ → Heap → Option Heap
  get_table a h = elim (h a) [
    | none ↦ none
    | some t ↦ some (update h a (some (record t { count = t.count + 1 })))
  ]

  -- `VariableTable::VariableTable(parent, size)` into the cell `a`: `none` for a failed assertion or a
  -- dangling parent
  unfoldable pub new_table : ℕ → Option ℕ → ℕ → Heap → Option Heap
  unfolding get_table
  new_table a none size h = some (
      update h a (
        some (record {
          count = 1;
          level = 0;
          size = size;
          variables = replicate size fresh;
          parent = none;
        })))
  new_table a (some p) size h = elim (h p) [
    | none ↦ none
    | some t ↦
        if ltb (t.level + 1) 256
        then some (
            update (update h p (some (record t { count = t.count + 1 }))) a (
              some (record {
                count = 1;
                level = t.level + 1;
                size = size;
                variables = replicate size fresh;
                parent = some p;
              })))
        else none
  ]

  -- `VariableTable::VariableTable(src)` into the cell `a`, from the fields of a table of names whose
  -- parent, if it has one, is another such table: `none` for a failed assertion or a dangling parent
  unfoldable pub copy_table : ℕ → ℕ → ℕ → Option ℕ → Heap → Option Heap
  copy_table a level size none h =
      if ltb 0 level
      then none
      else some (
          update h a (
            some (record {
              count = 1;
              level = level;
              size = size;
              variables = replicate size fresh;
              parent = none;
            })))
  copy_table a level size (some p) h = elim (h p) [
    | none ↦ none
    | some t ↦ some (
        update (update h p (some (record t { count = t.count + 1 }))) a (
          some (record {
            count = 1;
            level = level;
            size = size;
            variables = replicate size fresh;
            parent = some p;
          })))
  ]

  -- `VariableTable::expand`: `none` for its assertion
  unfoldable pub expand : ℕ → VariableTable → Option VariableTable
  expand size t =
      if ltb t.size size
      then some
          (record t { size = size; variables = t.variables ++ replicate (size - t.size) fresh })
      else none

  -- `VariableTable::putTable`, with the destructor, which puts the parent back; each round goes to the
  -- parent of the last. `none`: a dangling pointer, or out of fuel.
  unfoldable pub put_table : ℕ → ℕ → Heap → Option Heap
  put_table zero a h = none
  put_table (suc n) a h = elim (h a) [
    | none ↦ none
    | some t ↦ elim (t.count == 1) [
      | false ↦ some (update h a (some (record t { count = t.count - 1 })))
      | true ↦ elim t.parent [
        | none ↦ some (update h a none)
        | some p ↦ put_table n p (update h a none)
      ]
    ]
  ]

  -- `VariableTable::getVar`: `none` when an assertion fails. Each round goes to the parent.
  unfoldable pub get_var : ℕ → ℕ → ℕ → Heap → Option V
  get_var zero a i h = none
  get_var (suc n) a i h = elim (h a) [
    | none ↦ none
    | some t ↦ elim (ltb t.level (i % 256)) [
      | true ↦ none
      | false ↦ elim (i % 256 == t.level) [
        | true ↦
            if ltb 0 (i / 256) && leb (i / 256) t.size
            then get_elem? t.variables (i / 256 - 1)
            else none
        | false ↦ elim t.parent [ none ↦ none | some p ↦ get_var n p i h ]
      ]
    ]
  ]
