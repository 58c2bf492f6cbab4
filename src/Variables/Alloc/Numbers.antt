-- ===== src/Variables/Alloc/Numbers.antt =====
-- The numbers that `AllocVariableTable::find` of src/variables.cpp gives to names.
use Prim.Native.String.{String}
use text.Mathlib.Text.{◌==◌ as str_eq}
use text.Mathlib.TextEquality.{eq_iff}
use sipp.Base.{
  ℕ, ◌/◌, ◌%◌, ◌≤◌, ◌<◌, ◌≡◌, refl, subst, ◌∙◌, inl, inr, Bool, true, false, List, [], ◌∷◌, Option,
  none, some, Bool-cases, ==_refl, arith, if◌then◌else◌, length,
}
use sipp.Variables.Alloc.{AllocVariableTable, map_find, allocate, refer, find, get_name}

-- The number of each name of a table is of its level, within its size, and leads back to the name.
abbrev pub NumbersTable : AllocVariableTable → Type 0
NumbersTable t =
    (name : String) (i : ℕ)
    → map_find name t.variable_map ≡ some i
    → (i % 256 ≡ t.level) × (0 < i / 256) × (i / 256 ≤ t.size) × (t.variable_rev_map i ≡ some name)

-- The levels count the parents.
abbrev pub Numbers : List AllocVariableTable → Type 0
Numbers [] = Unit
Numbers (t ∷ parents) =
    NumbersTable t × (t.level < 256) × (t.level ≡ length parents) × Numbers parents

abbrev pub Named : String → List AllocVariableTable → Option ℕ → Type 0
Named name c none = Unit
Named name c (some i) = (get_name c i ≡ some name) × (i % 256 < length c)

-- What `find` comes to.
pub record Found (name : String) (c : List AllocVariableTable)
    (r : List AllocVariableTable × Option ℕ) : Type 0 where
  pub numbers : Numbers r.0
  pub depth : length r.0 ≡ length c
  pub named : Named name r.0 r.1

allocate-NumbersTable :
    (name : String) (t : AllocVariableTable)
    → t.level < 256
    → NumbersTable t
    → NumbersTable (allocate name t).0
unfolding allocate map_find
allocate-NumbersTable name t small h n i e = elim (Bool-cases (str_eq name n)) [
  | inl y ↦ ground (arith, eq_iff name n)
  | inr z ↦ ground (arith, h n i)
]

-- The number of an ancestor leads past this table.
get_name_above :
    (t : AllocVariableTable) (parents : List AllocVariableTable) (i : ℕ)
    → i % 256 < t.level
    → get_name (t ∷ parents) i ≡ get_name parents i
unfolding get_name
get_name_above t parents i h = ground arith

get_name_here :
    (t : AllocVariableTable) (parents : List AllocVariableTable) (i : ℕ)
    → i % 256 ≡ t.level
    → get_name (t ∷ parents) i ≡ t.variable_rev_map i
unfolding get_name
get_name_here t parents i h = ground arith

refer-NumbersTable : (i : ℕ) (t : AllocVariableTable) → NumbersTable t → NumbersTable (refer i t)
unfolding refer
refer-NumbersTable i t h = h

allocate_level :
    (name : String) (t : AllocVariableTable)
    → t.level < 256
    → (allocate name t).1 % 256 ≡ (allocate name t).0.level
unfolding allocate
allocate_level name t h = omega arith

allocate_name :
    (name : String) (t : AllocVariableTable)
    → (allocate name t).0.variable_rev_map (allocate name t).1 ≡ some name
unfolding allocate
allocate_name name t = ground (arith, ==_refl (allocate name t).1)

allocate_keeps_level :
    (name : String) (t : AllocVariableTable) → (allocate name t).0.level ≡ t.level
unfolding allocate
allocate_keeps_level name t = refl

-- The branches of `find` at a table, from what it comes to at the parents.
find_step :
    (name : String) (alloc : Bool) (t : AllocVariableTable)
    (parents above : List AllocVariableTable) (m a : Option ℕ)
    → map_find name t.variable_map ≡ m
    → Numbers (t ∷ parents)
    → Found name parents (above, a)
    → Found name (t ∷ parents) (elim m [
      | some i ↦ (refer i t ∷ parents, some i)
      | none ↦ elim a [
        | some i ↦ (t ∷ above, some i)
        | none ↦
            if alloc
            then ((allocate name t).0 ∷ above, some (allocate name t).1)
            else (t ∷ above, none)
      ]
    ])
unfolding refer
find_step name alloc t parents above (some i) a e (nt, small, level, np) f =
    let (low, _, _, back) = nt name i e in
    record {
      numbers = (nt, small, level, np);
      depth = refl;
      named = (get_name_here _ parents i low ∙ back, omega arith);
    }
find_step name alloc t parents above none (some i) e (nt, small, level, np) f = record {
  numbers = (nt, small, omega (arith, f.depth), f.numbers);
  depth = omega (arith, f.depth);
  named = (
    get_name_above t above i (omega (arith, f.named.1, f.depth)) ∙ f.named.0,
    omega (arith, f.named.1),
  );
}
find_step name true t parents above none none e (nt, small, level, np) f = record {
  numbers = (
    allocate-NumbersTable name t small nt,
    unfold allocate in small,
    unfold allocate in omega (arith, f.depth),
    f.numbers,
  );
  depth = omega (arith, f.depth);
  named = (
    get_name_here _ above _ (allocate_level name t small) ∙ allocate_name name t,
    omega (arith, allocate_level name t small, allocate_keeps_level name t, f.depth),
  );
}
find_step name false t parents above none none e (nt, small, level, np) f = record {
  numbers = (nt, small, omega (arith, f.depth), f.numbers);
  depth = omega (arith, f.depth);
  named = tt;
}

pub find-Found :
    (name : String) (alloc : Bool) (c : List AllocVariableTable)
    → Numbers c
    → Found name c (find name alloc c)
unfolding find
find-Found name alloc [] h = record { numbers = tt; depth = refl; named = tt }
find-Found name alloc (t ∷ parents) h =
    find_step name alloc t parents (find name false parents).0 (map_find name t.variable_map)
      (find name false parents).1 refl h (find-Found name false parents h.3)

-- The table and number that a name has, without any change.
pub find_here :
    (name : String) (alloc : Bool) (t : AllocVariableTable) (parents : List AllocVariableTable)
    (i : ℕ)
    → map_find name t.variable_map ≡ some i
    → (find name alloc (t ∷ parents)).1 ≡ some i
unfolding find
find_here name alloc t parents i e = ground arith

pub find_above :
    (name : String) (alloc : Bool) (t : AllocVariableTable) (parents : List AllocVariableTable)
    (i : ℕ)
    → map_find name t.variable_map ≡ none
    → (find name false parents).1 ≡ some i
    → (find name alloc (t ∷ parents)).1 ≡ some i
unfolding find
find_above name alloc t parents i e f = ground arith

abbrev Again : String → List AllocVariableTable × Option ℕ → Type 0
Again name (c, none) = Unit
Again name (c, some i) = (alloc : Bool) → (find name alloc c).1 ≡ some i

Again-step :
    (name : String) (alloc : Bool) (t : AllocVariableTable)
    (parents above : List AllocVariableTable) (m a : Option ℕ)
    → map_find name t.variable_map ≡ m
    → Again name (above, a)
    → Again name (elim m [
      | some i ↦ (refer i t ∷ parents, some i)
      | none ↦ elim a [
        | some i ↦ (t ∷ above, some i)
        | none ↦
            if alloc
            then ((allocate name t).0 ∷ above, some (allocate name t).1)
            else (t ∷ above, none)
      ]
    ])
Again-step name alloc t parents above (some i) a e f =
    λ again. find_here name again (refer i t) parents i (unfold refer in e)
Again-step name alloc t parents above none (some i) e f =
    λ again. find_above name again t above i e (f false)
Again-step name true t parents above none none e f = λ again.
    find_here name again (allocate name t).0 above (allocate name t).1
      (unfold allocate map_find in ground (arith, eq_iff name name))
Again-step name false t parents above none none e f = tt

find-Again :
    (name : String) (alloc : Bool) (c : List AllocVariableTable) → Again name (find name alloc c)
unfolding find
find-Again name alloc [] = tt
find-Again name alloc (t ∷ parents) =
    Again-step name alloc t parents (find name false parents).0 (map_find name t.variable_map)
      (find name false parents).1 refl (find-Again name false parents)

-- `find` keeps the numbers of all tables in order. A number that it returns leads back to the name by
-- `getName`, and a later `find` of the name, allocating or not, returns the number again.
pub find-get_name :
    (name : String) (alloc : Bool) (c c' : List AllocVariableTable) (i : ℕ)
    → Numbers c
    → find name alloc c ≡ (c', some i)
    → Numbers c' × (get_name c' i ≡ some name) × ((again : Bool) → (find name again c').1 ≡ some i)
find-get_name name alloc c c' i h e =
    let f = subst (Found name c) e (find-Found name alloc c h) in
    (f.numbers, f.named.0, subst (Again name) e (find-Again name alloc c))
