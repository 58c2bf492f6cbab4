-- ===== src/Variables/Table/GetVar.antt =====
-- The two kinds of tables of src/variables.cpp: a number that the tables of names give to a name is one
-- that the tables of values read.
use Prim.Native.String.{String}
use sipp.Base.{
  ℕ, zero, suc, ◌-◌, ◌/◌, ◌%◌, ◌≤◌, ◌<◌, ◌≡◌, refl, sym, ap, subst, ◌∙◌, inl, inr, true, false,
  ◌&&◌, List, [], ◌∷◌, Option, none, some, Option-cases, ltb, leb, ◌==◌, arith, length, get_elem?,
}
use sipp.Variables.Alloc.{AllocVariableTable, map_find, find}
use sipp.Variables.Alloc.Numbers.{Numbers, Named, find-Found, find_here, find_above}
use sipp.Variables.Table.{VariableTable, Heap, get_var}

get_elem?-within :
    {V : Type 0} (xs : List V) (i : ℕ) → i < length xs → (v : V) × (get_elem? xs i ≡ some v)
get_elem?-within [] i h = absurd (omega arith)
get_elem?-within (x ∷ xs) zero h = (x, refl)
get_elem?-within (x ∷ xs) (suc i) h = get_elem?-within xs i (omega arith)

some_inj : {A : Type 0} (x y : A) → some x ≡ some y → x ≡ y
some_inj x y e = ap (λ o. elim o [ none ↦ x | some z ↦ z ]) e

above_level :
    (name : String) (parents : List AllocVariableTable) (j : ℕ)
    → Numbers parents
    → (find name false parents).1 ≡ some j
    → j % 256 < length parents
above_level name parents j np f =
    let r = find-Found name false parents np in
    omega (arith, (subst (Named name (find name false parents).0) f r.named).1, r.depth)

none-some : (i : ℕ) → none ≡ some i → ⊥
none-some i e = ground arith

find_empty : (i : ℕ) (name : String) → (find name false []).1 ≡ some i → ⊥
unfolding find
find_empty i name e = ground arith

find-none :
    (name : String) (t : AllocVariableTable) (parents : List AllocVariableTable)
    → map_find name t.variable_map ≡ none
    → (find name false parents).1 ≡ none
    → (find name false (t ∷ parents)).1 ≡ none
unfolding find
find-none name t parents e f = ground arith

module _ (V : Type 0) (fresh : V) where
  -- A table of values and its parents have the levels and the sizes of the tables of names.
  abbrev pub Mirrors : Heap V fresh → Option ℕ → List AllocVariableTable → Type 0
  Mirrors h a [] = Unit
  Mirrors h none (t ∷ parents) = ⊥
  Mirrors h (some a) (t ∷ parents) =
      (table : VariableTable V fresh) × (h a ≡ some table)
      × (table.level ≡ t.level)
      × (table.size ≡ t.size)
      × (length table.variables ≡ t.size)
      × Mirrors h table.parent parents

  -- The number is of the table itself.
  get_var-here :
      (n a i : ℕ) (h : Heap V fresh) (table : VariableTable V fresh)
      → h a ≡ some table
      → i % 256 ≡ table.level
      → 0 < i / 256
      → i / 256 ≤ table.size
      → length table.variables ≡ table.size
      → (v : V) × (get_var V fresh (suc n) a i h ≡ some v)
  unfolding get_var
  get_var-here n a i h table e low pos fits len =
      let (v, q) = get_elem?-within table.variables (i / 256 - 1) (omega arith) in
      let not_above : ltb table.level (i % 256) ≡ false = ground arith in
      let here : (i % 256 == table.level) ≡ true = ground arith in
      let inside : (ltb 0 (i / 256) && leb (i / 256) table.size) ≡ true = ground arith in
      (v, rw (e, get_var, not_above, here, inside) q)

  get_var-above :
      (n a b i : ℕ) (h : Heap V fresh) (table : VariableTable V fresh)
      → h a ≡ some table
      → i % 256 < table.level
      → table.parent ≡ some b
      → get_var V fresh (suc n) a i h ≡ get_var V fresh n b i h
  unfolding get_var
  get_var-above n a b i h table e low p =
      let not_above : ltb table.level (i % 256) ≡ false = ground arith in
      let not_here : (i % 256 == table.level) ≡ false = ground arith in
      rw (e, get_var, not_above, not_here, p) refl

  -- A table that mirrors another is there, and so is its parent.
  parent-there :
      (h : Heap V fresh) (a : Option ℕ) (c : List AllocVariableTable)
      → Mirrors h a c
      → 0 < length c
      → (b : ℕ) × (a ≡ some b)
  parent-there h a [] m l = absurd (omega arith)
  parent-there h none (t ∷ c) m l = absurd m
  parent-there h (some b) (t ∷ c) m l = (b, refl)

  -- A name that the tables of names know has its value in a table of values that mirrors them, by
  -- `getVar` of the number that `find` gives: no assertion fails, with as many rounds as there are tables.
  pub get_var-find :
      (n a i : ℕ) (name : String) (c : List AllocVariableTable) (h : Heap V fresh)
      → Numbers c
      → Mirrors h (some a) c
      → length c ≤ n
      → (find name false c).1 ≡ some i
      → (v : V) × (get_var V fresh n a i h ≡ some v)
  get_var-find n a i name [] h k m l e = absurd (find_empty i name e)
  get_var-find zero a i name (t ∷ parents) h k m l e = absurd (omega arith)
  get_var-find (suc n) a i name (t ∷ parents) h (nt, small, level, np) (table, q, lv, sz, len, mp) l
        e =
      elim (Option-cases (map_find name t.variable_map)) [
        | inr (j, f) ↦
            let same : j ≡ i = some_inj j i (sym (find_here name false t parents j f) ∙ e) in
            let (low, positive, fits, _) = nt name j f in
            subst (λ x. (v : V) × (get_var V fresh (suc n) a x h ≡ some v)) same
              (get_var-here n a j h table q (low ∙ sym lv) positive (omega (arith, sz))
                (len ∙ sym sz))
        | inl f ↦ elim (Option-cases (find name false parents).1) [
          | inl g ↦ absurd (none-some i (sym (find-none name t parents f g) ∙ e))
          | inr (j, g) ↦
              let same : j ≡ i = some_inj j i (sym (find_above name false t parents j f g) ∙ e) in
              let low = above_level name parents j np g in
              let (b, there) = parent-there h table.parent parents mp (omega arith) in
              let (v, r) =
                get_var-find n b j name parents h np (subst (λ x. Mirrors h x parents) there mp)
                  (omega arith) g in
              (
                v,
                subst (λ x. get_var V fresh (suc n) a x h ≡ some v) same
                    (get_var-above n a b j h table q (omega (arith, level, lv)) there ∙ r),
              )
        ]
      ]
