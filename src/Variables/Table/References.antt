-- ===== src/Variables/Table/References.antt =====
-- The reference counts of `VariableTable` of src/variables.cpp: what `putTable` gives back.
use sipp.Base.{
  ℕ, suc, ◌+◌, ◌-◌, ◌<◌, ◌≡◌, refl, sym, ap, subst, ◌∙◌, inl, inr, true, false, Bool-cases, none,
  some, Option-cases, ltb, ◌==◌, arith, replicate,
}
use mathlib.Core.Path.{fun_ext}
use sipp.Base.Update.{update}
use sipp.Variables.Table.{VariableTable, Heap, new_table, put_table}

some_inj : {A : Type 0} (x y : A) → some x ≡ some y → x ≡ y
some_inj x y e = ap (λ o. elim o [ none ↦ x | some z ↦ z ]) e

none-some : {A : Type 0} (x : A) → none ≡ some x → ⊥
none-some x e = ground arith

module _ (V : Type 0) (fresh : V) where
  -- The count of a table that others hold too goes down by one.
  put_table-shared :
      (n a : ℕ) (g : Heap V fresh) (t : VariableTable V fresh)
      → g a ≡ some t
      → 1 < t.count
      → put_table V fresh (suc n) a g ≡ some (update g a (some (record t { count = t.count - 1 })))
  unfolding put_table
  put_table-shared n a g t e h =
      let many : (t.count == 1) ≡ false = ground arith in rw (put_table, e, many) refl

  -- The last holder of a table deletes it and puts its parent back.
  put_table-last :
      (n a p : ℕ) (g : Heap V fresh) (t : VariableTable V fresh)
      → g a ≡ some t
      → t.count ≡ 1
      → t.parent ≡ some p
      → put_table V fresh (suc n) a g ≡ put_table V fresh n p (update g a none)
  unfolding put_table
  put_table-last n a p g t e one par =
      let last : (t.count == 1) ≡ true = ground arith in rw (put_table, e, last, par) refl

  -- The holder taken and put back: pointwise, the heap.
  restored :
      (a p : ℕ) (h : Heap V fresh) (t made : VariableTable V fresh)
      → h a ≡ none
      → h p ≡ some t
      → (b : ℕ)
      → update
          (update
            (update (update h p (some (record t { count = t.count + 1 }))) a (some made))
            a
            none)
          p
          (some (record t { count = t.count + 1 - 1 }))
          b
        ≡ h b
  restored a p h t made e q b = elim (Bool-cases (b == p)) [
    | inl x ↦
        let there : b ≡ p = ground arith in
        let one : t.count + 1 - 1 ≡ t.count = omega arith in
        rw x (ap (λ c. some (record t { count = c })) one ∙ sym q ∙ ap h (sym there))
    | inr x ↦ elim (Bool-cases (b == a)) [
      | inl y ↦ let there : b ≡ a = ground arith in rw (x, y) (sym e ∙ ap h (sym there))
      | inr y ↦ rw (x, y) refl
    ]
  ]

  -- The heap where `new_table` has made a table under `p`.
  abbrev opened :
      ℕ → ℕ → ℕ → VariableTable V fresh → VariableTable V fresh → Heap V fresh → Heap V fresh
  opened a p size t made h =
      update (update h p (some (record t { count = t.count + 1 }))) a (some made)

  put_table-opened :
      (n a p size : ℕ) (h : Heap V fresh) (t made : VariableTable V fresh)
      → h a ≡ none
      → h p ≡ some t
      → 0 < t.count
      → made.count ≡ 1
      → made.parent ≡ some p
      → put_table V fresh (suc (suc n)) a (opened a p size t made h) ≡ some h
  put_table-opened n a p size h t made e q c one par =
      let same : (a == a) ≡ true = ground arith in
      let other : (p == a) ≡ false = elim (Bool-cases (p == a)) [
        | inl x ↦
            let there : p ≡ a = ground arith in absurd (none-some t (sym e ∙ ap h (sym there) ∙ q))
        | inr x ↦ x
      ] in
      let self : (p == p) ≡ true = ground arith in
      put_table-last (suc n) a p (opened a p size t made h) made (rw same refl) one par
      ∙ put_table-shared n p (update (opened a p size t made h) a none)
          (record t { count = t.count + 1 }) (rw (other, self) refl) (omega arith)
      ∙ ap some (fun_ext (restored a p h t made e q))

  -- The table that `new_table` makes under one of that level.
  abbrev child : ℕ → ℕ → VariableTable V fresh → VariableTable V fresh
  child p size t = record {
    count = 1;
    level = t.level + 1;
    size = size;
    variables = replicate size fresh;
    parent = some p;
  }

  new_table-under :
      (a p size : ℕ) (h made : Heap V fresh)
      → new_table V fresh a (some p) size h ≡ some made
      → (t : VariableTable V fresh) × (h p ≡ some t) × (opened a p size t (child p size t) h ≡ made)
  unfolding new_table
  new_table-under a p size h made r = elim (Option-cases (h p)) [
    | inl x ↦ absurd (none-some made (sym (rw (new_table, x) refl) ∙ r))
    | inr (t, x) ↦ elim (Bool-cases (ltb (t.level + 1) 256)) [
      | inl y ↦ (
        t,
        x,
        some_inj (opened a p size t (child p size t) h) made (sym (rw (new_table, x, y) refl) ∙ r),
      )
      | inr y ↦ absurd (none-some made (sym (rw (new_table, x, y) refl) ∙ r))
    ]
  ]

  -- A table of values that `new VariableTable` makes, in a free cell, under a parent that somebody holds, is
  -- undone by one `putTable`: the table is gone, the parent's count is as before, and nothing else of
  -- the heap is different. Two rounds are enough.
  pub put_table-new_table :
      (n a p size : ℕ) (h made : Heap V fresh)
      → h a ≡ none
      → ((t : VariableTable V fresh) → h p ≡ some t → 0 < t.count)
      → new_table V fresh a (some p) size h ≡ some made
      → put_table V fresh (suc (suc n)) a made ≡ some h
  put_table-new_table n a p size h made e held r =
      let (t, x, there) = new_table-under a p size h made r in
      subst (λ g. put_table V fresh (suc (suc n)) a g ≡ some h) there
        (put_table-opened n a p size h t (child p size t) e x (held t x) refl refl)
