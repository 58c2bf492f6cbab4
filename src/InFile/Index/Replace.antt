-- ===== src/InFile/Index/Replace.antt =====
-- `FileContents::replace` of src/infile.cpp keeps the index sound.
use sipp.Base.{
  ℕ, ◌<◌, ◌≡◌, ◌≢◌, refl, sym, ap, ◌∙◌, subst, false, List, Option, none, some, leb, arith,
  if◌then◌else◌, length, set, length-set,
}
use sipp.Base.Int.{pos}
use sipp.InFile.Printf.{err, insert_in_printf, invalid_line, ◌>>=◌}
use sipp.InFile.{FileContents, forget, re_index, de_index, replace}
use sipp.InFile.Index.{
  IsPlain, IsSound, KeepsIndex, de_index-none, de_index_lem, forget_lem, get_or-set_ne, key_of,
  line_key, none_not_some, re_index-KeepsIndex, some_injective,
}

-- The state between `deIndex` and `reIndex` in `replace`.
abbrev replaced : ℕ → List ℕ → FileContents → (List ℕ → Option ℕ) → FileContents
replaced line value f m = record f { file_lines = set f.file_lines line value; index_map = m }

replaced-KeepsIndex :
    (line : ℕ) (value : List ℕ) (f : FileContents) (m : List ℕ → Option ℕ)
    → IsPlain f
    → line < length f.file_lines
    → ((field : ℕ)
        → f.index_field ≡ some field
        → (key : List ℕ) (l : ℕ) → m key ≡ some l
        → (l < length f.file_lines) × (key_of f l field ≡ key) × (line ≢ l))
    → KeepsIndex f (re_index line (replaced line value f m))
replaced-KeepsIndex line value f m p h s =
    re_index-KeepsIndex line (replaced line value f m) f.index_field refl
      (record {
        plain = p.plain;
        real = omega (arith, p.real, length-set f.file_lines line value);
        num = omega (arith, p.num, length-set f.file_lines line value);
      })
      (omega (arith, length-set f.file_lines line value))
      (λ field e key l q.
        let (a, b, n) = s field e key l q in
        (
          omega (arith, length-set f.file_lines line value),
          ap (line_key field) (get_or-set_ne f.file_lines line l value n) ∙ b,
        ))

replace_step :
    (line : ℕ) (value : List ℕ) (f : FileContents) (i : Option ℕ)
    → f.index_field ≡ i
    → IsPlain f
    → IsSound f
    → line < length f.file_lines
    → KeepsIndex f (do
      f' ← de_index line f
      re_index line (record f' { file_lines = set f'.file_lines line value }))
replace_step line value f none e p s h = rw (de_index-none line f e) (
    replaced-KeepsIndex line value f f.index_map p h
      (λ field q. absurd (none_not_some field (sym e ∙ q))))
replace_step line value f (some k) e p s h = rw (de_index_lem line f k p e h) (
    replaced-KeepsIndex line value f (forget line (key_of f line k) f.index_map) p h
      (λ field q key l m.
        let (a, b) = forget_lem line l (key_of f line k) key f.index_map m in
        let (c, d) = s field q key l a in
        (
          c,
          d,
          λ same.
              b
                (ap (λ (n : ℕ). key_of f n k) same
                  ∙ ap (λ (j : ℕ). key_of f l j) (some_injective k field (sym e ∙ q))
                  ∙ d)
                same,
        )))

-- A line of a plain file with a sound index that is replaced leaves it so.
pub replace-KeepsIndex :
    (line : ℕ) (value : List ℕ) (f : FileContents)
    → IsPlain f
    → IsSound f
    → line < length f.file_lines
    → KeepsIndex f (replace (pos line) value f)
unfolding replace
replace-KeepsIndex line value f p s h =
    let inside : leb f.real_lines_in_file line ≡ false = (let r = p.real in ground arith) in
    subst
      (λ b. KeepsIndex f (
        if b
        then err insert_in_printf
        else if leb f.real_lines_in_file line
        then err invalid_line
        else (do
          f' ← de_index line f
          re_index line (record f' { file_lines = set f'.file_lines line value }))))
      (sym p.plain)
      (subst
        (λ b. KeepsIndex f (
          if b then err invalid_line else (do
            f' ← de_index line f
            re_index line (record f' { file_lines = set f'.file_lines line value }))))
        (sym inside) (replace_step line value f f.index_field refl p s h))
