-- ===== src/InFile/Index/Insert.antt =====
-- `FileContents::insert` of src/infile.cpp keeps the index sound.
use sipp.Base.{
  ℕ, ◌+◌, ◌-◌, refl, sym, ap, ◌∙◌, subst, List, [], ◌∷◌, ◌++◌, arith, if◌then◌else◌, length-append,
}
use sipp.InFile.Printf.{err, insert_in_printf}
use sipp.InFile.{FileContents, re_index, insert}
use sipp.InFile.Index.{IsPlain, IsSound, KeepsIndex, get_or-append, line_key, re_index-KeepsIndex}

abbrev inserted : List ℕ → FileContents → FileContents
inserted value f = record f {
  file_lines = f.file_lines ++ value ∷ [];
  real_lines_in_file = f.real_lines_in_file + 1;
  num_lines_in_file = f.num_lines_in_file + 1;
}

inserted-KeepsIndex :
    (value : List ℕ) (f : FileContents)
    → IsPlain f
    → IsSound f
    → KeepsIndex f (re_index (f.real_lines_in_file + 1 - 1) (inserted value f))
inserted-KeepsIndex value f p s =
    re_index-KeepsIndex (f.real_lines_in_file + 1 - 1) (inserted value f) f.index_field refl
      (record {
        plain = p.plain;
        real = omega (arith, p.real, length-append f.file_lines (value ∷ []));
        num = omega (arith, p.num, length-append f.file_lines (value ∷ []));
      })
      (omega (arith, p.real, length-append f.file_lines (value ∷ [])))
      (λ field e key l m.
        let (a, b) = s field e key l m in
        (
          omega (arith, length-append f.file_lines (value ∷ [])),
          ap (line_key field) (get_or-append f.file_lines (value ∷ []) l a) ∙ b,
        ))

-- A line inserted into a plain file with a sound index leaves it so.
pub insert-KeepsIndex :
    (value : List ℕ) (f : FileContents) → IsPlain f → IsSound f → KeepsIndex f (insert value f)
unfolding insert
insert-KeepsIndex value f p s =
    subst
      (λ b. KeepsIndex f (
        if b
        then err insert_in_printf
        else re_index (f.real_lines_in_file + 1 - 1) (inserted value f)))
      (sym p.plain) (inserted-KeepsIndex value f p s)
