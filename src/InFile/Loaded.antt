-- ===== src/InFile/Loaded.antt =====
-- The constructor of src/infile.cpp: what holds of a file that it returns.
use sipp.Base.{◌<◌, ◌≡◌, false, none, length}
use sipp.InFile.Printf.{Result, ok, err}
use sipp.InFile.{FileContents}
use sipp.InFile.Index.{IsPlain}

-- A file as it is loaded: it has a line, the counter is at the first, there is no index, and a file that
-- is no PRINTF file has just its lines.
pub record IsLoaded (f : FileContents) : Type 0 where
  pub counter : f.line_counter ≡ 0
  pub within : 0 < f.num_lines_in_file
  pub lines : 0 < length f.file_lines
  pub real : f.real_lines_in_file ≡ length f.file_lines
  pub unindexed : f.index_field ≡ none
  pub plain : f.printf_file ≡ false → IsPlain f

abbrev value_or : {A : Type 0} → A → Result A → A
value_or d (ok a) = a
value_or d (err _) = d
