-- ===== src/Examples/Patches.antt =====
-- Hunks and edits.
use patch_quest.Common.{ℕ, ◌≡◌, refl, false, Option, none, some, List, [], ◌∷◌, if◌then◌else◌}
use patch_quest.Text.{Text, codes, text_beq, starts_with, split, lstrip, rstrip}
use patch_quest.Edit.{SearchReplace, edited, apply_search_replace, count, occurrences}
use patch_quest.Edit.Once.{Around, replace_once}
use patch_quest.Patch.{Hunk, find_block, apply_hunks, patched}
use patch_quest.Patch.Found.{Searched, find_block-Searched}
use patch_quest.Patch.Parse.{
  parse_unified_diff, read_files, read_file, read_hunks, begin_hunk, read_hunk, read_line,
  ends_hunk, is_file_header, clean_path, drop_blank_end, unix_newlines,
}
use patch_quest.Patch.Applied.{Replaces, apply_hunks-Replaces}

abbrev program : List Text
program = codes "def f():" ∷ codes "    return 1" ∷ codes "" ∷ codes "f()" ∷ []

-- The diff claims line 1, and the context stands on line 2.
abbrev fix : Hunk
fix = record {
  old_start = 1;
  old_lines = codes "    return 1" ∷ [];
  new_lines = codes "    x = 2" ∷ codes "    return x" ∷ [];
  no_newline_at_eof = false;
}

abbrev fixed : List Text
fixed = codes "def f():" ∷ codes "    x = 2" ∷ codes "    return x" ∷ codes "" ∷ codes "f()" ∷ []

fixes : apply_hunks program (fix ∷ []) ≡ patched fixed
unfolding apply_hunks
fixes = refl

find_block-Searched_example :
    Searched program
      (codes "f()" ∷ [])
      (record { ahead = 1; behind = 0 })
      (find_block program (codes "f()" ∷ []) (record { ahead = 1; behind = 0 }))
find_block-Searched_example =
    find_block-Searched program (codes "f()") [] (record { ahead = 1; behind = 0 })

apply_hunks-Replaces_example : Replaces (fix ∷ []) program fixed
apply_hunks-Replaces_example = apply_hunks-Replaces program (fix ∷ []) fixed fixes

abbrev rename_call : SearchReplace
rename_call = record {
  path = "a.py";
  search = codes "one()";
  replace = codes "two()";
  replace_all = false;
}

abbrev one_call : Text
one_call = codes "x = one()"

stands_once : count (codes "one()") one_call ≡ 1
unfolding occurrences
stands_once = refl

replace_once_example :
    (u : Text) × (apply_search_replace one_call rename_call ≡ edited u)
    × Around b'o' (codes "ne()") (codes "two()") one_call u
replace_once_example =
    replace_once b'o' (codes "ne()") (codes "two()") one_call rename_call refl refl stands_once

-- The search ends in a space and stands within a line: the edit is reported as applied, and is not.
abbrev lost_edit : SearchReplace
lost_edit = record {
  path = "a.py";
  search = codes "one() ";
  replace = codes "two()";
  replace_all = false;
}

loses_edit : apply_search_replace one_call lost_edit ≡ edited one_call
unfolding apply_search_replace
loses_edit = refl

-- The header of a hunk at line 1.
abbrev at_line_1 : Text → Option ℕ
at_line_1 line = if starts_with (codes "@@ -1 ") line then some 1 else none

diff_is_read :
    parse_unified_diff at_line_1
      (codes "diff a b\n--- a/f.py\n+++ b/f.py\n@@ -1 +1 @@\n-one\n+two\n\n")
    ≡ some (
        record {
          old_path = some (codes "f.py");
          new_path = some (codes "f.py");
          hunks =
              record {
                old_start = 1;
                old_lines = codes "one" ∷ [];
                new_lines = codes "two" ∷ [];
                no_newline_at_eof = false;
              }
              ∷ [];
        }
        ∷ [])
unfolding parse_unified_diff read_files read_file read_hunks begin_hunk read_hunk read_line
    ends_hunk is_file_header clean_path drop_blank_end unix_newlines split starts_with lstrip rstrip
    text_beq
diff_is_read = refl
