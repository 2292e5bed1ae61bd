-- ===== src/Patch/Parse.antt =====
-- `parse_unified_diff` of backend/patchquest/patching/unified.py: the files of a diff and their hunks.
use patch_quest.Common.{
  ℕ, zero, suc, Bool, true, false, ◌&&◌, ◌||◌, Option, none, some, List, [], ◌∷◌, ◌++◌, ◌==◌,
  length, drop, if◌then◌else◌, nat_eq, string_eq,
}
use patch_quest.Text.{Text, codes, text_beq, starts_with, split, lstrip, rstrip}
use patch_quest.Patch.{Hunk}

pub record FilePatch : Type 0 where
  pub old_path : Option Text
  pub new_path : Option Text
  pub hunks : List Hunk

abbrev pub is_missing : Option Text → Bool
is_missing none = true
is_missing (some t) = false

abbrev pub is_new : FilePatch → Bool
is_new p = is_missing p.old_path

abbrev pub is_delete : FilePatch → Bool
is_delete p = is_missing p.new_path

-- `self.new_path or self.old_path or ""`
unfoldable pub patch_path : FilePatch → Text
patch_path p = elim p.new_path [
  | some (c ∷ t) ↦ c ∷ t
  | some [] ↦ elim p.old_path [ none ↦ [] | some u ↦ u ]
  | none ↦ elim p.old_path [ none ↦ [] | some u ↦ u ]
]

abbrev head_text : List Text → Text
head_text [] = []
head_text (t ∷ ts) = t

unfoldable pub clean_path : Text → Option Text
unfolding split lstrip rstrip starts_with text_beq
clean_path raw =
    let path = lstrip (rstrip (head_text (split 9 raw))) in
    if text_beq path (codes "/dev/null")
    then none
    else if starts_with (codes "a/") path || starts_with (codes "b/") path
    then some (drop 2 path)
    else some path

-- A line and the lines after it start a file.
unfoldable pub is_file_header : Text → List Text → Bool
unfolding starts_with
is_file_header line [] = false
is_file_header line (next ∷ lines) =
    starts_with (codes "--- ") line && starts_with (codes "+++ ") next

unfoldable pub ends_hunk : Text → List Text → Bool
unfolding is_file_header starts_with
ends_hunk line lines =
    starts_with (codes "@@") line || (starts_with (codes "diff ") line || is_file_header line lines)

abbrev add_line : Bool → Bool → Text → Hunk → Hunk
add_line old new t hunk = record hunk {
  old_lines = if old then hunk.old_lines ++ t ∷ [] else hunk.old_lines;
  new_lines = if new then hunk.new_lines ++ t ∷ [] else hunk.new_lines;
}

-- What a line of a hunk does to it, none where the hunk ends; the first character tells.
unfoldable pub read_line : Text → Hunk → Option Hunk
read_line [] hunk = some (add_line true true [] hunk)
read_line (c ∷ t) hunk =
    if c == b'\\'
    then some (record hunk { no_newline_at_eof = true })
    else if c == b'+'
    then some (add_line false true t hunk)
    else if c == b'-'
    then some (add_line true false t hunk)
    else if c == b' '
    then some (add_line true true t hunk)
    else none

-- The innermost loop, and the lines that it leaves.
unfoldable pub read_hunk : List Text → Hunk → Hunk × List Text
unfolding ends_hunk read_line
read_hunk [] hunk = (hunk, [])
read_hunk (line ∷ lines) hunk = elim (if ends_hunk line lines then none else read_line line hunk) [
  | none ↦ (hunk, line ∷ lines)
  | some longer ↦ read_hunk lines longer
]

-- `text.replace("\r\n", "\n")`
unfoldable pub unix_newlines : Text → Text
unfolding starts_with
unix_newlines [] = []
unix_newlines (c ∷ t) =
    let rest = unix_newlines t in if c == 13 && starts_with (10 ∷ []) t then rest else c ∷ rest

-- `while lines and lines[-1] == "": lines.pop()`
unfoldable pub drop_blank_end : List Text → List Text
drop_blank_end [] = []
drop_blank_end (line ∷ lines) = elim (drop_blank_end lines) [
  | next ∷ rest ↦ line ∷ next ∷ rest
  | [] ↦ elim line [ [] ↦ [] | c ∷ t ↦ (c ∷ t) ∷ [] ]
]

abbrev pub empty_hunk : ℕ → Hunk
empty_hunk old_start = record {
  old_start = old_start;
  old_lines = [];
  new_lines = [];
  no_newline_at_eof = false;
}

-- `header` is `_HUNK_RE.match` with the number of its first group. Fuel is for lines.
module _ (header : Text → Option ℕ) where
  -- A line that may begin a hunk, and the lines after it.
  unfoldable pub begin_hunk : Option ℕ → List Text → List Hunk → List Hunk × List Text
  unfolding read_hunk
  begin_hunk none lines hunks = (hunks, lines)
  begin_hunk (some old_start) lines hunks =
      let (hunk, rest) = read_hunk lines (empty_hunk old_start) in (hunks ++ hunk ∷ [], rest)

  unfoldable pub read_hunks : ℕ → List Text → List Hunk → Option (List Hunk × List Text)
  unfolding begin_hunk is_file_header starts_with
  read_hunks fuel [] hunks = some (hunks, [])
  read_hunks zero (line ∷ lines) hunks = none
  read_hunks (suc fuel) (line ∷ lines) hunks =
      let (longer, rest) = begin_hunk (header line) lines hunks in
      let further = read_hunks fuel rest longer in
      if is_file_header line lines || starts_with (codes "diff ") line
      then some (hunks, line ∷ lines)
      else further

  abbrev pub with_file : FilePatch → Option (List FilePatch) → Option (List FilePatch)
  with_file p none = none
  with_file p (some patches) = some (p ∷ patches)

  abbrev pub after_hunks :
      (List Text → Option (List FilePatch))
      → Option Text
      → Option Text
      → Option (List Hunk × List Text)
      → Option (List FilePatch)
  after_hunks go old new none = none
  after_hunks go old new (some (hunks, rest)) =
      with_file (record { old_path = old; new_path = new; hunks = hunks }) (go rest)

  unfoldable pub read_file :
      (List Text → Option (List FilePatch)) → Text → List Text → Option (List FilePatch)
  unfolding read_hunks clean_path
  read_file go line [] = none
  read_file go line (next ∷ lines) =
      after_hunks go (clean_path (drop 4 line)) (clean_path (drop 4 next))
        (read_hunks (length lines) lines [])

  unfoldable pub read_files : ℕ → List Text → Option (List FilePatch)
  unfolding read_file is_file_header
  read_files fuel [] = some []
  read_files zero (line ∷ lines) = none
  read_files (suc fuel) (line ∷ lines) =
      if is_file_header line lines
      then read_file (λ rest. read_files fuel rest) line lines
      else read_files fuel lines

  unfoldable pub parse_unified_diff : Text → Option (List FilePatch)
  unfolding read_files drop_blank_end unix_newlines split
  parse_unified_diff text =
      let lines = drop_blank_end (split 10 (unix_newlines text)) in read_files (length lines) lines
