-- ===== src/Atomic/Plan.antt =====
-- The first half of `apply_changes`: `load`, `_decode` and the changes to the texts in memory. A function
-- gives none where the code raises PatchApplyError, EditError or UnsafePathError.
use patch_quest.Common.{
  ℕ, Bool, true, false, not, ◌&&◌, ◌||◌, Option, none, some, List, [], ◌∷◌, ◌++◌, ltb, ◌==◌, length,
  take, first, any, if◌then◌else◌, nat_eq, string_eq,
}
use patch_quest.Text.{Text, text_beq, is_within, split, join}
use patch_quest.Text.Equality.{text_eq}
use patch_quest.Patch.{Hunk, patched, patch_apply_error, apply_hunks}
use patch_quest.Patch.Parse.{FilePatch, is_new, is_delete, unix_newlines}
use patch_quest.Edit.{edited, apply_search_replace}
use patch_quest.Atomic.{
  Bytes, Files, Change, file_patch, search_replace, create_file, write_file, delete_file, path_of,
  Outside, Entry,
}

abbrev pub max_file_bytes : ℕ
max_file_bytes = 2000000

-- `_decode`, and whether the lines end in "\r\n".
unfoldable pub decode : Outside → Bytes → Option (Text × Bool)
unfolding unix_newlines any is_within
decode outside raw =
    if ltb max_file_bytes (length raw)
    then none
    else if any (λ b. b == 0) (take 8192 raw)
    then none
    else (elim (outside.decode raw) [
      | none ↦ none
      | some text ↦ some (unix_newlines text, is_within (13 ∷ 10 ∷ []) text)
    ])

unfoldable pub entry_of : Outside → Text → Option Bytes → Option Entry
unfolding decode
entry_of outside rel none =
    some (record { path = rel; original = none; old_text = none; working = none; crlf = false })
entry_of outside rel (some raw) = elim (decode outside raw) [
  | none ↦ none
  | some (text, crlf) ↦ some (record {
    path = rel;
    original = some raw;
    old_text = some text;
    working = some text;
    crlf = crlf;
  })
]

unfoldable pub read_entry : Outside → Files → Text → Option Text → Option Entry
unfolding entry_of
read_entry outside files rel none = none
read_entry outside files rel (some target) =
    if outside.is_irregular target then none else entry_of outside rel (files target)

unfoldable pub find_entry : Text → List Entry → Option Entry
unfolding first text_beq
find_entry rel entries = first (λ e. e.path == rel) entries

abbrev pub as_new : Option Entry → Option (Entry × Bool)
as_new none = none
as_new (some e) = some (e, true)

-- `load`: the entry of a path, and whether it is a new one.
unfoldable pub load : Outside → Files → Text → Option Entry → Option (Entry × Bool)
unfolding read_entry
load outside files rel (some e) = some (e, false)
load outside files rel none = as_new (read_entry outside files rel (outside.resolve rel))

abbrev is_nothing : Option Text → Bool
is_nothing none = true
is_nothing (some t) = false

abbrev is_blank : Option Text → Bool
is_blank none = true
is_blank (some []) = true
is_blank (some (c ∷ t)) = false

-- `text.endswith("\n")`
abbrev ends_in_newline : Text → Bool
ends_in_newline [] = false
ends_in_newline (c ∷ []) = c == 10
ends_in_newline (c ∷ d ∷ t) = ends_in_newline (d ∷ t)

-- The lines but an empty last one.
unfoldable pub drop_last_blank : List Text → List Text
drop_last_blank [] = []
drop_last_blank ([] ∷ []) = []
drop_last_blank ((c ∷ t) ∷ []) = (c ∷ t) ∷ []
drop_last_blank (l ∷ m ∷ lines) = l ∷ drop_last_blank (m ∷ lines)

abbrev had_trailing : Option Text → Bool
had_trailing none = false
had_trailing (some t) = ends_in_newline t

unfoldable pub lines_of : Option Text → List Text
unfolding split drop_last_blank
lines_of none = []
lines_of (some t) = if ends_in_newline t then drop_last_blank (split 10 t) else split 10 t

abbrev is_empty : List Text → Bool
is_empty [] = true
is_empty (l ∷ lines) = false

unfoldable pub joined : Option Text → List Hunk → List Text → Text
unfolding join any
joined text hunks lines =
    if not (is_empty lines)
      && ((had_trailing text || is_nothing text) && not (any (λ h. h.no_newline_at_eof) hunks))
    then join 10 lines ++ 10 ∷ []
    else join 10 lines

-- The new text of a file patch, where its hunks stand in the old one.
unfoldable pub patched_text : FilePatch → Option Text → Option (Option Text)
unfolding lines_of joined apply_hunks
patched_text p text =
    if is_delete p
    then (if is_nothing text then none else some none)
    else if is_new p && not (is_blank text)
    then none
    else (elim (apply_hunks (lines_of text) p.hunks) [
      | patched lines ↦ some (some (joined text p.hunks lines))
      | patch_apply_error number ↦ none
    ])

unfoldable pub new_text : Change → Option Text → Option (Option Text)
unfolding patched_text apply_search_replace
new_text (file_patch p) text = patched_text p text
new_text (search_replace e) none = none
new_text (search_replace e) (some t) = elim (apply_search_replace t e) [
  | edited u ↦ some (some u)
  | _ ↦ none
]
new_text (create_file path content) text = if is_blank text then some (some content) else none
new_text (write_file path content) text = some (some content)
new_text (delete_file path) text = if is_nothing text then none else some none

abbrev pub with_working : Option Text → Entry → Entry
with_working text e = record e { working = text }

unfoldable pub set_working : Text → Option Text → List Entry → List Entry
unfolding text_beq
set_working rel text [] = []
set_working rel text (e ∷ es) =
    (if e.path == rel then with_working text e else e) ∷ set_working rel text es

unfoldable pub put_text :
    Text → Entry → Bool → List Entry → Option (Option Text) → Option (List Entry)
unfolding set_working
put_text rel e is_new entries none = none
put_text rel e true entries (some text) = some (entries ++ with_working text e ∷ [])
put_text rel e false entries (some text) = some (set_working rel text entries)

unfoldable pub change_entry : Change → List Entry → Option (Entry × Bool) → Option (List Entry)
unfolding put_text new_text path_of
change_entry change entries none = none
change_entry change entries (some (e, is_new)) =
    put_text (path_of change) e is_new entries (new_text change e.working)

-- One change, to the text that its path has in memory.
unfoldable pub plan_change : Outside → Files → Change → List Entry → Option (List Entry)
unfolding change_entry load find_entry path_of
plan_change outside files change entries =
    change_entry change entries
      (load outside files (path_of change) (find_entry (path_of change) entries))

unfoldable pub plan : Outside → Files → List Change → List Entry → Option (List Entry)
unfolding plan_change
plan outside files [] entries = some entries
plan outside files (change ∷ changes) entries = elim (plan_change outside files change entries) [
  | none ↦ none
  | some es ↦ plan outside files changes es
]
