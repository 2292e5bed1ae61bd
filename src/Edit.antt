-- ===== src/Edit.antt =====
-- backend/patchquest/patching/edits.py: search and replace edits.
pub mod Once
use patch_quest.Common.{
  ℕ, zero, suc, ◌+◌, ◌-◌, String, Bool, true, false, not, ◌&&◌, ◌||◌, Option, none, some, List, [],
  ◌∷◌, ◌++◌, map, ltb, ◌==◌, length, take, drop, any, if◌then◌else◌, nat_eq, string_eq,
}
use patch_quest.Text.{Text, text_beq, starts_with, is_space, lstrip, rstrip, split, join}

pub record SearchReplace : Type 0 where
  pub path : String
  pub search : Text
  pub replace : Text
  pub replace_all : Bool

-- The reasons of `EditError`, or the new text.
pub data Edited : Type 0 where
  edited : Text → Edited
  empty_search not_found : Edited
  ambiguous : ℕ → Edited

abbrev pub is_nil {ℓ} : {A : Type ℓ} → List A → Bool
is_nil [] = true
is_nil (x ∷ xs) = false

module _ (s : Text) where
  -- `t.count(s)` after `skip` characters, for a text `s` that is not empty: occurrences do not overlap.
  unfoldable pub occurrences : ℕ → Text → ℕ
  unfolding starts_with
  occurrences skip [] = 0
  occurrences (suc k) (c ∷ t) = occurrences k t
  occurrences zero (c ∷ t) =
      let past = occurrences (length s - 1) t in
      let on = occurrences 0 t in if starts_with s (c ∷ t) then suc past else on

  -- `t.replace(s, r)` after `skip` characters.
  unfoldable pub replaced : Text → ℕ → Text → Text
  unfolding starts_with
  replaced r skip [] = []
  replaced r (suc k) (c ∷ t) = replaced r k t
  replaced r zero (c ∷ t) =
      let past = replaced r (length s - 1) t in
      let on = replaced r 0 t in if starts_with s (c ∷ t) then r ++ past else c ∷ on

-- `t.count(s)`
abbrev pub count : Text → Text → ℕ
count [] t = suc (length t)
count (a ∷ s) t = occurrences (a ∷ s) 0 t

abbrev pub newline : ℕ
newline = 10

-- `t.strip("\n")`
unfoldable pub left_newlines : Text → Text
left_newlines [] = []
left_newlines (c ∷ t) = let rest = left_newlines t in if c == newline then rest else c ∷ t

unfoldable pub right_newlines : Text → Text
right_newlines [] = []
right_newlines (c ∷ t) = elim (right_newlines t) [
  | [] ↦ if c == newline then [] else c ∷ []
  | d ∷ u ↦ c ∷ d ∷ u
]

abbrev pub strip_newlines : Text → Text
strip_newlines t = right_newlines (left_newlines t)

abbrev pub lines_of : Text → List Text
lines_of t = split newline t

abbrev pub lines_or_none : Text → List Text
lines_or_none t = if is_nil t then [] else lines_of t

unfoldable pub rstrip_lines : Text → Text
unfolding rstrip split join
rstrip_lines t = join newline (map rstrip (lines_of t))

abbrev strip : Text → Text
strip t = lstrip (rstrip t)

unfoldable pub indent : Text → Text
unfolding lstrip
indent line = take (length line - length (lstrip line)) line

unfoldable pub lines_beq : List Text → List Text → Bool
unfolding text_beq
lines_beq [] [] = true
lines_beq (a ∷ s) (b ∷ t) = text_beq a b && lines_beq s t
lines_beq _ _ = false

abbrev pub head_or_empty : List Text → Text
head_or_empty [] = []
head_or_empty (l ∷ ls) = l

-- The indices, from `i` on, at which the stripped lines are the needle.
unfoldable pub hits : List Text → ℕ → ℕ → List Text → List ℕ
unfolding lines_beq lstrip rstrip
hits needle zero i lines = []
hits needle (suc left) i lines =
    let rest = hits needle left (suc i) (drop 1 lines) in
    if lines_beq (map strip (take (length needle) lines)) needle then i ∷ rest else rest

-- A line of the replacement, from the model's indentation to the file's.
unfoldable pub reindented : Text → Text → Text → Text
unfolding starts_with lstrip rstrip
reindented model_indent file_indent line =
    if starts_with model_indent line && not (is_nil (strip line))
    then file_indent ++ drop (length model_indent) line
    else line

unfoldable pub match_ignoring_indent : Text → SearchReplace → Option Text
unfolding hits indent reindented split join left_newlines right_newlines any
match_ignoring_indent text edit =
    let wanted = lines_of (strip_newlines edit.search) in
    let needle = map strip wanted in
    let src = lines_of text in
    let new = lines_or_none (strip_newlines edit.replace) in
    if not (any (λ l. not (is_nil l)) needle)
    then none
    else elim (hits needle (suc (length src) - length needle) 0 src) [
      | [] ↦ none
      | at' ∷ (_ ∷ _) ↦ none
      | at' ∷ [] ↦ some (
          join newline (
            take at' src
            ++ (map
                  (reindented (indent (head_or_empty wanted))
                    (indent (head_or_empty (drop at' src))))
                  new
                ++ drop (at' + length needle) src)))
    ]

-- The loop over the lines of the file; `skip` lines of a match are left to pass.
module _ (needle new_lines : List Text) (replace_all : Bool) where
  unfoldable pub replace_lines : ℕ → Bool → List Text → List Text
  unfolding lines_beq rstrip
  replace_lines skip done [] = []
  replace_lines (suc k) done (l ∷ ls) = replace_lines k done ls
  replace_lines zero done (l ∷ ls) =
      let past = replace_lines (length needle - 1) true ls in
      let on = replace_lines 0 done ls in
      if lines_beq (map rstrip (take (length needle) (l ∷ ls))) needle && (not done || replace_all)
      then new_lines ++ past
      else l ∷ on

-- The search that ignores trailing whitespace, and the last resort.
unfoldable pub apply_loosely : Text → SearchReplace → Edited
unfolding rstrip_lines match_ignoring_indent replace_lines occurrences left_newlines right_newlines
apply_loosely text edit =
    let norm_search = strip_newlines (rstrip_lines edit.search) in
    let n = count norm_search (rstrip_lines text) in
    if n == 0
    then elim (match_ignoring_indent text edit) [ none ↦ not_found | some t ↦ edited t ]
    else if ltb 1 n && not edit.replace_all
    then ambiguous n
    else edited (
        join newline (
          replace_lines (lines_of norm_search) (lines_or_none (strip_newlines edit.replace))
            edit.replace_all 0 false (lines_of text)))

unfoldable pub apply_search_replace : Text → SearchReplace → Edited
unfolding apply_loosely occurrences replaced
apply_search_replace text edit =
    let n = count edit.search text in
    if is_nil edit.search
    then empty_search
    else if n == 1 || (ltb 1 n && edit.replace_all)
    then edited (replaced edit.search edit.replace 0 text)
    else if ltb 1 n
    then ambiguous n
    else apply_loosely text edit
