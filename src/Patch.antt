-- ===== src/Patch.antt =====
-- backend/patchquest/patching/unified.py: hunks of a unified diff, found by their context and applied.
-- A file is the list of its lines.
pub mod Found
pub mod Applied
pub mod Parse
pub mod Ends
use patch_quest.Common.{
  ℕ, zero, suc, ◌+◌, ◌-◌, min, Bool, true, false, ◌&&◌, Option, none, some, List, [], ◌∷◌, ◌++◌,
  ltb, leb, ◌==◌, length, take, drop, if◌then◌else◌, nat_eq, string_eq,
}
use patch_quest.Text.{Text, text_beq, rstrip}

abbrev pub max_hunk_drift : ℕ
max_hunk_drift = 200

pub record Hunk : Type 0 where
  pub old_start : ℕ
  pub old_lines : List Text
  pub new_lines : List Text
  pub no_newline_at_eof : Bool

-- An integer, as the difference of two natural numbers.
pub record Place : Type 0 where
  pub ahead : ℕ
  pub behind : ℕ

-- `abs(start - hint)`, `start >= hint` and `max(0, hint)`.
abbrev pub distance : ℕ → Place → ℕ
distance start hint = ((start + hint.behind) - hint.ahead) + (hint.ahead - (start + hint.behind))

abbrev pub has_reached : ℕ → Place → Bool
has_reached start hint = leb hint.ahead (start + hint.behind)

abbrev pub at_least_zero : Place → ℕ
at_least_zero hint = hint.ahead - hint.behind

unfoldable pub norm_equal : Text → Text → Bool
unfolding text_beq rstrip
norm_equal a b = text_beq (rstrip a) (rstrip b)

-- `all(compare(lines[k], block[k]) for k in range(len(block)))`, the lines being enough.
unfoldable pub agrees : (Text → Text → Bool) → List Text → List Text → Bool
agrees compare lines [] = true
agrees compare [] (b ∷ block) = false
agrees compare (l ∷ lines) (b ∷ block) = compare l b && agrees compare lines block

unfoldable pub nearer : Place → ℕ → Option ℕ → Option ℕ
nearer hint start none = some start
nearer hint start (some best) =
    if ltb (distance start hint) (distance best hint) then some start else some best

module _ (compare : Text → Text → Bool) (block : List Text) (hint : Place) where
  -- The loop over `start`, with as many steps to go as there are starts; it breaks at the first match
  -- that is not before the hint.
  unfoldable pub scan : ℕ → ℕ → List Text → Option ℕ → Option ℕ
  unfolding agrees nearer
  scan zero start lines best = best
  scan (suc left) start lines best =
      let further = scan left (suc start) (drop 1 lines) best in
      let taken = nearer hint start best in
      let rest = scan left (suc start) (drop 1 lines) taken in
      if agrees compare lines block
      then (if has_reached start hint then taken else rest)
      else further

abbrev pub in_reach : Place → Option ℕ → Option ℕ
in_reach hint none = none
in_reach hint (some best) = if leb (distance best hint) max_hunk_drift then some best else none

abbrev pub or_else : Option ℕ → Option ℕ → Option ℕ
or_else none o = o
or_else (some a) o = some a

unfoldable pub search_by : (Text → Text → Bool) → List Text → List Text → Place → Option ℕ
unfolding scan
search_by compare lines block hint =
    in_reach hint (scan compare block hint (suc (length lines) - length block) 0 lines none)

unfoldable pub find_block : List Text → List Text → Place → Option ℕ
unfolding search_by text_beq norm_equal
find_block lines [] hint = some (min (at_least_zero hint) (length lines))
find_block lines (b ∷ block) hint =
    if ltb (length lines) (length (b ∷ block))
    then none
    else or_else (search_by text_beq lines (b ∷ block) hint)
        (search_by norm_equal lines (b ∷ block) hint)

-- `result[at : at + n] = new_lines`
abbrev pub splice : List Text → ℕ → ℕ → List Text → List Text
splice lines at' n new_lines = take at' lines ++ (new_lines ++ drop (at' + n) lines)

-- The new lines, or the number of the hunk that does not match.
pub data Patched : Type 0 where
  patched : List Text → Patched
  patch_apply_error : ℕ → Patched

abbrev is_empty : List Text → Bool
is_empty [] = true
is_empty (x ∷ xs) = false

-- Where a hunk is first looked for, the lines before it having grown by `delta`.
unfoldable pub hint_for : Place → Hunk → Place
hint_for delta hunk =
    if is_empty hunk.old_lines && hunk.old_start == 0
    then record { ahead = 0; behind = 0 }
    else record { ahead = (hunk.old_start - 1) + delta.ahead; behind = delta.behind }

abbrev pub shifted : Place → Hunk → Place
shifted delta hunk = record {
  ahead = delta.ahead + length hunk.new_lines;
  behind = delta.behind + length hunk.old_lines;
}

unfoldable pub apply_from : ℕ → Place → List Text → List Hunk → Patched
unfolding find_block hint_for
apply_from number delta result [] = patched result
apply_from number delta result (hunk ∷ hunks) =
    elim (find_block result hunk.old_lines (hint_for delta hunk)) [
      | none ↦ patch_apply_error number
      | some at' ↦
          apply_from (suc number) (shifted delta hunk)
            (splice result at' (length hunk.old_lines) hunk.new_lines) hunks
    ]

unfoldable pub apply_hunks : List Text → List Hunk → Patched
unfolding apply_from
apply_hunks original hunks = apply_from 1 (record { ahead = 0; behind = 0 }) original hunks
