-- ===== src/Patch/Ends.antt =====
-- Lemmas on the loops of `parse_unified_diff` in patching/unified.py.
use patch_quest.Common.{
  ℕ, zero, suc, ◌≤◌, ◌≡◌, inl, inr, true, ◌||◌, Option, none, some, List, [], ◌∷◌, arith,
  Bool-cases, if_both, length, if◌then◌else◌,
}
use patch_quest.Text.{Text, codes, starts_with, split}
use patch_quest.Patch.{Hunk}
use patch_quest.Patch.Parse.{
  FilePatch, is_file_header, ends_hunk, read_line, read_hunk, empty_hunk, begin_hunk, read_hunks,
  with_file, after_hunks, read_file, read_files, drop_blank_end, unix_newlines, parse_unified_diff,
}

read_hunk_shorter :
    (lines : List Text) (hunk : Hunk) → length (read_hunk lines hunk).1 ≤ length lines
unfolding read_hunk
read_hunk_shorter [] hunk = omega arith
read_hunk_shorter (line ∷ lines) hunk =
    by_line (if ends_hunk line lines then none else read_line line hunk) (read_hunk_shorter lines)
  where
    by_line :
        (o : Option Hunk)
        → ((h : Hunk) → length (read_hunk lines h).1 ≤ length lines)
        → length
            (elim o as (λ _. Hunk × List Text) [
              | none ↦ (hunk, line ∷ lines)
              | some longer ↦ read_hunk lines longer
            ]).1
          ≤ suc (length lines)
    by_line none ih = omega arith
    by_line (some longer) ih = omega (arith, ih longer)

module _ (header : Text → Option ℕ) where
  begin_hunk_shorter :
      (o : Option ℕ) (lines : List Text) (hunks : List Hunk)
      → length (begin_hunk header o lines hunks).1 ≤ length lines
  unfolding begin_hunk
  begin_hunk_shorter none lines hunks = omega arith
  begin_hunk_shorter (some old_start) lines hunks = read_hunk_shorter lines (empty_hunk old_start)

  -- The loop ends, and leaves no more lines than there were.
  abbrev Leaves : ℕ → Option (List Hunk × List Text) → Type 0
  Leaves n none = ⊥
  Leaves n (some (hunks, rest)) = length rest ≤ n

  Leaves-weaken : (m n : ℕ) (o : Option (List Hunk × List Text)) → m ≤ n → Leaves m o → Leaves n o
  Leaves-weaken m n none le l = l
  Leaves-weaken m n (some (hunks, rest)) le l = omega (arith, le, l)

  read_hunks-Leaves :
      (fuel : ℕ) (lines : List Text) (hunks : List Hunk)
      → length lines ≤ fuel
      → Leaves (length lines) (read_hunks header fuel lines hunks)
  unfolding read_hunks
  read_hunks-Leaves fuel [] hunks enough = omega arith
  read_hunks-Leaves zero (line ∷ lines) hunks enough = absurd (omega (arith, enough))
  read_hunks-Leaves (suc fuel) (line ∷ lines) hunks enough =
      let next = begin_hunk header (header line) lines hunks in
      let short = begin_hunk_shorter (header line) lines hunks in
      let ih = read_hunks-Leaves fuel next.1 next.0 (omega (arith, short, enough)) in
      if_both (Leaves (suc (length lines)))
        (is_file_header line lines || starts_with (codes "diff ") line) (omega arith)
        (Leaves-weaken (length next.1) (suc (length lines)) _ (omega (arith, short)) ih)

  abbrev Ends : Option (List FilePatch) → Type 0
  Ends none = ⊥
  Ends (some patches) = Unit

  with_file-Ends :
      (p : FilePatch) (o : Option (List FilePatch)) → Ends o → Ends (with_file header p o)
  with_file-Ends p none e = e
  with_file-Ends p (some patches) e = tt

  after_hunks-Ends :
      (go : List Text → Option (List FilePatch)) (n : ℕ) (old new : Option Text)
      (o : Option (List Hunk × List Text))
      → ((rest : List Text) → length rest ≤ n → Ends (go rest))
      → Leaves n o
      → Ends (after_hunks header go old new o)
  after_hunks-Ends go n old new none ih l = l
  after_hunks-Ends go n old new (some (hunks, rest)) ih l = with_file-Ends _ (go rest) (ih rest l)

  read_file-Ends :
      (go : List Text → Option (List FilePatch)) (line : Text) (lines : List Text)
      → is_file_header line lines ≡ true
      → ((rest : List Text) → length rest ≤ length lines → Ends (go rest))
      → Ends (read_file header go line lines)
  unfolding read_file is_file_header
  read_file-Ends go line [] h ih = absurd (cc h)
  read_file-Ends go line (next ∷ lines) h ih =
      after_hunks-Ends go (length lines) _ _ (read_hunks header (length lines) lines [])
        (λ rest le. ih rest (omega (arith, le)))
        (read_hunks-Leaves (length lines) lines [] (omega arith))

  read_files-Ends :
      (fuel : ℕ) (lines : List Text) → length lines ≤ fuel → Ends (read_files header fuel lines)
  unfolding read_files
  read_files-Ends fuel [] enough = tt
  read_files-Ends zero (line ∷ lines) enough = absurd (omega (arith, enough))
  read_files-Ends (suc fuel) (line ∷ lines) enough = elim (Bool-cases (is_file_header line lines)) [
    | inr n ↦ rw (read_files, n) (read_files-Ends fuel lines (omega (arith, enough)))
    | inl y ↦
        rw (read_files, y)
          (read_file-Ends (λ rest. read_files header fuel rest) line lines y
            (λ rest le. read_files-Ends fuel rest (omega (arith, le, enough))))
  ]

  -- Every text is parsed: the fuel of the loops is never spent.
  pub parse_unified_diff-Ends : (text : Text) → Ends (parse_unified_diff header text)
  unfolding parse_unified_diff
  parse_unified_diff-Ends text =
      let lines = drop_blank_end (split 10 (unix_newlines text)) in
      read_files-Ends (length lines) lines (omega arith)
