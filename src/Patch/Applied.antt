-- ===== src/Patch/Applied.antt =====
-- Lemmas on `apply_hunks` of patching/unified.py.
use patch_quest.Common.{
  ℕ, suc, ◌+◌, ◌≤◌, ◌≡◌, refl, inl, inr, true, some, List, [], ◌∷◌, ◌++◌, arith, Option-cases,
  length, take, drop, length-append, length-take, length-drop, subst,
}
use patch_quest.Text.Equality.{text_beq-eq, text_beq_refl}
use patch_quest.Text.{Text, text_beq, rstrip}
use patch_quest.Patch.{
  Place, Hunk, agrees, norm_equal, splice, hint_for, shifted, find_block, apply_from, apply_hunks,
  patched,
}
use patch_quest.Patch.Found.{Searched, find_block-Searched}

-- The hunks replaced, one after the other, blocks of lines that stood there but for trailing
-- whitespace, and changed nothing else.

pub data Replaces : List Hunk → List Text → List Text → Type 0 where
  finished : {lines : List Text} → Replaces [] lines lines
  replaced :
      {hunk : Hunk} {hunks : List Hunk} {lines after : List Text}
      → (at' : ℕ) → at' + length hunk.old_lines ≤ length lines
      → agrees norm_equal (drop at' lines) hunk.old_lines ≡ true
      → Replaces hunks (splice lines at' (length hunk.old_lines) hunk.new_lines) after
      → Replaces (hunk ∷ hunks) lines after

same-norm_equal : (s t : Text) → text_beq s t ≡ true → norm_equal s t ≡ true
unfolding norm_equal
same-norm_equal s t h =
    subst (λ w. text_beq (rstrip s) (rstrip w) ≡ true) (text_beq-eq s t h)
      (text_beq_refl (rstrip s))

agrees_loosely :
    (lines block : List Text)
    → agrees text_beq lines block ≡ true
    → agrees norm_equal lines block ≡ true
unfolding agrees
agrees_loosely lines [] h = refl
agrees_loosely [] (b ∷ block) h = absurd (cc h)
agrees_loosely (l ∷ lines) (b ∷ block) h =
    let ih : agrees text_beq lines block ≡ true → agrees norm_equal lines block ≡ true =
      agrees_loosely lines block in
    let first' : text_beq l b ≡ true → norm_equal l b ≡ true = same-norm_equal l b in ground arith

-- A place at which `find_block` says that a block stands.
found_stands :
    (lines block : List Text) (hint : Place) (c : ℕ)
    → find_block lines block hint ≡ some c
    → (c + length block ≤ length lines) × (agrees norm_equal (drop c lines) block ≡ true)
found_stands lines [] hint c h = unfold find_block agrees in (ground arith, refl)
found_stands lines (b ∷ block) hint c h =
    elim (subst (Searched lines (b ∷ block) hint) h (find_block-Searched lines b block hint)) [
      | inl f ↦ (f.fits, agrees_loosely (drop c lines) (b ∷ block) f.stands)
      | inr (m, f) ↦ (f.fits, f.stands)
    ]

apply_from-Replaces :
    (number : ℕ) (delta : Place) (lines : List Text) (hunks : List Hunk) (after : List Text)
    → apply_from number delta lines hunks ≡ patched after
    → Replaces hunks lines after
unfolding apply_from
apply_from-Replaces number delta lines [] after h =
    let same' : lines ≡ after = ground arith in subst (Replaces [] lines) same' finished
apply_from-Replaces number delta lines (hunk ∷ hunks) after h =
    elim (Option-cases (find_block lines hunk.old_lines (hint_for delta hunk))) [
      | inl missing ↦ absurd (cc (rw (apply_from, missing) at h))
      | inr (c, found) ↦
          let (fits, stands) = found_stands lines hunk.old_lines (hint_for delta hunk) c found in
          replaced c fits stands (
            apply_from-Replaces (suc number) (shifted delta hunk)
              (splice lines c (length hunk.old_lines) hunk.new_lines) hunks after
              (rw (apply_from, found) at h))
    ]

-- When hunks are applied, each replaced a block of lines that stood in the file, but for trailing
-- whitespace, by its new lines, one hunk after the other, and no other line changed.
pub apply_hunks-Replaces :
    (original : List Text) (hunks : List Hunk) (after : List Text)
    → apply_hunks original hunks ≡ patched after
    → Replaces hunks original after
unfolding apply_hunks
apply_hunks-Replaces original hunks after h =
    apply_from-Replaces 1 (record { ahead = 0; behind = 0 }) original hunks after h

abbrev pub removed : List Hunk → ℕ
removed [] = 0
removed (h ∷ hs) = length h.old_lines + removed hs

abbrev pub added : List Hunk → ℕ
added [] = 0
added (h ∷ hs) = length h.new_lines + added hs

splice-length :
    (lines : List Text) (c n : ℕ) (new : List Text)
    → c + n ≤ length lines
    → length (splice lines c n new) + n ≡ length lines + length new
splice-length lines c n new fits = omega (
  arith,
  length-append (take c lines) (new ++ drop (c + n) lines),
  length-append new (drop (c + n) lines),
  length-take c lines (omega arith),
  length-drop (c + n) lines,
)

Replaces-length :
    {hunks : List Hunk} {lines after : List Text}
    → Replaces hunks lines after
    → length after + removed hunks ≡ length lines + added hunks
Replaces-length finished = omega arith
Replaces-length
      (replaced {hunk = hunk} {hunks = hunks} {lines = lines} {after = after} c fits stands rest) =
    omega (
      arith,
      Replaces-length rest,
      splice-length lines c (length hunk.old_lines) hunk.new_lines fits,
    )

-- When hunks are applied, the file has as many lines more than before as the hunks add more than they
-- remove.
pub apply_hunks-length :
    (original : List Text) (hunks : List Hunk) (after : List Text)
    → apply_hunks original hunks ≡ patched after
    → length after + removed hunks ≡ length original + added hunks
apply_hunks-length original hunks after h =
    Replaces-length (apply_hunks-Replaces original hunks after h)
