-- ===== src/Examples/Writes.antt =====
-- Two files, one new and one overwritten whose lines end in "\r\n".
use patch_quest.Common.{
  ℕ, ◌≡◌, refl, sym, ap, ◌∙◌, ◌⊎◌, inl, inr, Bool, true, false, Option, none, some, List, [], ◌++◌,
  ◌∷◌, ◌==◌, select, first, any, All, contains, if◌then◌else◌, nat_eq, string_eq,
}
use patch_quest.Text.{Text, codes, text_beq, split, join, is_within, starts_with}
use patch_quest.Text.Equality.{text_eq}
use patch_quest.Atomic.{
  Files, put, Change, create_file, write_file, path_of, Outside, Entry, write_failed, PatchResult,
}
use patch_quest.Atomic.Plan.{
  plan, plan_change, change_entry, put_text, new_text, load, read_entry, entry_of, decode,
  find_entry, set_working,
}
use patch_quest.Patch.Parse.{unix_newlines}
use patch_quest.Atomic.Write.{
  write, bytes_of, with_newlines, and_then, write_all, snapshot_of, rollback, commit, save, store,
  check, apply_planned, apply_changes, is_changed, stale, all_findings, added_text, refused,
  accepted,
}
use patch_quest.Atomic.Confined.{Touched, apply_changes-Touched}
use patch_quest.Atomic.Unchanged.{apply_changes_unchanged}
use patch_quest.Atomic.Written.{Written, KeepsEnds, Separate, apply_changes-Written}

abbrev before : Files
before p = if text_beq p (codes "b") then some (codes "old" ++ 13 ∷ 10 ∷ []) else none

-- A disk on which the writes of these numbers fail, with texts as bytes.
abbrev disk : (ℕ → Bool) → Outside
disk fails = record {
  resolve = λ rel. some rel;
  is_irregular = λ p. false;
  decode = λ raw. some raw;
  encode = λ t. some t;
  sha256 = λ raw. raw;
  scan = λ t rel. [];
  write_fails = fails;
}

abbrev changes : List Change
changes =
    create_file (codes "a") (codes "one") ∷ write_file (codes "b") (codes "new" ++ 10 ∷ []) ∷ []

abbrev entry_a : Entry
entry_a = record {
  path = codes "a";
  original = none;
  old_text = none;
  working = some (codes "one");
  crlf = false;
}

abbrev entry_b : Entry
entry_b = record {
  path = codes "b";
  original = some (codes "old" ++ 13 ∷ 10 ∷ []);
  old_text = some (codes "old" ++ 10 ∷ []);
  working = some (codes "new" ++ 10 ∷ []);
  crlf = true;
}

abbrev fails_second : ℕ → Bool
fails_second k = k == 1

abbrev failed : PatchResult
failed = refused (write_failed ∷ []) [] (snapshot_of (entry_a ∷ entry_b ∷ []))

second_fails : (apply_changes (disk fails_second) changes [] false before).result ≡ some failed
unfolding apply_changes apply_planned plan plan_change change_entry put_text new_text load
    read_entry entry_of decode find_entry unix_newlines set_working path_of first check stale store
    all_findings added_text select save commit write_all and_then write bytes_of with_newlines
    rollback put text_beq contains any is_within starts_with split join
second_fails = refl

apply_changes_unchanged_example :
    (apply_changes (disk fails_second) changes [] false before).files (codes "a")
    ≡ before (codes "a")
apply_changes_unchanged_example =
    apply_changes_unchanged (disk fails_second) before changes [] false failed (codes "a")
      second_fails refl

apply_changes-Touched_example :
    ((apply_changes (disk fails_second) changes [] false before).files (codes "c")
      ≡ before (codes "c"))
    ⊎ Touched (disk fails_second) changes before (codes "c")
apply_changes-Touched_example =
    apply_changes-Touched (disk fails_second) changes before [] false (codes "c")

abbrev never : ℕ → Bool
never k = false

abbrev done : PatchResult
done = accepted (entry_a ∷ entry_b ∷ []) (snapshot_of (entry_a ∷ entry_b ∷ []))

both_planned : plan (disk never) before changes [] ≡ some (entry_a ∷ entry_b ∷ [])
unfolding plan plan_change change_entry put_text new_text load read_entry entry_of decode find_entry
    unix_newlines set_working path_of first text_beq any is_within starts_with
both_planned = refl

succeeds : (apply_changes (disk never) changes [] false before).result ≡ some done
unfolding apply_changes apply_planned plan plan_change change_entry put_text new_text load
    read_entry entry_of decode find_entry unix_newlines set_working path_of first check stale store
    all_findings added_text select save commit write_all and_then write bytes_of with_newlines
    rollback put text_beq contains any is_within starts_with split join
succeeds = refl

abbrev is_a : Option Text → Bool
unfolding text_beq
is_a none = false
is_a (some t) = text_beq t (codes "a")

apart : Separate (disk never) (select is_changed (entry_a ∷ entry_b ∷ []))
unfolding select text_beq
apart = (two_files, (λ p r t. t, tt))
  where
    two_files : (p : Text) → some (codes "a") ≡ some p → ¬ ((some (codes "b") ≡ some p) ⊎ ⊥)
    two_files p r (inl s) =
        let e : some (codes "a") ≡ some (codes "b") = r ∙ sym s in
        let f : true ≡ false = ap is_a e in cc f
    two_files p r (inr t) = t

apply_changes-Written_example :
    All
      (Written (disk never) (apply_changes (disk never) changes [] false before).files)
      (select is_changed (entry_a ∷ entry_b ∷ []))
    × All (KeepsEnds (disk never) before) (select is_changed (entry_a ∷ entry_b ∷ []))
apply_changes-Written_example =
    apply_changes-Written (disk never) changes [] before (entry_a ∷ entry_b ∷ []) done both_planned
      apart succeeds refl
