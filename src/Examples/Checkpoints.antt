-- ===== src/Examples/Checkpoints.antt =====
-- A run that saves its second checkpoint.
use patch_quest.Common.{◌≡◌, refl, some, List, [], ◌∷◌, ◌++◌}
use patch_quest.Text.{Text, codes}
use patch_quest.Value.{null}
use patch_quest.Checkpoint.{
  Row, Outside, Taken, checksum, row_of, checkpoint_of, save, last_seq, of_run, latest_valid,
}
use patch_quest.Checkpoint.Newest.{Latest, latest_valid-Latest}
use patch_quest.Checkpoint.Saved.{latest_valid-save}

-- Every value is null, and a text is its own hash.

abbrev plain : Outside
plain = record {
  dumps = λ v. codes "null";
  loads = λ t. some null;
  head_text = λ h. h.seq ∷ [];
  sha256 = λ t. t;
}

abbrev taken : Text → Taken
taken phase = record {
  run_id = 7;
  phase = phase;
  state = null;
  fingerprint = null;
  event_cursor = 3;
  attempt = 1;
  runtime_version = codes "1";
}

abbrev planned : List Row
planned = row_of plain 1 100 1 (taken (codes "plan")) ∷ []

abbrev both_saved : List Row
both_saved = planned ++ row_of plain 2 200 2 (taken (codes "edit")) ∷ []

saves :
    save plain 2 200 (taken (codes "edit")) planned
    ≡ some (checkpoint_of 2 200 2 (taken (codes "edit")), both_saved)
unfolding save last_seq checksum
saves = refl

latest_valid-save_example :
    latest_valid plain 7 both_saved ≡ (some (checkpoint_of 2 200 2 (taken (codes "edit"))), [])
latest_valid-save_example =
    latest_valid-save plain (taken (codes "edit")) 2 200 planned both_saved
      (checkpoint_of 2 200 2 (taken (codes "edit"))) refl refl saves

latest_valid-Latest_example : Latest plain (of_run 7 both_saved) (latest_valid plain 7 both_saved).0
latest_valid-Latest_example = latest_valid-Latest plain 7 both_saved
