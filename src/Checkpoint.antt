-- ===== src/Checkpoint.antt =====
-- backend/patchquest/persistence/checkpoints.py: rows with a checksum, and the newest one that verifies.
pub mod Newest
pub mod Saved
use patch_quest.Common.{
  ℕ, zero, suc, ◌+◌, ◌-◌, ◌*◌, max, not, ◌&&◌, Option, none, some, List, [], ◌∷◌, ◌++◌, ltb, ◌==◌,
  length, select, first, if◌then◌else◌, nat_eq, string_eq,
}
use patch_quest.Text.{Text, text_beq}
use patch_quest.Value.{Value}

abbrev pub checkpoint_schema_version : ℕ
checkpoint_schema_version = 1

abbrev pub max_checkpoint_bytes : ℕ
max_checkpoint_bytes = 16 * 1024 * 1024

-- `UPGRADERS` has none yet.
unfoldable pub upgraders : ℕ → Option (Value → Value)
upgraders version = none

pub data CheckpointError : Type 0 where
  content_missing checksum_mismatch too_new unreadable_content no_upgrade_path too_large :
      CheckpointError

pub record Checkpoint : Type 0 where
  pub id : ℕ
  pub run_id : ℕ
  pub seq : ℕ
  pub schema_version : ℕ
  pub runtime_version : Text
  pub phase : Text
  pub event_cursor : ℕ
  pub attempt : ℕ
  pub created_at : ℕ
  pub state : Value
  pub fingerprint : Value

-- A row of `checkpoints`; its contents are none where they are no texts.
pub record Row : Type 0 where
  pub id : ℕ
  pub run_id : ℕ
  pub seq : ℕ
  pub schema_version : ℕ
  pub runtime_version : Text
  pub phase : Text
  pub event_cursor : ℕ
  pub attempt : ℕ
  pub state_json : Option Text
  pub fingerprint_json : Option Text
  pub checksum : Text
  pub created_at : ℕ

-- The first list that `_checksum` writes.
pub record Head : Type 0 where
  pub run_id : ℕ
  pub seq : ℕ
  pub schema_version : ℕ
  pub phase : Text
  pub event_cursor : ℕ
  pub attempt : ℕ

-- The `json` library, none where it raises, and `hashlib`, with the text of a head.
pub record Outside : Type 0 where
  pub dumps : Value → Text
  pub loads : Text → Option Value
  pub head_text : Head → Text
  pub sha256 : Text → Text

unfoldable pub checksum : Outside → Head → Text → Text → Text
checksum outside head state_json fingerprint_json =
    outside.sha256 (outside.head_text head ++ 0 ∷ (state_json ++ 0 ∷ (fingerprint_json ++ 0 ∷ [])))

-- `SELECT COALESCE(MAX(seq), 0)`
unfoldable pub last_seq : ℕ → List Row → ℕ
last_seq run [] = 0
last_seq run (r ∷ rs) =
    let rest = last_seq run rs in if r.run_id == run then max r.seq rest else rest

-- What `save` is given.
pub record Taken : Type 0 where
  pub run_id : ℕ
  pub phase : Text
  pub state : Value
  pub fingerprint : Value
  pub event_cursor : ℕ
  pub attempt : ℕ
  pub runtime_version : Text

abbrev pub checkpoint_of : ℕ → ℕ → ℕ → Taken → Checkpoint
checkpoint_of id created seq t = record {
  id = id;
  run_id = t.run_id;
  seq = seq;
  schema_version = checkpoint_schema_version;
  runtime_version = t.runtime_version;
  phase = t.phase;
  event_cursor = t.event_cursor;
  attempt = t.attempt;
  created_at = created;
  state = t.state;
  fingerprint = t.fingerprint;
}

abbrev pub row_of : Outside → ℕ → ℕ → ℕ → Taken → Row
unfolding checksum
row_of outside id created seq t = record {
  id = id;
  run_id = t.run_id;
  seq = seq;
  schema_version = checkpoint_schema_version;
  runtime_version = t.runtime_version;
  phase = t.phase;
  event_cursor = t.event_cursor;
  attempt = t.attempt;
  state_json = some (outside.dumps t.state);
  fingerprint_json = some (outside.dumps t.fingerprint);
  checksum =
      checksum outside
        (record {
          run_id = t.run_id;
          seq = seq;
          schema_version = checkpoint_schema_version;
          phase = t.phase;
          event_cursor = t.event_cursor;
          attempt = t.attempt;
        })
        (outside.dumps t.state) (outside.dumps t.fingerprint);
  created_at = created;
}

-- `save`, none where it raises CheckpointTooLarge; `id` and `created` are the uuid and the clock.
unfoldable pub save : Outside → ℕ → ℕ → Taken → List Row → Option (Checkpoint × List Row)
unfolding checksum last_seq
save outside id created t rows =
    let seq = last_seq t.run_id rows + 1 in
    if ltb max_checkpoint_bytes (length (outside.dumps t.state))
    then none
    else some (checkpoint_of id created seq t, rows ++ row_of outside id created seq t ∷ [])

pub data Decoded : Type 0 where
  valid : Checkpoint → Decoded
  invalid : CheckpointError → Decoded

-- `while version < CHECKPOINT_SCHEMA_VERSION`, as often as versions are left.
unfoldable pub upgrade : ℕ → ℕ → Value → Option (Value × ℕ)
unfolding upgraders
upgrade zero version state = some (state, version)
upgrade (suc left) version state = elim (upgraders version) [
  | none ↦ none
  | some up ↦ upgrade left (suc version) (up state)
]

unfoldable pub upgraded : Row → Value → Option (Value × ℕ) → Decoded
upgraded r fingerprint none = invalid no_upgrade_path
upgraded r fingerprint (some (state, version)) = valid (record {
  id = r.id;
  run_id = r.run_id;
  seq = r.seq;
  schema_version = version;
  runtime_version = r.runtime_version;
  phase = r.phase;
  event_cursor = r.event_cursor;
  attempt = r.attempt;
  created_at = r.created_at;
  state = state;
  fingerprint = fingerprint;
})

unfoldable pub parsed : Row → Option Value → Option Value → Decoded
unfolding upgrade upgraded
parsed r (some state) (some fingerprint) =
    upgraded r fingerprint
      (upgrade (checkpoint_schema_version - r.schema_version) r.schema_version state)
parsed r none fingerprint = invalid unreadable_content
parsed r (some state) none = invalid unreadable_content

abbrev pub head_of : Row → Head
head_of r = record {
  run_id = r.run_id;
  seq = r.seq;
  schema_version = r.schema_version;
  phase = r.phase;
  event_cursor = r.event_cursor;
  attempt = r.attempt;
}

unfoldable pub verified : Outside → Row → Option Text → Option Text → Decoded
unfolding checksum text_beq parsed
verified outside r none fingerprint = invalid content_missing
verified outside r (some state) none = invalid content_missing
verified outside r (some state) (some fingerprint) =
    if not (text_beq (checksum outside (head_of r) state fingerprint) r.checksum)
    then invalid checksum_mismatch
    else if ltb checkpoint_schema_version r.schema_version
    then invalid too_new
    else parsed r (outside.loads state) (outside.loads fingerprint)

unfoldable pub decode : Outside → Row → Decoded
unfolding verified
decode outside r = verified outside r r.state_json r.fingerprint_json

-- `ORDER BY seq DESC`
unfoldable pub insert_desc : Row → List Row → List Row
insert_desc r [] = r ∷ []
insert_desc r (s ∷ ss) =
    let rest = insert_desc r ss in if ltb r.seq s.seq then s ∷ rest else r ∷ s ∷ ss

unfoldable pub newest_first : List Row → List Row
unfolding insert_desc
newest_first [] = []
newest_first (r ∷ rs) = insert_desc r (newest_first rs)

abbrev pub Found : Type 0
Found = Option Checkpoint × List CheckpointError

-- A row that verifies ends the loop; another leaves its problem.
unfoldable pub or_next : Decoded → Found → Found
or_next (valid cp) rest = (some cp, [])
or_next (invalid e) (found, problems) = (found, e ∷ problems)

unfoldable pub first_valid : Outside → List Row → Found
unfolding decode or_next
first_valid outside [] = (none, [])
first_valid outside (r ∷ rs) = or_next (decode outside r) (first_valid outside rs)

abbrev pub of_run : ℕ → List Row → List Row
unfolding select
of_run run rows = select (λ r. r.run_id == run) rows

unfoldable pub latest_valid : Outside → ℕ → List Row → Found
unfolding first_valid newest_first select
latest_valid outside run rows = first_valid outside (newest_first (of_run run rows))

-- `get`: the row of a number, none where there is none.
unfoldable pub get_row : ℕ → ℕ → List Row → Option Row
unfolding first
get_row run seq rows = first (λ r. r.run_id == run && r.seq == seq) rows

-- `get`, none where it raises LookupError.
unfoldable pub load_checkpoint : Outside → ℕ → ℕ → List Row → Option Decoded
unfolding get_row decode
load_checkpoint outside run seq rows = elim (get_row run seq rows) [
  | none ↦ none
  | some r ↦ some (decode outside r)
]
