-- ===== src/Transition.antt =====
-- backend/patchquest/persistence/runs.py: the one writer of `runs.status`.
pub mod Laws
pub mod History
use patch_quest.Common.{
  ℕ, String, Bool, ◌&&◌, ◌||◌, Option, none, some, List, [], ◌∷◌, ◌==◌, if◌then◌else◌, nat_eq,
  string_eq,
}
use patch_quest.Run.{RunStatus, run_status_eq, interrupted, value, terminal, can_transition}
use patch_quest.Db.{
  Env, RunRow, Payload, status_change, Store, Error, lookup_error, illegal_transition,
  stale_transition, Result, ok, err, Tx, update_where, count_where, find_run,
}
use patch_quest.Ledger.{Entry, entry, append}

-- `fields`: column name and value, in the order of the dict.
abbrev pub Fields : Type 0
Fields = List (String × Option String)

-- The keyword arguments of `transition`.
pub record Change : Type 0 where
  pub actor : String
  pub reason : String
  pub attempt : ℕ
  pub correlation_id : Option String
  pub causation_id : Option String
  pub fields : Fields

abbrev pub change : String → String → ℕ → Change
change actor reason attempt = record {
  actor = actor;
  reason = reason;
  attempt = attempt;
  correlation_id = none;
  causation_id = none;
  fields = [];
}

pub record Transition : Type 0 where
  pub previous : RunStatus
  pub event_id : ℕ
  pub event_uid : ℕ

-- A column of `_SETTABLE` is set; any other name is left out.
unfoldable pub set_column : RunRow → String × Option String → RunRow
set_column r (k, v) =
    if k == "outcome"
    then record r { outcome = v }
    else if k == "verdict"
    then record r { verdict = v }
    else if k == "current_phase"
    then record r { current_phase = v }
    else if k == "failure_kind"
    then record r { failure_kind = v }
    else r

unfoldable pub set_columns : Fields → RunRow → RunRow
unfolding set_column
set_columns [] r = r
set_columns (f ∷ fs) r = set_columns fs (set_column r f)

-- `completed_at`: stamped where the run ends or is interrupted, cleared where it is resumed.
unfoldable pub completion : Env → RunStatus → RunStatus → Option ℕ → Option ℕ
unfolding terminal
completion env current target old =
    if terminal target || target == interrupted
    then some env.now
    else if current == interrupted
    then none
    else old

abbrev pub move : Env → RunStatus → RunStatus → RunRow → RunRow
move env current target r = record r {
  status = target;
  updated_at = env.now;
  completed_at = completion env current target r.completed_at;
}

unfoldable pub is_at : ℕ → RunStatus → RunRow → Bool
is_at i current r = r.id == i && r.status == current

unfoldable pub change_entry : RunStatus → RunStatus → Change → Entry
change_entry current target c = record entry {
  status = some (value target);
  message = some c.reason;
  payload = some (status_change current target);
  actor = c.actor;
  attempt = c.attempt;
  correlation_id = c.correlation_id;
  causation_id = c.causation_id;
}

-- The compare-and-set and the event, on the tables as they are when the UPDATE runs.
unfoldable pub write_status :
    Env → ℕ → RunStatus → RunStatus → Change → Store → Result (Transition × Store)
unfolding is_at change_entry count_where update_where append set_columns completion
write_status env i current target c s =
    let rows =
      update_where (is_at i current) (λ r. set_columns c.fields (move env current target r))
        s.runs in
    let (cursor, t) =
      append env i "run_state_changed" (change_entry current target c) (record s { runs = rows }) in
    if count_where (is_at i current) s.runs == 1
    then ok (record { previous = current; event_id = cursor.0; event_uid = cursor.1 }, t)
    else err stale_transition

-- `seen` are the tables at the SELECT, the last argument those at the UPDATE.
unfoldable pub transition_seen :
    Env → ℕ → RunStatus → Change → Store → Store → Result (Transition × Store)
unfolding find_run can_transition write_status
transition_seen env i target c seen s = elim (find_run i seen.runs) [
  | none ↦ err lookup_error
  | some row ↦
      if can_transition row.status target
      then write_status env i row.status target c s
      else err illegal_transition
]

-- With no other writer between the two.
unfoldable pub transition : Env → ℕ → RunStatus → Change → Tx Transition
unfolding transition_seen
transition env i target c s = transition_seen env i target c s s
