-- ===== src/Ledger.antt =====
-- backend/patchquest/persistence/ledger.py: the append-only history of every run.
use patch_quest.Common.{
  ℕ, ◌+◌, String, true, false, ◌&&◌, Option, none, List, ◌∷◌, reverse, ltb, ◌==◌, take, select,
  nat_eq, string_eq,
}
use patch_quest.Db.{Env, Event, Payload, Store, update_where}

-- The keyword arguments of `append`.
pub record Entry : Type 0 where
  pub phase : Option String
  pub status : Option String
  pub message : Option String
  pub payload : Option Payload
  pub actor : String
  pub attempt : ℕ
  pub correlation_id : Option String
  pub causation_id : Option String

-- Their defaults.
abbrev pub entry : Entry
entry = record {
  phase = none;
  status = none;
  message = none;
  payload = none;
  actor = "runtime";
  attempt = 1;
  correlation_id = none;
  causation_id = none;
}

abbrev pub event_schema_version : ℕ
event_schema_version = 1

abbrev pub event_of : Env → ℕ → ℕ → String → Entry → Event
event_of env id run_id type e = record {
  id = id;
  run_id = run_id;
  type = type;
  phase = e.phase;
  status = e.status;
  message = e.message;
  payload = e.payload;
  created_at = env.now;
  event_uid = env.uid;
  schema_version = event_schema_version;
  actor = e.actor;
  attempt = e.attempt;
  correlation_id = e.correlation_id;
  causation_id = e.causation_id;
  redacted = false;
}

-- Returns the cursor and the uid of the new event.
unfoldable pub append : Env → ℕ → String → Entry → Store → (ℕ × ℕ) × Store
append env run_id type e s =
    let id = s.event_seq + 1 in
    ((id, env.uid), record s { events = event_of env id run_id type e ∷ s.events; event_seq = id })

unfoldable pub redact : ℕ → Store → Store
unfolding update_where
redact event_id s = record s {
  events =
      update_where (λ e. e.id == event_id)
        (λ e. record e { payload = none; message = none; redacted = true }) s.events;
}

-- Oldest first, after a cursor, at most `limit` events.
unfoldable pub read : ℕ → ℕ → ℕ → Store → List Event
unfolding select
read run_id after limit s =
    take limit (reverse (select (λ e. e.run_id == run_id && ltb after e.id) s.events))
