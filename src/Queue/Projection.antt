-- ===== src/Queue/Projection.antt =====
-- Lemmas on `runs.status` and the ledger under the operations of Queue.Ops.
use patch_quest.Common.{
  ℕ, ◌+◌, String, ◌≡◌, refl, Bool, true, Option, none, some, List, [], ◌∷◌, arith, ◌==◌, All,
  nat_eq, string_eq,
}
use patch_quest.Run.{RunStatus, run_status_eq, value, running}
use patch_quest.Db.{Env, RunRow, Event, Store, ok, Fence, update_where}
use patch_quest.Db.Rows.{All-update_where, All-map}
use patch_quest.Db.Keeps.{Keeps}
use patch_quest.Ledger.{append, redact}
use patch_quest.Transition.{Change, transition}
use patch_quest.Transition.History.{recorded, Agrees, transition-Agrees}
use patch_quest.Queue.{
  Claim, update_runs, is_run, next_queued, leased, start_run, log_interrupted, expire_pending,
}
use patch_quest.Queue.Claims.{start_change, start_run-ok}
use patch_quest.Queue.Ops.{Op, after}
use patch_quest.Queue.Invariant.{Benign, IsInvariant, after-Keeps}

-- The ledger `es` tells the status of a row.
abbrev Told : List Event → RunRow → Type 0
Told es r = recorded r.id es ≡ some (value r.status)

update-Told :
    (es : List Event) (p : RunRow → Bool) (f : RunRow → RunRow)
    → ((r : RunRow) → (f r).id ≡ r.id)
    → ((r : RunRow) → (f r).status ≡ r.status)
    → (rs : List RunRow) → All (Told es) rs
    → All (Told es) (update_where p f rs)
update-Told es p f same_id same_status rs told =
    All-update_where (Told es) (Told es) p f (λ r _ old. rw (same_id r, same_status r) old)
      (λ r _ old. old) rs told

transition-Keeps :
    (env : Env) (i : ℕ) (target : RunStatus) (c : Change) → Keeps Agrees (transition env i target c)
unfolding transition
transition-Keeps env i target c = record {
  at = λ s t s' agrees h. transition-Agrees env i target c s s t s' agrees h;
}

updates-Keeps :
    (p : RunRow → Bool) (f : RunRow → RunRow) → Benign f → Keeps Agrees (update_runs p f)
unfolding update_runs
updates-Keeps p f benign = record {
  at = λ s t s' agrees h.
      let rows : update_where p f s.runs ≡ s'.runs = ground arith in
      let log : s.events ≡ s'.events = ground arith in
      rw (← rows, ← log) (update-Told s.events p f benign.id benign.status s.runs agrees);
}

starts-Keeps :
    (env : Env) (worker : String) (lease_s : ℕ) (s : Store) (row : RunRow) (c : Option Claim)
    (t : Store)
    → Agrees s
    → next_queued s ≡ some row
    → start_run env worker lease_s row s ≡ ok (c, t)
    → Agrees t
starts-Keeps env worker lease_s s row c t agrees next h =
    let started = start_run-ok env worker lease_s s row c t h in
    let between =
      (transition-Keeps env row.id running (start_change worker row)).at s _ _ agrees
        started.changed in
    rw (started.rows, started.events)
      (update-Told started.between.events (is_run row.id)
        (leased worker (env.now + lease_s) (row.lease_epoch + 1)) (λ r. refl) (λ r. refl)
        started.between.runs between)

-- Another kind of event says nothing about the status.
logs-Keeps : (env : Env) (dead : RunRow) → Keeps Agrees (log_interrupted env dead)
unfolding log_interrupted append recorded
logs-Keeps env dead = record {
  at = λ s t s' agrees h.
      let rows : s.runs ≡ s'.runs = ground arith in
      rw (← rows) (All-map (Told s.events) (Told s'.events) (λ r told. ground arith) s.runs agrees);
}

expires-Keeps : (env : Env) (i : ℕ) → Keeps Agrees (expire_pending env i)
unfolding expire_pending
expires-Keeps env i = record {
  at = λ s t s' agrees h.
      let rows : s.runs ≡ s'.runs = ground arith in
      let log : s.events ≡ s'.events = ground arith in rw (← rows, ← log) agrees;
}

-- A redacted event keeps its run, its type and its status.
recorded-redact :
    (i event_id : ℕ) (es : List Event)
    → recorded i (
        update_where
          (λ e. e.id == event_id)
          (λ e. record e { payload = none; message = none; redacted = true })
          es)
      ≡ recorded i es
unfolding recorded update_where
recorded-redact i event_id [] = refl
recorded-redact i event_id (e ∷ es) = ground (arith, recorded-redact i event_id es)

redacts-Keeps : (event_id : ℕ) (s : Store) → Agrees s → Agrees (redact event_id s)
unfolding redact
redacts-Keeps event_id s agrees =
    All-map (Told s.events) (Told (redact event_id s).events)
      (λ r told. rw (recorded-redact r.id event_id s.events) told) s.runs agrees

Agrees-IsInvariant : IsInvariant Agrees
Agrees-IsInvariant = record {
  moves = transition-Keeps;
  updates = updates-Keeps;
  starts = starts-Keeps;
  logs = logs-Keeps;
  expires = expires-Keeps;
  redacts = redacts-Keeps;
}

-- Where the newest change in the ledger of each run gives the status in its row, it still does after any
-- history of status changes by `transition`, queue operations and redactions, fenced or refused.
pub ledger_tells_status :
    (history : List (Option Fence × Op)) (s : Store) → Agrees s → Agrees (after history s)
ledger_tells_status history s agrees = after-Keeps Agrees-IsInvariant history s agrees
