-- ===== src/Transition/History.antt =====
-- Lemmas on the events of `transition` in persistence/runs.py.
use patch_quest.Common.{
  ℕ, String, ◌≡◌, refl, ap, ◌&&◌, Option, none, some, List, [], ◌∷◌, arith, ◌==◌, All,
  if◌then◌else◌, nat_eq, string_eq,
}
use patch_quest.Run.{
  RunStatus, run_status_eq, created, queued, running, waiting_approval, cancel_requested,
  interrupted, completed, failed, cancelled, value,
}
use patch_quest.Db.{Env, Event, Store, ok}
use patch_quest.Db.Rows.{All-update_where, count_where-pos}
use patch_quest.Transition.{Change, Transition, is_at, change_entry, transition_seen}
use patch_quest.Transition.Laws.{moved, moved-Keeps, write_status-ok, transition_seen-ok}

-- The status that the newest change of run `i` recorded; a run without one is still `created`.
unfoldable pub recorded : ℕ → List Event → Option String
recorded i [] = some "created"
recorded i (e ∷ es) =
    let older = recorded i es in
    if e.run_id == i && e.type == "run_state_changed" then e.status else older

abbrev pub Agrees : Store → Type 0
Agrees s = All (λ r. recorded r.id s.events ≡ some (value r.status)) s.runs

-- `RunStatus(text)`
abbrev parse : String → Option RunStatus
parse t =
    if t == "created"
    then some created
    else if t == "queued"
    then some queued
    else if t == "running"
    then some running
    else if t == "waiting_approval"
    then some waiting_approval
    else if t == "cancel_requested"
    then some cancel_requested
    else if t == "interrupted"
    then some interrupted
    else if t == "completed"
    then some completed
    else if t == "failed"
    then some failed
    else if t == "cancelled"
    then some cancelled
    else none

parse-value : (s : RunStatus) → parse (value s) ≡ some s
parse-value created = refl
parse-value _ = refl

value-injective : (s t : RunStatus) → value s ≡ value t → s ≡ t
value-injective s t h = cc (parse-value s, parse-value t, ap parse h)

-- A status change, computed from any earlier reading of the tables, keeps the projection exact.
pub transition-Agrees :
    (env : Env) (i : ℕ) (target : RunStatus) (c : Change) (seen s : Store) (t : Transition)
    (s' : Store)
    → Agrees s
    → transition_seen env i target c seen s ≡ ok (t, s')
    → Agrees s'
unfolding recorded is_at change_entry
transition-Agrees env i target c seen s t s' agrees h =
    let (row, found, legal, wrote) = transition_seen-ok env i target c seen s h in
    let current = row.status in
    let (one, prev, rows, log, _, _, _) = write_status-ok env i current target c s wrote in
    let (q, at, was) =
      count_where-pos (λ r. recorded r.id s.events ≡ some (value r.status)) (is_at i current) s.runs
        agrees (omega (arith, one)) in
    let now : recorded i s.events ≡ some (value current) =
      ground (arith, at, was, run_status_eq.same_iff q.status current) in
    rw (rows, log)
      (All-update_where (λ r. recorded r.id s.events ≡ some (value r.status)) _ (is_at i current)
        (moved env current target c)
        (λ r hit old. ground (arith, moved-Keeps env current target c r))
        (λ r miss old.
          ground (arith, value-injective r.status current, run_status_eq.same_iff r.status current))
        s.runs agrees)
