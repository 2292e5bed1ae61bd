-- ===== src/Transition/Laws.antt =====
-- Lemmas on one call of `transition` in persistence/runs.py.
use patch_quest.Common.{ℕ, ◌+◌, String, ◌≡◌, ◌≢◌, true, false, Option, some, [], ◌∷◌, arith, All}
use patch_quest.Run.{RunStatus, run_status_eq, can_transition}
use patch_quest.Db.{
  Env, RunRow, Store, stale_transition, ok, err, update_where, count_where, find_run,
}
use patch_quest.Db.Rows.{All-map, count_where_none, find_run-update_where, find_run-id}
use patch_quest.Ledger.{append, event_of}
use patch_quest.Transition.{
  Fields, Change, Transition, set_column, set_columns, move, is_at, change_entry, write_status,
  transition_seen, transition,
}

-- The columns that no `fields` argument and no status change touches.
pub record Keeps (r q : RunRow) : Type 0 where
  pub id : q.id ≡ r.id
  pub attempt : q.attempt ≡ r.attempt
  pub queued_at : q.queued_at ≡ r.queued_at
  pub lease_owner : q.lease_owner ≡ r.lease_owner
  pub lease_expires_at : q.lease_expires_at ≡ r.lease_expires_at
  pub lease_epoch : q.lease_epoch ≡ r.lease_epoch

set_column-Keeps :
    (f : String × Option String) (r : RunRow)
    → Keeps r (set_column r f) × ((set_column r f).status ≡ r.status)
unfolding set_column
set_column-Keeps (k, v) r = ground arith

pub set_columns-Keeps :
    (fs : Fields) (r : RunRow) → Keeps r (set_columns fs r) × ((set_columns fs r).status ≡ r.status)
unfolding set_columns
set_columns-Keeps [] r = ground arith
set_columns-Keeps (f ∷ fs) r =
    ground (arith, set_column-Keeps f r, set_columns-Keeps fs (set_column r f))

-- The new row of a run that moves.
abbrev pub moved : Env → RunStatus → RunStatus → Change → RunRow → RunRow
moved env current target c r = set_columns c.fields (move env current target r)

pub moved-Keeps :
    (env : Env) (current target : RunStatus) (c : Change) (r : RunRow)
    → Keeps r (moved env current target c r) × ((moved env current target c r).status ≡ target)
moved-Keeps env current target c r =
    ground (arith, set_columns-Keeps c.fields (move env current target r))

pub write_status-ok :
    (env : Env) (i : ℕ) (current target : RunStatus) (c : Change) (s : Store) {t : Transition}
    {s' : Store}
    → write_status env i current target c s ≡ ok (t, s')
    → (count_where (is_at i current) s.runs ≡ 1)
      × (t.previous ≡ current)
      × (s'.runs ≡ update_where (is_at i current) (moved env current target c) s.runs)
      × (s'.events
          ≡ event_of env (s.event_seq + 1) i "run_state_changed" (change_entry current target c)
            ∷ s.events)
      × (s'.event_seq ≡ s.event_seq + 1)
      × (s'.approvals ≡ s.approvals)
      × (s'.grants ≡ s.grants)
unfolding write_status append
write_status-ok env i current target c s h = ground arith

pub transition_seen-ok :
    (env : Env) (i : ℕ) (target : RunStatus) (c : Change) (seen s : Store) {t : Transition}
    {s' : Store}
    → transition_seen env i target c seen s ≡ ok (t, s')
    → (r : RunRow) × (find_run i seen.runs ≡ some r)
      × (can_transition r.status target ≡ true)
      × (write_status env i r.status target c s ≡ ok (t, s'))
unfolding transition_seen
transition_seen-ok env i target c seen s h = ground arith

pub record Moves (env : Env) (i : ℕ) (target : RunStatus) (c : Change) (s : Store) (t : Transition)
    (s' : Store) : Type 0 where
  pub row : RunRow
  pub row' : RunRow
  pub found : find_run i s.runs ≡ some row
  pub found' : find_run i s'.runs ≡ some row'
  pub previous : t.previous ≡ row.status
  pub legal : can_transition row.status target ≡ true
  pub arrived : row'.status ≡ target
  pub kept : Keeps row row'
  pub logged :
      s'.events
      ≡ event_of env (s.event_seq + 1) i "run_state_changed" (change_entry row.status target c)
        ∷ s.events

-- A transition that returns moves the run along the table of legal changes to the target, keeps its
-- lease columns, and adds exactly one event that records both statuses.
pub transition_effect :
    (env : Env) (i : ℕ) (target : RunStatus) (c : Change) (s : Store) (t : Transition) (s' : Store)
    → transition env i target c s ≡ ok (t, s')
    → Moves env i target c s t s'
unfolding transition is_at
transition_effect env i target c s t s' h =
    let (r, found, legal, wrote) = transition_seen-ok env i target c s s h in
    let (one, prev, rows, log, _, _, _) = write_status-ok env i r.status target c s wrote in
    let hit =
      find_run-update_where i (is_at i r.status) (moved env r.status target c) s.runs
        (λ x. (moved-Keeps env r.status target c x).0.id) r found in
    let same : is_at i r.status r ≡ true =
      ground (arith, find_run-id i s.runs r found, run_status_eq.same_iff r.status r.status) in
    let kept = moved-Keeps env r.status target c r in
    record {
      row = r;
      row' = moved env r.status target c r;
      found = found;
      found' = rw rows (rw same at hit);
      previous = prev;
      legal = legal;
      arrived = kept.1;
      kept = kept.0;
      logged = log;
    }

-- When no row of the run is any longer at the status that was read, a legal change raises a stale
-- transition and writes nothing.
pub transition_stale :
    (env : Env) (i : ℕ) (target : RunStatus) (c : Change) (seen s : Store) (r : RunRow)
    → find_run i seen.runs ≡ some r
    → can_transition r.status target ≡ true
    → All (λ q. q.id ≡ i → q.status ≢ r.status) s.runs
    → transition_seen env i target c seen s ≡ err stale_transition
unfolding transition_seen write_status is_at
transition_stale env i target c seen s r found legal moved_on =
    let miss =
      All-map (λ (q : RunRow). q.id ≡ i → q.status ≢ r.status) (λ q. is_at i r.status q ≡ false)
        (λ q h. ground (arith, h, run_status_eq.same_iff q.status r.status)) s.runs moved_on in
    rw (found, transition_seen) (rw legal (rw (count_where_none (is_at i r.status) s.runs miss)))
