-- ===== src/Queue/Epoch.antt =====
-- Lemmas on `lease_epoch` under the operations of runtime/queue.py.
use patch_quest.Common.{ℕ, ◌+◌, ◌≤◌, String, ◌≡◌, Bool, Option, some, List, arith, All}
use patch_quest.Run.{RunStatus, running, run_status_eq}
use patch_quest.Db.{Env, RunRow, Store, ok, Fence, update_where}
use patch_quest.Db.Rows.{All-update_where, All-least, All-select}
use patch_quest.Db.Keeps.{Keeps}
use patch_quest.Ledger.{redact}
use patch_quest.Ledger.{append}
use patch_quest.Transition.{Change, is_at, transition}
use patch_quest.Transition.Laws.{moved, moved-Keeps, write_status-ok, transition_seen-ok}
use patch_quest.Queue.{
  Claim, update_runs, is_run, next_queued, leased, start_run, log_interrupted, expire_pending,
}
use patch_quest.Queue.Claims.{start_change, start_run-ok}
use patch_quest.Queue.Ops.{Op, after}
use patch_quest.Queue.Invariant.{Benign, IsInvariant, after-Keeps}

-- A row of run `i` is at epoch `e` or later.
abbrev pub Reached : ℕ → ℕ → RunRow → Type 0
Reached i e r = r.id ≡ i → e ≤ r.lease_epoch

abbrev pub Floor : ℕ → ℕ → Store → Type 0
Floor i e s = All (Reached i e) s.runs

module _ (i e : ℕ) where
  transition-Floor :
      (env : Env) (j : ℕ) (target : RunStatus) (c : Change)
      → Keeps (Floor i e) (transition env j target c)
  unfolding transition
  transition-Floor env j target c = record {
    at = λ s t s' floor h.
        let (row, found, legal, wrote) = transition_seen-ok env j target c s s h in
        let (_, _, rows, _, _, _, _) = write_status-ok env j row.status target c s wrote in
        rw rows (
          All-update_where (Reached i e) (Reached i e) (is_at j row.status)
            (moved env row.status target c)
            (λ r hit old same.
              let kept = (moved-Keeps env row.status target c r).0 in
              omega (arith, old (cc (kept.id, same)), kept.lease_epoch))
            (λ r miss old. old) s.runs floor);
  }

  update-Floor :
      (p : RunRow → Bool) (f : RunRow → RunRow) → Benign f → Keeps (Floor i e) (update_runs p f)
  unfolding update_runs
  update-Floor p f benign = record {
    at = λ s t s' floor h.
        let rows : update_where p f s.runs ≡ s'.runs = ground arith in
        rw (← rows) (
          All-update_where (Reached i e) (Reached i e) p f
            (λ r hit old same.
              ground (arith, benign.id r, benign.lease_epoch r, old (cc (benign.id r, same))))
            (λ r miss old. old) s.runs floor);
  }

  next_queued-Floor :
      (s : Store) (row : RunRow) → Floor i e s → next_queued s ≡ some row → Reached i e row
  unfolding next_queued
  next_queued-Floor s row floor h =
      All-least (Reached i e) _ _ row
        (All-select (Reached i e) (Reached i e) _ s.runs (λ r _ old. old) floor) h

  start_run-Floor :
      (env : Env) (worker : String) (lease_s : ℕ) (s : Store) (row : RunRow) (c : Option Claim)
      (t : Store)
      → Floor i e s
      → next_queued s ≡ some row
      → start_run env worker lease_s row s ≡ ok (c, t)
      → Floor i e t
  unfolding start_run update_runs
  start_run-Floor env worker lease_s s row c t floor next h =
      let started = start_run-ok env worker lease_s s row c t h in
      let before =
        (transition-Floor env row.id running (start_change worker row)).at s _ _ floor
          started.changed in
      let was = next_queued-Floor s row floor next in
      rw (started.rows) (
        All-update_where (Reached i e) (Reached i e) (is_run row.id)
          (leased worker (env.now + lease_s) (row.lease_epoch + 1))
          (λ r hit old same. omega (arith, was (ground arith))) (λ r miss old. old)
          started.between.runs before)

  log_interrupted-Floor : (env : Env) (dead : RunRow) → Keeps (Floor i e) (log_interrupted env dead)
  unfolding log_interrupted append
  log_interrupted-Floor env dead = record {
    at = λ s t s' floor h. let rows : s.runs ≡ s'.runs = ground arith in rw (← rows) floor;
  }

  expire_pending-Floor : (env : Env) (j : ℕ) → Keeps (Floor i e) (expire_pending env j)
  unfolding expire_pending
  expire_pending-Floor env j = record {
    at = λ s t s' floor h. let rows : s.runs ≡ s'.runs = ground arith in rw (← rows) floor;
  }

  pub Floor-IsInvariant : IsInvariant (Floor i e)
  unfolding redact
  Floor-IsInvariant = record {
    moves = transition-Floor;
    updates = update-Floor;
    starts = start_run-Floor;
    logs = log_interrupted-Floor;
    expires = expire_pending-Floor;
    redacts = λ event_id s floor. floor;
  }

-- After any history every row of a run is at the epoch that all its rows had, or later.
pub epoch_monotone :
    (i e : ℕ) (history : List (Option Fence × Op)) (s : Store)
    → Floor i e s
    → Floor i e (after history s)
epoch_monotone i e history s floor = after-Keeps (Floor-IsInvariant i e) history s floor
