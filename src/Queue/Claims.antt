-- ===== src/Queue/Claims.antt =====
-- Lemmas on `claim` of runtime/queue.py.
use patch_quest.Common.{ℕ, ◌+◌, String, ◌≡◌, inl, inr, Option, some, arith, Option-cases, first}
use Prim.Native.String.{◌++◌ as append_text}
use patch_quest.Run.{run_status_eq, running}
use patch_quest.Db.{Env, RunRow, Store, ok, Tx, ◌>>◌, pure, update_where}
use patch_quest.Db.Keeps.{>>=-ok, >>-ok}
use patch_quest.Transition.{Change, Transition, change, transition}
use patch_quest.Queue.{
  Claim, start, recover, update_runs, is_run, next_queued, dead_run, leased, start_run, recover_run,
  end_dead, expire_pending, unleased, claim,
}

-- The change that a claim makes to the status.

abbrev pub start_change : String → RunRow → Change
start_change worker row = change (append_text "worker:" worker) "claimed by a worker" row.attempt

abbrev pub start_claim : RunRow → Claim
start_claim row = record {
  run_id = row.id;
  kind = start;
  epoch = row.lease_epoch + 1;
  attempt = row.attempt;
}

pub record Started (env : Env) (worker : String) (lease_s : ℕ) (row : RunRow) (s : Store)
    (c : Option Claim) (t : Store) : Type 0 where
  pub moved : Transition
  pub between : Store
  pub changed : transition env row.id running (start_change worker row) s ≡ ok (moved, between)
  pub given : c ≡ some (start_claim row)
  pub rows :
      t.runs
      ≡ update_where
          (is_run row.id)
          (leased worker (env.now + lease_s) (row.lease_epoch + 1))
          between.runs
  pub events : t.events ≡ between.events

pub start_run-ok :
    (env : Env) (worker : String) (lease_s : ℕ) (s : Store) (row : RunRow) (c : Option Claim)
    (t : Store)
    → start_run env worker lease_s row s ≡ ok (c, t)
    → Started env worker lease_s row s c t
unfolding start_run update_runs
start_run-ok env worker lease_s s row c t h =
    let (m, u, first, rest) =
      >>=-ok (transition env row.id running (start_change worker row)) _ s c t h in
    record {
      moved = m;
      between = u;
      changed = first;
      given = ground arith;
      rows = ground arith;
      events = ground arith;
    }

abbrev recover_claim : RunRow → Claim
recover_claim dead = record { run_id = dead.id; kind = recover; epoch = 0; attempt = dead.attempt }

recover_run-ok :
    (env : Env) (dead : RunRow) (s : Store) (c : Option Claim) (t : Store)
    → recover_run env dead s ≡ ok (c, t)
    → c ≡ some (recover_claim dead)
unfolding recover_run
recover_run-ok env dead s c t h =
    let last : Tx (Option Claim) = pure (some (recover_claim dead)) in
    let unlease : Tx (Option Claim) = update_runs (is_run dead.id) unleased >> last in
    let (s1, h1) = >>-ok (end_dead env dead) (expire_pending env dead.id >> unlease) s c t h in
    let (s2, h2) = >>-ok (expire_pending env dead.id) unlease s1 c t h1 in
    let (s3, h3) = >>-ok (update_runs (is_run dead.id) unleased) last s2 c t h2 in cc

-- A claim of kind `start` took the run at the head of the queue.
pub claim-start :
    (env : Env) (worker : String) (lease_s : ℕ) (s : Store) (c : Claim) (t : Store)
    → claim env worker lease_s s ≡ ok (some c, t)
    → c.kind ≡ start
    → (row : RunRow) × (next_queued s ≡ some row) × Started env worker lease_s row s (some c) t
unfolding claim
claim-start env worker lease_s s c t h kind = elim (Option-cases (next_queued s)) [
  | inr (row, next) ↦
      (row, next, start_run-ok env worker lease_s s row (some c) t (rw (next, claim) at h))
  | inl empty ↦ elim (Option-cases (dead_run env.now s)) [
    | inl quiet ↦ absurd (cc (rw (empty, quiet, claim) at h))
    | inr (dead, found) ↦
        absurd (cc (recover_run-ok env dead s (some c) t (rw (empty, found, claim) at h), kind))
  ]
]
