-- ===== src/Queue/Fencing.antt =====
-- Lemmas on the leases and epochs of runtime/queue.py and the fence of database.py.
use patch_quest.Common.{ℕ, ◌+◌, ◌<◌, String, ◌≡◌, refl, false, Option, some, List, arith, All}
use patch_quest.Db.{
  Env, Store, Result, ok, err, lease_lost, Fence, commit, get_db, check_fence, holds_lease,
}
use patch_quest.Db.Rows.{All-map, All-unit, any_none, All-update_where, count_where_none}
use patch_quest.Queue.{Claim, start, claim, heartbeat, leased, is_run}
use patch_quest.Queue.Claims.{start_claim, claim-start}
use patch_quest.Queue.Ops.{Op, run_op, after}
use patch_quest.Queue.Invariant.{Keeps-run_op}
use patch_quest.Queue.Epoch.{Reached, Floor, Floor-IsInvariant, epoch_monotone}

-- No row of the run is held at an epoch below the floor.

not_held :
    (i e : ℕ) (worker : String) (old : ℕ) (s : Store)
    → Floor i e s
    → old < e
    → All (λ r. holds_lease i worker old r ≡ false) s.runs
unfolding holds_lease
not_held i e worker old s floor less =
    All-map (Reached i e) (λ r. holds_lease i worker old r ≡ false)
      (λ r reached. ground (arith, reached)) s.runs floor

-- A claim that starts a run leaves all its rows at the new epoch.
claim-Floor :
    (env : Env) (worker : String) (lease_s : ℕ) (s : Store) (c : Claim) (t : Store)
    → claim env worker lease_s s ≡ ok (some c, t)
    → c.kind ≡ start
    → Floor c.run_id c.epoch t
claim-Floor env worker lease_s s c t h kind =
    let (row, next, started) = claim-start env worker lease_s s c t h kind in
    let given : c ≡ start_claim row = cc started.given in
    rw started.rows (
      All-update_where (λ _. Unit {0}) (Reached c.run_id c.epoch) (is_run row.id)
        (leased worker (env.now + lease_s) (row.lease_epoch + 1)) (λ r hit _ same. ground arith)
        (λ r miss _ same. ground arith) started.between.runs (All-unit started.between.runs))

-- The heartbeat of an older holder is refused.
stale_heartbeat :
    (env : Env) (i e : ℕ) (worker : String) (old lease_s : ℕ) (s : Store)
    → Floor i e s
    → old < e
    → heartbeat env i worker old lease_s s ≡ err lease_lost
unfolding heartbeat
stale_heartbeat env i e worker old lease_s s floor less =
    rw (count_where_none (holds_lease i worker old) s.runs (not_held i e worker old s floor less))

-- So is every transaction that it runs behind its fence.
stale_fence :
    {A : Type 0} (i e : ℕ) (worker : String) (old : ℕ) (s t : Store) (a : A)
    → Floor i e t
    → old < e
    → commit (some (record { run_id = i; owner = worker; epoch = old })) s (ok (a, t))
      ≡ (err lease_lost, s)
unfolding commit check_fence
stale_fence i e worker old s t a floor less =
    rw (commit, any_none (holds_lease i worker old) t.runs (not_held i e worker old t floor less))

stale_op :
    (i e : ℕ) (worker : String) (old : ℕ) (op : Op) (s : Store) (r : Result (Unit {0} × Store))
    → run_op op s ≡ r
    → Floor i e s
    → old < e
    → (commit (some (record { run_id = i; owner = worker; epoch = old })) s r).1 ≡ s
stale_op i e worker old op s (err x) h floor less = unfold commit in refl
stale_op i e worker old op s (ok (a, t)) h floor less = rw (
    stale_fence i e worker old s t a ((Keeps-run_op (Floor-IsInvariant i e) op).at s a t floor h)
      less)

-- A worker that holds run `i` at epoch `old` cannot renew its lease, and changes nothing.
pub record ShutOut (i : ℕ) (former : String) (old : ℕ) (s : Store) : Type 0 where
  pub refused : (now : Env) (ask : ℕ) → heartbeat now i former old ask s ≡ err lease_lost
  pub fenced :
      (op : Op)
      → (get_db (some (record { run_id = i; owner = former; epoch = old })) (run_op op) s).1 ≡ s

-- Once a run was claimed at an epoch, then after any history of operations a worker that held it at
-- an earlier epoch has its heartbeat refused with a lost lease, and no operation behind its fence
-- changes the tables.
pub replaced_worker :
    (env : Env) (worker : String) (lease_s : ℕ) (s : Store) (c : Claim) (t : Store)
    (history : List (Option Fence × Op)) (former : String) (old : ℕ)
    → claim env worker lease_s s ≡ ok (some c, t)
    → c.kind ≡ start
    → old < c.epoch
    → ShutOut c.run_id former old (after history t)
unfolding get_db
replaced_worker env worker lease_s s c t history former old claimed kind less =
    let floor =
      epoch_monotone c.run_id c.epoch history t
        (claim-Floor env worker lease_s s c t claimed kind) in
    record {
      refused = λ now ask.
          stale_heartbeat now c.run_id c.epoch former old ask (after history t) floor less;
      fenced = λ op.
          stale_op c.run_id c.epoch former old op (after history t) (run_op op (after history t))
            refl floor less;
    }
