-- ===== src/Queue.antt =====
-- backend/patchquest/runtime/queue.py: the run queue with worker leases, over SQLite, whose BEGIN
-- IMMEDIATE lets one claimer in at a time.
use patch_quest.Common.{
  ℕ, suc, ◌+◌, ◌-◌, min, String, Bool, true, false, ◌&&◌, ◌||◌, Option, none, some, List, [], ◌∷◌,
  ltb, leb, ◌==◌, select, if◌then◌else◌, nat_eq, string_eq,
}
pub mod Ops
pub mod Claims
pub mod Invariant
pub mod Epoch
pub mod Projection
pub mod Order
pub mod Fencing
use patch_quest.Run.{
  RunStatus, run_status_eq, queued, running, waiting_approval, cancel_requested, interrupted,
  cancelled,
}
use patch_quest.Db.{
  Env, RunRow, ApprovalRow, Store, Result, ok, err, lease_lost, Tx, ◌>>=◌, ◌>>◌, pure, raise,
  update_where, count_where, least, owned_by, holds_lease,
}
use Prim.Native.String.{◌++◌ as append_text}
use patch_quest.Ledger.{entry, append}
use patch_quest.Transition.{Change, change, Transition, transition}

pub data ClaimKind : Type 0 where
  start recover : ClaimKind

pub record Claim : Type 0 where
  pub run_id : ℕ
  pub kind : ClaimKind
  pub epoch : ℕ
  pub attempt : ℕ

-- `status IN LIVE`
unfoldable pub live : RunStatus → Bool
live running = true
live waiting_approval = true
live cancel_requested = true
live _ = false

abbrev pub is_run : ℕ → RunRow → Bool
is_run i r = r.id == i

abbrev pub unleased : RunRow → RunRow
unleased r = record r { lease_owner = none; lease_expires_at = none }

-- `UPDATE runs SET ... WHERE ...`
unfoldable pub update_runs : (RunRow → Bool) → (RunRow → RunRow) → Tx (Unit {0})
unfolding update_where
update_runs p f s = ok (tt, record s { runs = update_where p f s.runs })

unfoldable pub enqueue : Env → ℕ → String → String → Tx (Unit {0})
unfolding transition update_runs
enqueue env i actor reason = do
  transition env i queued (change actor reason 1)
  update_runs (is_run i) (λ r. record (unleased r) { queued_at = some env.now })

-- NULL sorts first.
abbrev pub null_first : Option ℕ → ℕ
null_first none = 0
null_first (some t) = suc t

-- `ORDER BY key, id`
abbrev pub ordered_by : (RunRow → Option ℕ) → RunRow → RunRow → Bool
ordered_by key a b =
    ltb (null_first (key a)) (null_first (key b))
    || (null_first (key a) == null_first (key b) && ltb a.id b.id)

unfoldable pub next_queued : Store → Option RunRow
unfolding select least
next_queued s = least (ordered_by (λ r. r.queued_at)) (select (λ r. r.status == queued) s.runs)

-- `lease_owner IS NOT NULL AND lease_expires_at < ?`: a NULL expiry never compares.
unfoldable pub expired_at : ℕ → RunRow → Bool
expired_at now r = elim r.lease_owner [
  | none ↦ false
  | some _ ↦ elim r.lease_expires_at [ none ↦ false | some t ↦ ltb t now ]
]

unfoldable pub dead_run : ℕ → Store → Option RunRow
unfolding select least live expired_at
dead_run now s =
    least (ordered_by (λ r. r.lease_expires_at))
      (select (λ r. live r.status && expired_at now r) s.runs)

-- The lease of a claimed run.
abbrev pub leased : String → ℕ → ℕ → RunRow → RunRow
leased worker expires epoch r = record r {
  lease_owner = some worker;
  lease_expires_at = some expires;
  lease_epoch = epoch;
}

unfoldable pub start_run : Env → String → ℕ → RunRow → Tx (Option Claim)
unfolding transition update_runs
start_run env worker lease_s row = do
  transition env row.id running
      (change (append_text "worker:" worker) "claimed by a worker" row.attempt)
  update_runs (is_run row.id) (leased worker (env.now + lease_s) (row.lease_epoch + 1))
  pure (
      some (record {
        run_id = row.id;
        kind = start;
        epoch = row.lease_epoch + 1;
        attempt = row.attempt;
      }))

abbrev pub ending : String → String → ℕ → Change
ending outcome reason attempt = record (change "recovery" reason attempt) {
  fields = ("outcome", some outcome) ∷ [];
}

abbrev pub owner_text : Option String → String
owner_text none = "None"
owner_text (some w) = w

abbrev pub lost_reason : RunRow → String
lost_reason dead =
    append_text "worker " (append_text (owner_text dead.lease_owner) " stopped renewing its lease")

unfoldable pub log_interrupted : Env → RunRow → Tx (Unit {0})
unfolding append
log_interrupted env dead s =
    let (_, t) =
      append env dead.id "run_interrupted"
        (record entry {
          phase = dead.current_phase;
          status = some "interrupted";
          message = some (lost_reason dead);
          actor = "recovery";
          attempt = dead.attempt;
        })
        s in
    ok (tt, t)

-- A cancellation that was asked for is honoured; any other run becomes resumable.
unfoldable pub end_dead : Env → RunRow → Tx (Unit {0})
unfolding transition log_interrupted
end_dead env dead =
    if dead.status == cancel_requested
    then (do
      transition env dead.id cancelled (ending "cancelled" (lost_reason dead) dead.attempt)
      pure tt)
    else do
      transition env dead.id interrupted (ending "interrupted" (lost_reason dead) dead.attempt)
      log_interrupted env dead

-- `UPDATE approvals SET status = 'expired' ... WHERE run_id = ? AND status = 'pending'`
unfoldable pub expire_pending : Env → ℕ → Tx (Unit {0})
unfolding update_where
expire_pending env i s = ok (
  tt,
  record s {
    approvals =
        update_where (λ a. a.run_id == i && a.status == "pending")
          (λ a. record a { status = "expired"; resolved_at = some env.now }) s.approvals;
  },
)

unfoldable pub recover_run : Env → RunRow → Tx (Option Claim)
unfolding end_dead expire_pending update_runs
recover_run env dead = do
  end_dead env dead
  expire_pending env dead.id
  update_runs (is_run dead.id) unleased
  pure (some (record { run_id = dead.id; kind = recover; epoch = 0; attempt = dead.attempt }))

unfoldable pub claim : Env → String → ℕ → Tx (Option Claim)
unfolding next_queued dead_run start_run recover_run
claim env worker lease_s s = elim (next_queued s) [
  | some row ↦ start_run env worker lease_s row s
  | none ↦ elim (dead_run env.now s) [ none ↦ ok (none, s) | some dead ↦ recover_run env dead s ]
]

unfoldable pub heartbeat : Env → ℕ → String → ℕ → ℕ → Tx (Unit {0})
unfolding count_where update_runs holds_lease
heartbeat env i worker epoch lease_s s =
    if count_where (holds_lease i worker epoch) s.runs == 1
    then update_runs (holds_lease i worker epoch)
        (λ r. record r { lease_expires_at = some (env.now + lease_s) }) s
    else err lease_lost

unfoldable pub release : ℕ → String → ℕ → Tx (Unit {0})
unfolding update_runs holds_lease
release i worker epoch = update_runs (holds_lease i worker epoch) unleased

pub record Stats : Type 0 where
  pub queued : ℕ
  pub leased : ℕ
  pub expired_leases : ℕ
  pub oldest_wait : Option ℕ

abbrev pub oldest : List RunRow → Option ℕ
oldest [] = none
oldest (r ∷ rs) = elim r.queued_at [
  | none ↦ oldest rs
  | some t ↦ elim (oldest rs) [ none ↦ some t | some u ↦ some (min t u) ]
]

abbrev pub unexpired_at : ℕ → RunRow → Bool
unexpired_at now r = elim r.lease_owner [
  | none ↦ false
  | some _ ↦ elim r.lease_expires_at [ none ↦ false | some t ↦ leb now t ]
]

unfoldable pub stats : ℕ → Store → Stats
unfolding count_where select expired_at
stats now s = record {
  queued = count_where (λ r. r.status == queued) s.runs;
  leased = count_where (unexpired_at now) s.runs;
  expired_leases = count_where (expired_at now) s.runs;
  oldest_wait = elim (oldest (select (λ r. r.status == queued) s.runs)) [
    | none ↦ none
    | some t ↦ some (now - t)
  ];
}
