-- ===== src/Examples/Runs.antt =====
-- Runs: status changes, the queue and its fence.
use patch_quest.Common.{ℕ, ◌≡◌, refl, true, Option, none, some, List, [], ◌∷◌, arith}
use patch_quest.Run.{
  RunStatus, run_status_eq, queued, running, cancelled, completed, can_transition,
}
use patch_quest.Run.Lifecycle.{ended, Course, terminal_forever}
use patch_quest.Db.{Env, RunRow, Store, Result, ok, err, stale_transition, find_run, Fence}
use patch_quest.Transition.{Change, change, Transition, transition, transition_seen}
use patch_quest.Transition.Laws.{Moves, transition_effect, transition_stale}
use patch_quest.Transition.History.{recorded, Agrees}
use patch_quest.Queue.{Claim, start, claim}
use patch_quest.Queue.Ops.{Op, change_status, take_run, renew, after}
use patch_quest.Queue.Epoch.{Floor, epoch_monotone}
use patch_quest.Queue.Fencing.{ShutOut, replaced_worker}
use patch_quest.Queue.Projection.{ledger_tells_status}
use patch_quest.Queue.Order.{Takes, claim_fifo}

abbrev noon : Env
noon = record { now = 1200; uid = 77 }

abbrev blank_row : ℕ → RunStatus → RunRow
blank_row i status = record {
  id = i;
  status = status;
  outcome = none;
  verdict = none;
  current_phase = none;
  failure_kind = none;
  attempt = 1;
  updated_at = 0;
  completed_at = none;
  queued_at = some 900;
  lease_owner = none;
  lease_expires_at = none;
  lease_epoch = 0;
}

abbrev no_tables : Store
no_tables = record { runs = []; events = []; event_seq = 0; approvals = []; grants = [] }

-- Run 7 waits in the queue since 900, and run 3 since 950.
abbrev two_queued : Store
two_queued = record no_tables {
  runs = blank_row 7 queued ∷ record (blank_row 3 queued) { queued_at = some 950 } ∷ [];
}

abbrev value_or : {A : Type 0} → A → Result A → A
value_or a (ok b) = b
value_or a (err e) = a

abbrev no_claim : Claim
no_claim = record { run_id = 0; kind = start; epoch = 0; attempt = 0 }

abbrev claimed : Option Claim × Store
unfolding claim
claimed = value_or (none, two_queued) (claim noon "w1" 60 two_queued)

claims_the_older :
    (claim noon "w1" 60 two_queued
      ≡ ok (some (record { run_id = 7; kind = start; epoch = 1; attempt = 1 }), claimed.1))
unfolding claim
claims_the_older = refl

abbrev first_claim : Claim
first_claim = record { run_id = 7; kind = start; epoch = 1; attempt = 1 }

is_ended : ended completed ≡ true
unfolding ended
is_ended = refl

terminal_forever_example : completed ≡ completed
terminal_forever_example = terminal_forever {s = completed} is_ended Course.here

claim_fifo_example : Takes noon "w1" 60 two_queued first_claim claimed.1
claim_fifo_example = claim_fifo noon "w1" 60 two_queued first_claim claimed.1 claims_the_older refl

-- The former holder at epoch 0 comes back after another claim and an attempt to renew.
abbrev busy : List (Option Fence × Op)
busy =
    (none, take_run noon "w2" 60)
    ∷ (some (record { run_id = 7; owner = "w0"; epoch = 0 }), renew noon 7 "w0" 0 60)
    ∷ []

replaced_worker_example : ShutOut 7 "w0" 0 (after busy claimed.1)
replaced_worker_example =
    replaced_worker noon "w1" 60 two_queued first_claim claimed.1 busy "w0" 0 claims_the_older refl
      (omega arith)

epoch_monotone_example : Floor 7 1 (after busy claimed.1)
unfolding claim
epoch_monotone_example = epoch_monotone 7 1 busy claimed.1 (ground arith)

abbrev started_row : Store
started_row = record no_tables { runs = blank_row 7 running ∷ [] }

abbrev stop : Change
stop = change "user:1" "stop" 1

abbrev stopped : Transition × Store
unfolding transition
stopped =
    value_or (record { previous = running; event_id = 0; event_uid = 0 }, started_row)
      (transition noon 7 completed stop started_row)

stops : transition noon 7 completed stop started_row ≡ ok (stopped.0, stopped.1)
unfolding transition
stops = refl

transition_effect_example : Moves noon 7 completed stop started_row stopped.0 stopped.1
transition_effect_example =
    transition_effect noon 7 completed stop started_row stopped.0 stopped.1 stops

-- Two writers read `running`, and the second comes too late.
transition_stale_example :
    transition_seen noon 7 cancelled stop started_row stopped.1 ≡ err stale_transition
unfolding transition can_transition find_run
transition_stale_example =
    transition_stale noon 7 cancelled stop started_row stopped.1 (blank_row 7 running) refl refl
      (ground arith)

abbrev just_created : Store
just_created = record no_tables { runs = blank_row 7 RunStatus.created ∷ [] }

created-Agrees : Agrees just_created
unfolding recorded
created-Agrees = (refl, tt)

abbrev two_steps : List (Option Fence × Op)
two_steps =
    (none, change_status noon 7 queued stop)
    ∷ (none, take_run noon "w1" 60)
    ∷ (none, change_status noon 7 queued stop)
    ∷ []

ledger_tells_status_example : Agrees (after two_steps just_created)
ledger_tells_status_example = ledger_tells_status two_steps just_created created-Agrees
