-- ===== src/Queue/Ops.antt =====
-- Status changes by `transition`, `enqueue`, `claim`, `heartbeat`, `release` and redaction as one
-- vocabulary of transactions, each fenced for some worker or not. Direct inserts of runs, and updates of
-- attempt, current_phase, overrides_json and resume_note, are not among them.
use patch_quest.Common.{ℕ, String, Option, List, [], ◌∷◌}
use patch_quest.Run.{RunStatus}
use patch_quest.Db.{Env, Store, ok, Tx, ◌>>◌, pure, Fence, get_db}
use patch_quest.Ledger.{redact}
use patch_quest.Transition.{Change, transition}
use patch_quest.Queue.{enqueue, claim, heartbeat, release}

pub data Op : Type 0 where
  change_status : Env → ℕ → RunStatus → Change → Op
  put : Env → ℕ → String → String → Op
  take_run : Env → String → ℕ → Op
  renew : Env → ℕ → String → ℕ → ℕ → Op
  give_back : ℕ → String → ℕ → Op
  blank : ℕ → Op

unfoldable pub run_op : Op → Tx (Unit {0})
run_op (change_status env i target c) = transition env i target c >> pure tt
run_op (put env i actor reason) = enqueue env i actor reason
run_op (take_run env worker lease_s) = claim env worker lease_s >> pure tt
run_op (renew env i worker epoch lease_s) = heartbeat env i worker epoch lease_s
run_op (give_back i worker epoch) = release i worker epoch
run_op (blank event_id) = λ s. ok (tt, redact event_id s)

unfoldable pub after : List (Option Fence × Op) → Store → Store
after [] s = s
after ((fence, op) ∷ rest) s = after rest (get_db fence (run_op op) s).1
