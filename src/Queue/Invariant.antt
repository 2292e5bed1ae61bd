-- ===== src/Queue/Invariant.antt =====
-- Lemmas on predicates of the tables under the operations of Queue.Ops.
use patch_quest.Common.{
  ℕ, ◌+◌, String, ◌≡◌, refl, inl, inr, Bool, Option, none, some, List, [], ◌∷◌, ◌==◌, Bool-cases,
  Option-cases, subst, nat_eq, string_eq,
}
use patch_quest.Run.{RunStatus, run_status_eq, cancel_requested, queued, cancelled, interrupted}
use patch_quest.Db.{Env, RunRow, Store, Result, ok, pure, Fence, count_where, holds_lease, get_db}
use patch_quest.Db.Keeps.{Keeps, Keeps-bind, get_db-Keeps}
use patch_quest.Ledger.{redact}
use patch_quest.Transition.{Change, change, transition}
use patch_quest.Queue.{
  Claim, ending, lost_reason, update_runs, enqueue, unleased, next_queued, dead_run, start_run,
  log_interrupted, end_dead, expire_pending, recover_run, is_run, recover, claim, heartbeat,
  release,
}
use patch_quest.Queue.Ops.{Op, change_status, put, take_run, renew, give_back, blank, run_op, after}

-- An update that leaves the id, the status and the epoch of a row alone.
pub record Benign (f : RunRow → RunRow) : Type 0 where
  pub id : (r : RunRow) → (f r).id ≡ r.id
  pub status : (r : RunRow) → (f r).status ≡ r.status
  pub lease_epoch : (r : RunRow) → (f r).lease_epoch ≡ r.lease_epoch

pub record IsInvariant (P : Store → Type 0) : Type 0 where
  pub moves :
      (env : Env) (i : ℕ) (target : RunStatus) (c : Change) → Keeps P (transition env i target c)
  pub updates : (p : RunRow → Bool) (f : RunRow → RunRow) → Benign f → Keeps P (update_runs p f)
  pub starts :
      (env : Env) (worker : String) (lease_s : ℕ) (s : Store) (row : RunRow) (c : Option Claim)
      (t : Store)
      → P s
      → next_queued s ≡ some row
      → start_run env worker lease_s row s ≡ ok (c, t)
      → P t
  pub logs : (env : Env) (dead : RunRow) → Keeps P (log_interrupted env dead)
  pub expires : (env : Env) (i : ℕ) → Keeps P (expire_pending env i)
  pub redacts : (event_id : ℕ) (s : Store) → P s → P (redact event_id s)

pub Keeps-pure : {A : Type 0} (P : Store → Type 0) (a : A) → Keeps P (pure a)
Keeps-pure {A} P a = record { at = λ s b t h e. subst P (same s b t e) h }
  where
    same :
        (s : Store) (b : A) (t : Store)
        → ◌≡◌ {A = Result (A × Store)} (ok (a, s)) (ok (b, t))
        → s ≡ t
    same s b t e = cc

module _ {P : Store → Type 0} (inv : IsInvariant P) where
  Keeps-unleased : (p : RunRow → Bool) → Keeps P (update_runs p unleased)
  Keeps-unleased p =
      inv.updates p unleased
        (record { id = λ r. refl; status = λ r. refl; lease_epoch = λ r. refl })

  Keeps-enqueue : (env : Env) (i : ℕ) (actor reason : String) → Keeps P (enqueue env i actor reason)
  unfolding enqueue
  Keeps-enqueue env i actor reason =
      Keeps-bind (transition env i queued (change actor reason 1)) _
        (inv.moves env i queued (change actor reason 1))
        (λ _.
          inv.updates (is_run i) (λ r. record (unleased r) { queued_at = some env.now })
            (record { id = λ r. refl; status = λ r. refl; lease_epoch = λ r. refl }))

  Keeps-end_dead : (env : Env) (dead : RunRow) → Keeps P (end_dead env dead)
  unfolding end_dead
  Keeps-end_dead env dead = elim (Bool-cases (dead.status == cancel_requested)) [
    | inl e ↦ rw e (
        Keeps-bind
          (transition env dead.id cancelled (ending "cancelled" (lost_reason dead) dead.attempt)) _
          (inv.moves env dead.id cancelled (ending "cancelled" (lost_reason dead) dead.attempt))
          (λ _. Keeps-pure P tt))
    | inr e ↦ rw e (
        Keeps-bind
          (transition env dead.id interrupted
            (ending "interrupted" (lost_reason dead) dead.attempt))
          _
          (inv.moves env dead.id interrupted (ending "interrupted" (lost_reason dead) dead.attempt))
          (λ _. inv.logs env dead))
  ]

  Keeps-recover_run : (env : Env) (dead : RunRow) → Keeps P (recover_run env dead)
  unfolding recover_run
  Keeps-recover_run env dead = Keeps-bind _ _ (Keeps-end_dead env dead) λ _.
      Keeps-bind _ _ (inv.expires env dead.id) λ _.
        Keeps-bind (update_runs (is_run dead.id) unleased) _ (Keeps-unleased (is_run dead.id)) λ _.
          Keeps-pure P
            (some (record { run_id = dead.id; kind = recover; epoch = 0; attempt = dead.attempt }))

  Keeps-claim : (env : Env) (worker : String) (lease_s : ℕ) → Keeps P (claim env worker lease_s)
  unfolding claim
  Keeps-claim env worker lease_s = record {
    at = λ s c t h e. elim (Option-cases (next_queued s)) [
      | inr (row, next) ↦ inv.starts env worker lease_s s row c t h next (rw (next, claim) at e)
      | inl empty ↦ elim (Option-cases (dead_run env.now s)) [
        | inl quiet ↦
            (Keeps-pure {A = Option Claim} P none).at s c t h (rw (empty, quiet, claim) at e)
        | inr (dead, found) ↦
            (Keeps-recover_run env dead).at s c t h (rw (empty, found, claim) at e)
      ]
    ];
  }

  Keeps-heartbeat :
      (env : Env) (i : ℕ) (worker : String) (epoch lease_s : ℕ)
      → Keeps P (heartbeat env i worker epoch lease_s)
  unfolding heartbeat
  Keeps-heartbeat env i worker epoch lease_s = record {
    at = λ s c t h e. elim (Bool-cases (count_where (holds_lease i worker epoch) s.runs == 1)) [
      | inl held ↦
          (inv.updates (holds_lease i worker epoch)
              (λ r. record r { lease_expires_at = some (env.now + lease_s) })
              (record { id = λ r. refl; status = λ r. refl; lease_epoch = λ r. refl })).at
            s c t h (rw held at e)
      | inr lost ↦ absurd (cc (rw lost at e))
    ];
  }

  pub Keeps-run_op : (op : Op) → Keeps P (run_op op)
  unfolding run_op release
  Keeps-run_op (change_status env i target c) =
      Keeps-bind _ _ (inv.moves env i target c) (λ _. Keeps-pure P tt)
  Keeps-run_op (put env i actor reason) = Keeps-enqueue env i actor reason
  Keeps-run_op (take_run env worker lease_s) =
      Keeps-bind _ _ (Keeps-claim env worker lease_s) (λ _. Keeps-pure P tt)
  Keeps-run_op (renew env i worker epoch lease_s) = Keeps-heartbeat env i worker epoch lease_s
  Keeps-run_op (give_back i worker epoch) = Keeps-unleased (holds_lease i worker epoch)
  Keeps-run_op (blank event_id) = record {
    at = λ s c t h e. let p : redact event_id s ≡ t = cc in subst P p (inv.redacts event_id s h);
  }

  -- An invariant holds after every history, whatever was fenced off or refused on the way.
  pub after-Keeps : (history : List (Option Fence × Op)) (s : Store) → P s → P (after history s)
  unfolding after
  after-Keeps [] s h = h
  after-Keeps ((fence, op) ∷ rest) s h =
      after-Keeps rest (get_db fence (run_op op) s).1
        (get_db-Keeps fence (run_op op) (Keeps-run_op op) s h)
