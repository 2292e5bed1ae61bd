-- ===== src/Approval/First.antt =====
-- Lemmas on rows of `approvals` that are decided, for `decide` of persistence/approvals.py.
use patch_quest.Common.{
  ℕ, ◌≡◌, refl, ◌≢◌, inl, inr, Bool, false, Option, none, some, List, [], ◌∷◌, arith, ◌==◌,
  Bool-cases, All, subst, nat_eq, string_eq,
}
use patch_quest.Db.{Env, ApprovalRow, Store, ok, Fence, get_db, count_where}
use patch_quest.Db.Rows.{count_where_none}
use patch_quest.Db.Keeps.{Keeps, get_db-Keeps}
use patch_quest.Approval.{
  Texts, Request, Outcome, new_request, request, Ruling, find_approval, of_run, is_pending, resolve,
  decide_seen, decide, expire,
}
use patch_quest.Approval.Decisions.{
  Op, ask, rule_on, run_out, run_op, after, forget-ok, find-append, find-update,
  decide_seen-Decided,
}

module _ (texts : Texts) (i : ℕ) (a : ApprovalRow) (over : (a.status == "pending") ≡ false) where
  abbrev Stands : Store → Type 0
  Stands s = find_approval i s.approvals ≡ some a

  request-Stands :
      (env : Env) (run : ℕ) (q : Request) (s : Store) {j : ℕ} {t : Store}
      → Stands s
      → request env run q s ≡ ok (j, t)
      → Stands t
  unfolding request
  request-Stands env run q s h e =
      let stays = find-append i s.approvals (new_request env run q ∷ []) h in ground arith

  decide-Stands :
      (env : Env) (run j : ℕ) (g : Ruling) (s t : Store)
      → Stands s
      → (o : Outcome) → decide texts env run j g s ≡ ok (o, t)
      → Stands t
  unfolding decide resolve
  decide-Stands env run j g s t h o e =
      let d = decide_seen-Decided texts env run g j s s o t e in
      rw (d.approvals) (find-update i d.row.id (resolve env g) s.approvals (λ x. refl) h over)

  expire-Stands :
      (env : Env) (j : ℕ) (s t : Store) (b : Bool)
      → Stands s
      → expire env j s ≡ ok (b, t)
      → Stands t
  unfolding expire
  expire-Stands env j s t b h e =
      let stays =
        find-update i j (λ x. record x { status = "expired"; resolved_at = some env.now })
          s.approvals (λ x. refl) h over in
      ground arith

  run_op-Keeps : (env : Env) (op : Op) → Keeps Stands (run_op texts env op)
  unfolding run_op
  run_op-Keeps env (ask run q) = record {
    at = λ s u t h e.
        let (_, ran) = forget-ok (request env run q s) e in request-Stands env run q s h ran;
  }
  run_op-Keeps env (rule_on run j g) = record {
    at = λ s u t h e.
        let (o, ran) = forget-ok (decide texts env run j g s) e in
        decide-Stands env run j g s t h o ran;
  }
  run_op-Keeps env (run_out j) = record {
    at =
        λ s u t h e. let (b, ran) = forget-ok (expire env j s) e in expire-Stands env j s t b h ran;
  }

-- The row of a request that is no longer pending stays as it is through any later requests, decisions
-- and expiries, of whatever run and behind whatever fence.
pub first_decision_stands :
    (texts : Texts) (ops : List (Env × Option Fence × Op)) (i : ℕ) (a : ApprovalRow) (s : Store)
    → (a.status == "pending") ≡ false
    → find_approval i s.approvals ≡ some a
    → find_approval i (after texts ops s).approvals ≡ some a
unfolding after
first_decision_stands texts [] i a s over h = h
first_decision_stands texts ((env, fence, op) ∷ ops) i a s over h =
    first_decision_stands texts ops i a (get_db fence (run_op texts env op) s).1 over
      (get_db-Keeps fence (run_op texts env op) (run_op-Keeps texts i a over env op) s h)

find_approval-id :
    (i : ℕ) (xs : List ApprovalRow) {a : ApprovalRow} → find_approval i xs ≡ some a → a.id ≡ i
unfolding find_approval
find_approval-id i [] h = absurd (cc h)
find_approval-id i (x ∷ xs) {a = a} h = elim (Bool-cases (x.id == i)) [
  | inl y ↦ let same' : x ≡ a = ground arith in ground arith
  | inr n ↦ find_approval-id i xs {a = a} (ground arith)
]

of_run-some :
    (run : ℕ) (o : Option ApprovalRow) {a : ApprovalRow} → of_run run o ≡ some a → o ≡ some a
of_run-some run none h = absurd (cc h)
of_run-some run (some x) h = ground arith

-- Where no row of the request is pending any longer when a decision comes to write, whatever it had
-- read before, the decision is not recorded.
pub decide_race :
    (texts : Texts) (env : Env) (run i : ℕ) (g : Ruling) (seen s : Store) (o : Outcome) (t : Store)
    → All (λ a. is_pending i a ≡ false) s.approvals
    → decide_seen texts env run i g seen s ≢ ok (o, t)
decide_race texts env run i g seen s o t gone e =
    let d = decide_seen-Decided texts env run g i seen s o t e in
    let own =
      find_approval-id i seen.approvals
        (of_run-some run (find_approval i seen.approvals) d.found) in
    let none' = count_where_none (is_pending i) s.approvals gone in
    let one' : count_where (is_pending i) s.approvals ≡ 1 =
      subst (λ w. count_where (is_pending w) s.approvals ≡ 1) own d.unique in
    omega (arith, none', one')
