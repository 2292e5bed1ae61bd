-- ===== src/Approval/Grants.antt =====
-- Lemmas on the table `approval_grants` and the INSERT of `decide` in persistence/approvals.py.
use patch_quest.Common.{
  ℕ, ◌≡◌, refl, sym, ap, ◌∙◌, inl, inr, true, false, Option, some, List, [], ◌∷◌, ◌++◌, ◌==◌,
  Bool-cases, any, All, contains, subst, nat_eq, string_eq,
}
use patch_quest.Db.{Env, ApprovalRow, Grant, Store, Fence, get_db, update_where}
use patch_quest.Db.Keeps.{Keeps, get_db-Keeps}
use patch_quest.Effects.{SideEffect, side_effect_eq, grantable, effect_value}
use patch_quest.Approval.{
  Decision, decision_eq, approve_once, approve_for_run, deny, modify, cancel_run, status_for,
  decision_value, Outcome, resolve, find_approval, effect_column, new_request, is_pending, Texts,
  request, Ruling, is_grant, insert_grant, grant_for, new_grants, forbidden, decide, expire,
}
use patch_quest.Approval.Decisions.{
  Op, ask, rule_on, run_out, run_op, after, forget-ok, Decided, decide_seen-Decided, find-append,
  find-update, find-resolved, of_run-found,
}

-- The request that a grant rests on: one of its run, decided for the whole run, whose own side effect is
-- the one that the grant names and stays in the sandbox.

pub record Backed (rows : List ApprovalRow) (g : Grant) : Type 0 where
  pub row : ApprovalRow
  pub effect : SideEffect
  pub stands : find_approval g.approval_id rows ≡ some row
  pub own_run : row.run_id ≡ g.run_id
  pub over : (row.status == "pending") ≡ false
  pub for_run : row.decision ≡ some "APPROVE_FOR_RUN"
  pub reads : effect_column row.side_effect ≡ some effect
  pub named : g.side_effect ≡ effect_value effect
  pub confined : contains grantable effect ≡ true

abbrev pub Confined : Store → Type 0
Confined s = All (Backed s.approvals) s.grants

-- The rows that were decided in the one list are there in the other.
abbrev Stays : List ApprovalRow → List ApprovalRow → Type 0
Stays xs ys =
    (i : ℕ) (a : ApprovalRow)
    → find_approval i xs ≡ some a
    → (a.status == "pending") ≡ false
    → find_approval i ys ≡ some a

Backed-moves : {xs ys : List ApprovalRow} (g : Grant) → Stays xs ys → Backed xs g → Backed ys g
Backed-moves g stays b = record {
  row = b.row;
  effect = b.effect;
  stands = stays g.approval_id b.row b.stands b.over;
  own_run = b.own_run;
  over = b.over;
  for_run = b.for_run;
  reads = b.reads;
  named = b.named;
  confined = b.confined;
}

All-moves :
    (xs ys : List ApprovalRow) (gs : List Grant)
    → Stays xs ys
    → All (Backed xs) gs
    → All (Backed ys) gs
All-moves xs ys [] stays h = tt
All-moves xs ys (g ∷ gs) stays h = (Backed-moves g stays h.0, All-moves xs ys gs stays h.1)

insert_grant-All :
    (P : Grant → Type 0) (g : Grant) (gs : List Grant) → P g → All P gs → All P (insert_grant g gs)
unfolding insert_grant
insert_grant-All P g gs h hs = elim (Bool-cases (any (is_grant g.run_id g.signature) gs)) [
  | inl y ↦ rw (insert_grant, y) hs
  | inr n ↦ rw (insert_grant, n) (h, hs)
]

permitted_effect :
    (effect : SideEffect) (g : Ruling) (a : ApprovalRow)
    → (g.decision == approve_for_run) ≡ true
    → forbidden effect g a ≡ false
    → contains grantable effect ≡ true
unfolding forbidden
permitted_effect effect g a y h = elim (Bool-cases (contains grantable effect)) [
  | inl fine ↦ fine
  | inr bad ↦ absurd (cc (rw bad at (rw y at h)))
]

status_for-over : (d : Decision) → (status_for d == "pending") ≡ false
unfolding status_for
status_for-over approve_once = refl
status_for-over approve_for_run = refl
status_for-over deny = refl
status_for-over modify = refl
status_for-over cancel_run = refl

for_run_value :
    (d : Decision) → (d == approve_for_run) ≡ true → decision_value d ≡ "APPROVE_FOR_RUN"
unfolding decision_value
for_run_value d y = ap (λ w. decision_value w) ((decision_eq.same_iff d approve_for_run).0 y)

module _ (texts : Texts) (env : Env) (run i : ℕ) (g : Ruling) (s t : Store) {o : Outcome}
    (d : Decided texts env run i g s s o t) where
  found_id : d.row.id ≡ i
  found_id =
      (find-resolved i (resolve env g) s.approvals (λ x. unfold resolve in refl)
        (of_run-found run (find_approval i s.approvals) d.found).0 d.open').0

  decided_row : find_approval d.row.id t.approvals ≡ some (resolve env g d.row)
  decided_row =
      let here = of_run-found run (find_approval i s.approvals) d.found in
      let found' = subst (λ j. find_approval j s.approvals ≡ some d.row) (sym found_id) here.0 in
      ap (λ xs. find_approval d.row.id xs) d.approvals
      ∙ (find-resolved d.row.id (resolve env g) s.approvals (λ x. unfold resolve in refl) found'
          d.open').1

  decided-Stays : Stays s.approvals t.approvals
  decided-Stays j a found over =
      ap (λ xs. find_approval j xs) d.approvals
      ∙ find-update j d.row.id (resolve env g) s.approvals (λ x. unfold resolve in refl) found over

  new-Backed :
      (g.decision == approve_for_run) ≡ true
      → Backed t.approvals (grant_for texts env run d.row d.effect)
  unfolding resolve
  new-Backed y = record {
    row = resolve env g d.row;
    effect = d.effect;
    stands = decided_row;
    own_run = (of_run-found run (find_approval i s.approvals) d.found).1;
    over = status_for-over g.decision;
    for_run = ap (λ w. some w) (for_run_value g.decision y);
    reads = d.reads;
    named = refl;
    confined = permitted_effect d.effect g d.row y d.permitted;
  }

  decided-Confined : Confined s → Confined t
  unfolding new_grants
  decided-Confined h =
      let kept = All-moves _ _ s.grants decided-Stays h in
      subst (All (Backed t.approvals)) (sym d.grants)
        (elim (Bool-cases (g.decision == approve_for_run)) [
          | inl y ↦ rw y (
              insert_grant-All (Backed t.approvals) (grant_for texts env run d.row d.effect)
                s.grants (new-Backed y) kept)
          | inr n ↦ rw n kept
        ])

module _ (texts : Texts) where
  run_op-Confined : (env : Env) (op : Op) → Keeps Confined (run_op texts env op)
  unfolding run_op
  run_op-Confined env (ask run q) = record {
    at = λ s u t h e.
        let (_, ran) = forget-ok (request env run q s) e in
        let same' : t ≡ record s { approvals = s.approvals ++ new_request env run q ∷ [] } =
          unfold request in cc ran in
        subst Confined (sym same') (
          All-moves _ _ s.grants
            (λ i a found over. find-append i s.approvals (new_request env run q ∷ []) found) h);
  }
  run_op-Confined env (rule_on run i g) = record {
    at = λ s u t h e.
        let (o, ran) = forget-ok (decide texts env run i g s) e in
        let d = decide_seen-Decided texts env run g i s s o t (unfold decide in ran) in
        decided-Confined texts env run i g s t d h;
  }
  run_op-Confined env (run_out i) = record {
    at = λ s u t h e.
        let (_, ran) = forget-ok (expire env i s) e in
        let f = λ (a : ApprovalRow). record a { status = "expired"; resolved_at = some env.now } in
        let same' : t ≡ record s { approvals = update_where (is_pending i) f s.approvals } =
          unfold expire in cc ran in
        subst Confined (sym same') (
          All-moves _ _ s.grants
            (λ j a found over. find-update j i f s.approvals (λ x. refl) found over) h);
  }

  -- Where each grant rests on a request of its run that was decided for the whole run and whose own side
  -- effect, the one that the grant names, stays in the sandbox, each grant still does after any requests,
  -- decisions and expiries, behind whatever fence.
  pub after-Confined :
      (ops : List (Env × Option Fence × Op)) (s : Store) → Confined s → Confined (after texts ops s)
  unfolding after
  after-Confined [] s h = h
  after-Confined ((env, fence, op) ∷ ops) s h =
      after-Confined ops (get_db fence (run_op texts env op) s).1
        (get_db-Keeps fence (run_op texts env op) (run_op-Confined env op) s h)
