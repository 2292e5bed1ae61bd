-- ===== src/Engine/Allowed.antt =====
-- Lemmas on `_action` of workflows/engine.py.
use patch_quest.Common.{
  ◌≤◌, ◌<◌, ◌≢◌, sym, ap, arith, All, ◌++◌, if_both, if◌then◌else◌, ℕ, suc, ◌≡◌, refl, ◌∙◌, ◌⊎◌,
  inl, inr, Bool, true, false, not, ◌&&◌, ◌||◌, Option, none, some, List, [], ◌∷◌, ◌==◌, Bool-cases,
  Option-cases, get_elem?, contains, subst, nat_eq, string_eq,
}
use patch_quest.Text.{Text}
use patch_quest.Text.Equality.{text_eq}
use patch_quest.Search.Path.{From}
use patch_quest.Policy.{
  PolicyDecision, result_eq, deny, approval_required, allowed, strictness, strictest,
}
use patch_quest.Policy.Strictest.{strictest-Chosen}
use patch_quest.Failure.{connector}
use patch_quest.Retry.{default_policy, retried_at}
use patch_quest.Retry.Loop.{run_with_retry-Done}
use patch_quest.Workflow.{Workflow, Node, ActionInfo, ancestors, predecessors}
use patch_quest.Workflow.Graph.{ancestors_iff}
use patch_quest.Engine.{Step, Run, step_status_eq, running}
use patch_quest.Engine.Actions.{
  is_approved, latest_approval, decider, approver, Attempt, Acted, verdict_allows, decision,
  verdicts, is_none, connector_caller, performed, perform, calls_made, boundary_allows,
  needs_approval, act, action, nobody,
}

-- A step of the run that somebody approved, and whose node is an ancestor.

pub record ApprovedBefore (wf : Workflow) (node_id : Text) (steps : List Step) : Type 0 where
  pub index : ℕ
  pub step : Step
  pub stands : get_elem? steps index ≡ some step
  pub approved : is_approved step.decision ≡ true
  pub above : From (predecessors wf) (predecessors wf node_id) step.node_id

-- The policies do not deny the action, and every verdict on data that leaves allows it; an approval is not
-- needed, or was given on the way here; and after a crash the action was not found done and may be repeated.
pub record Permitted (allow_unapproved : Bool) (wf : Workflow) (n : Node) (attempt : Attempt)
    (step : Step) (r : Run) (info : ActionInfo) : Type 0 where
  pub not_denied : (decision attempt info).result ≢ deny
  pub may_leave : All (λ v. allowed v ≡ true) (verdicts attempt info)
  pub approved :
      ((approval_required (decision attempt info) || needs_approval info) ≡ false)
      ⊎ (allow_unapproved ≡ true)
      ⊎ ApprovedBefore wf n.id r.steps
  pub repeats :
      ((step.status == running) ≡ false) ⊎ ((attempt.existing ≡ false) × (info.idempotent ≡ true))

-- Where the strictest decision is allowed, each of them is.
allowed-weaker :
    (d e : PolicyDecision)
    → allowed d ≡ true
    → strictness e.result ≤ strictness d.result
    → allowed e ≡ true
unfolding allowed strictness
allowed-weaker d e h under = ground arith

All-weaker :
    (d : PolicyDecision) (es : List PolicyDecision)
    → allowed d ≡ true
    → All (λ e. strictness e.result ≤ strictness d.result) es
    → All (λ e. allowed e ≡ true) es
All-weaker d [] h w = tt
All-weaker d (e ∷ es) h w = (allowed-weaker d e h w.0, All-weaker d es h w.1)

All-below :
    (d : PolicyDecision) (front back : List PolicyDecision)
    → allowed d ≡ true
    → All (λ e. strictness e.result < strictness d.result) front
    → All (λ e. strictness e.result ≤ strictness d.result) back
    → All (λ e. allowed e ≡ true) (front ++ d ∷ back)
All-below d [] back h w b = (h, All-weaker d back h b)
All-below d (e ∷ es) back h w b =
    (allowed-weaker d e h (omega (arith, w.0)), All-below d es back h w.1 b)

allows-some :
    (o : Option PolicyDecision)
    → verdict_allows o ≡ true
    → (d : PolicyDecision) × (o ≡ some d) × (allowed d ≡ true)
unfolding verdict_allows
allows-some none h = absurd (cc h)
allows-some (some d) h = (d, refl, h)

boundary-All :
    (attempt : Attempt) (info : ActionInfo)
    → boundary_allows attempt info ≡ true
    → All (λ v. allowed v ≡ true) (verdicts attempt info)
unfolding boundary_allows
boundary-All attempt info h =
    elim (Bool-cases (is_none info.discloses && is_none info.network_host)) [
      | inl y ↦
          unfold verdicts in none_left _ _ (is_none info.discloses) (is_none info.network_host) y
      | inr m ↦
          let (d, e, ok') =
            allows-some (strictest (verdicts attempt info)) (rw (boundary_allows, m) at h) in
          let c = strictest-Chosen (verdicts attempt info) d e in
          subst (All (λ v. allowed v ≡ true)) (sym c.order)
            (All-below d c.front c.back ok' c.weaker c.no_stricter)
    ]
  where
    none_left :
        (xs ys : List PolicyDecision) (a b : Bool)
        → (a && b) ≡ true
        → All (λ v. allowed v ≡ true) ((if a then [] else xs) ++ (if b then [] else ys))
    none_left xs ys true true y = tt
    none_left xs ys true false y = absurd (cc y)
    none_left xs ys false b y = absurd (cc y)

-- What `latest_approval` finds.
abbrev Latest : List Text → List Step → Step → Type 0
Latest above steps s =
    (i : ℕ) × (get_elem? steps i ≡ some s)
    × (is_approved s.decision ≡ true)
    × (contains above s.node_id ≡ true)

latest_approval-Latest :
    (above : List Text) (steps : List Step) (s : Step)
    → latest_approval above steps ≡ some s
    → Latest above steps s
unfolding latest_approval
latest_approval-Latest above [] s h = absurd (cc h)
latest_approval-Latest above (t ∷ ts) s h = elim (Option-cases (latest_approval above ts)) [
  | inr (later, e) ↦
      let (i, x, y, z) = latest_approval-Latest above ts s (e ∙ (rw (latest_approval, e) at h)) in
      (suc i, x, y, z)
  | inl e ↦ elim (Bool-cases (is_approved t.decision && contains above t.node_id)) [
    | inr m ↦ absurd (cc (rw m at (rw (latest_approval, e) at h)))
    | inl y ↦
        let same' : t ≡ s = cc (rw y at (rw (latest_approval, e) at h)) in
        let (a, c) = both (is_approved t.decision) y in
        subst (Latest above (t ∷ ts)) same' (0, refl, a, c)
  ]
]
  where
    both : (b : Bool) {c : Bool} → (b && c) ≡ true → (b ≡ true) × (c ≡ true)
    both true h = (refl, h)
    both false h = absurd (cc h)

somebody :
    (wf : Workflow) (node_id : Text) (r : Run)
    → nobody (approver wf node_id r) ≡ false
    → ApprovedBefore wf node_id r.steps
unfolding approver
somebody wf node_id r h = by_step (latest_approval (ancestors wf node_id) r.steps) refl h
  where
    by_step :
        (o : Option Step)
        → latest_approval (ancestors wf node_id) r.steps ≡ o
        → nobody (decider o) ≡ false
        → ApprovedBefore wf node_id r.steps
    by_step none e h = absurd (cc h)
    by_step (some s) e h =
        let (i, x, y, z) = latest_approval-Latest (ancestors wf node_id) r.steps s e in
        record {
          index = i;
          step = s;
          stands = x;
          approved = y;
          above = (ancestors_iff wf node_id s.node_id).0 z;
        }

nobody_or_somebody :
    (allow_unapproved : Bool) (wf : Workflow) (node_id : Text) (r : Run)
    → (nobody (approver wf node_id r) && not allow_unapproved) ≡ false
    → (allow_unapproved ≡ true) ⊎ ApprovedBefore wf node_id r.steps
nobody_or_somebody true wf node_id r h = inl refl
nobody_or_somebody false wf node_id r h = elim (Bool-cases (nobody (approver wf node_id r))) [
  | inl y ↦ absurd (cc (rw y at h))
  | inr n ↦ inr (somebody wf node_id r n)
]

act-repeats :
    (wf : Workflow) (n : Node) (info : ActionInfo) (attempt : Attempt) (step : Step) (r : Run)
    → 1 ≤ (act wf n info attempt step r).calls
    → ((step.status == running) ≡ false) ⊎ ((attempt.existing ≡ false) × (info.idempotent ≡ true))
unfolding act
act-repeats wf n info attempt step r h = elim (Bool-cases (step.status == running)) [
  | inr n ↦ inl n
  | inl y ↦ elim (Bool-cases attempt.existing) [
    | inl found ↦ absurd (omega (arith, rw found at (rw y at h)))
    | inr f ↦ elim (Bool-cases info.idempotent) [
      | inl g ↦ inr (f, g)
      | inr g ↦ absurd (omega (arith, rw g at (rw f at (rw y at h))))
    ]
  ]
]

-- The loop around the connector makes at most three calls.
performed-calls : (info : ActionInfo) (attempt : Attempt) → calls_made (performed info attempt) ≤ 3
unfolding calls_made retried_at
performed-calls info attempt =
    let d =
      run_with_retry-Done (connector_caller attempt) default_policy connector info.idempotent 3
        (omega arith) (omega arith) in
    elim d.finishes [
      | inl own ↦ omega (arith, d.made, ap calls_made own.ends)
      | inr cut ↦ omega (arith, d.made, ap calls_made cut.ends)
    ]

act-calls :
    (wf : Workflow) (n : Node) (info : ActionInfo) (attempt : Attempt) (step : Step) (r : Run)
    → (act wf n info attempt step r).calls ≤ 3
unfolding act perform
act-calls wf n info attempt step r =
    if_both (λ (a : Acted). a.calls ≤ 3) (step.status == running && attempt.existing) (omega arith)
      (if_both (λ (a : Acted). a.calls ≤ 3) (step.status == running && not info.idempotent)
        (omega arith) (performed-calls info attempt))

module _ (allow_unapproved : Bool) (wf : Workflow) (n : Node) where
  -- The engine calls a connector to perform an action only where the action is known and permitted: the
  -- policies do not deny it, and every verdict on the data that it sends or reads allows it; it needs no
  -- approval, or unapproved writes are allowed, or a step was approved whose node the edges lead from to
  -- this one; and where the step was running already, no earlier attempt is found and the action is
  -- idempotent. One visit of the handler makes at most three calls, of whatever action.
  pub action-Permitted :
      (info : Option ActionInfo) (attempt : Attempt) (step : Step) (r : Run)
      → 1 ≤ (action allow_unapproved wf n info attempt step r).calls
      → (known : ActionInfo) × (info ≡ some known)
        × Permitted allow_unapproved wf n attempt step r known
        × ((action allow_unapproved wf n info attempt step r).calls ≤ 3)
  unfolding action
  action-Permitted none attempt step r h = absurd (omega (arith, h))
  action-Permitted (some info) attempt step r h =
      let unapproved = nobody (approver wf n.id r) && not allow_unapproved in
      elim (Bool-cases ((decision attempt info).result == deny)) [
        | inl y ↦ absurd (omega (arith, rw y at h))
        | inr p ↦ elim (Bool-cases (boundary_allows attempt info)) [
          | inr y ↦ absurd (omega (arith, rw y at (rw p at h)))
          | inl q ↦ elim (Bool-cases (approval_required (decision attempt info) && unapproved)) [
            | inl y ↦ absurd (omega (arith, rw y at (rw q at (rw p at h))))
            | inr s ↦ elim (Bool-cases (needs_approval info && unapproved)) [
              | inl y ↦ absurd (omega (arith, rw y at (rw s at (rw q at (rw p at h)))))
              | inr t ↦ (
                info,
                refl,
                record {
                  not_denied = λ e.
                      absurd (cc (p, (result_eq.same_iff (decision attempt info).result deny).1 e));
                  may_leave = boundary-All attempt info q;
                  approved =
                      by_need (approval_required (decision attempt info)) (needs_approval info) s t;
                  repeats =
                      act-repeats wf n info attempt step r
                        (rw t at (rw s at (rw q at (rw p at h))));
                },
                rw p (rw q (rw s (rw t (act-calls wf n info attempt step r)))),
              )
            ]
          ]
        ]
      ]
    where
      by_need :
          (asks needs : Bool)
          → (asks && (nobody (approver wf n.id r) && not allow_unapproved)) ≡ false
          → (needs && (nobody (approver wf n.id r) && not allow_unapproved)) ≡ false
          → ((asks || needs) ≡ false) ⊎ (allow_unapproved ≡ true) ⊎ ApprovedBefore wf n.id r.steps
      by_need false false s t = inl refl
      by_need true needs s t = inr (nobody_or_somebody allow_unapproved wf n.id r s)
      by_need false true s t = inr (nobody_or_somebody allow_unapproved wf n.id r t)
