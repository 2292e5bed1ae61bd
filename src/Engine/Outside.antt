-- ===== src/Engine/Outside.antt =====
-- Lemmas on `_action` and the agent handler of workflows/engine.py.
use patch_quest.Common.{
  ℕ, refl, inl, inr, Bool, true, false, not, ◌&&◌, Option, none, some, ◌==◌, Bool-cases,
  Option-cases, nat_eq, string_eq,
}
use patch_quest.Text.Equality.{text_eq}
use patch_quest.Workflow.{Workflow, Node, ActionInfo}
use patch_quest.Policy.{result_eq, deny, approval_required}
use patch_quest.Engine.{
  Step, Run, step_status_eq, pending, running, uncertain, set_status, set_step,
}
use patch_quest.Engine.Nodes.{step_failed, step_succeeded, moved}
use patch_quest.Retry.{
  Ended, ended, interrupted, out_of_fuel, returned, raised, cancelled_error, passes, raises,
  cancelled_pause, hangs,
}
use patch_quest.Engine.Actions.{
  decision, after_calls, performed, Attempt, perform, act, action, agent, Service, Child,
  not_started, in_progress, child_completed, child_ended, link_child, boundary_allows,
  needs_approval, nobody, approver,
}
use patch_quest.Engine.Visits.{Bounded}
use patch_quest.Engine.Handlers.{
  RunBounded, MovedBounded, moved-MovedBounded, set_step-Bounded, set_status-Bounded,
  step_failed-RunBounded, step_succeeded-RunBounded,
}

module _ (wf : Workflow) where
  after_calls-Bounded :
      (n : Node) (i : ℕ) (r : Run) (o : Ended (Unit {0}))
      → Bounded wf r.steps
      → RunBounded wf (after_calls wf n i r o)
  unfolding after_calls
  after_calls-Bounded n i r (ended (returned a) k trace) b = step_succeeded-RunBounded wf n i r b
  after_calls-Bounded n i r (ended (raised exc) k trace) b = step_failed-RunBounded wf n i r b
  after_calls-Bounded n i r (ended cancelled_error k trace) b = tt
  after_calls-Bounded n i r (interrupted (raises exc) c trace) b = step_failed-RunBounded wf n i r b
  after_calls-Bounded n i r (interrupted passes c trace) b = tt
  after_calls-Bounded n i r (interrupted cancelled_pause c trace) b = tt
  after_calls-Bounded n i r (interrupted hangs c trace) b = tt
  after_calls-Bounded n i r out_of_fuel b = tt

  perform-Bounded :
      (n : Node) (info : ActionInfo) (attempt : Attempt) (step : Step) (r : Run)
      → Bounded wf r.steps
      → RunBounded wf (perform wf n info attempt step r).after
  unfolding perform
  perform-Bounded n info attempt step r b =
      after_calls-Bounded n step.id (set_step step.id (set_status running) r)
        (performed info attempt) (set_status-Bounded wf step.id running r b)

  act-Bounded :
      (n : Node) (info : ActionInfo) (attempt : Attempt) (step : Step) (r : Run)
      → Bounded wf r.steps
      → RunBounded wf (act wf n info attempt step r).after
  unfolding act
  act-Bounded n info attempt step r b =
      elim (Bool-cases (step.status == running && attempt.existing)) [
        | inl y ↦ rw y (step_succeeded-RunBounded wf n step.id r b)
        | inr m ↦ elim (Bool-cases (step.status == running && not info.idempotent)) [
          | inl y ↦ rw m (rw y (set_status-Bounded wf step.id uncertain r b))
          | inr k ↦ rw m (rw k (perform-Bounded n info attempt step r b))
        ]
      ]

  pub action-Bounded :
      (allow_unapproved : Bool) (n : Node) (info : Option ActionInfo) (attempt : Attempt)
      (step : Step) (r : Run)
      → Bounded wf r.steps
      → RunBounded wf (action allow_unapproved wf n info attempt step r).after
  unfolding action
  action-Bounded allow_unapproved n none attempt step r b = step_failed-RunBounded wf n step.id r b
  action-Bounded allow_unapproved n (some info) attempt step r b =
      let unapproved = nobody (approver wf n.id r) && not allow_unapproved in
      let failing = step_failed-RunBounded wf n step.id r b in
      elim (Bool-cases ((decision attempt info).result == deny)) [
        | inl y ↦ rw y failing
        | inr p ↦ elim (Bool-cases (not (boundary_allows attempt info))) [
          | inl y ↦ rw p (rw y failing)
          | inr q ↦ elim (Bool-cases (approval_required (decision attempt info) && unapproved)) [
            | inl y ↦ rw p (rw q (rw y failing))
            | inr s ↦ elim (Bool-cases (needs_approval info && unapproved)) [
              | inl y ↦ rw p (rw q (rw s (rw y failing)))
              | inr t ↦ rw p (rw q (rw s (rw t (act-Bounded n info attempt step r b))))
            ]
          ]
        ]
      ]

  link-Bounded :
      (i child : ℕ) (r : Run)
      → Bounded wf r.steps
      → Bounded wf (set_step i (link_child child) r).steps
  link-Bounded i child r b = set_step-Bounded wf i (link_child child) r (λ s. (refl, refl)) b

  pub agent-Bounded :
      (n : Node) (service : Service) (step : Step) (r : Run)
      → Bounded wf r.steps
      → MovedBounded wf (agent wf n service step r)
  unfolding agent
  agent-Bounded n service step r b =
      let s = set_step step.id (set_status running) r in
      let c = set_status-Bounded wf step.id running r b in
      elim (Bool-cases (step.status == pending)) [
        | inl y ↦ elim (Option-cases service.created) [
          | inl e ↦ rw y (rw e (moved-MovedBounded wf _ (step_failed-RunBounded wf n step.id s c)))
          | inr (child, e) ↦ elim (Bool-cases service.overrides_valid) [
            | inl v ↦ rw y (rw e (rw v (link-Bounded step.id child s c)))
            | inr v ↦
                rw y
                  (rw e (rw v (moved-MovedBounded wf _ (step_failed-RunBounded wf n step.id s c))))
          ]
        ]
        | inr m ↦ elim (Bool-cases (step.status == running)) [
          | inl y ↦ elim (Option-cases service.existing_child) [
            | inl e ↦ rw m (rw y (rw e (set_status-Bounded wf step.id pending r b)))
            | inr (child, e) ↦ rw m (rw y (rw e (link-Bounded step.id child r b)))
          ]
          | inr k ↦ rw m (rw k (by_child service.child))
        ]
      ]
    where
      by_child :
          (child : Child)
          → MovedBounded wf (elim child [
            | not_started ↦ some (r, true)
            | in_progress ↦ some (r, false)
            | child_completed ↦ moved (step_succeeded wf n step.id r)
            | child_ended ↦ moved (step_failed wf n step.id r)
          ])
      by_child not_started = b
      by_child in_progress = b
      by_child child_completed =
          moved-MovedBounded wf _ (step_succeeded-RunBounded wf n step.id r b)
      by_child child_ended = moved-MovedBounded wf _ (step_failed-RunBounded wf n step.id r b)
