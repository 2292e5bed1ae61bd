-- ===== src/Engine/Handlers.antt =====
-- Lemmas on what the handlers of workflows/engine.py share.
use patch_quest.Common.{
  ℕ, zero, suc, refl, inl, inr, Bool, false, ◌&&◌, Option, none, some, ◌==◌, Bool-cases, any,
  if◌then◌else◌, nat_eq, string_eq,
}
use patch_quest.Text.{Text, codes}
use patch_quest.Text.Equality.{text_eq}
use patch_quest.Value.{Value, get, value_beq}
use patch_quest.Workflow.{Workflow, Node, Edge, outgoing}
use patch_quest.Engine.{
  WaitKind, Step, Run, StepStatus, step_status_eq, pending, succeeded, failed, skipped, set_status,
  set_step, has_id, has_label, unlabelled, fire, run_of, or_fail, finish,
}
use patch_quest.Engine.Nodes.{
  Moved, moved, step_failed, step_succeeded, wait_for, set_waiting, still_waiting, due,
}
use patch_quest.Engine.Nodes as Nodes
use patch_quest.Engine.Visits.{Bounded, Keeps, update-Bounded}
use patch_quest.Engine.Fires.{AfterBounded, fire-Bounded, fail_run-Bounded, set_status-Keeps}

module _ (wf : Workflow) where
  abbrev pub RunBounded : Option Run → Type 0
  RunBounded none = Unit
  RunBounded (some r) = Bounded wf r.steps

  abbrev pub MovedBounded : Moved → Type 0
  MovedBounded none = Unit
  MovedBounded (some (r, changed)) = Bounded wf r.steps

  pub moved-MovedBounded : (o : Option Run) → RunBounded o → MovedBounded (moved o)
  moved-MovedBounded none h = tt
  moved-MovedBounded (some r) h = h

  run_of-RunBounded : (o : Option (ℕ × Run)) → AfterBounded wf o → RunBounded (run_of o)
  run_of-RunBounded none h = tt
  run_of-RunBounded (some (n, r)) h = h

  or_fail-RunBounded : (o : Option (ℕ × Run)) → AfterBounded wf o → RunBounded (or_fail o)
  or_fail-RunBounded none h = tt
  or_fail-RunBounded (some (zero, r)) h = fail_run-Bounded wf r h
  or_fail-RunBounded (some (suc n, r)) h = h

  -- Edges are followed from a run that is bounded, and the run fails or not where none is.
  pub fired :
      (pick : Edge → Bool) (id : Text) (r : Run)
      → Bounded wf r.steps
      → RunBounded (run_of (fire wf pick id r))
  fired pick id r b = run_of-RunBounded (fire wf pick id r) (fire-Bounded wf pick id r b)

  pub fired_or_failed :
      (pick : Edge → Bool) (id : Text) (r : Run)
      → Bounded wf r.steps
      → RunBounded (or_fail (fire wf pick id r))
  fired_or_failed pick id r b = or_fail-RunBounded (fire wf pick id r) (fire-Bounded wf pick id r b)

  pub set_step-Bounded :
      (i : ℕ) (f : Step → Step) (r : Run)
      → Keeps f
      → Bounded wf r.steps
      → Bounded wf (set_step i f r).steps
  set_step-Bounded i f r keep b = update-Bounded wf (has_id i) f r.steps keep b

  pub set_status-Bounded :
      (i : ℕ) (status : StepStatus) (r : Run)
      → Bounded wf r.steps
      → Bounded wf (set_step i (set_status status) r).steps
  set_status-Bounded i status r b =
      set_step-Bounded i (set_status status) r (set_status-Keeps status) b

  pub step_failed-RunBounded :
      (n : Node) (i : ℕ) (r : Run) → Bounded wf r.steps → RunBounded (step_failed wf n i r)
  unfolding step_failed
  step_failed-RunBounded n i r b =
      let s = set_step i (set_status failed) r in
      let c = set_status-Bounded i failed r b in
      elim (Bool-cases (
        (elim (get n.config (codes "on_failure")) [
          | none ↦ false
          | some v ↦ value_beq v (Value.text (codes "continue"))
        ])
        && any (has_label "failed") (outgoing wf n.id))) [
          | inl y ↦ rw y (fired (has_label "failed") n.id s c)
          | inr m ↦ rw m (fail_run-Bounded wf s c)
        ]

  pub step_succeeded-RunBounded :
      (n : Node) (i : ℕ) (r : Run) → Bounded wf r.steps → RunBounded (step_succeeded wf n i r)
  unfolding step_succeeded
  step_succeeded-RunBounded n i r b =
      fired unlabelled n.id (set_step i (set_status succeeded) r)
        (set_status-Bounded i succeeded r b)

  pub condition-Bounded :
      (n : Node) (result : Bool) (i : ℕ) (r : Run)
      → Bounded wf r.steps
      → RunBounded (Nodes.condition wf n result i r)
  unfolding Nodes.condition
  condition-Bounded n result i r b =
      fired (has_label (if result then "true" else "false")) n.id
        (set_step i (set_status succeeded) r) (set_status-Bounded i succeeded r b)

  waits-Bounded :
      (i : ℕ) (kind : WaitKind) (key : Option Text) (at' : Option ℕ) (r : Run)
      → Bounded wf r.steps
      → Bounded wf (set_step i (wait_for kind key at') r).steps
  waits-Bounded i kind key at' r b =
      set_step-Bounded i (wait_for kind key at') r (λ s. (refl, refl)) b

  set_waiting-Bounded :
      (i : ℕ) (f : Step → Step) (r : Run)
      → Keeps f
      → Bounded wf r.steps
      → Bounded wf (set_waiting i f r).steps
  set_waiting-Bounded i f r keep b = update-Bounded wf (still_waiting i) f r.steps keep b

  -- A handler that waits first, is due or not then.
  pub approval-Bounded :
      (n : Node) (now : ℕ) (timeout : Option ℕ) (step : Step) (r : Run)
      → Bounded wf r.steps
      → MovedBounded (Nodes.approval wf n now timeout step r)
  unfolding Nodes.approval
  approval-Bounded n now timeout step r b = elim (Bool-cases (step.status == pending)) [
    | inl y ↦ rw y (waits-Bounded step.id _ _ _ r b)
    | inr m ↦ elim (Bool-cases (due now step.wake_at)) [
      | inr early ↦ rw m (rw early b)
      | inl late ↦ elim (Bool-cases (any (still_waiting step.id) r.steps)) [
        | inr answered ↦ rw m (rw late (rw answered b))
        | inl open' ↦ rw m (
            rw late (
              rw open' (
                moved-MovedBounded _ (
                  fired_or_failed _ n.id _
                    (set_waiting-Bounded step.id _ r (λ s. (refl, refl)) b)))))
      ]
    ]
  ]

  pub timer-Bounded :
      (n : Node) (now seconds : ℕ) (step : Step) (r : Run)
      → Bounded wf r.steps
      → MovedBounded (Nodes.timer wf n now seconds step r)
  unfolding Nodes.timer
  timer-Bounded n now seconds step r b = elim (Bool-cases (step.status == pending)) [
    | inl y ↦ rw y (waits-Bounded step.id _ _ _ r b)
    | inr m ↦ elim (Bool-cases (due now step.wake_at)) [
      | inr early ↦ rw m (rw early b)
      | inl late ↦ rw m (
          rw late (
            moved-MovedBounded _
              (fired unlabelled n.id _ (set_status-Bounded step.id succeeded r b))))
    ]
  ]

  pub wait_event-Bounded :
      (n : Node) (now : ℕ) (event : Text) (timeout : Option ℕ) (step : Step) (r : Run)
      → Bounded wf r.steps
      → MovedBounded (Nodes.wait_event wf n now event timeout step r)
  unfolding Nodes.wait_event
  wait_event-Bounded n now event timeout step r b =
      let c = set_waiting-Bounded step.id (set_status failed) r (set_status-Keeps failed) b in
      elim (Bool-cases (step.status == pending)) [
        | inl y ↦ rw y (waits-Bounded step.id _ _ _ r b)
        | inr m ↦ elim (Bool-cases (due now step.wake_at)) [
          | inr early ↦ rw m (rw early b)
          | inl late ↦ elim (Bool-cases (any (has_label "timeout") (outgoing wf n.id))) [
            | inl y ↦
                rw m (rw late (rw y (moved-MovedBounded _ (fired (has_label "timeout") n.id _ c))))
            | inr no_edge ↦ rw m (
                rw late
                  (rw no_edge (fail_run-Bounded wf (set_waiting step.id (set_status failed) r) c)))
          ]
        ]
      ]

  pub end_run-Bounded :
      (failure : Bool) (i : ℕ) (r : Run)
      → Bounded wf r.steps
      → Bounded wf (Nodes.end_run failure i r).steps
  unfolding Nodes.end_run finish
  end_run-Bounded failure i r b =
      update-Bounded wf _ (set_status skipped) _ (set_status-Keeps skipped)
        (set_status-Bounded i succeeded r b)
