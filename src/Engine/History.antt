-- ===== src/Engine/History.antt =====
-- Lemmas on `advance` and on sequences of operations of workflows/engine.py.
use patch_quest.Common.{
  ℕ, zero, suc, ◌≡◌, refl, sym, inl, inr, Bool, false, ◌||◌, Option, none, some, List, [], ◌∷◌,
  ◌==◌, Bool-cases, if_both, select, any, subst, if◌then◌else◌, nat_eq, string_eq,
}
use patch_quest.Text.Equality.{text_eq}
use patch_quest.Workflow.{
  Workflow, Node, NodeType, agent, action, condition, approval, wait_event, timer, end_node, node,
}
use patch_quest.Engine.{
  Step, Run, step_status_eq, pending, running, waiting, uncertain, active_step, is_terminal, finish,
  settle,
}
use patch_quest.Engine.Nodes.{Moved}
use patch_quest.Engine.Advance.{
  Inputs, handle, run_on, run_step, Round, raised, over, tried, round, end_round, rounds, advance,
  ends_in_failure,
}
use patch_quest.Engine.Visits.{Bounded}
use patch_quest.Engine.Handlers.{
  MovedBounded, moved-MovedBounded, step_failed-RunBounded, condition-Bounded, approval-Bounded,
  timer-Bounded, wait_event-Bounded, end_run-Bounded,
}
use patch_quest.Engine.Outside.{action-Bounded, agent-Bounded}

settle_steps : (r : Run) → (settle r).steps ≡ r.steps
unfolding settle finish
settle_steps r = elim (Bool-cases (is_terminal r.state)) [
  | inl y ↦ rw y refl
  | inr n ↦ elim (Bool-cases (any (λ s. s.status == pending || s.status == running) r.steps)) [
    | inl y ↦ rw n (rw y refl)
    | inr m ↦ elim (Bool-cases (any (λ s. s.status == waiting || s.status == uncertain) r.steps)) [
      | inl y ↦ rw n (rw m (rw y refl))
      | inr k ↦ rw n (rw m (rw k refl))
    ]
  ]
]

module _ (allow_unapproved : Bool) (wf : Workflow) where
  handle-Bounded :
      (t : NodeType) (inputs : Inputs) (n : Node) (step : Step) (r : Run)
      → Bounded wf r.steps
      → MovedBounded wf (handle allow_unapproved wf t inputs n step r)
  unfolding handle
  handle-Bounded agent inputs n step r b = agent-Bounded wf n inputs.service step r b
  handle-Bounded action inputs n step r b =
      moved-MovedBounded wf _
        (action-Bounded wf allow_unapproved n inputs.info inputs.attempt step r b)
  handle-Bounded condition inputs n step r b =
      moved-MovedBounded wf _ (condition-Bounded wf n inputs.result step.id r b)
  handle-Bounded approval inputs n step r b =
      approval-Bounded wf n inputs.now inputs.timeout step r b
  handle-Bounded wait_event inputs n step r b =
      wait_event-Bounded wf n inputs.now inputs.event inputs.timeout step r b
  handle-Bounded timer inputs n step r b = timer-Bounded wf n inputs.now inputs.seconds step r b
  handle-Bounded end_node inputs n step r b = end_run-Bounded wf (ends_in_failure n) step.id r b

  run_on-Bounded :
      (inputs : Inputs) (step : Step) (r : Run) (n : Option Node)
      → Bounded wf r.steps
      → MovedBounded wf (run_on allow_unapproved wf inputs step r n)
  unfolding run_on
  run_on-Bounded inputs step r none b = tt
  run_on-Bounded inputs step r (some n) b =
      if_both (MovedBounded wf) inputs.raises
        (moved-MovedBounded wf _ (step_failed-RunBounded wf n step.id r b))
        (handle-Bounded n.type inputs n step r b)

  run_step-Bounded :
      (inputs : Inputs) (step : Step) (r : Run)
      → Bounded wf r.steps
      → MovedBounded wf (run_step allow_unapproved wf inputs step r)
  unfolding run_step
  run_step-Bounded inputs step r b = run_on-Bounded inputs step r (node wf step.node_id) b

  abbrev RoundBounded : Round allow_unapproved wf → Type 0
  RoundBounded (raised r) = Bounded wf r.steps
  RoundBounded (over r) = Bounded wf r.steps
  RoundBounded (tried progressed r) = Bounded wf r.steps

  round-Bounded :
      (inputs : Step → Inputs) (steps : List Step) (progressed : Bool) (r : Run)
      → Bounded wf r.steps
      → RoundBounded (round allow_unapproved wf inputs steps progressed r)
  unfolding round
  round-Bounded inputs [] progressed r b = b
  round-Bounded inputs (step ∷ steps) progressed r b =
      after_step (round-Bounded inputs steps) (run_step allow_unapproved wf (inputs step) step r)
        (run_step-Bounded (inputs step) step r b)
    where
      after_step :
          ((p : Bool) (s : Run)
            → Bounded wf s.steps
            → RoundBounded (round allow_unapproved wf inputs steps p s))
          → (m : Moved) → MovedBounded wf m
          → RoundBounded (elim m [
            | none ↦ raised r
            | some (s, changed) ↦
                if is_terminal s.state
                then over s
                else round allow_unapproved wf inputs steps (progressed || changed) s
          ])
      after_step ih none h = b
      after_step ih (some (s, changed)) h = elim (Bool-cases (is_terminal s.state)) [
        | inl y ↦ rw y h
        | inr n ↦ rw n (ih (progressed || changed) s h)
      ]

  settle-Bounded : (r : Run) → Bounded wf r.steps → Bounded wf (settle r).steps
  settle-Bounded r b = subst (Bounded wf) (sym (settle_steps r)) b

  end_round-Bounded :
      (again : Run → Run) (o : Round allow_unapproved wf)
      → ((s : Run) → Bounded wf s.steps → Bounded wf (again s).steps)
      → RoundBounded o
      → Bounded wf (end_round allow_unapproved wf again o).steps
  unfolding end_round
  end_round-Bounded again (raised s) ih h = h
  end_round-Bounded again (over s) ih h = h
  end_round-Bounded again (tried progressed s) ih h =
      if_both (λ (w : Run). Bounded wf w.steps) progressed (ih s h) (settle-Bounded s h)

  rounds-Bounded :
      (fuel : ℕ) (inputs : ℕ → Step → Inputs) (r : Run)
      → Bounded wf r.steps
      → Bounded wf (rounds allow_unapproved wf fuel inputs r).steps
  unfolding rounds
  rounds-Bounded zero inputs r b = settle-Bounded r b
  rounds-Bounded (suc fuel) inputs r b =
      let steps = select (λ s. active_step s.status) r.steps in
      if_both (λ (w : Run). Bounded wf w.steps) (is_terminal r.state) b
        (end_round-Bounded (λ s. rounds allow_unapproved wf fuel inputs s)
          (round allow_unapproved wf (inputs fuel) steps false r)
          (λ s h. rounds-Bounded fuel inputs s h) (round-Bounded (inputs fuel) steps false r b))

  pub advance-Bounded :
      (inputs : ℕ → Step → Inputs) (r : Run)
      → Bounded wf r.steps
      → Bounded wf (advance allow_unapproved wf inputs r).steps
  unfolding advance
  advance-Bounded inputs r b = rounds-Bounded 1000 inputs r b
