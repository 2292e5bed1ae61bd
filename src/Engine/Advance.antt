-- ===== src/Engine/Advance.antt =====
-- `_step` and `advance` of workflows/engine.py: the steps of a run are moved, round after round, until
-- nothing changes or the run is over.
use patch_quest.Common.{
  ℕ, zero, suc, Bool, true, false, ◌||◌, Option, none, some, List, [], ◌∷◌, select, if◌then◌else◌,
}
use patch_quest.Text.{Text, codes}
use patch_quest.Text.Equality.{text_eq}
use patch_quest.Value.{Value, get, value_beq}
use patch_quest.Workflow.{
  Workflow, Node, NodeType, agent, action, condition, approval, wait_event, timer, end_node, node,
  ActionInfo,
}
use patch_quest.Engine.{Step, Run, active_step, is_terminal, settle}
use patch_quest.Engine.Nodes.{Moved, moved, step_failed, end_run}
use patch_quest.Engine.Nodes as Nodes
use patch_quest.Engine.Actions as Actions
use patch_quest.Engine.Actions.{Attempt, Acted, Service}

-- What a handler is told from outside: the clock, what its templates give, whether one of them raises a
-- TemplateError, the action as the connectors know it, its attempt, and what the service says of the child.

pub record Inputs : Type 0 where
  pub now : ℕ
  pub raises : Bool
  pub result : Bool
  pub timeout : Option ℕ
  pub event : Text
  pub seconds : ℕ
  pub info : Option ActionInfo
  pub attempt : Attempt
  pub service : Service

abbrev pub ends_in_failure : Node → Bool
ends_in_failure n = elim (get n.config (codes "result")) [
  | none ↦ false
  | some v ↦ value_beq v (Value.text (codes "failure"))
]

module _ (allow_unapproved : Bool) (wf : Workflow) where
  unfoldable pub handle : NodeType → Inputs → Node → Step → Run → Moved
  unfolding Nodes.condition Nodes.approval Nodes.timer Nodes.wait_event end_run Actions.agent
      Actions.action get value_beq
  handle agent inputs n step r = Actions.agent wf n inputs.service step r
  handle action inputs n step r =
      moved (Actions.action allow_unapproved wf n inputs.info inputs.attempt step r).after
  handle condition inputs n step r = moved (Nodes.condition wf n inputs.result step.id r)
  handle approval inputs n step r = Nodes.approval wf n inputs.now inputs.timeout step r
  handle wait_event inputs n step r =
      Nodes.wait_event wf n inputs.now inputs.event inputs.timeout step r
  handle timer inputs n step r = Nodes.timer wf n inputs.now inputs.seconds step r
  handle end_node inputs n step r = some (end_run (ends_in_failure n) step.id r, true)

  -- The node's handler; a step of no node raises StopIteration.
  unfoldable pub run_on : Inputs → Step → Run → Option Node → Moved
  unfolding handle step_failed
  run_on inputs step r none = none
  run_on inputs step r (some n) =
      if inputs.raises then moved (step_failed wf n step.id r) else handle n.type inputs n step r

  unfoldable pub run_step : Inputs → Step → Run → Moved
  unfolding run_on node
  run_step inputs step r = run_on inputs step r (node wf step.node_id)

  -- How a round ends: the run is over, or all its steps were tried and some, or none, changed anything.
  pub data Round : Type 0 where
    raised over : Run → Round
    tried : Bool → Run → Round

  -- The steps of a round are the rows as they were read before it.
  unfoldable pub round : (Step → Inputs) → List Step → Bool → Run → Round
  unfolding run_step is_terminal
  round inputs [] progressed r = tried progressed r
  round inputs (step ∷ steps) progressed r = elim (run_step (inputs step) step r) [
    | none ↦ raised r
    | some (s, changed) ↦
        if is_terminal s.state then over s else round inputs steps (progressed || changed) s
  ]

  -- What follows a round: another one if anything changed.
  unfoldable pub end_round : (Run → Run) → Round → Run
  unfolding settle
  end_round again (raised r) = r
  end_round again (over r) = r
  end_round again (tried progressed r) = if progressed then again r else settle r

  unfoldable pub rounds : ℕ → (ℕ → Step → Inputs) → Run → Run
  unfolding round end_round is_terminal select active_step settle
  rounds zero inputs r = settle r
  rounds (suc fuel) inputs r =
      if is_terminal r.state
      then r
      else end_round (λ s. rounds fuel inputs s)
          (round (inputs fuel) (select (λ s. active_step s.status) r.steps) false r)

  -- `inputs k` is what the round with k rounds left is told.
  unfoldable pub advance : (ℕ → Step → Inputs) → Run → Run
  unfolding rounds
  advance inputs r = rounds 1000 inputs r
