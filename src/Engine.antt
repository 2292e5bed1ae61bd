-- ===== src/Engine.antt =====
-- backend/patchquest/workflows/engine.py: the run of a workflow as its row and its steps, and what moves
-- them. Steps stand in the order of their ids. Outputs and events of the log are left out, except for
-- what decides anything. A function gives none where the code raises, which rolls its transaction back.
pub mod Nodes
pub mod Requests
pub mod Actions
pub mod Advance
pub mod Visits
pub mod Fires
pub mod Handlers
pub mod Outside
pub mod History
pub mod Asked
pub mod Start
pub mod Reached
pub mod Allowed
use patch_quest.Common.{
  ℕ, zero, suc, ◌+◌, max, String, Bool, true, false, ◌&&◌, ◌||◌, Option, none, some, List, [], ◌∷◌,
  ◌++◌, ltb, Eq, ◌==◌, discrete_eq, any, contains, if◌then◌else◌, nat_eq, string_eq,
}
use patch_quest.Text.{Text, codes, text_beq}
use patch_quest.Text.Equality.{text_eq}
use patch_quest.Value.{Value, get, value_beq}
use patch_quest.Workflow.{Workflow, Node, Edge, node, outgoing, nodes_on_cycles}

pub data StepStatus : Type 0 where
  pending running waiting succeeded failed skipped uncertain : StepStatus

unfoldable pub StepStatus-discrete : Discrete StepStatus
StepStatus-discrete = hlevel

instance abbrev pub step_status_eq : Eq StepStatus
unfolding StepStatus-discrete
step_status_eq = discrete_eq StepStatus-discrete

pub data RunState : Type 0 where
  active waits completed stopped cancelled : RunState

pub data WaitKind : Type 0 where
  for_approval for_event for_timer for_child : WaitKind

unfoldable pub WaitKind-discrete : Discrete WaitKind
WaitKind-discrete = hlevel

instance abbrev pub wait_kind_eq : Eq WaitKind
unfolding WaitKind-discrete
wait_kind_eq = discrete_eq WaitKind-discrete

-- A row of `workflow_steps`; the idempotency key is the run, the node and the visit.
pub record Step : Type 0 where
  pub id : ℕ
  pub node_id : Text
  pub visit : ℕ
  pub status : StepStatus
  pub wait_kind : Option WaitKind
  pub wait_key : Option Text
  pub wake_at : Option ℕ
  pub child_run_id : Option ℕ
  pub decision : Option Text
  pub decided_by : Option Text

-- The run's row with its steps; `next_id` is the AUTOINCREMENT counter.
pub record Run : Type 0 where
  pub state : RunState
  pub steps : List Step
  pub next_id : ℕ

unfoldable pub is_terminal : RunState → Bool
is_terminal active = false
is_terminal waits = false
is_terminal completed = true
is_terminal stopped = true
is_terminal cancelled = true

unfoldable pub active_step : StepStatus → Bool
active_step pending = true
active_step running = true
active_step waiting = true
active_step _ = false

-- `UPDATE workflow_steps SET ... WHERE ...`
unfoldable pub update_steps : (Step → Bool) → (Step → Step) → List Step → List Step
update_steps p f [] = []
update_steps p f (s ∷ ss) = (if p s then f s else s) ∷ update_steps p f ss

abbrev pub set_status : StepStatus → Step → Step
set_status status s = record s { status = status }

unfoldable pub new_step : Text → ℕ → Run → Run
new_step node_id visit r = record r {
  steps =
      r.steps
      ++ record {
        id = r.next_id;
        node_id = node_id;
        visit = visit;
        status = pending;
        wait_kind = none;
        wait_key = none;
        wake_at = none;
        child_run_id = none;
        decision = none;
        decided_by = none;
      }
        ∷ [];
  next_id = suc r.next_id;
}

unfoldable pub finish : RunState → Run → Run
finish state r = record r { state = state }

unfoldable pub skip_active : Run → Run
unfolding update_steps active_step
skip_active r = record r {
  steps = update_steps (λ s. active_step s.status) (set_status skipped) r.steps;
}

unfoldable pub fail_run : Run → Run
unfolding skip_active finish
fail_run r = finish stopped (skip_active r)

-- The visit of the last row `ORDER BY visit`, or 0.
unfoldable pub last_visit : Text → List Step → ℕ
unfolding text_beq
last_visit node_id [] = 0
last_visit node_id (s ∷ ss) =
    let rest = last_visit node_id ss in if s.node_id == node_id then max s.visit rest else rest

abbrev pub on_its_way : Text → Step → Bool
unfolding StepStatus-discrete
on_its_way node_id s = s.node_id == node_id && (active_step s.status || s.status == uncertain)

module _ (wf : Workflow) (pick : Edge → Bool) where
  -- What one edge of `_fire` does: it goes on, with one step more or none, or it ends the run.
  pub data Fired : Type 0 where
    goes_on : ℕ → Run → Fired
    gave_up : Run → Fired

  unfoldable pub fire_target : Node → Run → Fired
  unfolding any active_step last_visit contains nodes_on_cycles new_step fail_run
  fire_target target r =
      if any (on_its_way target.id) r.steps
      then goes_on 0 r
      else if ltb target.max_visits (last_visit target.id r.steps + 1)
      then (if contains (nodes_on_cycles wf) target.id then gave_up (fail_run r) else goes_on 0 r)
      else goes_on 1 (new_step target.id (last_visit target.id r.steps + 1) r)

  unfoldable pub fire_edges : List Edge → ℕ → Run → Option (ℕ × Run)
  unfolding fire_target node
  fire_edges [] count r = some (count, r)
  fire_edges (e ∷ es) count r =
      let past = fire_edges es count r in
      if pick e
      then (elim (node wf e.target) [
        | none ↦ none
        | some target ↦ elim (fire_target target r) [
          | goes_on n s ↦ fire_edges es (count + n) s
          | gave_up s ↦ some (count, s)
        ]
      ])
      else past

  unfoldable pub fire : Text → Run → Option (ℕ × Run)
  unfolding fire_edges outgoing
  fire node_id r = fire_edges (outgoing wf node_id) 0 r

abbrev pub run_of : Option (ℕ × Run) → Option Run
run_of none = none
run_of (some (n, r)) = some r

abbrev pub has_label : String → Edge → Bool
unfolding text_beq
has_label label e = elim e.when [ none ↦ false | some w ↦ w == codes label ]

abbrev pub unlabelled : Edge → Bool
unlabelled e = elim e.when [ none ↦ true | some w ↦ false ]

-- If nothing fired, the run fails.
abbrev pub or_fail : Option (ℕ × Run) → Option Run
or_fail none = none
or_fail (some (zero, r)) = some (fail_run r)
or_fail (some (suc n, r)) = some r

abbrev pub has_id : ℕ → Step → Bool
has_id i s = s.id == i

abbrev pub set_step : ℕ → (Step → Step) → Run → Run
set_step i f r = record r { steps = update_steps (has_id i) f r.steps }

-- `_settle`: a run without open steps is complete.
unfoldable pub settle : Run → Run
unfolding is_terminal any finish StepStatus-discrete
settle r =
    if is_terminal r.state
    then r
    else if any (λ s. s.status == pending || s.status == running) r.steps
    then record r { state = active }
    else if any (λ s. s.status == waiting || s.status == uncertain) r.steps
    then record r { state = waits }
    else finish completed r
