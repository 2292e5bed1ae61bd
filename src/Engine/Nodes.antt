-- ===== src/Engine/Nodes.antt =====
-- The handlers of workflows/engine.py that move one step of a condition, an approval, a timer, an event, an
-- end or an agent. The clock is an argument; what a template gives is an argument too.
use patch_quest.Common.{
  ℕ, zero, suc, ◌+◌, Bool, true, false, not, ◌&&◌, Option, none, some, leb, ◌==◌, any,
  if◌then◌else◌, nat_eq, string_eq,
}
use patch_quest.Text.{Text, codes, text_beq}
use patch_quest.Text.Equality.{text_eq}
use patch_quest.Value.{Value, get, value_beq}
use patch_quest.Workflow.{Workflow, Node, Edge, outgoing}
use patch_quest.Engine.{
  step_status_eq, StepStatus-discrete, pending, waiting, succeeded, failed, skipped, completed,
  stopped, WaitKind, for_approval, for_event, for_timer, Step, Run, active_step, update_steps,
  set_status, finish, fail_run, fire, run_of, has_label, unlabelled, or_fail, has_id, set_step,
}

-- `_step_failed`: a node that says so continues along its `failed` edges.

unfoldable pub step_failed : Workflow → Node → ℕ → Run → Option Run
unfolding fire fail_run any get value_beq outgoing text_beq update_steps
step_failed wf n i r =
    let s = set_step i (set_status failed) r in
    if (elim (get n.config (codes "on_failure")) [
      | none ↦ false
      | some v ↦ value_beq v (Value.text (codes "continue"))
    ])
      && any (has_label "failed") (outgoing wf n.id)
    then run_of (fire wf (has_label "failed") n.id s)
    else some (fail_run s)

-- `_succeed`
abbrev pub succeed : ℕ → Run → Run
unfolding update_steps
succeed i r = set_step i (set_status succeeded) r

-- `_succeed`, and in a second transaction the unlabelled edges; Reached has what the first one alone leaves.
unfoldable pub step_succeeded : Workflow → Node → ℕ → Run → Option Run
unfolding fire update_steps
step_succeeded wf n i r = run_of (fire wf unlabelled n.id (succeed i r))

-- `_condition`, the comparison having given `result`.
unfoldable pub condition : Workflow → Node → Bool → ℕ → Run → Option Run
unfolding fire update_steps text_beq
condition wf n result i r = run_of (
    fire wf (has_label (if result then "true" else "false")) n.id
      (set_step i (set_status succeeded) r))

abbrev pub due : ℕ → Option ℕ → Bool
due now none = false
due now (some t) = leb t now

abbrev wake : ℕ → Option ℕ → Option ℕ
wake now none = none
wake now (some zero) = none
wake now (some (suc t)) = some (now + suc t)

abbrev pub wait_for : WaitKind → Option Text → Option ℕ → Step → Step
wait_for kind key at' s = record s {
  status = waiting;
  wait_kind = some kind;
  wait_key = key;
  wake_at = at';
}

-- A handler's answer: the run as it is now, and whether anything changed.
abbrev pub Moved : Type 0
Moved = Option (Run × Bool)

abbrev pub moved : Option Run → Moved
moved none = none
moved (some r) = some (r, true)

-- `AND status = 'waiting'`
abbrev pub still_waiting : ℕ → Step → Bool
unfolding StepStatus-discrete
still_waiting i s = has_id i s && s.status == waiting

abbrev pub set_waiting : ℕ → (Step → Step) → Run → Run
set_waiting i f r = record r { steps = update_steps (still_waiting i) f r.steps }

abbrev timed_out_edge : Workflow → Node → Edge → Bool
unfolding any outgoing text_beq
timed_out_edge wf n =
    has_label (if any (has_label "timeout") (outgoing wf n.id) then "timeout" else "denied")

-- `_approval`: it asks once, and an answer that is late counts as a timeout.
unfoldable pub approval : Workflow → Node → ℕ → Option ℕ → Step → Run → Moved
unfolding fire update_steps fail_run any outgoing text_beq StepStatus-discrete
approval wf n now timeout step r =
    if step.status == pending
    then some (set_step step.id (wait_for for_approval (some n.id) (wake now timeout)) r, true)
    else if due now step.wake_at
    then (if any (still_waiting step.id) r.steps
        then moved (
            or_fail (
              fire wf (timed_out_edge wf n) n.id (
                set_waiting step.id
                  (λ s. record s { status = succeeded; decision = some (codes "timeout") }) r)))
        else some (r, true))
    else some (r, false)

unfoldable pub timer : Workflow → Node → ℕ → ℕ → Step → Run → Moved
unfolding fire update_steps StepStatus-discrete
timer wf n now seconds step r =
    if step.status == pending
    then some (set_step step.id (wait_for for_timer none (some (now + seconds))) r, true)
    else if due now step.wake_at
    then moved (run_of (fire wf unlabelled n.id (set_step step.id (set_status succeeded) r)))
    else some (r, false)

unfoldable pub wait_event : Workflow → Node → ℕ → Text → Option ℕ → Step → Run → Moved
unfolding fire update_steps fail_run any outgoing text_beq StepStatus-discrete
wait_event wf n now event timeout step r =
    if step.status == pending
    then some (set_step step.id (wait_for for_event (some event) (wake now timeout)) r, true)
    else if due now step.wake_at
    then (let s = set_waiting step.id (set_status failed) r in
        if any (has_label "timeout") (outgoing wf n.id)
        then moved (run_of (fire wf (has_label "timeout") n.id s))
        else some (fail_run s, true))
    else some (r, false)

abbrev other_active : ℕ → Step → Bool
other_active i s = active_step s.status && not (has_id i s)

-- `_end`: the other open steps are skipped, and the run is over.
unfoldable pub end_run : Bool → ℕ → Run → Run
unfolding update_steps active_step finish
end_run failure i r =
    let s = set_step i (set_status succeeded) r in
    finish (if failure then stopped else completed)
      (record s { steps = update_steps (other_active i) (set_status skipped) s.steps })
