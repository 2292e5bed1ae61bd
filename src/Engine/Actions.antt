-- ===== src/Engine/Actions.antt =====
-- `_action`, `_boundary_allows`, `_approver` and the agent handler of workflows/engine.py.
use patch_quest.Common.{
  ℕ, zero, suc, ◌++◌, Bool, true, false, not, ◌&&◌, Option, none, some, List, [], ◌∷◌, ◌==◌,
  contains, if◌then◌else◌, nat_eq, string_eq,
}
use patch_quest.Text.{Text, codes, text_beq, starts_with, split}
use patch_quest.Text.Equality.{text_eq}
use patch_quest.Effects.{side_effect_eq, SideEffect-discrete}
use patch_quest.Policy.{
  Policy, evaluate, PolicyDecision, result_eq, Result-discrete, deny, approval_required, allowed,
  strictest,
}
use patch_quest.Egress.{Urls, decide_disclosure, decide_network_read}
use patch_quest.Failure.{connector}
use patch_quest.Retry.{
  Caller, default_policy, returned, raised, cancelled_error, Ended, ended, interrupted, out_of_fuel,
  passes, raises, cancelled_pause, hangs, run_with_retry,
}
use patch_quest.Workflow.{Workflow, Node, ActionInfo, requires_approval_effects, ancestors}
use patch_quest.Engine.{
  step_status_eq, StepStatus-discrete, pending, running, uncertain, for_child, Step, Run, set_step,
  set_status, update_steps,
}
use patch_quest.Engine.Nodes.{step_failed, step_succeeded, Moved, moved, wait_for}

abbrev pub is_approved : Option Text → Bool
unfolding text_beq
is_approved none = false
is_approved (some d) = d == codes "approved"

-- The approved step with the highest id whose node is an ancestor, and who decided it.
unfoldable pub latest_approval : List Text → List Step → Option Step
unfolding contains
latest_approval above [] = none
latest_approval above (s ∷ ss) = elim (latest_approval above ss) [
  | some later ↦ some later
  | none ↦ if is_approved s.decision && contains above s.node_id then some s else none
]

abbrev pub decider : Option Step → Option Text
decider none = none
decider (some s) = s.decided_by

unfoldable pub approver : Workflow → Text → Run → Option Text
unfolding latest_approval ancestors
approver wf node_id r = decider (latest_approval (ancestors wf node_id) r.steps)

-- What the handler is told from outside: the policies of the run, `str` of the configured action, what
-- the connector finds of an earlier attempt, and how its calls of the connector go.
pub record Attempt : Type 0 where
  pub chain : List Policy
  pub urls : Urls
  pub name : Text
  pub existing : Bool
  pub caller : Caller (Unit {0})

-- What the handler did: how often it called the connector to perform the action, and the run it leaves.
pub record Acted : Type 0 where
  pub calls : ℕ
  pub after : Option Run

abbrev quiet : Option Run → Acted
quiet r = record { calls = 0; after = r }

abbrev pub nobody : Option Text → Bool
nobody none = true
nobody (some t) = false

-- `policy_runtime.decide` on the action.
unfoldable pub decision : Attempt → ActionInfo → PolicyDecision
unfolding evaluate
decision attempt info =
    evaluate attempt.chain (codes "action." ++ attempt.name) (some info.side_effect)

abbrev piece : ℕ → List Text → Text
piece k [] = []
piece zero (t ∷ ts) = t
piece (suc k) (t ∷ ts) = piece k ts

-- The kind and the name of where the data goes.
unfoldable pub destination : Text → Text × Text
unfolding starts_with split
destination name =
    if starts_with (codes "plugin.") name
    then (codes "external_api", piece 1 (split 46 name))
    else (codes "connector", piece 0 (split 46 name))

abbrev pub is_none {ℓ} : {A : Type ℓ} → List A → Bool
is_none [] = true
is_none (x ∷ xs) = false

unfoldable pub verdicts : Attempt → ActionInfo → List PolicyDecision
unfolding decide_disclosure decide_network_read destination
verdicts attempt info =
    (if is_none info.discloses
      then []
      else decide_disclosure attempt.urls attempt.chain info.discloses (destination attempt.name).0
          (destination attempt.name).1
        ∷ [])
    ++ (if is_none info.network_host
        then []
        else decide_network_read attempt.urls attempt.chain info.network_host ∷ [])

-- `max` of no verdicts raises, which the first test excludes.
unfoldable pub verdict_allows : Option PolicyDecision → Bool
unfolding allowed
verdict_allows none = false
verdict_allows (some verdict) = allowed verdict

unfoldable pub boundary_allows : Attempt → ActionInfo → Bool
unfolding strictest verdicts verdict_allows
boundary_allows attempt info =
    if is_none info.discloses && is_none info.network_host
    then true
    else verdict_allows (strictest (verdicts attempt info))

abbrev pub needs_approval : ActionInfo → Bool
unfolding contains SideEffect-discrete
needs_approval info = contains requires_approval_effects info.side_effect

-- `run_with_retry(perform, origin=Origin.CONNECTOR, idempotent=info.idempotent)`: nobody says that an
-- effect is uncertain, or how many retries are left, and there is no `on_retry`.
abbrev pub connector_caller : Attempt → Caller (Unit {0})
connector_caller attempt = record attempt.caller {
  side_effect_uncertain = λ n. false;
  retries_left = λ n. none;
  on_retry = λ r. passes;
}

-- The calls that were made when the loop ended.
unfoldable pub calls_made : Ended (Unit {0}) → ℕ
calls_made (ended o n trace) = n
calls_made (interrupted p r trace) = r.attempt
calls_made out_of_fuel = 0

-- What follows the loop. A cancelled call or sleep goes on up, and one that hangs goes nowhere: the step
-- then stays as it was written before.
unfoldable pub after_calls : Workflow → Node → ℕ → Run → Ended (Unit {0}) → Option Run
unfolding step_failed step_succeeded update_steps
after_calls wf n i r (ended (returned a) k trace) = step_succeeded wf n i r
after_calls wf n i r (ended (raised exc) k trace) = step_failed wf n i r
after_calls wf n i r (ended cancelled_error k trace) = none
after_calls wf n i r (interrupted (raises exc) b trace) = step_failed wf n i r
after_calls wf n i r (interrupted passes b trace) = none
after_calls wf n i r (interrupted cancelled_pause b trace) = none
after_calls wf n i r (interrupted hangs b trace) = none
after_calls wf n i r out_of_fuel = none

abbrev pub performed : ActionInfo → Attempt → Ended (Unit {0})
performed info attempt =
    run_with_retry (connector_caller attempt) default_policy connector info.idempotent 3

unfoldable pub perform : Workflow → Node → ActionInfo → Attempt → Step → Run → Acted
unfolding after_calls calls_made run_with_retry
perform wf n info attempt step r = record {
  calls = calls_made (performed info attempt);
  after =
      after_calls wf n step.id (set_step step.id (set_status running) r) (performed info attempt);
}

-- The action's step, once the guards have let it pass.
unfoldable pub act : Workflow → Node → ActionInfo → Attempt → Step → Run → Acted
unfolding perform step_succeeded update_steps StepStatus-discrete
act wf n info attempt step r =
    if step.status == running && attempt.existing
    then quiet (step_succeeded wf n step.id r)
    else if step.status == running && not info.idempotent
    then quiet (some (set_step step.id (set_status uncertain) r))
    else perform wf n info attempt step r

unfoldable pub action : Bool → Workflow → Node → Option ActionInfo → Attempt → Step → Run → Acted
unfolding step_failed act approver decision boundary_allows approval_required Result-discrete
action allow_unapproved wf n none attempt step r = quiet (step_failed wf n step.id r)
action allow_unapproved wf n (some info) attempt step r =
    let failing = quiet (step_failed wf n step.id r) in
    let unapproved = nobody (approver wf n.id r) && not allow_unapproved in
    if (decision attempt info).result == deny
    then failing
    else if not (boundary_allows attempt info)
    then failing
    else if approval_required (decision attempt info) && unapproved
    then failing
    else if needs_approval info && unapproved
    then failing
    else act wf n info attempt step r

-- The child run that the agent step waits on.
pub data Child : Type 0 where
  not_started in_progress child_completed child_ended : Child

-- What the service says when the agent handler asks it: whether it could create a child, whether a child of
-- this key exists, and how the child is.
pub record Service : Type 0 where
  pub created : Option ℕ
  pub overrides_valid : Bool
  pub existing_child : Option ℕ
  pub child : Child

abbrev pub link_child : ℕ → Step → Step
link_child child s = record (wait_for for_child s.wait_key s.wake_at s) {
  child_run_id = some child;
}

unfoldable pub agent : Workflow → Node → Service → Step → Run → Moved
unfolding step_failed step_succeeded update_steps StepStatus-discrete
agent wf n service step r =
    let started = set_step step.id (set_status running) r in
    if step.status == pending
    then (elim service.created [
      | none ↦ moved (step_failed wf n step.id started)
      | some child ↦
          if service.overrides_valid
          then some (set_step step.id (link_child child) started, true)
          else moved (step_failed wf n step.id started)
    ])
    else if step.status == running
    then (elim service.existing_child [
      | none ↦ some (set_step step.id (set_status pending) r, true)
      | some child ↦ some (set_step step.id (link_child child) r, true)
    ])
    else (elim service.child [
      | not_started ↦ some (r, true)
      | in_progress ↦ some (r, false)
      | child_completed ↦ moved (step_succeeded wf n step.id r)
      | child_ended ↦ moved (step_failed wf n step.id r)
    ])
