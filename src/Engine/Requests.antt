-- ===== src/Engine/Requests.antt =====
-- What people and outside events ask of a run: `start`, `decide`, `cancel`, `resolve`, and the wake-up in
-- `deliver_event`.
use patch_quest.Common.{
  ℕ, suc, Bool, false, ◌&&◌, ◌||◌, Option, none, some, List, [], ◌∷◌, ◌==◌, first, any,
  if◌then◌else◌, nat_eq, string_eq,
}
use patch_quest.Text.{Text, codes, text_beq}
use patch_quest.Text.Equality.{text_eq}
use patch_quest.Workflow.{Workflow, Node, Edge, entries}
use patch_quest.Engine.{
  StepStatus, step_status_eq, StepStatus-discrete, pending, waiting, succeeded, failed, skipped,
  uncertain, active, cancelled, WaitKind, wait_kind_eq, WaitKind-discrete, for_approval, for_event,
  Step, Run, active_step, is_terminal, update_steps, set_status, new_step, finish, fail_run, fire,
  run_of, has_label, unlabelled, or_fail, has_id, set_step,
}

unfoldable pub start_steps : List Node → Run → Run
unfolding new_step
start_steps [] r = r
start_steps (n ∷ ns) r = start_steps ns (new_step n.id 1 r)

-- The rows that `start` inserts, the definition having passed its checks.
unfoldable pub start_run : Workflow → ℕ → Run
unfolding start_steps entries
start_run wf first_id =
    start_steps (entries wf) (record { state = active; steps = []; next_id = first_id })

abbrev pub is_kind : WaitKind → Option WaitKind → Bool
unfolding WaitKind-discrete
is_kind k none = false
is_kind k (some j) = j == k

abbrev pub awaits_approval : Text → Step → Bool
unfolding StepStatus-discrete text_beq
awaits_approval node_id s =
    s.node_id == node_id && (s.status == waiting && is_kind for_approval s.wait_kind)

unfoldable pub count_steps : (Step → Bool) → List Step → ℕ
count_steps p [] = 0
count_steps p (s ∷ ss) = let n = count_steps p ss in if p s then suc n else n

abbrev answer : Bool → Text → Step → Step
answer approve actor s = record s {
  status = succeeded;
  decision = some (codes (if approve then "approved" else "denied"));
  decided_by = some actor;
}

abbrev pub approved_edge : Edge → Bool
approved_edge e = unlabelled e || has_label "approved" e

-- `decide`: an answer to a step that waits for one; a denial that leads nowhere fails the run.
unfoldable pub decide : Workflow → Text → Bool → Text → Run → Option Run
unfolding count_steps update_steps fire fail_run text_beq StepStatus-discrete
decide wf node_id approve actor r =
    let s = record r {
      steps = update_steps (awaits_approval node_id) (answer approve actor) r.steps;
    } in
    if count_steps (awaits_approval node_id) r.steps == 1
    then (if approve
        then run_of (fire wf approved_edge node_id s)
        else or_fail (fire wf (has_label "denied") node_id s))
    else none

-- `cancel`: nothing where the run is over.
unfoldable pub cancel : Run → Run
unfolding update_steps active_step finish is_terminal
cancel r =
    if is_terminal r.state
    then r
    else finish cancelled
        (record r { steps = update_steps (λ s. active_step s.status) (set_status skipped) r.steps })

-- What a person says of an action that may have happened.
pub data Settled : Type 0 where
  happened retry failed_for_good : Settled

abbrev pub settled_status : Settled → StepStatus
settled_status happened = succeeded
settled_status retry = pending
settled_status failed_for_good = failed

unfoldable pub first_uncertain : Text → List Step → Option Step
unfolding first text_beq StepStatus-discrete
first_uncertain node_id steps = first (λ s. s.node_id == node_id && s.status == uncertain) steps

unfoldable pub settle_as : Workflow → Text → Step → Settled → Text → Run → Option Run
unfolding update_steps fire
settle_as wf node_id row outcome actor r =
    let s =
      set_step row.id (λ s. record s { status = settled_status outcome; decided_by = some actor })
        r in
    elim outcome [
      | happened ↦ run_of (fire wf unlabelled node_id s)
      | retry ↦ some s
      | failed_for_good ↦ some s
    ]

unfoldable pub resolve : Workflow → Text → Settled → Text → Run → Option Run
unfolding first_uncertain settle_as
resolve wf node_id outcome actor r = elim (first_uncertain node_id r.steps) [
  | none ↦ none
  | some row ↦ settle_as wf node_id row outcome actor r
]

abbrev pub is_key : Text → Option Text → Bool
unfolding text_beq
is_key key none = false
is_key key (some k) = k == key

-- A step that waits for an event of this type; its filter and the workspace are matched by the caller.
abbrev pub awaits_event : Text → ℕ → Step → Bool
unfolding StepStatus-discrete
awaits_event event i s =
    has_id i s
    && (s.status == waiting && (is_kind for_event s.wait_kind && is_key event s.wait_key))

unfoldable pub wake_event : Workflow → Text → Step → Run → Option Run
unfolding update_steps fire any StepStatus-discrete
wake_event wf event step r =
    if awaits_event event step.id step
    then run_of (
        fire wf unlabelled step.node_id (record r {
          steps =
              update_steps (λ s. has_id step.id s && s.status == waiting) (set_status succeeded)
                r.steps;
        }))
    else some r
