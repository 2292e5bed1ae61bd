-- ===== src/Examples/Workflows.antt =====
-- A workflow that posts a comment once somebody has approved it.
use patch_quest.Common.{
  ltb, ◌≤◌, ◌≡◌, refl, ◌↔◌, true, false, Option, none, some, [], ◌∷◌, arith, select, first, any,
  All, contains, if◌then◌else◌, nat_eq, string_eq,
}
use patch_quest.Text.{Text, codes, text_beq, lower, starts_with, split}
use patch_quest.Egress.{
  decide_disclosure, disclosed, disclosure_actions, data_classes, destination_kinds, disclosure_id,
}
use patch_quest.Text.Equality.{text_eq}
use patch_quest.Value.{Value, end, field, get}
use patch_quest.Effects.{external_write, SideEffect-discrete}
use patch_quest.Policy.{PolicyDecision, Result-discrete}
use patch_quest.Policy as Policy
use patch_quest.Failure.{FailureKind-discrete, Origin-discrete}
use patch_quest.Glob.{fnmatchcase}
use patch_quest.Failure.Specs.{specs}
use patch_quest.Failure.Classify.{timeout_exception, classify}
use patch_quest.Retry.{decide, never_retry, returned, raised, passes, run_with_retry}
use patch_quest.Search.{walk, extend}
use patch_quest.Search.Path.{From, start, step}
use patch_quest.Workflow.{
  Workflow, Node, Edge, ActionInfo, ValidationPolicy, approval, action, end_node, NodeType-discrete,
  node, outgoing, incoming, entries, successors, on_cycle, ancestors, past_gate,
  reachable_avoiding_approval, ungated, check_approval_gates, is_dangerous, info_of,
}
use patch_quest.Workflow.Graph.{on_cycle_iff}
use patch_quest.Workflow.Gates.{IsGated, entry_ids, gates_hold}
use patch_quest.Engine.{Step, Run, StepStatus-discrete, WaitKind-discrete}
use patch_quest.Engine as Engine
use patch_quest.Engine.Actions as Actions
use patch_quest.Engine.Actions.{Attempt}
use patch_quest.Engine.Allowed.{Permitted, action-Permitted}
use patch_quest.Engine.Requests.{start_run}
use patch_quest.Engine.Advance.{Inputs, advance}
use patch_quest.Engine.Visits.{visits, visit_limit}
use patch_quest.Engine.Start.{Distinct}
use patch_quest.Engine.Reached.{started, advanced, Reached-visits}

abbrev ask : Node
ask = record { id = codes "ask"; type = approval; config = end; max_visits = 1 }

abbrev post : Node
post = record {
  id = codes "post";
  type = action;
  config = field (codes "action") (Value.text (codes "github.comment")) end;
  max_visits = 1;
}

abbrev done : Node
done = record { id = codes "done"; type = end_node; config = end; max_visits = 1 }

abbrev edge : Node → Node → Edge
edge a b = record { source = a.id; target = b.id; when = none }

abbrev commented : Workflow
commented = record {
  name = codes "comment";
  trigger = record { type = codes "manual"; filter = end };
  nodes = ask ∷ post ∷ done ∷ [];
  edges = edge ask post ∷ edge post done ∷ [];
  variables = end;
  description = [];
  schema = 1;
  layout = end;
}

abbrev comment : ActionInfo
comment = record {
  side_effect = external_write;
  idempotent = false;
  discloses = codes "diff" ∷ [];
  network_host = [];
}

abbrev catalog : Text → Option ActionInfo
catalog name = if text_beq name (codes "github.comment") then some comment else none

abbrev strict : ValidationPolicy
strict = record {
  allow_unapproved_writes = false;
  known_actions = some catalog;
  secret_exists = none;
}

abbrev text_of : Value → Text
text_of v = codes "?"

no_problems : check_approval_gates text_of commented strict ≡ []
unfolding check_approval_gates ungated select contains any SideEffect-discrete NodeType-discrete get
    reachable_avoiding_approval walk extend past_gate node outgoing entries first text_beq
no_problems = refl

dangerous : is_dangerous text_of (info_of text_of catalog post) ≡ true
unfolding contains any SideEffect-discrete get text_beq
dangerous = refl

to_post : From (successors commented) (entry_ids commented) (codes "post")
unfolding entries outgoing select contains any text_beq
to_post = step (start {a = codes "ask"} refl) refl

gates_hold_example : IsGated commented to_post
gates_hold_example =
    gates_hold text_of commented catalog strict 1 post refl refl no_problems refl refl dangerous
      to_post

-- The ask may be answered and asked again.
abbrev retried : Workflow
retried = record commented { edges = edge ask post ∷ edge post ask ∷ [] }

on_cycle_iff_example :
    (on_cycle retried (codes "ask") ≡ true)
    ↔ From (successors retried) (successors retried (codes "ask")) (codes "ask")
on_cycle_iff_example = on_cycle_iff retried (codes "ask")

-- A connector that times out once, and then answers.
abbrev attempt : Attempt
attempt = record {
  chain = [];
  urls = record { hostname = λ t. some t; refusal = λ c k. "" };
  name = codes "github.comment";
  existing = false;
  caller = record {
    operation = λ n. if ltb n 2 then raised (timeout_exception "ReadTimeout") else returned tt;
    side_effect_uncertain = λ n. false;
    retries_left = λ n. none;
    float = λ t. none;
    describe = λ e. "timed out";
    draw = λ c. c;
    on_retry = λ r. passes;
    sleep = λ n d. passes;
  };
}

abbrev post_step : Step
post_step = record {
  id = 2;
  node_id = codes "post";
  visit = 1;
  status = Engine.pending;
  wait_kind = none;
  wait_key = none;
  wake_at = none;
  child_run_id = none;
  decision = none;
  decided_by = none;
}

-- The ask was approved, and the post is next.
abbrev approved_run : Run
approved_run = record {
  state = Engine.active;
  steps =
      record {
        id = 1;
        node_id = codes "ask";
        visit = 1;
        status = Engine.succeeded;
        wait_kind = some Engine.for_approval;
        wait_key = none;
        wake_at = none;
        child_run_id = none;
        decision = some (codes "approved");
        decided_by = some (codes "ana");
      }
      ∷ post_step
      ∷ [];
  next_id = 3;
}

tries_twice : Actions.calls_made (Actions.performed comment attempt) ≡ 2
unfolding run_with_retry Actions.calls_made never_retry FailureKind-discrete Origin-discrete specs
    classify decide contains
tries_twice = refl

asks : (Actions.decision attempt comment).result ≡ Policy.require_approval
unfolding Actions.decision Policy.evaluate Policy.conclude Policy.consult Policy.speaks
    Policy.system_floor Policy.matches fnmatchcase Policy.sorted Policy.answer first contains
    SideEffect-discrete Result-discrete
asks = refl

sends : Actions.boundary_allows attempt comment ≡ true
unfolding Actions.boundary_allows Actions.verdicts Actions.verdict_allows Actions.destination
    Policy.evaluate Policy.conclude Policy.consult Policy.speaks Policy.system_floor Policy.matches
    fnmatchcase Policy.sorted first contains Policy.no_restriction decide_disclosure disclosed
    disclosure_actions data_classes destination_kinds disclosure_id text_beq starts_with split
    SideEffect-discrete Result-discrete Policy.strictest Policy.larger_from Policy.allowed lower
sends = refl

approved_by_ana : Actions.nobody (Actions.approver commented (codes "post") approved_run) ≡ false
unfolding Actions.approver Actions.latest_approval ancestors walk extend incoming select contains
    any text_beq
approved_by_ana = refl

performs_it :
    (Actions.action false commented post (some comment) attempt post_step approved_run).calls ≡ 2
unfolding Actions.action Actions.act Actions.perform Policy.approval_required Result-discrete
    SideEffect-discrete StepStatus-discrete contains
performs_it = rw (asks, sends, approved_by_ana) tries_twice

action-Permitted_example :
    (known : ActionInfo) × (some comment ≡ some known)
    × Permitted false commented post attempt post_step approved_run known
    × ((Actions.action false commented post (some comment) attempt post_step approved_run).calls
        ≤ 3)
action-Permitted_example =
    action-Permitted false commented post (some comment) attempt post_step approved_run
      (omega (arith, performs_it))

-- The clock stands still, and nothing fails.
abbrev quiet : Inputs
quiet = record {
  now = 0;
  raises = false;
  result = true;
  timeout = none;
  event = [];
  seconds = 1;
  info = some comment;
  attempt = attempt;
  service = record {
    created = none;
    overrides_valid = true;
    existing_child = none;
    child = Actions.not_started;
  };
}

distinct : Distinct commented.nodes
unfolding any text_beq
distinct = (refl, (refl, (refl, tt)))

each_once : All (λ n. 1 ≤ n.max_visits) commented.nodes
each_once = (omega arith, (omega arith, (omega arith, tt)))

Reached-visits_example :
    visits (codes "ask") (advance false commented (λ fuel s. quiet) (start_run commented 1)).steps
    ≤ visit_limit commented (codes "ask")
Reached-visits_example =
    Reached-visits false commented
      (advance false commented (λ fuel s. quiet) (start_run commented 1)) (codes "ask") distinct
      each_once (advanced (λ fuel s. quiet) (started 1))
