-- ===== src/Examples/Policies.antt =====
-- Failures, retries, patterns, policies and approvals.
use patch_quest.Common.{
  ℕ, ◌≡◌, refl, sym, ◌≢◌, ◌⊎◌, true, false, not, ◌&&◌, ◌||◌, Option, none, some, List, [], ◌∷◌,
  ◌++◌, arith, ltb, any, All, contains, subst, if◌then◌else◌, nat_eq, string_eq,
}
use patch_quest.Text.{Text, codes, text_beq}
use patch_quest.Effects.{
  side_effect_eq, SideEffect-discrete, external_write, workspace_write, grantable, effect_value,
  side_effect,
}
use patch_quest.Failure.{Failure, model_timeout, connector, model, finite, infinite}
use patch_quest.Failure.Specs.{specs}
use patch_quest.Failure.Classify.{from_http, parse_retry_after, timeout_exception}
use patch_quest.Failure.Honest.{
  http_retryable, overflow_status, retried_status, retry_after_capped, InRange,
}
use patch_quest.Retry.{default_policy, decide, Caller, returned, raised, passes, run_with_retry}
use patch_quest.Retry.Rules.{decide_rules}
use patch_quest.Retry.Loop.{Done, run_with_retry-Done}
use patch_quest.Retry.{spent}
use patch_quest.Failure.Specs.{spec}
use patch_quest.Policy.{
  Rule, thousandths, Policy, workspace, allow, deny, require_approval, organization, strictness,
  evaluate, system_floor, malformed, effective_limits, strictest, sorted, PolicyDecision,
}
use patch_quest.Policy.Maximum.{top, evaluate-top}
use patch_quest.Policy.Floor.{malformed_denies, floor_holds, dangerous}
use patch_quest.Policy.Strictest.{verdict, answers, or_unrestricted, evaluate-strictest}
use patch_quest.Policy.Numbers.{is_number}
use patch_quest.Policy.Ceilings.{Honours, PureNumbers, SetBy, effective_limits-Honours}
use patch_quest.Policy.Clamp.{Clamped, Settings, clamp_setting, clamp_setting-Clamped}
use patch_quest.Commands.{
  because, Classified, risky_ask, auto, basename, basename_from, named, workspace_writers,
  effect_of,
}
use patch_quest.Commands.Stopped.{Writes, command_stopped}
use patch_quest.Db.{
  Env, ApprovalRow, Store, Result, ok, err, Fence, get_db, update_where, count_where,
}
use patch_quest.Approval.{
  approve_once, approve_for_run, Request, request, new_request, decide as rule_now, insert_grant,
  status_for, decision_value, deny as refuse, Texts, Ruling, Outcome as Decided_outcome,
  find_approval, is_pending, forbidden, write_decision, decide_seen, resolve,
}
use patch_quest.Approval.Decisions.{Op, ask, run_out, rule_on, run_op, after}
use patch_quest.Approval.First.{first_decision_stands, decide_race}
use patch_quest.Approval.Grants.{Confined, after-Confined}

abbrev timed_out : Failure
timed_out = record { kind = model_timeout; detail = "connect"; retry_after = none }

decide_rules_example :
    (decide (λ c. c) default_policy timed_out 2 false false (some 4)).retry
    ≡ ((spec timed_out).retryable && (false || not false) && ltb 2 3 && not (spent (some 4)))
decide_rules_example = decide_rules (λ c. c) default_policy timed_out 2 false false (some 4)

-- The first two calls time out, and the third answers.
abbrev flaky : Caller ℕ
flaky = record {
  operation = λ n. if ltb n 3 then raised (timeout_exception "ReadTimeout") else returned 42;
  side_effect_uncertain = λ n. false;
  retries_left = λ n. none;
  float = λ t. none;
  describe = λ e. "timed out";
  draw = λ c. c;
  on_retry = λ r. passes;
  sleep = λ n d. passes;
}

run_with_retry-Done_example :
    Done flaky default_policy model false 1 (run_with_retry flaky default_policy model false 5)
run_with_retry-Done_example =
    run_with_retry-Done flaky default_policy model false 5 (omega arith) (omega arith)

http_retryable_example :
    (specs (from_http 404 [] connector)).retryable
    ≡ (not (overflow_status 404 []) && retried_status connector 404)
http_retryable_example = http_retryable 404 [] connector

reads_infinity : parse_retry_after (λ t. some infinite) (some "inf") ≡ some (finite 120000)
unfolding parse_retry_after
reads_infinity = refl

retry_after_capped_example : InRange (finite 120000)
retry_after_capped_example =
    retry_after_capped (λ t. some infinite) (some "inf") (finite 120000) reads_infinity

-- A workspace policy that refuses pushes, and caps the model calls of its runs.
abbrev no_push : Policy
no_push = record {
  name = "no-push";
  scope = workspace;
  rules =
      record {
        action = codes "command.git*";
        result = deny;
        reason = "no pushes";
        effects = [];
        constraints = [];
      }
      ∷ [];
  limits = ("agent.max_model_calls", thousandths 20000) ∷ [];
  scope_ref = "ws_local";
  version = 1;
  is_malformed = false;
}

abbrev push : Text
push = codes "command.git"

abbrev git_rule : Rule
git_rule = record {
  action = codes "command.git*";
  result = deny;
  reason = "no pushes";
  effects = [];
  constraints = [];
}

evaluate-top_example :
    strictness (evaluate (no_push ∷ []) push none).result
    ≡ top push none (system_floor ∷ no_push ∷ [])
evaluate-top_example = evaluate-top push none (no_push ∷ [])

malformed_denies_example :
    (evaluate
      ((no_push ∷ []) ++ malformed "broken" organization "org_local" "not a mapping" ∷ [])
      push
      none).result
    ≡ deny
malformed_denies_example =
    malformed_denies push none (no_push ∷ []) [] "broken" organization "org_local" "not a mapping"

is_dangerous : contains dangerous external_write ≡ true
unfolding contains any SideEffect-discrete
is_dangerous = refl

floor_holds_example :
    ((evaluate (no_push ∷ []) push (some external_write)).result ≡ require_approval)
    ⊎ ((evaluate (no_push ∷ []) push (some external_write)).result ≡ deny)
floor_holds_example = floor_holds push external_write (no_push ∷ []) is_dangerous

evaluate-strictest_example :
    verdict (evaluate (no_push ∷ []) push none)
    ≡ verdict (
        or_unrestricted push none
          (strictest (answers push none (system_floor ∷ sorted (no_push ∷ [])))))
evaluate-strictest_example = evaluate-strictest push none (no_push ∷ [])

abbrev lenient : PolicyDecision
lenient = record {
  action = push;
  result = allow;
  reason_code = "POLICY_ALLOW";
  reason = "";
  source_policy = "team";
  scope = workspace;
  constraints = [];
  side_effect = none;
}

picks_refusal :
    strictest (lenient ∷ record lenient { result = deny } ∷ [])
    ≡ some (record lenient { result = deny })
unfolding strictest strictness
picks_refusal = refl

is_pure : All PureNumbers (no_push ∷ [])
unfolding is_number
is_pure = ((refl, tt), tt)

effective_limits-Honours_example :
    All (Honours (effective_limits (no_push ∷ []))) (no_push ∷ [])
    × All (SetBy (no_push ∷ [])) (effective_limits (no_push ∷ []))
effective_limits-Honours_example = effective_limits-Honours (no_push ∷ []) is_pure

clamp_setting-Clamped_example :
    (after : Settings) × (clamp_setting (λ name. 40) [] "agent.max_model_calls" (thousandths 20000)
      ≡ some after)
    × Clamped (λ name. 40) [] "agent.max_model_calls" 20000 after
clamp_setting-Clamped_example = clamp_setting-Clamped (λ name. 40) [] "agent.max_model_calls" 20000

abbrev at_noon : Env
at_noon = record { now = 1200; uid = 77 }

abbrev wants_push : ApprovalRow
wants_push = record {
  id = 5;
  run_id = 1;
  type = "command";
  command = some "git push";
  reason = some "publish the branch";
  status = "pending";
  created_at = 1100;
  side_effect = some "EXTERNAL_WRITE";
  risk = none;
  phase = some "deliver";
  requested_by = "runtime";
  expires_at = some 1300;
  resources = [];
  resolved_at = none;
  decision = none;
  note = none;
  decided_by = none;
  modified_command = none;
}

abbrev asked : Store
asked = record { runs = []; events = []; event_seq = 0; approvals = wants_push ∷ []; grants = [] }

abbrev as_written : Texts
as_written = record { signature = λ c. c; message = λ d a. a.type }

abbrev yes_once : Ruling
yes_once = record {
  decision = approve_once;
  actor = "user:ann";
  note = none;
  modified_command = none;
}

abbrev answered : ApprovalRow
unfolding resolve
answered = resolve at_noon yes_once wants_push

abbrev settled : Store
settled = record asked { approvals = answered ∷ [] }

abbrev outcome_of : Result (Decided_outcome × Store) → Decided_outcome × Store
outcome_of (ok r) = r
outcome_of (err e) =
    (record { approval_id = 0; decision = refuse; status = ""; command = none }, asked)

abbrev ruled : Decided_outcome × Store
unfolding decide_seen
ruled = outcome_of (decide_seen as_written at_noon 1 5 yes_once asked asked)

abbrev too_late : List (Env × Option Fence × Op)
too_late =
    (at_noon, none, run_out 5)
    ∷ (at_noon, none, rule_on 1 5 (record yes_once { decision = refuse }))
    ∷ []

is_found : find_approval 5 settled.approvals ≡ some answered
unfolding find_approval answered
is_found = refl

first_decision_stands_example :
    find_approval 5 (after as_written too_late settled).approvals ≡ some answered
unfolding answered
first_decision_stands_example =
    first_decision_stands as_written too_late 5 answered settled refl is_found

gone : All (λ a. is_pending 5 a ≡ false) settled.approvals
unfolding is_pending answered
gone = (refl, tt)

decide_race_example :
    decide_seen as_written at_noon 1 5 yes_once asked settled ≢ ok (ruled.0, settled)
decide_race_example = decide_race as_written at_noon 1 5 yes_once asked settled ruled.0 settled gone

-- A build is asked for and approved for the rest of the run; a push is asked for, and is not granted.
abbrev wants_build : Request
wants_build = record {
  kind = "command";
  reason = "build the project";
  command = some "make build";
  side_effect = workspace_write;
  risk = none;
  phase = none;
  requested_by = "runtime";
  timeout_s = none;
  resources = [];
}

abbrev for_the_run : Ruling
for_the_run = record yes_once { decision = approve_for_run }

abbrev build_granted : List (Env × Option Fence × Op)
build_granted =
    (at_noon, none, ask 1 wants_build)
    ∷ (at_noon, none, rule_on 1 77 for_the_run)
    ∷ (at_noon, none, rule_on 1 5 for_the_run)
    ∷ []

one_grant :
    (after as_written build_granted asked).grants
    ≡ record {
      run_id = 1;
      signature = "make build";
      side_effect = "WORKSPACE_WRITE";
      approval_id = 77;
      created_at = 1200;
    }
      ∷ []
unfolding after run_op request new_request rule_now decide_seen find_approval side_effect forbidden
    write_decision resolve is_pending insert_grant get_db update_where count_where effect_value
    grantable contains status_for decision_value
one_grant = refl

after-Confined_example : Confined (after as_written build_granted asked)
after-Confined_example = after-Confined as_written build_granted asked tt

-- `git push`, which the risk policy asks about.
abbrev git_push : Classified
git_push = record {
  level = risky_ask;
  reason = because "changes a remote";
  argv = codes "git" ∷ codes "push" ∷ [];
  shell_syntax = none;
}

not_automatic : auto git_push ≡ false
unfolding auto
not_automatic = refl

no_writer : ¬ (Writes git_push.shell_syntax git_push.argv)
unfolding named basename_from text_beq
no_writer = λ (exe, args, same', _, writes).
    let whole : codes "git" ≡ exe = cc in
    let named' : named workspace_writers (basename (codes "git")) ≡ true =
      subst (λ w. named workspace_writers (basename w) ≡ true) (sym whole) writes in
    absurd (cc named')

command_stopped_example :
    ((evaluate (no_push ∷ []) push (some (effect_of git_push))).result ≡ require_approval)
    ⊎ ((evaluate (no_push ∷ []) push (some (effect_of git_push))).result ≡ deny)
command_stopped_example = command_stopped push git_push (no_push ∷ []) not_automatic no_writer
