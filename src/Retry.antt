-- ===== src/Retry.antt =====
-- backend/patchquest/runtime/retry.py: whether and when an operation is tried again.
pub mod Rules
pub mod Loop
use patch_quest.Common.{
  ℕ, zero, suc, ◌+◌, ◌-◌, ◌*◌, ◌^◌, min, String, Bool, true, false, not, ◌&&◌, ◌||◌, Option, none,
  some, List, [], ◌∷◌, ◌++◌, leb, contains, if◌then◌else◌, nat_eq, string_eq,
}
use patch_quest.Failure.{
  FailureKind, failure_kind_eq, command_denied, policy_denied, user_cancelled, budget_exhausted,
  internal_invariant, repository_drift, model_capability, connector_auth, model_auth,
  replay_diverged, patch_parse, model_invalid_output, Failure, Float, finite, Origin,
}
use patch_quest.Failure.Specs.{spec}
use patch_quest.Failure.Classify.{Exception, classify}

unfoldable pub never_retry : List FailureKind
never_retry =
    command_denied ∷ policy_denied ∷ user_cancelled ∷ budget_exhausted ∷ internal_invariant
    ∷ repository_drift ∷ model_capability ∷ connector_auth ∷ model_auth ∷ replay_diverged
    ∷ patch_parse ∷ model_invalid_output ∷ []

-- Delays count thousandths of a second.
pub record RetryPolicy : Type 0 where
  pub max_attempts : ℕ
  pub base_delay : ℕ
  pub max_delay : ℕ

abbrev pub default_policy : RetryPolicy
default_policy = record { max_attempts = 3; base_delay = 500; max_delay = 30000 }

pub data Reason : Type 0 where
  not_retryable : FailureKind → Reason
  uncertain_effect : Reason
  gave_up : ℕ → Reason
  budget_used_up : Reason
  retrying : FailureKind → Reason

pub record RetryDecision : Type 0 where
  pub retry : Bool
  pub delay : Float
  pub reason : Reason

-- `draw` stands for the generator: `uniform(0, c)` at each ceiling `c`. Attempts count from 1.
unfoldable pub backoff : (ℕ → ℕ) → RetryPolicy → ℕ → ℕ
backoff draw policy attempt = draw (min policy.max_delay (policy.base_delay * 2 ^ (attempt - 1)))

abbrev stop : Reason → RetryDecision
stop reason = record { retry = false; delay = finite 0; reason = reason }

abbrev pub spent : Option ℕ → Bool
spent none = false
spent (some n) = leb n 0

abbrev waited : Option Float → Float → Float
waited none computed = computed
waited (some asked) computed = asked

unfoldable pub decide : (ℕ → ℕ) → RetryPolicy → Failure → ℕ → Bool → Bool → Option ℕ → RetryDecision
decide draw policy failure attempt idempotent side_effect_uncertain retries_left =
    if contains never_retry failure.kind || not (spec failure).retryable
    then stop (not_retryable failure.kind)
    else if side_effect_uncertain && not idempotent
    then stop uncertain_effect
    else if leb policy.max_attempts attempt
    then stop (gave_up attempt)
    else if spent retries_left
    then stop budget_used_up
    else record {
      retry = true;
      delay = waited failure.retry_after (finite (backoff draw policy attempt));
      reason = retrying failure.kind;
    }

-- What one call of the operation does.
pub data Outcome (A : Type 0) : Type 0 where
  returned : A → Outcome A
  raised : Exception → Outcome A
  cancelled_error : Outcome A

-- A retry as `on_retry` sees it, and the sleep after it.
pub record Retried : Type 0 where
  pub failure : Failure
  pub attempt : ℕ
  pub uncertain : Bool
  pub decision : RetryDecision

-- What awaiting the hook or the sleep does: a NaN delay, for one, keeps `asyncio.sleep` waiting for ever.
pub data Pause : Type 0 where
  passes : Pause
  raises : Exception → Pause
  cancelled_pause : Pause
  hangs : Pause

-- `on_retry`, and the sleep where it came back.
unfoldable pub then_pause : Pause → Pause → Pause
then_pause passes next = next
then_pause (raises exc) next = raises exc
then_pause cancelled_pause next = cancelled_pause
then_pause hangs next = hangs

-- How the loop ends: with an `Outcome` of the operation, or in a pause before another call, which it may
-- never leave. `out_of_fuel` is no end.
pub data Ended (A : Type 0) : Type 0 where
  ended : Outcome A → ℕ → List Retried → Ended A
  interrupted : Pause → Retried → List Retried → Ended A
  out_of_fuel : Ended A

-- What the callers pass in, and what they do at each attempt.
pub record Caller (A : Type 0) : Type 0 where
  pub operation : ℕ → Outcome A
  pub side_effect_uncertain : ℕ → Bool
  pub retries_left : ℕ → Option ℕ
  pub float : String → Option Float
  pub describe : Exception → String
  pub draw : ℕ → ℕ
  pub on_retry : Retried → Pause
  pub sleep : ℕ → Float → Pause

module _ {A : Type 0} (caller : Caller A) (policy : RetryPolicy) (origin : Origin)
    (idempotent : Bool) where
  unfoldable pub decision_at : ℕ → Exception → RetryDecision
  unfolding decide classify
  decision_at attempt exc =
      decide caller.draw policy (classify caller.float caller.describe exc origin) attempt
        idempotent (caller.side_effect_uncertain attempt) (caller.retries_left attempt)

  unfoldable pub retried_at : ℕ → Exception → Retried
  unfolding decision_at
  retried_at attempt exc = record {
    failure = classify caller.float caller.describe exc origin;
    attempt = attempt;
    uncertain = caller.side_effect_uncertain attempt;
    decision = decision_at attempt exc;
  }

  unfoldable pub pause_after : Retried → Pause
  unfolding then_pause
  pause_after r = then_pause (caller.on_retry r) (caller.sleep r.attempt r.decision.delay)

  unfoldable pub run_from : ℕ → ℕ → List Retried → Ended A
  unfolding pause_after decision_at retried_at
  run_from zero attempt trace = out_of_fuel
  run_from (suc fuel) attempt trace = elim (caller.operation attempt) [
    | returned a ↦ ended (returned a) attempt trace
    | cancelled_error ↦ ended cancelled_error attempt trace
    | raised exc ↦ elim ((decision_at attempt exc).retry) [
      | false ↦ ended (raised exc) attempt trace
      | true ↦ elim (pause_after (retried_at attempt exc)) [
        | passes ↦ run_from fuel (attempt + 1) (trace ++ retried_at attempt exc ∷ [])
        | raises e ↦ interrupted (raises e) (retried_at attempt exc) trace
        | cancelled_pause ↦ interrupted cancelled_pause (retried_at attempt exc) trace
        | hangs ↦ interrupted hangs (retried_at attempt exc) trace
      ]
    ]
  ]

  -- `run_with_retry`, the attempts counted from 1.
  unfoldable pub run_with_retry : ℕ → Ended A
  unfolding run_from
  run_with_retry fuel = run_from fuel 1 []
