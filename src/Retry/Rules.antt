-- ===== src/Retry/Rules.antt =====
-- Lemmas on `decide` of runtime/retry.py.
use patch_quest.Common.{
  ℕ, ◌-◌, ◌*◌, ◌^◌, ◌≤◌, min, ◌≡◌, inl, inr, Bool, true, false, not, ◌&&◌, ◌||◌, Option, none,
  arith, ltb, Bool-cases, contains, nat_eq, string_eq,
}
use patch_quest.Failure.{FailureKind, failure_kind_eq, FailureKind-discrete, Failure, finite}
use patch_quest.Failure.Specs.{specs, spec}
use patch_quest.Retry.{RetryPolicy, never_retry, backoff, decide, spent}

-- `NEVER_RETRY` names no kind that the table calls retryable.

never_retry_kinds : (k : FailureKind) → contains never_retry k ≡ true → (specs k).retryable ≡ false
unfolding never_retry specs contains FailureKind-discrete
never_retry_kinds k h = ground arith

-- The answer is to retry exactly when the table calls the kind retryable, a repeat is harmless or the
-- effect did not happen, an attempt is left, and the run's budget of retries is not used up.
pub decide_rules :
    (draw : ℕ → ℕ) (policy : RetryPolicy) (failure : Failure) (attempt : ℕ)
    (idempotent uncertain : Bool) (left : Option ℕ)
    → (decide draw policy failure attempt idempotent uncertain left).retry ≡ (
        (spec failure).retryable
        && (idempotent || not uncertain)
        && ltb attempt policy.max_attempts
        && not (spent left))
unfolding decide
decide_rules draw policy failure attempt idempotent uncertain left =
    ground (arith, never_retry_kinds failure.kind)

-- A wait that nobody asked for is at most the policy's longest, if the generator keeps its range.
pub decide_delay :
    (draw : ℕ → ℕ) (policy : RetryPolicy) (failure : Failure) (attempt : ℕ)
    (idempotent uncertain : Bool) (left : Option ℕ)
    → ((c : ℕ) → draw c ≤ c)
    → failure.retry_after ≡ none
    → (ms : ℕ) × ((decide draw policy failure attempt idempotent uncertain left).delay ≡ finite ms)
      × (ms ≤ policy.max_delay)
      × (ms ≤ policy.base_delay * 2 ^ (attempt - 1))
unfolding decide backoff
decide_delay draw policy failure attempt idempotent uncertain left range h =
    let answer = decide draw policy failure attempt idempotent uncertain left in
    let wait = min policy.max_delay (policy.base_delay * 2 ^ (attempt - 1)) in
    elim (Bool-cases answer.retry) [
      | inl again ↦ (draw wait, ground arith, omega (arith, range wait), omega (arith, range wait))
      | inr no' ↦ (0, ground arith, omega arith, omega arith)
    ]
