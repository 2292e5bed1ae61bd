-- ===== src/Failure.antt =====
-- backend/patchquest/domain/failures.py: one vocabulary for what can go wrong in a run.
pub mod Specs
pub mod Classify
pub mod Honest
use patch_quest.Common.{ℕ, String, Bool, Option, List, Eq, discrete_eq}

pub data FailureKind : Type 0 where
  model_timeout model_rate_limit model_context_overflow model_invalid_output model_unavailable
        model_capability :
      FailureKind
  model_auth connector_auth connector_rate_limit connector_unavailable tool_failure tool_timeout :
      FailureKind
  command_denied policy_denied command_timeout command_failed patch_parse patch_conflict :
      FailureKind
  patch_apply patch_validation test_failure baseline_failure repository_drift sandbox_failure :
      FailureKind
  environment_failure plugin_failure database_failure checkpoint_failure budget_exhausted
        user_cancelled :
      FailureKind
  replay_diverged internal_invariant : FailureKind

unfoldable pub FailureKind-discrete : Discrete FailureKind
FailureKind-discrete = hlevel

instance abbrev pub failure_kind_eq : Eq FailureKind
unfolding FailureKind-discrete
failure_kind_eq = discrete_eq FailureKind-discrete

pub data Severity : Type 0 where
  info warning error critical : Severity

pub data Origin : Type 0 where
  model connector tool command patch test repository : Origin
  sandbox environment plugin storage budget user runtime : Origin

unfoldable pub Origin-discrete : Discrete Origin
Origin-discrete = hlevel

instance abbrev pub origin_eq : Eq Origin
unfolding Origin-discrete
origin_eq = discrete_eq Origin-discrete

pub record FailureSpec : Type 0 where
  pub retryable : Bool
  pub severity : Severity
  pub origin : Origin
  pub message : String
  pub recovery : List String

-- A Python float where the code only compares: finite values count thousandths, and
-- `below_zero n` is -(n + 1) of them.
pub data Float : Type 0 where
  below_zero : ℕ → Float
  finite : ℕ → Float
  infinite minus_infinite nan : Float

pub record Failure : Type 0 where
  pub kind : FailureKind
  pub detail : String
  pub retry_after : Option Float
