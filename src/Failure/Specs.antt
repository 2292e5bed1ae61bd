-- ===== src/Failure/Specs.antt =====
-- `SPECS` of domain/failures.py: one row for each kind.
use patch_quest.Common.{true, false, [], ◌∷◌}
use patch_quest.Failure.{
  FailureKind, FailureSpec, info, warning, error, critical, model, connector, tool, command, patch,
  test, repository, sandbox, environment, plugin, storage, budget, user, runtime, Failure,
  model_timeout, model_rate_limit, model_context_overflow, model_invalid_output, model_unavailable,
  model_capability, model_auth, connector_auth, connector_rate_limit, connector_unavailable,
  tool_failure, tool_timeout, command_denied, policy_denied, command_timeout, command_failed,
  patch_parse, patch_conflict, patch_apply, patch_validation, test_failure, baseline_failure,
  repository_drift, sandbox_failure, environment_failure, plugin_failure, database_failure,
  checkpoint_failure, budget_exhausted, user_cancelled, replay_diverged, internal_invariant,
}

unfoldable pub specs : FailureKind → FailureSpec
specs model_timeout = record {
  retryable = true;
  severity = warning;
  origin = model;
  message = "The model took too long to answer.";
  recovery = "retry" ∷ "use a faster or smaller model" ∷ "raise the model timeout" ∷ [];
}
specs model_rate_limit = record {
  retryable = true;
  severity = warning;
  origin = model;
  message = "The model provider is rate limiting requests.";
  recovery = "wait and retry" ∷ "switch provider" ∷ [];
}
specs model_context_overflow = record {
  retryable = false;
  severity = error;
  origin = model;
  message = "The prompt does not fit in the model's context window.";
  recovery = "use a model with a larger context" ∷ "narrow the task" ∷ [];
}
specs model_invalid_output = record {
  retryable = false;
  severity = error;
  origin = model;
  message = "The model's reply could not be understood, even after a repair attempt.";
  recovery = "use a more capable model" ∷ "enable constrained output" ∷ [];
}
specs model_unavailable = record {
  retryable = true;
  severity = error;
  origin = model;
  message = "The model endpoint is not reachable.";
  recovery = "check that the engine is running" ∷ "retry" ∷ "switch provider" ∷ [];
}
specs model_capability = record {
  retryable = false;
  severity = error;
  origin = model;
  message = "This model does not support something the task needs.";
  recovery = "choose a model with the missing capability" ∷ [];
}
specs model_auth = record {
  retryable = false;
  severity = error;
  origin = model;
  message = "The model provider rejected the credentials.";
  recovery = "check the API key" ∷ "switch provider" ∷ [];
}
specs connector_auth = record {
  retryable = false;
  severity = error;
  origin = connector;
  message = "An integration's credentials were rejected.";
  recovery = "reconnect the integration" ∷ [];
}
specs connector_rate_limit = record {
  retryable = true;
  severity = warning;
  origin = connector;
  message = "An integration is rate limiting requests.";
  recovery = "wait and retry" ∷ [];
}
specs connector_unavailable = record {
  retryable = true;
  severity = error;
  origin = connector;
  message = "An integration could not be reached.";
  recovery = "retry" ∷ "check the integration's status" ∷ [];
}
specs tool_failure = record {
  retryable = false;
  severity = error;
  origin = tool;
  message = "A tool failed.";
  recovery = "inspect the tool output" ∷ [];
}
specs tool_timeout = record {
  retryable = true;
  severity = warning;
  origin = tool;
  message = "A tool did not finish in time.";
  recovery = "retry" ∷ "raise the tool timeout" ∷ [];
}
specs command_denied = record {
  retryable = false;
  severity = warning;
  origin = command;
  message = "A command was not allowed to run.";
  recovery = "approve it if it is safe" ∷ "change the command policy" ∷ [];
}
specs policy_denied = record {
  retryable = false;
  severity = warning;
  origin = runtime;
  message = "A policy does not allow this run to do something it needs.";
  recovery =
      "ask a workspace admin to review the policy" ∷ "change the run's provider or settings" ∷ [];
}
specs command_timeout = record {
  retryable = false;
  severity = warning;
  origin = command;
  message = "A command exceeded its time limit and was stopped.";
  recovery = "raise the command timeout" ∷ "narrow what the command runs" ∷ [];
}
specs command_failed = record {
  retryable = false;
  severity = info;
  origin = command;
  message = "A command exited with an error.";
  recovery = "inspect the command output" ∷ [];
}
specs patch_parse = record {
  retryable = false;
  severity = error;
  origin = patch;
  message = "The proposed change was malformed.";
  recovery = "retry with feedback" ∷ "use a more capable model" ∷ [];
}
specs patch_conflict = record {
  retryable = false;
  severity = error;
  origin = patch;
  message = "The change conflicts with the current file contents.";
  recovery = "re-plan against the current files" ∷ [];
}
specs patch_apply = record {
  retryable = false;
  severity = error;
  origin = patch;
  message = "The proposed change could not be applied.";
  recovery = "retry with feedback" ∷ "inspect the proposed edit" ∷ [];
}
specs patch_validation = record {
  retryable = false;
  severity = error;
  origin = patch;
  message = "The change did not pass validation.";
  recovery = "review the failing checks" ∷ "retry from the last checkpoint with another model" ∷ [];
}
specs test_failure = record {
  retryable = false;
  severity = info;
  origin = test;
  message = "Tests failed after the change.";
  recovery = "inspect the failing tests" ∷ [];
}
specs baseline_failure = record {
  retryable = false;
  severity = info;
  origin = test;
  message = "Tests were already failing before the change.";
  recovery = "fix the existing failures first" ∷ [];
}
specs repository_drift = record {
  retryable = false;
  severity = error;
  origin = repository;
  message = "Files changed in the repository while the run was in progress.";
  recovery = "review the changes and confirm" ∷ "start a new run" ∷ [];
}
specs sandbox_failure = record {
  retryable = true;
  severity = error;
  origin = sandbox;
  message = "The isolated workspace could not be used.";
  recovery = "retry" ∷ "run `patchquest doctor`" ∷ [];
}
specs environment_failure = record {
  retryable = false;
  severity = error;
  origin = environment;
  message = "A required tool or setting is missing.";
  recovery = "run `patchquest doctor`" ∷ [];
}
specs plugin_failure = record {
  retryable = false;
  severity = error;
  origin = plugin;
  message = "A plugin failed and was disabled for this run.";
  recovery = "check the plugin's logs" ∷ [];
}
specs database_failure = record {
  retryable = true;
  severity = critical;
  origin = storage;
  message = "PatchQuest's database could not be used.";
  recovery = "retry" ∷ "check disk space and permissions" ∷ [];
}
specs checkpoint_failure = record {
  retryable = false;
  severity = warning;
  origin = storage;
  message = "A checkpoint could not be saved; the run can only resume from an earlier one.";
  recovery = "check disk space" ∷ [];
}
specs budget_exhausted = record {
  retryable = false;
  severity = warning;
  origin = budget;
  message = "The run used up its allowed budget.";
  recovery = "raise the limit and fork the run" ∷ "narrow the task" ∷ [];
}
specs user_cancelled = record {
  retryable = false;
  severity = info;
  origin = user;
  message = "The run was cancelled.";
  recovery = "fork it to try again" ∷ [];
}
specs replay_diverged = record {
  retryable = false;
  severity = warning;
  origin = runtime;
  message = "The replay no longer matches the recorded run, so it was stopped.";
  recovery = "compare the two runs to see where they differ" ∷ [];
}
specs internal_invariant = record {
  retryable = false;
  severity = critical;
  origin = runtime;
  message = "PatchQuest hit an internal error. Nothing was changed in your repository.";
  recovery = "export the run bundle and report it" ∷ [];
}

abbrev pub spec : Failure → FailureSpec
spec f = specs f.kind
