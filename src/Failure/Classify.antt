-- ===== src/Failure/Classify.antt =====
-- `parse_retry_after`, `_from_http` and `classify` of domain/failures.py.
use patch_quest.Common.{
  ℕ, String, Bool, true, false, ◌&&◌, ◌||◌, Option, none, some, List, [], ◌∷◌, ltb, leb, ◌==◌, any,
  contains, if◌then◌else◌, nat_eq, string_eq,
}
use patch_quest.Text.{Text, codes, is_within, lower}
use patch_quest.Failure.{
  FailureKind, model_timeout, model_rate_limit, model_context_overflow, model_invalid_output,
  model_unavailable, model_auth, connector_auth, connector_rate_limit, connector_unavailable,
  environment_failure, database_failure, internal_invariant, Origin, origin_eq, connector, Float,
  below_zero, finite, infinite, minus_infinite, Failure,
}

-- `a > b` and the builtins `max` and `min`, which keep their first argument where no comparison holds.

abbrev pub greater : Float → Float → Bool
greater (finite a) (finite b) = ltb b a
greater (finite a) (below_zero b) = true
greater (below_zero a) (below_zero b) = ltb a b
greater (finite a) minus_infinite = true
greater (below_zero a) minus_infinite = true
greater infinite minus_infinite = true
greater infinite (finite b) = true
greater infinite (below_zero b) = true
greater _ _ = false

abbrev pub float_max : Float → Float → Float
float_max a b = if greater b a then b else a

abbrev pub float_min : Float → Float → Float
float_min a b = if greater a b then b else a

abbrev pub max_retry_after : Float
max_retry_after = finite 120000

-- `float` is the builtin: none where it raises ValueError.
unfoldable pub parse_retry_after : (String → Option Float) → Option String → Option Float
parse_retry_after float none = none
parse_retry_after float (some value) = if value == "" then none else elim (float value) [
  | none ↦ none
  | some seconds ↦ some (float_min (float_max seconds (finite 0)) max_retry_after)
]

abbrev pub overflow_words : List Text
overflow_words =
    codes "context"
    ∷ codes "maximum"
    ∷ codes "too long"
    ∷ codes "exceed"
    ∷ codes "token limit"
    ∷ codes "max_model_len"
    ∷ []

unfoldable pub mentions_overflow : Text → Bool
unfolding any is_within lower
mentions_overflow body = any (λ w. is_within w (lower body)) overflow_words

unfoldable pub from_http : ℕ → Text → Origin → FailureKind
unfolding contains
from_http status body default_origin =
    let is_connector = default_origin == connector in
    if contains (400 ∷ 413 ∷ 422 ∷ []) status && mentions_overflow body
    then model_context_overflow
    else if status == 429
    then (if is_connector then connector_rate_limit else model_rate_limit)
    else if contains (401 ∷ 403 ∷ []) status
    then (if is_connector then connector_auth else model_auth)
    else if contains (408 ∷ 504 ∷ []) status
    then (if is_connector then connector_unavailable else model_timeout)
    else if leb 500 status || contains (409 ∷ 425 ∷ []) status
    then (if is_connector then connector_unavailable else model_unavailable)
    else (if is_connector then connector_unavailable else model_invalid_output)

-- An exception, by the first of the classes that `classify` tests for; `other` is any other class.
pub data Exception : Type 0 where
  patch_quest_error : FailureKind → String → Option Float → Exception
  http_status_error : ℕ → Text → Option String → Exception
  timeout_exception : String → Exception
  transport_error : String → Exception
  json_decode_error : String → Exception
  operational_error : String → Exception
  permission_or_not_found : String → Exception
  other : String → Exception

-- `describe` stands for the f-strings of `detail`, which nothing decides by.
unfoldable pub classify :
    (String → Option Float) → (Exception → String) → Exception → Origin → Failure
unfolding from_http parse_retry_after
classify float describe (patch_quest_error kind detail retry_after) origin = record {
  kind = kind;
  detail = detail;
  retry_after = retry_after;
}
classify float describe (http_status_error status body header) origin = record {
  kind = from_http status body origin;
  detail = describe (http_status_error status body header);
  retry_after = parse_retry_after float header;
}
classify float describe (timeout_exception n) origin = record {
  kind = if origin == connector then connector_unavailable else model_timeout;
  detail = describe (timeout_exception n);
  retry_after = none;
}
classify float describe (transport_error n) origin = record {
  kind = if origin == connector then connector_unavailable else model_unavailable;
  detail = describe (transport_error n);
  retry_after = none;
}
classify float describe (json_decode_error n) origin = record {
  kind = model_invalid_output;
  detail = describe (json_decode_error n);
  retry_after = none;
}
classify float describe (operational_error n) origin = record {
  kind = database_failure;
  detail = n;
  retry_after = none;
}
classify float describe (permission_or_not_found n) origin = record {
  kind = environment_failure;
  detail = describe (permission_or_not_found n);
  retry_after = none;
}
classify float describe (other n) origin = record {
  kind = internal_invariant;
  detail = describe (other n);
  retry_after = none;
}
