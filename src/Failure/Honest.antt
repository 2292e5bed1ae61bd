-- ===== src/Failure/Honest.antt =====
-- Lemmas on `classify` and `parse_retry_after` of domain/failures.py.
use patch_quest.Common.{
  ℕ, ◌≤◌, String, ◌≡◌, refl, ◌⊎◌, inl, inr, Bool, false, not, ◌&&◌, ◌||◌, Option, none, some, [],
  ◌∷◌, arith, ltb, leb, ◌==◌, Bool-cases, Option-cases, contains, subst, if◌then◌else◌, nat_eq,
  string_eq,
}
use patch_quest.Text.{Text}
use patch_quest.Failure.{
  Origin, origin_eq, connector, Float, below_zero, finite, infinite, minus_infinite, nan,
}
use patch_quest.Failure.Specs.{specs}
use patch_quest.Failure.Classify.{
  float_min, float_max, max_retry_after, parse_retry_after, mentions_overflow, from_http,
}

-- The HTTP statuses after which the same request is sent again.

abbrev pub overflow_status : ℕ → Text → Bool
overflow_status status body = contains (400 ∷ 413 ∷ 422 ∷ []) status && mentions_overflow body

abbrev pub retried_status : Origin → ℕ → Bool
retried_status origin status =
    if origin == connector
    then not (status == 401 || status == 403)
    else status == 429
      || status == 408
      || status == 504
      || leb 500 status
      || status == 409
      || status == 425

-- A status error is retryable exactly when its body does not speak of an overflow under status 400,
-- 413 or 422 and, from a connector, the status is not 401 or 403, or, from anywhere else, it is 408,
-- 409, 425, 429, 504 or at least 500.
pub http_retryable :
    (status : ℕ) (body : Text) (origin : Origin)
    → (specs (from_http status body origin)).retryable
      ≡ (not (overflow_status status body) && retried_status origin status)
unfolding specs from_http
http_retryable status body origin = elim (Bool-cases (origin == connector)) [
  | inl yes' ↦ ground arith
  | inr no' ↦ ground arith
]

abbrev clamp : Float → Float
clamp x = float_min (float_max x (finite 0)) max_retry_after

abbrev pub InRange : Float → Type 0
InRange w = (w ≡ nan) ⊎ ((ms : ℕ) × (w ≡ finite ms) × (ms ≤ 120000))

clamp-InRange : (x : Float) → InRange (clamp x)
clamp-InRange nan = inl refl
clamp-InRange infinite = inr (120000, refl, omega arith)
clamp-InRange minus_infinite = inr (0, refl, omega arith)
clamp-InRange (below_zero n) = inr (0, refl, omega arith)
clamp-InRange (finite n) = elim (Bool-cases (ltb 120000 n)) [
  | inl big ↦ inr (120000, ground arith, omega arith)
  | inr small ↦ inr (n, ground arith, ground arith)
]

-- A wait that was read from `Retry-After` is NaN or between zero and two minutes.
pub retry_after_capped :
    (float : String → Option Float) (header : Option String) (wait : Float)
    → parse_retry_after float header ≡ some wait
    → InRange wait
unfolding parse_retry_after
retry_after_capped float none wait h = absurd (cc h)
retry_after_capped float (some value) wait h = elim (Option-cases (float value)) [
  | inl bad ↦ absurd (ground arith)
  | inr (x, read) ↦ let e : clamp x ≡ wait = ground arith in subst InRange e (clamp-InRange x)
]

-- And it is NaN where the header reads so: the cap does not hold NaN back.
pub nan_passes :
    (float : String → Option Float) (value : String)
    → (value == "") ≡ false
    → float value ≡ some nan
    → parse_retry_after float (some value) ≡ some nan
unfolding parse_retry_after
nan_passes float value nonempty h = rw (nonempty, h, parse_retry_after)
