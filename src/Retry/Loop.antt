-- ===== src/Retry/Loop.antt =====
-- Lemmas on the loop of `run_with_retry` in runtime/retry.py.
use patch_quest.Common.{
  ◌≢◌, ℕ, zero, suc, ◌+◌, ◌≤◌, ◌<◌, max, ◌≡◌, refl, sym, ap, ◌⊎◌, inl, inr, Bool, true, false, List,
  [], ◌∷◌, ◌++◌, arith, Bool-cases, length, length-append, All, subst,
}
use patch_quest.Failure.{Origin}
use patch_quest.Failure.Specs.{spec}
use patch_quest.Failure.Classify.{Exception, classify}
use patch_quest.Retry.{
  RetryPolicy, Outcome, returned, raised, cancelled_error, Retried, Ended, ended, Caller, Pause,
  passes, raises, cancelled_pause, hangs, interrupted, pause_after, decision_at, retried_at,
  run_from, run_with_retry,
}
use patch_quest.Retry.Rules.{decide_rules}

-- What made a repeat admissible.

pub record IsSafe (policy : RetryPolicy) (idempotent : Bool) (r : Retried) : Type 0 where
  pub retryable : (spec r.failure).retryable ≡ true
  pub harmless : (idempotent ≡ true) ⊎ (r.uncertain ≡ false)
  pub below : r.attempt < policy.max_attempts

module _ {A : Type 0} (caller : Caller A) (policy : RetryPolicy) (origin : Origin)
    (idempotent : Bool) where
  -- The loop came to its own end: with the outcome of the last call, and where that raised, no retry.
  pub record Own (o : Ended A) (calls : ℕ) (trace : List Retried) : Type 0 where
    pub ends : o ≡ ended (caller.operation calls) calls trace
    pub stops :
        (exc : Exception)
        → caller.operation calls ≡ raised exc
        → (decision_at caller policy origin idempotent calls exc).retry ≡ false

  -- The loop was about to call again, and the hook or the sleep before that call did not come back.
  pub record Interrupted (o : Ended A) (calls : ℕ) (trace : List Retried) : Type 0 where
    pub exc : Exception
    pub failed : caller.operation calls ≡ raised exc
    pub again : (decision_at caller policy origin idempotent calls exc).retry ≡ true
    pub pause : Pause
    pub given :
        pause_after caller policy origin idempotent
          (retried_at caller policy origin idempotent calls exc)
        ≡ pause
    pub stuck : pause ≢ passes
    pub ends : o ≡ interrupted pause (retried_at caller policy origin idempotent calls exc) trace

  -- The end of the loop: how many calls were made, and one safe retry before each but the first.
  pub record Done (start : ℕ) (o : Ended A) : Type 0 where
    pub calls : ℕ
    pub trace : List Retried
    pub finishes : Own o calls trace ⊎ Interrupted o calls trace
    pub made : calls ≤ max start policy.max_attempts
    pub counted : length trace + 1 ≡ calls
    pub safe : All (IsSafe policy idempotent) trace

  retried-IsSafe :
      (attempt : ℕ) (exc : Exception)
      → (decision_at caller policy origin idempotent attempt exc).retry ≡ true
      → IsSafe policy idempotent (retried_at caller policy origin idempotent attempt exc)
  unfolding decision_at retried_at
  retried-IsSafe attempt exc h =
      let rules =
        decide_rules caller.draw policy (classify caller.float caller.describe exc origin) attempt
          idempotent (caller.side_effect_uncertain attempt) (caller.retries_left attempt) in
      record { retryable = ground arith; harmless = ground arith; below = ground arith }

  Outcome-cases :
      (o : Outcome A)
      → ((a : A) × (o ≡ returned a))
        ⊎ (o ≡ cancelled_error)
        ⊎ ((exc : Exception) × (o ≡ raised exc))
  Outcome-cases (returned a) = inl (a, refl)
  Outcome-cases cancelled_error = inr (inl refl)
  Outcome-cases (raised exc) = inr (inr (exc, refl))

  Pause-cases :
      (p : Pause)
      → (p ≡ passes) ⊎ ((exc : Exception) × (p ≡ raises exc)) ⊎ (p ≡ cancelled_pause) ⊎ (p ≡ hangs)
  Pause-cases passes = inl refl
  Pause-cases (raises exc) = inr (inl (exc, refl))
  Pause-cases cancelled_pause = inr (inr (inl refl))
  Pause-cases hangs = inr (inr (inr refl))

  All-snoc :
      (P : Retried → Type 0) (rs : List Retried) (r : Retried)
      → All P rs
      → P r
      → All P (rs ++ r ∷ [])
  All-snoc P [] r h p = (p, tt)
  All-snoc P (x ∷ rs) r h p = (h.0, All-snoc P rs r h.1 p)

  run_from-Done :
      (fuel attempt : ℕ) (trace : List Retried)
      → policy.max_attempts < attempt + fuel
      → 0 < fuel
      → length trace + 1 ≡ attempt
      → All (IsSafe policy idempotent) trace
      → Done attempt (run_from caller policy origin idempotent fuel attempt trace)
  unfolding run_from
  run_from-Done zero attempt trace enough some' count safe = absurd (omega arith)
  run_from-Done (suc fuel) attempt trace enough some' count safe =
      elim (Outcome-cases (caller.operation attempt)) [
        | inl (a, e) ↦ rw (e, run_from) (finished (returned a) e (λ exc h. absurd (cc (e, h))))
        | inr (inl e) ↦ rw (e, run_from) (finished cancelled_error e (λ exc h. absurd (cc (e, h))))
        | inr (inr (exc, e)) ↦
            elim (Bool-cases (decision_at caller policy origin idempotent attempt exc).retry) [
              | inr no' ↦ rw (e, run_from) (rw no' (finished (raised exc) e (only exc e no')))
              | inl again ↦
                  let next = retried_at caller policy origin idempotent attempt exc in
                  rw (e, run_from)
                    (rw again (
                      paused exc e again (
                        later (attempt_below exc again) (
                          run_from-Done fuel (attempt + 1) (trace ++ next ∷ []) (omega arith)
                            (omega (arith, attempt_below exc again))
                            (omega (arith, length-append trace (next ∷ [])))
                            (All-snoc (IsSafe policy idempotent) trace next safe
                              (retried-IsSafe attempt exc again))))))
            ]
      ]
    where
      at_end : (o : Ended A) → Own o attempt trace ⊎ Interrupted o attempt trace → Done attempt o
      at_end o how = record {
        calls = attempt;
        trace = trace;
        finishes = how;
        made = omega arith;
        counted = count;
        safe = safe;
      }

      finished :
          (o : Outcome A)
          → caller.operation attempt ≡ o
          → ((exc : Exception)
              → caller.operation attempt ≡ raised exc
              → (decision_at caller policy origin idempotent attempt exc).retry ≡ false)
          → Done attempt (ended o attempt trace)
      finished o e none' =
          at_end (ended o attempt trace)
            (inl (record { ends = ap (λ w. ended w attempt trace) (sym e); stops = none' }))

      only :
          (exc : Exception)
          → caller.operation attempt ≡ raised exc
          → (decision_at caller policy origin idempotent attempt exc).retry ≡ false
          → (exc' : Exception) → caller.operation attempt ≡ raised exc'
          → (decision_at caller policy origin idempotent attempt exc').retry ≡ false
      only exc e no' exc' e' =
          let same' : exc ≡ exc' = cc (e, e') in
          subst (λ x. (decision_at caller policy origin idempotent attempt x).retry ≡ false) same'
            no'

      broken :
          (exc : Exception) (p : Pause)
          → caller.operation attempt ≡ raised exc
          → (decision_at caller policy origin idempotent attempt exc).retry ≡ true
          → pause_after caller policy origin idempotent
              (retried_at caller policy origin idempotent attempt exc)
            ≡ p
          → p ≢ passes
          → Done attempt
              (interrupted p (retried_at caller policy origin idempotent attempt exc) trace)
      broken exc p e again is stuck =
          at_end (interrupted p (retried_at caller policy origin idempotent attempt exc) trace) (
            inr (record {
              exc = exc;
              failed = e;
              again = again;
              pause = p;
              given = is;
              stuck = stuck;
              ends = refl;
            }))

      paused :
          (exc : Exception)
          → caller.operation attempt ≡ raised exc
          → (decision_at caller policy origin idempotent attempt exc).retry ≡ true
          → Done attempt (
              run_from caller policy origin idempotent fuel
                (attempt + 1)
                (trace ++ retried_at caller policy origin idempotent attempt exc ∷ []))
          → Done attempt
              (elim (pause_after caller policy origin idempotent
                (retried_at caller policy origin idempotent attempt exc)) [
                  | passes ↦
                      run_from caller policy origin idempotent fuel
                        (attempt + 1)
                        (trace ++ retried_at caller policy origin idempotent attempt exc ∷ [])
                  | raises x ↦
                      interrupted
                        (raises x)
                        (retried_at caller policy origin idempotent attempt exc)
                        trace
                  | cancelled_pause ↦
                      interrupted cancelled_pause
                        (retried_at caller policy origin idempotent attempt exc)
                        trace
                  | hangs ↦
                      interrupted hangs
                        (retried_at caller policy origin idempotent attempt exc)
                        trace
                ])
      paused exc e again rest =
          let next = retried_at caller policy origin idempotent attempt exc in
          elim (Pause-cases (pause_after caller policy origin idempotent next)) [
            | inl p ↦ rw p rest
            | inr (inl (x, p)) ↦ rw p (broken exc (raises x) e again p (λ h. absurd (cc h)))
            | inr (inr (inl p)) ↦ rw p (broken exc cancelled_pause e again p (λ h. absurd (cc h)))
            | inr (inr (inr p)) ↦ rw p (broken exc hangs e again p (λ h. absurd (cc h)))
          ]

      attempt_below :
          (exc : Exception)
          → (decision_at caller policy origin idempotent attempt exc).retry ≡ true
          → attempt < policy.max_attempts
      attempt_below exc again = unfold retried_at in (retried-IsSafe attempt exc again).below

      later : {o : Ended A} → attempt < policy.max_attempts → Done (attempt + 1) o → Done attempt o
      later below d = record {
        calls = d.calls;
        trace = d.trace;
        finishes = d.finishes;
        made = omega (arith, d.made);
        counted = d.counted;
        safe = d.safe;
      }

  -- With as much fuel as the policy has attempts, and some, the model comes to an end: after at most
  -- `max_attempts` calls, or one, with the outcome of the last call, where that did not raise or is not to
  -- be retried, or else in the pause after it, where the hook or the sleep raises, is cancelled or hangs;
  -- and before each later call the failure was of a retryable kind, the attempt below the limit, and the
  -- operation idempotent or certainly without effect so far.
  pub run_with_retry-Done :
      (fuel : ℕ)
      → policy.max_attempts ≤ fuel
      → 0 < fuel
      → Done 1 (run_with_retry caller policy origin idempotent fuel)
  unfolding run_with_retry
  run_with_retry-Done fuel enough some' = run_from-Done fuel 1 [] (omega arith) some' refl tt
