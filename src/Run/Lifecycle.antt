-- ===== src/Run/Lifecycle.antt =====
-- Lemmas on the table TRANSITIONS of domain/runs.py.
use patch_quest.Common.{◌≡◌, refl, Bool, true, false, [], ◌∷◌, arith, contains, nat_eq, string_eq}
use patch_quest.Run.{
  RunStatus, run_status_eq, RunStatus-discrete, completed, failed, cancelled, interrupted, terminal,
  active, can_transition,
}

-- The statuses that a run may pass through, one legal change at a time.
pub data Course (s : RunStatus) : RunStatus → Type 0 where
  here : Course s s
  step : {t u : RunStatus} → Course s t → can_transition t u ≡ true → Course s u

-- The statuses that end a run.
unfoldable pub ended : RunStatus → Bool
unfolding contains RunStatus-discrete
ended s = contains (completed ∷ failed ∷ cancelled ∷ []) s

ended_stuck : (s t : RunStatus) → ended s ≡ true → can_transition s t ≡ false
unfolding ended can_transition
ended_stuck s t h = ground arith

-- A run that is completed, failed or cancelled stays so: no course of legal changes leads away from there.
pub terminal_forever : {s t : RunStatus} → ended s ≡ true → Course s t → t ≡ s
terminal_forever h here = refl
terminal_forever h (step {t} {u} c legal) =
    let e = terminal_forever h c in cc (ended_stuck _ u h, e, legal)

-- The statuses that the code calls terminal are those three.
pub terminal_lem : (s : RunStatus) → terminal s ≡ ended s
unfolding terminal ended
terminal_lem s = ground arith

-- The one status that an interruption can follow from is an active one.
pub can_interrupt-active : (s : RunStatus) → can_transition s interrupted ≡ active s
unfolding can_transition active
can_interrupt-active s = ground arith
