-- ===== src/Run.antt =====
-- backend/patchquest/domain/runs.py: the statuses of a run and the table of legal changes.
pub mod Lifecycle
use patch_quest.Common.{String, Bool, true, false, List, [], ◌∷◌, Eq, ◌==◌, discrete_eq, contains}

pub data RunStatus : Type 0 where
  created queued running waiting_approval cancel_requested : RunStatus
  interrupted completed failed cancelled : RunStatus

unfoldable pub RunStatus-discrete : Discrete RunStatus
RunStatus-discrete = hlevel

instance abbrev pub run_status_eq : Eq RunStatus
unfolding RunStatus-discrete
run_status_eq = discrete_eq RunStatus-discrete

-- The values of the `StrEnum`, as they stand in the database.
abbrev pub value : RunStatus → String
value created = "created"
value queued = "queued"
value running = "running"
value waiting_approval = "waiting_approval"
value cancel_requested = "cancel_requested"
value interrupted = "interrupted"
value completed = "completed"
value failed = "failed"
value cancelled = "cancelled"

unfoldable pub transitions : RunStatus → List RunStatus
transitions created = running ∷ queued ∷ cancelled ∷ failed ∷ []
transitions queued = running ∷ cancelled ∷ failed ∷ []
transitions running =
    waiting_approval ∷ cancel_requested ∷ completed ∷ failed ∷ cancelled ∷ interrupted ∷ []
transitions waiting_approval = running ∷ cancel_requested ∷ cancelled ∷ failed ∷ interrupted ∷ []
transitions cancel_requested = cancelled ∷ completed ∷ failed ∷ interrupted ∷ []
transitions interrupted = running ∷ queued ∷ cancelled ∷ failed ∷ []
transitions completed = []
transitions failed = []
transitions cancelled = []

-- `TERMINAL`: the statuses with no way on.
unfoldable pub terminal : RunStatus → Bool
unfolding transitions
terminal s = elim (transitions s) [ [] ↦ true | _ ∷ _ ↦ false ]

-- `ACTIVE`
unfoldable pub active : RunStatus → Bool
unfolding contains RunStatus-discrete
active s = contains (running ∷ waiting_approval ∷ cancel_requested ∷ []) s

unfoldable pub can_transition : RunStatus → RunStatus → Bool
unfolding transitions contains RunStatus-discrete
can_transition current target = contains (transitions current) target
