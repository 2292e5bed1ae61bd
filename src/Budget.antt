-- ===== src/Budget.antt =====
-- backend/patchquest/domain/budget.py: what a run may spend. Counts and limits are natural numbers, the
-- wall clock's too, in one unit for the seconds used and their limit.
pub mod Exhausted
use patch_quest.Common.{
  ℕ, String, Bool, not, ◌&&◌, Option, List, [], ◌∷◌, leb, Eq, discrete_eq, length, first, contains,
  nat_eq, string_eq,
}

pub data BudgetKind : Type 0 where
  model_calls tokens wall_time commands patch_attempts repair_rounds retries : BudgetKind

unfoldable pub BudgetKind-discrete : Discrete BudgetKind
BudgetKind-discrete = hlevel

instance abbrev pub budget_kind_eq : Eq BudgetKind
unfolding BudgetKind-discrete
budget_kind_eq = discrete_eq BudgetKind-discrete

pub record BudgetLine : Type 0 where
  pub kind : BudgetKind
  pub used : ℕ
  pub limit : ℕ

unfoldable pub unlimited : BudgetLine → Bool
unlimited line = leb line.limit 0

unfoldable pub line_exhausted : BudgetLine → Bool
unfolding unlimited
line_exhausted line = not (unlimited line) && leb line.limit line.used

pub record Counters : Type 0 where
  pub model_calls : ℕ
  pub tokens_used : ℕ
  pub wall_seconds : ℕ
  pub patch_attempts : ℕ
  pub repair_rounds : ℕ
  pub retries : ℕ
  pub commands_run : List String

pub record Limits : Type 0 where
  pub max_model_calls : ℕ
  pub max_total_tokens : ℕ
  pub max_wall_seconds : ℕ
  pub max_commands : ℕ
  pub max_patch_attempts : ℕ
  pub max_repair_rounds : ℕ
  pub max_retries : ℕ

abbrev line : BudgetKind → ℕ → ℕ → BudgetLine
line kind used limit = record { kind = kind; used = used; limit = limit }

unfoldable pub snapshot : Counters → Limits → List BudgetLine
snapshot c l =
    line model_calls c.model_calls l.max_model_calls
    ∷ line tokens c.tokens_used l.max_total_tokens
    ∷ line wall_time c.wall_seconds l.max_wall_seconds
    ∷ line commands (length c.commands_run) l.max_commands
    ∷ line patch_attempts c.patch_attempts l.max_patch_attempts
    ∷ line repair_rounds c.repair_rounds l.max_repair_rounds
    ∷ line retries c.retries l.max_retries
    ∷ []

unfoldable pub exhausted : Counters → Limits → List BudgetKind → Option BudgetLine
unfolding first contains line_exhausted BudgetKind-discrete
exhausted c l among = first (λ b. contains among b.kind && line_exhausted b) (snapshot c l)
