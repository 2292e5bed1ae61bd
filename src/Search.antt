-- ===== src/Search.antt =====
-- The stack loops over a graph by which backend/patchquest/domain/workflows.py validates: `while stack`.
pub mod Path
pub mod Correct
use patch_quest.Common.{
  ℕ, zero, suc, Bool, List, [], ◌∷◌, Eq, contains, if◌then◌else◌, nat_eq, string_eq,
}

pub data Walk (K : Type 0) : Type 0 where
  found : Walk K
  visited : List K → Walk K
  out_of_fuel : Walk K

module _ {K : Type 0} ⦃k : Eq K⦄ where
  -- `stack.extend(xs)`; the top of the stack comes first here.
  unfoldable pub extend : List K → List K → List K
  extend [] stack = stack
  extend (x ∷ xs) stack = extend xs (x ∷ stack)

  -- Pops until the stack is empty or a goal is met; `seen` holds what was popped before.
  unfoldable pub walk : (K → List K) → (K → Bool) → ℕ → List K → List K → Walk K
  unfolding contains extend
  walk next goal zero stack seen = out_of_fuel
  walk next goal (suc n) [] seen = visited seen
  walk next goal (suc n) (cur ∷ stack) seen =
      let skip = walk next goal n stack seen in
      let on = walk next goal n (extend (next cur) stack) (cur ∷ seen) in
      if contains seen cur then skip else if goal cur then found else on
