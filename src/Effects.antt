-- ===== src/Effects.antt =====
-- backend/patchquest/domain/effects.py and backend/patchquest/tools/command_effects.py: what an
-- action can change, and the class of a command that the policy gate has classified.
use patch_quest.Common.{
  String, Option, List, [], ◌∷◌, Eq, ◌==◌, discrete_eq, first, nat_eq, string_eq,
}

pub data SideEffect : Type 0 where
  pure read_only network_read workspace_write repository_write : SideEffect
  external_write host_mutation destructive unknown : SideEffect

unfoldable pub SideEffect-discrete : Discrete SideEffect
SideEffect-discrete = hlevel

instance abbrev pub side_effect_eq : Eq SideEffect
unfolding SideEffect-discrete
side_effect_eq = discrete_eq SideEffect-discrete

unfoldable pub grantable : List SideEffect
grantable = pure ∷ read_only ∷ workspace_write ∷ []

unfoldable pub effect_value : SideEffect → String
effect_value pure = "PURE"
effect_value read_only = "READ_ONLY"
effect_value network_read = "NETWORK_READ"
effect_value workspace_write = "WORKSPACE_WRITE"
effect_value repository_write = "REPOSITORY_WRITE"
effect_value external_write = "EXTERNAL_WRITE"
effect_value host_mutation = "HOST_MUTATION"
effect_value destructive = "DESTRUCTIVE"
effect_value unknown = "UNKNOWN"

-- `SideEffect(text)`, which raises for any other text.
abbrev pub side_effects : List SideEffect
side_effects =
    pure ∷ read_only ∷ network_read ∷ workspace_write ∷ repository_write ∷ external_write
    ∷ host_mutation ∷ destructive ∷ unknown ∷ []

unfoldable pub side_effect : String → Option SideEffect
unfolding effect_value first
side_effect text = first (λ e. effect_value e == text) side_effects
