-- ===== src/Commands/Stopped.antt =====
-- Lemmas on the classes of tools/command_effects.py under the floor of domain/policy.py.
use patch_quest.Common.{
  ◌≡◌, refl, ◌⊎◌, inl, inr, Bool, true, false, ◌||◌, Option, some, List, [], ◌∷◌, Bool-cases, any,
  contains, if◌then◌else◌, nat_eq, string_eq,
}
use patch_quest.Text.{Text, codes, text_beq}
use patch_quest.Effects.{
  side_effect_eq, SideEffect-discrete, workspace_write, repository_write, external_write,
  host_mutation, destructive, unknown,
}
use patch_quest.Policy.{Policy, evaluate, require_approval, deny}
use patch_quest.Policy.Floor.{dangerous, floor_holds}
use patch_quest.Commands.{
  RiskLevel, no_risk_auto, careful_auto, risky_ask, blocked, Classified, auto, auto_level, basename,
  named, network, deleters, installers, git_host, subcommand, workspace_writers, has_syntax,
  executable_effect, plain_effect, level_effect, effect_of,
}

-- A plain call, without shell syntax, of an executable that writes in the workspace.

abbrev pub Writes : Option Text → List Text → Type 0
Writes syntax argv =
    (exe : Text) × (args : List Text) × (argv ≡ exe ∷ args)
    × (has_syntax syntax ≡ false)
    × (named workspace_writers (basename exe) ≡ true)

by_tests :
    (git remote network deletes installs writes : Bool)
    → (contains dangerous (
          if git
          then (if remote then external_write else repository_write)
          else if network
          then external_write
          else if deletes
          then destructive
          else if installs
          then host_mutation
          else if writes
          then workspace_write
          else unknown)
        ≡ true)
      ⊎ (writes ≡ true)
unfolding contains any SideEffect-discrete
by_tests true true n d i w = inl refl
by_tests true false n d i w = inl refl
by_tests false r true d i w = inl refl
by_tests false r false true i w = inl refl
by_tests false r false false true w = inl refl
by_tests false r false false false true = inr refl
by_tests false r false false false false = inl refl

executable_writes :
    (exe : Text) (args : List Text)
    → (contains dangerous (executable_effect exe args) ≡ true)
      ⊎ (named workspace_writers exe ≡ true)
unfolding executable_effect
executable_writes exe args =
    by_tests (text_beq exe (codes "git"))
      (named git_host (subcommand args)
        || named (codes "fetch" ∷ codes "pull" ∷ codes "clone" ∷ []) (subcommand args))
      (named network exe) (named deleters exe) (named installers exe) (named workspace_writers exe)

plain-Writes :
    (syntax : Option Text) (argv : List Text)
    → (contains dangerous (plain_effect syntax argv) ≡ true) ⊎ Writes syntax argv
unfolding contains any SideEffect-discrete
plain-Writes syntax [] = inl refl
plain-Writes syntax (a ∷ args) = elim (Bool-cases (has_syntax syntax)) [
  | inl y ↦ rw y (inl refl)
  | inr n ↦ rw n (elim (executable_writes (basename a) args) [
    | inl bad ↦ inl bad
    | inr w ↦ inr (a, args, refl, refl, w)
  ])
]

level-Writes :
    (level : RiskLevel) (d : Classified)
    → (auto_level level ≡ true)
      ⊎ (contains dangerous (level_effect level d) ≡ true)
      ⊎ Writes d.shell_syntax d.argv
unfolding contains any SideEffect-discrete
level-Writes no_risk_auto d = inl refl
level-Writes careful_auto d = inl refl
level-Writes blocked d = inr (inl refl)
level-Writes risky_ask d = inr (plain-Writes d.shell_syntax d.argv)

-- Whatever the stored policies say, a command that is neither automatic nor a plain call of an
-- executable that writes in the workspace is denied or needs an approval, for any action it is asked
-- under.
pub command_stopped :
    (action : Text) (d : Classified) (policies : List Policy)
    → auto d ≡ false
    → ¬ (Writes d.shell_syntax d.argv)
    → ((evaluate policies action (some (effect_of d))).result ≡ require_approval)
      ⊎ ((evaluate policies action (some (effect_of d))).result ≡ deny)
unfolding auto effect_of
command_stopped action d policies manual plain = elim (level-Writes d.level d) [
  | inl yes' ↦ absurd (cc (manual, yes'))
  | inr (inl bad) ↦ floor_holds action (effect_of d) policies bad
  | inr (inr w) ↦ absurd (plain w)
]
