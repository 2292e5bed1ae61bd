-- ===== src/Commands/Automatic.antt =====
-- Lemmas on the automatic levels of `classify` in tools/command_risk.py.
use patch_quest.Common.{
  ◌≡◌, refl, ◌⊎◌, inl, inr, true, false, Option, none, some, List, [], ◌∷◌, Bool-cases,
  Option-cases, any, contains, nat_eq, string_eq,
}
use patch_quest.Text.{Text}
use patch_quest.Effects.{side_effect_eq, SideEffect-discrete, grantable}
use patch_quest.Commands.{
  Classified, RiskLevel, no_risk_auto, careful_auto, risky_ask, blocked, auto, auto_level,
  level_effect, no_risk_effect, effect_of,
}
use patch_quest.Commands.Sensitive.{touches_sensitive}
use patch_quest.Commands.Shell.{find_shell_syntax, found_any}
use patch_quest.Commands.Classify.{
  Host, strip, is_nil, classify_split, classify_stripped, classify_command,
}

-- A command that is empty, or that has passed each guard: no blocked pattern, no sensitive path, no shell
-- syntax, and arguments that shlex could split.

pub record IsPlain (host : Host) (command : Text) : Type 0 where
  pub allowed : host.matches_blocked (strip command) ≡ false
  pub harmless : found_any (touches_sensitive host.home (strip command)) ≡ false
  pub no_syntax : found_any (find_shell_syntax (strip command)) ≡ false
  pub argv : List Text
  pub parsed : host.split (strip command) ≡ some argv

split_plain :
    (host : Host) (syntax : Option Text) (argv : Option (List Text))
    → auto (classify_split host syntax argv) ≡ true
    → (found_any syntax ≡ false) × ((as' : List Text) × (argv ≡ some as'))
unfolding classify_split auto
split_plain host none none h = absurd (cc h)
split_plain host (some t) none h = absurd (cc h)
split_plain host (some t) (some as') h = absurd (cc h)
split_plain host none (some as') h = (refl, (as', refl))

-- A command that runs without asking is empty, or has passed each guard: no blocked pattern, no sensitive
-- path, no shell syntax, and arguments that could be split.
pub automatic-IsPlain :
    (host : Host) (command : Text)
    → auto (classify_command host command) ≡ true
    → (is_nil (strip command) ≡ true) ⊎ IsPlain host command
unfolding classify_command classify_stripped auto
automatic-IsPlain host command h = elim (Bool-cases (is_nil (strip command))) [
  | inl y ↦ inl y
  | inr n ↦ elim (Bool-cases (host.matches_blocked (strip command))) [
    | inl bad ↦ absurd (cc (rw bad at (rw n at h)))
    | inr fine ↦ elim (Option-cases (touches_sensitive host.home (strip command))) [
      | inr (hit, e) ↦ absurd (cc (rw e at (rw fine at (rw n at h))))
      | inl e ↦
          let (quiet, (as', s)) =
            split_plain host (find_shell_syntax (strip command)) (host.split (strip command))
              (rw e at (rw fine at (rw n at h))) in
          inr (record {
            allowed = fine;
            harmless = rw e refl;
            no_syntax = quiet;
            argv = as';
            parsed = s;
          })
    ]
  ]
]

-- An automatic decision has an effect that may be granted for a whole run.
pub automatic_grantable : (d : Classified) → auto d ≡ true → contains grantable (effect_of d) ≡ true
unfolding auto effect_of contains any SideEffect-discrete grantable
automatic_grantable d h = by_level d.level d.argv h
  where
    by_argv : (argv : List Text) → contains grantable (no_risk_effect argv) ≡ true
    by_argv [] = refl
    by_argv (a ∷ args) = refl

    by_level :
        (l : RiskLevel) (argv : List Text)
        → auto_level l ≡ true
        → contains grantable (level_effect l d) ≡ true
    by_level careful_auto argv h = refl
    by_level risky_ask argv h = absurd (cc h)
    by_level blocked argv h = absurd (cc h)
    by_level no_risk_auto argv h = by_argv d.argv
