-- ===== src/Commands.antt =====
-- backend/patchquest/tools/command_effects.py: the side-effect class of a command that the risk policy
-- of backend/patchquest/tools/command_risk.py has classified. Its arguments are texts.
pub mod Stopped
pub mod Shell
pub mod Tables
pub mod Risk
pub mod Sensitive
pub mod Classify
pub mod Automatic
use patch_quest.Common.{
  String, Bool, true, false, not, ◌||◌, Option, none, some, List, [], ◌∷◌, ◌++◌, ◌==◌, first, any,
  if◌then◌else◌, nat_eq, string_eq,
}
use patch_quest.Text.{Text, codes, text_beq, starts_with}
use patch_quest.Effects.{
  SideEffect, pure, read_only, workspace_write, repository_write, external_write, host_mutation,
  destructive, unknown,
}

pub data RiskLevel : Type 0 where
  no_risk_auto careful_auto risky_ask blocked : RiskLevel

-- A reason is a text, or an f-string around one.
pub data Reason : Type 0 where
  because : String → Reason
  because_of : String → Text → Reason

pub record Classified : Type 0 where
  pub level : RiskLevel
  pub reason : Reason
  pub argv : List Text
  pub shell_syntax : Option Text

abbrev pub auto_level : RiskLevel → Bool
auto_level no_risk_auto = true
auto_level careful_auto = true
auto_level risky_ask = false
auto_level blocked = false

-- `Decision.auto`
unfoldable pub auto : Classified → Bool
auto d = auto_level d.level

abbrev pub network : List Text
network =
    codes "curl"
    ∷ codes "wget"
    ∷ codes "ssh"
    ∷ codes "scp"
    ∷ codes "sftp"
    ∷ codes "rsync"
    ∷ codes "nc"
    ∷ codes "ncat"
    ∷ codes "telnet"
    ∷ codes "ftp"
    ∷ codes "docker"
    ∷ codes "podman"
    ∷ codes "kubectl"
    ∷ codes "helm"
    ∷ codes "terraform"
    ∷ codes "aws"
    ∷ codes "gcloud"
    ∷ codes "az"
    ∷ []

abbrev pub deleters : List Text
deleters =
    codes "rm" ∷ codes "rmdir" ∷ codes "shred" ∷ codes "dd" ∷ codes "mkfs" ∷ codes "truncate" ∷ []

abbrev pub workspace_writers : List Text
workspace_writers =
    codes "cp"
    ∷ codes "mv"
    ∷ codes "mkdir"
    ∷ codes "touch"
    ∷ codes "tee"
    ∷ codes "chmod"
    ∷ codes "chown"
    ∷ codes "ln"
    ∷ codes "sed"
    ∷ codes "patch"
    ∷ codes "tar"
    ∷ codes "unzip"
    ∷ []

abbrev pub installers : List Text
installers =
    codes "pip"
    ∷ codes "pip3"
    ∷ codes "npm"
    ∷ codes "yarn"
    ∷ codes "pnpm"
    ∷ codes "gem"
    ∷ codes "cargo"
    ∷ codes "apt"
    ∷ codes "apt-get"
    ∷ codes "brew"
    ∷ codes "go"
    ∷ codes "dnf"
    ∷ codes "yum"
    ∷ []

abbrev pub git_host : List Text
git_host = codes "push" ∷ codes "remote" ∷ []

-- `exe in names`
unfoldable pub named : List Text → Text → Bool
unfolding any text_beq
named names exe = any (text_beq exe) names

-- `os.path.basename`: what follows the last slash.
unfoldable pub basename_from : Text → Text → Text
basename_from acc [] = acc
basename_from acc (c ∷ t) =
    let fresh = basename_from [] t in
    let more = basename_from (acc ++ c ∷ []) t in if c == b'/' then fresh else more

abbrev pub basename : Text → Text
basename t = basename_from [] t

abbrev pub or_no_text : Option Text → Text
or_no_text none = []
or_no_text (some t) = t

-- The first argument that is no option.
unfoldable pub subcommand : List Text → Text
unfolding first starts_with
subcommand args = or_no_text (first (λ a. not (starts_with (codes "-") a)) args)

abbrev pub has_syntax : Option Text → Bool
has_syntax none = false
has_syntax (some []) = false
has_syntax (some (c ∷ t)) = true

unfoldable pub executable_effect : Text → List Text → SideEffect
unfolding named subcommand text_beq
executable_effect exe args =
    if text_beq exe (codes "git")
    then (if named git_host (subcommand args)
          || named (codes "fetch" ∷ codes "pull" ∷ codes "clone" ∷ []) (subcommand args)
        then external_write
        else repository_write)
    else if named network exe
    then external_write
    else if named deleters exe
    then destructive
    else if named installers exe
    then host_mutation
    else if named workspace_writers exe
    then workspace_write
    else unknown

abbrev pub plain_effect : Option Text → List Text → SideEffect
plain_effect syntax [] = unknown
plain_effect syntax (a ∷ args) =
    if has_syntax syntax then unknown else executable_effect (basename a) args

abbrev pub no_risk_effect : List Text → SideEffect
no_risk_effect [] = pure
no_risk_effect (a ∷ args) = read_only

abbrev pub level_effect : RiskLevel → Classified → SideEffect
level_effect blocked d = destructive
level_effect no_risk_auto d = no_risk_effect d.argv
level_effect careful_auto d = workspace_write
level_effect risky_ask d = plain_effect d.shell_syntax d.argv

unfoldable pub effect_of : Classified → SideEffect
unfolding executable_effect basename_from
effect_of d = level_effect d.level d
