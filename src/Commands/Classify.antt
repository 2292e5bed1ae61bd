-- ===== src/Commands/Classify.antt =====
-- `classify` of backend/patchquest/tools/command_risk.py, over the tools of Risk.
use patch_quest.Common.{
  String, Bool, true, false, not, ◌&&◌, ◌||◌, Option, none, some, List, [], ◌∷◌, any, if◌then◌else◌,
}
use patch_quest.Text.{Text, codes, text_beq, starts_with, is_within, lstrip, rstrip}
use patch_quest.Text.Equality.{text_eq}
use patch_quest.Commands.{
  risky_ask, blocked, because, because_of, Classified, named, basename, basename_from,
}
use patch_quest.Commands.Sensitive.{touches_sensitive}
use patch_quest.Commands.Shell.{find_shell_syntax}
use patch_quest.Commands.Risk.{
  auto_run, ask, ask_about, some_starts, has_arg, is_first, classify_git, classify_toolchain,
}
use patch_quest.Commands.Tables.{readonly_executables, path_readers, find_unsafe}

-- What the code asks of the machine and of libraries: the search for BLOCKED_PATTERNS by `re`, the home
-- directory, `shlex.split`, and the first argument that resolves outside the repository.

pub record Host : Type 0 where
  pub matches_blocked : Text → Bool
  pub home : Text
  pub split : Text → Option (List Text)
  pub path_outside : List Text → Option Text

unfoldable pub strip : Text → Text
unfolding lstrip rstrip
strip t = lstrip (rstrip t)

abbrev pub stop : String → Classified
stop reason = record { level = blocked; reason = because reason; argv = []; shell_syntax = none }

unfoldable pub reads_files : Host → Text → List Text → Classified
unfolding named
reads_files host exe argv = elim (if named path_readers exe then host.path_outside argv else none) [
  | some outside ↦ ask_about "Reads outside the repository" outside argv
  | none ↦ auto_run "Read-only command." argv
]

unfoldable pub classify_readonly : Host → Text → List Text → List Text → Classified
unfolding named text_beq any some_starts reads_files
classify_readonly host exe args argv =
    if text_beq exe (codes "find") && any (named find_unsafe) args
    then ask "find with an action (-exec/-delete/...) can modify files." argv
    else if text_beq exe (codes "rg") && some_starts (codes "--pre" ∷ []) args
    then ask "rg --pre executes a command." argv
    else if text_beq exe (codes "sort")
        && (has_arg "-o" args || some_starts (codes "--output" ∷ []) args)
    then ask "sort -o writes a file." argv
    else reads_files host exe argv

unfoldable pub classify_rest : Text → List Text → List Text → Classified
unfolding named text_beq
classify_rest exe args argv =
    if named (codes "pip" ∷ codes "pip3" ∷ []) exe
      && (is_first "list" args
          || (is_first "show" args || (is_first "freeze" args || is_first "check" args)))
    then auto_run "Read-only pip query." argv
    else if named (codes "pip" ∷ codes "pip3" ∷ []) exe
    then ask "Package installation downloads and runs third-party code." argv
    else if named (codes "python" ∷ codes "python3" ∷ codes "node" ∷ []) exe
    then ask "Runs arbitrary code." argv
    else if named
        (codes "curl"
          ∷ codes "wget"
          ∷ codes "docker"
          ∷ codes "podman"
          ∷ codes "ssh"
          ∷ codes "scp"
          ∷ codes "rsync"
          ∷ [])
        exe
    then ask "Command reaches the network or the container runtime." argv
    else if named
        (codes "rm"
          ∷ codes "mv"
          ∷ codes "cp"
          ∷ codes "chmod"
          ∷ codes "chown"
          ∷ codes "ln"
          ∷ codes "tee"
          ∷ codes "dd"
          ∷ codes "truncate"
          ∷ [])
        exe
    then ask "Command may modify or delete files." argv
    else ask "Unknown command requires approval." argv

abbrev pub is_version : List Text → Bool
is_version [] = false
is_version (a ∷ []) = text_beq a (codes "--version")
is_version (a ∷ _ ∷ _) = false

unfoldable pub classify_exe : Host → Text → List Text → List Text → Classified
unfolding named text_beq classify_readonly classify_git classify_toolchain classify_rest
classify_exe host exe args argv =
    if named (codes "python" ∷ codes "python3" ∷ codes "node" ∷ []) exe && is_version args
    then auto_run "Version check." argv
    else if named readonly_executables exe
    then classify_readonly host exe args argv
    else if text_beq exe (codes "git")
    then classify_git args argv
    else (elim (classify_toolchain exe args argv) [
      | some decision ↦ decision
      | none ↦ classify_rest exe args argv
    ])

unfoldable pub provided_by_repository : Text → Bool
unfolding is_within starts_with
provided_by_repository exe =
    (is_within (codes "/") exe && not (starts_with (codes "/") exe)) || starts_with (codes "./") exe

unfoldable pub classify_argv : Host → List Text → Classified
unfolding classify_exe provided_by_repository basename_from
classify_argv host [] = auto_run "Empty command." []
classify_argv host (a ∷ args) =
    if provided_by_repository a
    then ask "Runs a repository-provided executable." (a ∷ args)
    else classify_exe host (basename a) args (a ∷ args)

unfoldable pub classify_split : Host → Option Text → Option (List Text) → Classified
unfolding classify_argv
classify_split host syntax none = record {
  level = risky_ask;
  reason = because "Could not parse command safely.";
  argv = [];
  shell_syntax = syntax;
}
classify_split host (some syntax) (some argv) = record {
  level = risky_ask;
  reason = because_of "Shell syntax" syntax;
  argv = argv;
  shell_syntax = some syntax;
}
classify_split host none (some argv) = classify_argv host argv

unfoldable pub classify_stripped : Host → Text → Classified
unfolding classify_split find_shell_syntax touches_sensitive
classify_stripped host stripped =
    if host.matches_blocked stripped
    then stop "Command matches a blocked destructive pattern."
    else (elim (touches_sensitive host.home stripped) [
      | some hit ↦ record {
        level = blocked;
        reason = because_of "Command accesses sensitive path" hit;
        argv = [];
        shell_syntax = none;
      }
      | none ↦ classify_split host (find_shell_syntax stripped) (host.split stripped)
    ])

abbrev pub is_nil : Text → Bool
is_nil [] = true
is_nil (c ∷ t) = false

unfoldable pub classify_command : Host → Text → Classified
unfolding classify_stripped strip
classify_command host command =
    if is_nil (strip command)
    then auto_run "Empty command." []
    else classify_stripped host (strip command)
