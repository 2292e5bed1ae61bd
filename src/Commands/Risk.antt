-- ===== src/Commands/Risk.antt =====
-- `classify` of backend/patchquest/tools/command_risk.py.
use patch_quest.Common.{
  String, Bool, true, false, not, ◌&&◌, ◌||◌, Option, none, some, List, [], ◌∷◌, select, any, all,
  if◌then◌else◌,
}
use patch_quest.Text.{Text, codes, text_beq, starts_with}
use patch_quest.Text.Equality.{text_eq}
use patch_quest.Commands.{
  RiskLevel, no_risk_auto, careful_auto, risky_ask, because, because_of, Classified, named,
}
use patch_quest.Commands.Tables.{
  readonly_git, git_arg_unsafe, git_list_only, risky_git_subcommands, py_tool_modules,
  script_runners, pkg_unsafe, make_safe_targets,
}

abbrev decide_as : RiskLevel → String → List Text → Classified
decide_as level reason argv = record {
  level = level;
  reason = because reason;
  argv = argv;
  shell_syntax = none;
}

abbrev pub auto_run : String → List Text → Classified
auto_run reason argv = decide_as no_risk_auto reason argv

abbrev pub careful : String → List Text → Classified
careful reason argv = decide_as careful_auto reason argv

abbrev pub ask : String → List Text → Classified
ask reason argv = decide_as risky_ask reason argv

abbrev pub ask_about : String → Text → List Text → Classified
ask_about reason t argv = record {
  level = risky_ask;
  reason = because_of reason t;
  argv = argv;
  shell_syntax = none;
}

-- `any(a.startswith(prefixes) for a in args)`
unfoldable pub some_starts : List Text → List Text → Bool
unfolding any starts_with
some_starts prefixes args = any (λ a. any (λ p. starts_with p a) prefixes) args

abbrev pub has_arg : String → List Text → Bool
has_arg option args = named args (codes option)

unfoldable pub git_subcommand : Text → List Text → List Text → Classified
unfolding named some_starts git_list_only all
git_subcommand sub rest argv =
    if text_beq sub (codes "push")
    then ask "Git push requires approval." argv
    else if named readonly_git sub
    then (if some_starts git_arg_unsafe rest
        then ask_about "git with an option that writes or executes" sub argv
        else auto_run "Read-only git command." argv)
    else (elim (git_list_only sub) [
      | some options ↦
          if all (named options) rest
          then auto_run "Read-only git listing." argv
          else ask_about "git with arguments modifies repository state" sub argv
      | none ↦
          if named risky_git_subcommands sub
          then ask_about "Git modifies repository state" sub argv
          else ask_about "Unrecognised git command" sub argv
    ])

unfoldable pub classify_git : List Text → List Text → Classified
unfolding git_subcommand starts_with
classify_git [] argv = auto_run "git (no arguments)." argv
classify_git (sub ∷ rest) argv =
    if starts_with (codes "-") sub
    then ask "git global options can execute commands." argv
    else git_subcommand sub rest argv

abbrev pub head_or_empty : List Text → Text
head_or_empty [] = []
head_or_empty (a ∷ args) = a

abbrev pub is_first : String → List Text → Bool
is_first word [] = false
is_first word (a ∷ args) = text_beq a (codes word)

unfoldable pub check_tool : Text → List Text → List Text → Classified
unfolding named text_beq any
check_tool exe args argv =
    if text_beq exe (codes "ruff")
      && (is_first "format" args && not (has_arg "--check" args || has_arg "--diff" args))
    then ask "ruff format rewrites files." argv
    else if named (codes "black" ∷ codes "isort" ∷ []) exe
        && not (any (λ a. named (codes "--check" ∷ codes "--diff" ∷ codes "-c" ∷ []) a) args)
    then ask_about "rewrites files without --check." exe argv
    else if text_beq exe (codes "eslint") && has_arg "--fix" args
    then ask "eslint --fix rewrites files." argv
    else careful "Test/check tool." argv

unfoldable pub script_tool : Text → List Text → Classified
unfolding named text_beq
script_tool sub argv =
    if named pkg_unsafe sub || text_beq sub []
    then ask "Package manager command may install or publish." argv
    else if named
        (codes "test"
          ∷ codes "run"
          ∷ codes "lint"
          ∷ codes "build"
          ∷ codes "typecheck"
          ∷ codes "check"
          ∷ [])
        sub
    then careful "Running a project script." argv
    else ask "Unrecognised package-manager command." argv

unfoldable pub cargo_tool : Text → List Text → List Text → Classified
unfolding named text_beq
cargo_tool sub args argv =
    if named
      (codes "test"
        ∷ codes "check"
        ∷ codes "clippy"
        ∷ codes "build"
        ∷ codes "doc"
        ∷ codes "bench"
        ∷ [])
      sub
    then careful "Cargo build/test." argv
    else if text_beq sub (codes "fmt")
    then (if has_arg "--check" args
        then careful "cargo fmt --check." argv
        else ask "cargo fmt rewrites files." argv)
    else ask "Cargo command may install, publish or modify the lockfile." argv

-- `targets` are the arguments of make that are no options.
abbrev pub at_most_one : List Text → Bool
at_most_one [] = true
at_most_one (t ∷ []) = true
at_most_one (t ∷ _ ∷ _) = false

unfoldable pub make_tool : List Text → List Text → Classified
unfolding select named starts_with
make_tool args argv =
    let targets = select (λ a. not (starts_with (codes "-") a)) args in
    if at_most_one targets && named make_safe_targets (head_or_empty targets)
    then careful "make test/check target." argv
    else ask "make target is not a recognised test/check target." argv

abbrev pub second : List Text → Option Text
second [] = none
second (a ∷ []) = none
second (a ∷ b ∷ args) = some b

-- `python -m module`, where there is a module.
abbrev pub run_module : Text → List Text → Option Text
run_module exe args =
    if named (codes "python" ∷ codes "python3" ∷ []) exe && is_first "-m" args
    then second args
    else none

unfoldable pub other_tool : Text → List Text → List Text → Option Classified
unfolding named text_beq script_tool cargo_tool make_tool
other_tool exe args argv =
    if text_beq exe (codes "prettier")
    then some (
        if has_arg "--check" args
        then careful "Formatter check." argv
        else ask "prettier rewrites files without --check." argv)
    else if named script_runners exe
    then some (script_tool (head_or_empty args) argv)
    else if text_beq exe (codes "cargo")
    then some (cargo_tool (head_or_empty args) args argv)
    else if text_beq exe (codes "go")
    then some (
        if named (codes "test" ∷ codes "vet" ∷ codes "build" ∷ []) (head_or_empty args)
        then careful "Go build/test." argv
        else ask "Go command may fetch or run code." argv)
    else if text_beq exe (codes "make")
    then some (make_tool args argv)
    else if named (codes "mvn" ∷ codes "gradle" ∷ codes "gradlew" ∷ codes "dotnet" ∷ []) exe
    then some (
        if named (codes "test" ∷ codes "verify" ∷ codes "check" ∷ codes "build" ∷ [])
          (head_or_empty args)
        then careful "JVM/.NET build/test." argv
        else ask "Build tool command is not a recognised test/check target." argv)
    else none

unfoldable pub classify_toolchain : Text → List Text → List Text → Option Classified
unfolding named check_tool other_tool
classify_toolchain exe args argv =
    if named
      (codes "pytest"
        ∷ codes "py.test"
        ∷ codes "tox"
        ∷ codes "nox"
        ∷ codes "mypy"
        ∷ codes "eslint"
        ∷ codes "tsc"
        ∷ codes "ruff"
        ∷ codes "black"
        ∷ codes "isort"
        ∷ codes "flake8"
        ∷ codes "pylint"
        ∷ [])
      exe
    then some (check_tool exe args argv)
    else (elim (run_module exe args) [
      | some name ↦ some (
          if named py_tool_modules name
          then careful "Python test/check module." argv
          else ask_about "python -m runs arbitrary code." name argv)
      | none ↦ other_tool exe args argv
    ])
