-- ===== src/Commands/Tables.antt =====
-- The tables of backend/patchquest/tools/command_risk.py.
use patch_quest.Common.{Option, none, some, List, [], ◌∷◌, if◌then◌else◌}
use patch_quest.Text.{Text, codes, text_beq}

abbrev pub readonly_executables : List Text
readonly_executables =
    codes "pwd"
    ∷ codes "ls"
    ∷ codes "echo"
    ∷ codes "cat"
    ∷ codes "head"
    ∷ codes "tail"
    ∷ codes "wc"
    ∷ codes "sort"
    ∷ codes "uniq"
    ∷ codes "grep"
    ∷ codes "rg"
    ∷ codes "find"
    ∷ codes "which"
    ∷ codes "whoami"
    ∷ codes "date"
    ∷ codes "true"
    ∷ codes "false"
    ∷ codes "file"
    ∷ codes "stat"
    ∷ codes "du"
    ∷ codes "df"
    ∷ []

abbrev pub path_readers : List Text
path_readers =
    codes "ls"
    ∷ codes "cat"
    ∷ codes "head"
    ∷ codes "tail"
    ∷ codes "wc"
    ∷ codes "sort"
    ∷ codes "uniq"
    ∷ codes "grep"
    ∷ codes "rg"
    ∷ codes "find"
    ∷ codes "file"
    ∷ codes "stat"
    ∷ codes "du"
    ∷ []

abbrev pub find_unsafe : List Text
find_unsafe =
    codes "-exec"
    ∷ codes "-execdir"
    ∷ codes "-ok"
    ∷ codes "-okdir"
    ∷ codes "-delete"
    ∷ codes "-fprint"
    ∷ codes "-fprintf"
    ∷ codes "-fls"
    ∷ codes "-fprint0"
    ∷ []

abbrev pub readonly_git : List Text
readonly_git =
    codes "status"
    ∷ codes "diff"
    ∷ codes "log"
    ∷ codes "show"
    ∷ codes "rev-parse"
    ∷ codes "ls-files"
    ∷ codes "blame"
    ∷ codes "describe"
    ∷ codes "shortlog"
    ∷ codes "grep"
    ∷ []

abbrev pub git_arg_unsafe : List Text
git_arg_unsafe =
    codes "--output"
    ∷ codes "--ext-diff"
    ∷ codes "--textconv"
    ∷ codes "-c"
    ∷ codes "--exec-path"
    ∷ codes "--upload-pack"
    ∷ codes "-O"
    ∷ []

-- `GIT_LIST_ONLY`, the options of each subcommand that only lists.
unfoldable pub git_list_only : Text → Option (List Text)
unfolding text_beq
git_list_only sub =
    if text_beq sub (codes "branch")
    then some (
        codes "-a"
        ∷ codes "-r"
        ∷ codes "-v"
        ∷ codes "-vv"
        ∷ codes "--list"
        ∷ codes "--show-current"
        ∷ codes "--all"
        ∷ codes "--remotes"
        ∷ [])
    else if text_beq sub (codes "tag")
    then some (codes "-l" ∷ codes "--list" ∷ codes "-n" ∷ [])
    else if text_beq sub (codes "remote")
    then some (codes "-v" ∷ codes "--verbose" ∷ [])
    else none

abbrev pub risky_git_subcommands : List Text
risky_git_subcommands =
    codes "checkout"
    ∷ codes "reset"
    ∷ codes "clean"
    ∷ codes "stash"
    ∷ codes "rebase"
    ∷ codes "merge"
    ∷ codes "cherry-pick"
    ∷ codes "revert"
    ∷ codes "pull"
    ∷ codes "switch"
    ∷ codes "restore"
    ∷ codes "commit"
    ∷ codes "fetch"
    ∷ codes "clone"
    ∷ codes "config"
    ∷ codes "submodule"
    ∷ codes "worktree"
    ∷ codes "apply"
    ∷ codes "am"
    ∷ []

abbrev pub py_tool_modules : List Text
py_tool_modules =
    codes "pytest"
    ∷ codes "unittest"
    ∷ codes "ruff"
    ∷ codes "mypy"
    ∷ codes "black"
    ∷ codes "isort"
    ∷ codes "flake8"
    ∷ codes "pyflakes"
    ∷ codes "pylint"
    ∷ codes "pyright"
    ∷ []

abbrev pub script_runners : List Text
script_runners = codes "npm" ∷ codes "pnpm" ∷ codes "yarn" ∷ []

abbrev pub pkg_unsafe : List Text
pkg_unsafe =
    codes "install"
    ∷ codes "i"
    ∷ codes "add"
    ∷ codes "ci"
    ∷ codes "update"
    ∷ codes "upgrade"
    ∷ codes "remove"
    ∷ codes "uninstall"
    ∷ codes "publish"
    ∷ codes "exec"
    ∷ codes "x"
    ∷ codes "dlx"
    ∷ codes "link"
    ∷ codes "unlink"
    ∷ codes "login"
    ∷ codes "logout"
    ∷ codes "pack"
    ∷ codes "init"
    ∷ codes "create"
    ∷ codes "up"
    ∷ []

abbrev pub make_safe_targets : List Text
make_safe_targets =
    []
    ∷ codes "test"
    ∷ codes "tests"
    ∷ codes "check"
    ∷ codes "lint"
    ∷ codes "build"
    ∷ codes "all"
    ∷ codes "typecheck"
    ∷ codes "format-check"
    ∷ []
