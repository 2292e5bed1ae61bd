-- ===== src/Commands/Sensitive.antt =====
-- `_touches_sensitive` of backend/patchquest/tools/command_risk.py: the paths of secrets that a command
-- may not name. The home directory is an argument.
use patch_quest.Common.{
  ℕ, zero, suc, ◌-◌, String, ◌||◌, Option, List, [], ◌∷◌, ◌++◌, map, length, first, if◌then◌else◌,
}
use patch_quest.Text.{Text, codes, starts_with, is_within}

-- `t.replace(old, new)` for a nonempty `old`; the first `skipped` characters belong to a match already.
unfoldable pub replace_from : Text → Text → ℕ → Text → Text
unfolding starts_with
replace_from old new skipped [] = []
replace_from old new (suc skipped) (c ∷ t) = replace_from old new skipped t
replace_from old new zero (c ∷ t) =
    let past = replace_from old new (length old - 1) t in
    let on = replace_from old new zero t in if starts_with old (c ∷ t) then new ++ past else c ∷ on

abbrev pub replace : String → Text → Text → Text
replace old new t = replace_from (codes old) new 0 t

unfoldable pub expand_home_refs : Text → Text → Text
unfolding replace_from is_within starts_with
expand_home_refs home t =
    if is_within (codes "~") t || is_within (codes "HOME") t
    then replace "~" home
        (replace "~/" (home ++ codes "/") (replace "$HOME" home (replace "${HOME}" home t)))
    else t

abbrev pub forbidden_prefixes : Text → List Text
forbidden_prefixes home =
    map (λ folder. home ++ codes folder)
      ("/.ssh" ∷ "/.aws" ∷ "/.gcp" ∷ "/.azure" ∷ "/.config/gcloud" ∷ "/.config/gh" ∷ [])

abbrev pub sensitive_files : List Text
sensitive_files =
    map (λ name. codes name)
      ("/etc/shadow" ∷ "/etc/sudoers" ∷ "/proc/self/environ" ∷ ".git-credentials" ∷ ".netrc"
        ∷ "id_rsa" ∷ "id_ed25519" ∷ "id_ecdsa" ∷ "id_dsa" ∷ [])

unfoldable pub touches_sensitive : Text → Text → Option Text
unfolding expand_home_refs first is_within
touches_sensitive home command =
    first (λ name. is_within name (expand_home_refs home command))
      (forbidden_prefixes home ++ sensitive_files)
