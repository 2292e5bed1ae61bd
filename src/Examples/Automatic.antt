-- ===== src/Examples/Automatic.antt =====
-- Commands that run without asking.
use patch_quest.Common.{
  ◌≡◌, refl, ◌⊎◌, true, false, none, some, [], ◌∷◌, first, any, contains, nat_eq, string_eq,
}
use patch_quest.Text.{codes, text_beq, starts_with, is_within, lstrip, rstrip}
use patch_quest.Commands.{auto, named, basename_from}
use patch_quest.Effects.{side_effect_eq}
use patch_quest.Commands.Sensitive.{touches_sensitive, expand_home_refs, replace_from}
use patch_quest.Commands.Shell.{find_shell_syntax, scan_shell}
use patch_quest.Commands.Risk.{some_starts}
use patch_quest.Commands.Classify.{
  Host, strip, is_nil, classify_command, classify_stripped, classify_split, classify_argv,
  classify_exe, classify_readonly, reads_files, provided_by_repository,
}
use patch_quest.Commands.Automatic.{IsPlain, automatic-IsPlain}

-- A machine on which every command is one word and nothing is forbidden.

abbrev one_word : Host
one_word = record {
  matches_blocked = λ t. false;
  home = codes "/root";
  split = λ t. some (t ∷ []);
  path_outside = λ argv. none;
}

pwd_runs : auto (classify_command one_word (codes "pwd")) ≡ true
unfolding touches_sensitive expand_home_refs replace_from first auto classify_command
    classify_stripped classify_split classify_argv classify_exe classify_readonly reads_files
    provided_by_repository find_shell_syntax scan_shell strip lstrip rstrip named basename_from
    starts_with is_within text_beq any contains some_starts
pwd_runs = refl

automatic-IsPlain_example : (is_nil (strip (codes "pwd")) ≡ true) ⊎ IsPlain one_word (codes "pwd")
automatic-IsPlain_example = automatic-IsPlain one_word (codes "pwd") pwd_runs
