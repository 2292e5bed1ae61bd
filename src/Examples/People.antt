-- ===== src/Examples/People.antt =====
-- Roles and budgets.
use patch_quest.Common.{◌≡◌, refl, ◌↔◌, true, some, [], ◌∷◌, nat_eq, string_eq}
use patch_quest.Access.{
  Role, admin, developer, viewer, role_eq, run_read, role_permissions, Principal, owner, authorize,
  granted, may_grant, strongest, members_manage,
}
use patch_quest.Access.Roles.{HasRole, authorize_iff, may_grant_within}
use patch_quest.Budget.{Counters, Limits, retries, commands, exhausted}
use patch_quest.Budget.Exhausted.{Stops, exhausted-Stops}

abbrev ann : Principal
ann = record {
  id = "ann";
  kind = "user";
  name = "Ann";
  org_id = "org_local";
  roles = ("ws_other", owner) ∷ ("ws_local", developer) ∷ [];
}

authorize_iff_example :
    (authorize ann run_read "ws_local" ≡ granted)
    ↔ ((r : Role) × HasRole ann.roles "ws_local" r × (role_permissions r run_read ≡ true))
authorize_iff_example = authorize_iff ann run_read "ws_local"

admin_gives_viewer : may_grant admin viewer ≡ true
unfolding may_grant
admin_gives_viewer = refl

viewer_reads : role_permissions viewer run_read ≡ true
unfolding role_permissions
viewer_reads = refl

may_grant_within_example :
    (role_permissions admin run_read ≡ true) × (role_permissions admin members_manage ≡ true)
may_grant_within_example = may_grant_within admin viewer run_read admin_gives_viewer viewer_reads

of_two : strongest (viewer ∷ developer ∷ []) ≡ some developer
unfolding strongest
of_two = refl

abbrev so_far : Counters
so_far = record {
  model_calls = 3;
  tokens_used = 900;
  wall_seconds = 12;
  patch_attempts = 1;
  repair_rounds = 0;
  retries = 4;
  commands_run = "pytest" ∷ [];
}

abbrev capped : Limits
capped = record {
  max_model_calls = 40;
  max_total_tokens = 0;
  max_wall_seconds = 0;
  max_commands = 0;
  max_patch_attempts = 3;
  max_repair_rounds = 2;
  max_retries = 4;
}

exhausted-Stops_example :
    Stops so_far capped
      (commands ∷ retries ∷ [])
      (exhausted so_far capped (commands ∷ retries ∷ []))
exhausted-Stops_example = exhausted-Stops so_far capped (commands ∷ retries ∷ [])
