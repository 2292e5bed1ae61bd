-- ===== src/Access.antt =====
-- backend/patchquest/domain/identity.py and backend/patchquest/domain/tenancy.py: who may do what. A
-- workspace id is a text, and the roles of a principal are a dict from workspaces.
pub mod Roles
use patch_quest.Common.{
  String, Bool, true, false, not, Option, none, some, List, [], ◌∷◌, map, Eq, ◌==◌, discrete_eq,
  select, first, contains, if◌then◌else◌, nat_eq, string_eq,
}
use patch_quest.Policy.{lookup}

pub data Role : Type 0 where
  owner admin developer operator viewer service : Role

unfoldable pub Role-discrete : Discrete Role
Role-discrete = hlevel

instance abbrev pub role_eq : Eq Role
unfolding Role-discrete
role_eq = discrete_eq Role-discrete

pub data Permission : Type 0 where
  run_read run_create run_control workflow_manage approval_decide settings_read : Permission
  settings_write members_manage tokens_manage audit_read repository_manage : Permission
  connector_manage org_manage : Permission

unfoldable pub Permission-discrete : Discrete Permission
Permission-discrete = hlevel

instance abbrev pub permission_eq : Eq Permission
unfolding Permission-discrete
permission_eq = discrete_eq Permission-discrete

-- `permission in ROLE_PERMISSIONS[role]`
unfoldable pub role_permissions : Role → Permission → Bool
unfolding contains Permission-discrete
role_permissions owner p = true
role_permissions admin p = not (p == org_manage)
role_permissions developer p =
    contains
      (run_read ∷ run_create ∷ run_control ∷ approval_decide ∷ settings_read ∷ workflow_manage ∷ [])
      p
role_permissions operator p =
    contains (run_read ∷ run_control ∷ approval_decide ∷ settings_read ∷ audit_read ∷ []) p
role_permissions viewer p = contains (run_read ∷ settings_read ∷ []) p
role_permissions service p = contains (run_read ∷ run_create ∷ []) p

pub record Principal : Type 0 where
  pub id : String
  pub kind : String
  pub name : String
  pub org_id : String
  pub roles : List (String × Role)

unfoldable pub role_in : Principal → String → Option Role
unfolding lookup
role_in principal workspace_id = lookup principal.roles workspace_id

abbrev pub permits : Permission → Option Role → Bool
permits permission none = false
permits permission (some role) = role_permissions role permission

unfoldable pub can : Principal → Permission → String → Bool
unfolding role_in
can principal permission workspace_id = permits permission (role_in principal workspace_id)

-- The workspaces in the dict's order; the source sorts them.
unfoldable pub workspaces_with : Principal → Permission → List String
unfolding select
workspaces_with principal permission =
    map (λ entry. entry.0) (select (λ entry. role_permissions entry.1 permission) principal.roles)

pub data Access : Type 0 where
  granted : Access
  forbidden : Permission → String → Access

unfoldable pub authorize : Principal → Permission → String → Access
unfolding can
authorize principal permission workspace_id =
    if can principal permission workspace_id then granted else forbidden permission workspace_id

unfoldable pub may_grant : Role → Role → Bool
unfolding contains Role-discrete
may_grant granter target =
    if contains (owner ∷ admin ∷ []) target
    then granter == owner
    else contains (owner ∷ admin ∷ []) granter

abbrev pub role_strength : List Role
role_strength = owner ∷ admin ∷ developer ∷ operator ∷ viewer ∷ service ∷ []

unfoldable pub strongest : List Role → Option Role
unfolding first contains Role-discrete
strongest roles = first (λ r. contains roles r) role_strength
