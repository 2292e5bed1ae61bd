-- ===== src/Policy.antt =====
-- backend/patchquest/domain/policy.py: what an action may do, by rules attached to scopes.
pub mod Maximum
pub mod Strictest
pub mod Floor
pub mod Prefix
pub mod Numbers
pub mod Ceilings
pub mod Clamp
use patch_quest.Common.{
  ℕ, String, Bool, true, false, not, ◌&&◌, ◌||◌, Option, none, some, List, [], ◌∷◌, ltb, leb, Eq,
  ◌==◌, discrete_eq, first, contains, if◌then◌else◌, nat_eq, string_eq,
}
use patch_quest.Text.{Text, codes}
use patch_quest.Effects.{
  SideEffect, side_effect_eq, SideEffect-discrete, repository_write, external_write, host_mutation,
  destructive, unknown,
}
use patch_quest.Glob.{fnmatchcase}

pub data Scope : Type 0 where
  system organization workspace repository workflow user : Scope

unfoldable pub rank : Scope → ℕ
rank system = 0
rank organization = 1
rank workspace = 2
rank repository = 3
rank workflow = 4
rank user = 5

pub data Result : Type 0 where
  allow allow_with_limits require_approval deny : Result

unfoldable pub Result-discrete : Discrete Result
Result-discrete = hlevel

instance abbrev pub result_eq : Eq Result
unfolding Result-discrete
result_eq = discrete_eq Result-discrete

unfoldable pub strictness : Result → ℕ
strictness allow = 0
strictness allow_with_limits = 1
strictness require_approval = 2
strictness deny = 3

-- A float that `_numbers` admits, since `v < 0` does not hold of it. A finite one counts thousandths.
pub data Number : Type 0 where
  thousandths : ℕ → Number
  unbounded not_a_number : Number

-- `v < w`, which does not hold where either is NaN.
unfoldable pub below : Number → Number → Bool
below (thousandths v) (thousandths w) = ltb v w
below (thousandths v) unbounded = true
below (thousandths v) not_a_number = false
below unbounded w = false
below not_a_number w = false

abbrev pub Numbers : Type 0
Numbers = List (String × Number)

pub record Rule : Type 0 where
  pub action : Text
  pub result : Result
  pub reason : String
  pub effects : List SideEffect
  pub constraints : Numbers

abbrev has_effect : List SideEffect → Option SideEffect → Bool
has_effect es none = false
has_effect es (some e) = contains es e

abbrev is_empty {ℓ} : {A : Type ℓ} → List A → Bool
is_empty [] = true
is_empty (x ∷ xs) = false

unfoldable pub matches : Rule → Text → Option SideEffect → Bool
unfolding contains SideEffect-discrete
matches rule action effect =
    fnmatchcase action rule.action && (is_empty rule.effects || has_effect rule.effects effect)

pub record Policy : Type 0 where
  pub name : String
  pub scope : Scope
  pub rules : List Rule
  pub limits : Numbers
  pub scope_ref : String
  pub version : ℕ
  pub is_malformed : Bool

pub record PolicyDecision : Type 0 where
  pub action : Text
  pub result : Result
  pub reason_code : String
  pub reason : String
  pub source_policy : String
  pub scope : Scope
  pub constraints : Numbers
  pub side_effect : Option SideEffect

unfoldable pub approval_required : PolicyDecision → Bool
unfolding Result-discrete
approval_required d = d.result == require_approval

unfoldable pub allowed : PolicyDecision → Bool
unfolding Result-discrete contains
allowed d = contains (allow ∷ allow_with_limits ∷ []) d.result

abbrev pub need_approval : String → List SideEffect → Rule
need_approval reason effects = record {
  action = codes "*";
  result = require_approval;
  reason = reason;
  effects = effects;
  constraints = [];
}

unfoldable pub system_floor : Policy
system_floor = record {
  name = "system-floor";
  scope = system;
  rules =
      record {
        action = codes "artifact.disclose:secret:*";
        result = deny;
        reason = "secrets are never disclosed outside the runtime";
        effects = [];
        constraints = [];
      }
      ∷ need_approval "it changes the repository" (repository_write ∷ [])
      ∷ need_approval "it changes something outside this machine" (external_write ∷ [])
      ∷ need_approval "it changes the host outside the repository" (host_mutation ∷ [])
      ∷ need_approval "it can delete or overwrite data" (destructive ∷ [])
      ∷ need_approval "PatchQuest cannot tell what it does" (unknown ∷ [])
      ∷ [];
  limits = [];
  scope_ref = "";
  version = 1;
  is_malformed = false;
}

-- `reason` stands for the f-string over the name and the problem.
unfoldable pub malformed : String → Scope → String → String → Policy
malformed name scope scope_ref reason = record {
  name = name;
  scope = scope;
  rules =
      record { action = codes "*"; result = deny; reason = reason; effects = []; constraints = [] }
      ∷ [];
  limits = [];
  scope_ref = scope_ref;
  version = 1;
  is_malformed = true;
}

-- `sorted(policies, key=lambda p: p.scope)`, which is stable.
unfoldable pub insert : Policy → List Policy → List Policy
insert p [] = p ∷ []
insert p (q ∷ qs) =
    let rest = insert p qs in if leb (rank p.scope) (rank q.scope) then p ∷ q ∷ qs else q ∷ rest

unfoldable pub sorted : List Policy → List Policy
unfolding insert
sorted [] = []
sorted (p ∷ ps) = insert p (sorted ps)

-- A dict in the order of its keys: `d.get(k)` and `d[k] = v`.
unfoldable pub lookup {ℓ} : {A : Type ℓ} → List (String × A) → String → Option A
lookup [] k = none
lookup ((j, a) ∷ d) k = let rest = lookup d k in if j == k then some a else rest

unfoldable pub store {ℓ} : {A : Type ℓ} → List (String × A) → String → A → List (String × A)
store [] k v = (k, v) ∷ []
store ((j, a) ∷ d) k v = let rest = store d k v in if j == k then (j, v) ∷ d else (j, a) ∷ rest

unfoldable pub reason_code : Result → Bool → String
reason_code r true = "POLICY_MALFORMED"
reason_code deny false = "POLICY_DENY"
reason_code require_approval false = "APPROVAL_REQUIRED"
reason_code allow_with_limits false = "LIMITED"
reason_code allow false = "POLICY_ALLOW"

-- `limits[k] = min(v, limits.get(k, v))` for each constraint.
unfoldable pub smaller : Number → Option Number → Number
unfolding below
smaller v none = v
smaller v (some w) = if below w v then w else v

unfoldable pub merge : Numbers → Numbers → Numbers
unfolding smaller
merge limits [] = limits
merge limits ((k, v) ∷ cs) = merge (store limits k (smaller v (lookup limits k))) cs

abbrev pub keep_strictest : Option PolicyDecision → PolicyDecision → PolicyDecision
keep_strictest none d = d
keep_strictest (some best) d =
    if ltb (strictness best.result) (strictness d.result) then d else best

abbrev pub add_limits : Rule → Numbers → Numbers
unfolding Result-discrete
add_limits rule limits =
    if rule.result == allow_with_limits then merge limits rule.constraints else limits

module _ (action : Text) (effect : Option SideEffect) where
  -- The rule that speaks for a policy: the first one that matches.
  unfoldable pub speaks : Policy → Option Rule
  speaks policy = first (λ r. matches r action effect) policy.rules

  unfoldable pub answer : Policy → Rule → PolicyDecision
  answer policy rule = record {
    action = action;
    result = rule.result;
    reason_code = reason_code rule.result policy.is_malformed;
    reason = rule.reason;
    source_policy = policy.name;
    scope = policy.scope;
    constraints = [];
    side_effect = effect;
  }

  unfoldable pub consult :
      List Policy → Option PolicyDecision → Numbers → Option PolicyDecision × Numbers
  consult [] best limits = (best, limits)
  consult (policy ∷ policies) best limits = elim (speaks policy) [
    | none ↦ consult policies best limits
    | some rule ↦
        consult policies (some (keep_strictest best (answer policy rule))) (add_limits rule limits)
  ]

  unfoldable pub no_restriction : PolicyDecision
  no_restriction = record {
    action = action;
    result = allow;
    reason_code = "NO_RESTRICTION";
    reason = "no policy restricts this action";
    source_policy = "system-floor";
    scope = system;
    constraints = [];
    side_effect = effect;
  }

  unfoldable pub conclude : Option PolicyDecision × Numbers → PolicyDecision
  unfolding Result-discrete
  conclude (none, limits) = no_restriction
  conclude (some best, limits) =
      if not (is_empty limits) && best.result == allow_with_limits
      then record best { constraints = limits }
      else best

unfoldable pub evaluate : List Policy → Text → Option SideEffect → PolicyDecision
evaluate policies action effect =
    conclude action effect (consult action effect (system_floor ∷ sorted policies) none [])

-- `max` by a key: an item replaces the one that was kept where its key is larger.
unfoldable pub larger_from {ℓ} : {A : Type ℓ} → (A → ℕ) → A → List A → A
larger_from key kept [] = kept
larger_from key kept (x ∷ xs) = larger_from key (if leb (key x) (key kept) then kept else x) xs

-- `strictest`; `max` of no decisions raises.
unfoldable pub strictest : List PolicyDecision → Option PolicyDecision
unfolding larger_from strictness
strictest [] = none
strictest (d ∷ ds) = some (larger_from (λ e. strictness e.result) d ds)

-- The smallest ceiling so far, and the policy that set it.
pub record Ceiling : Type 0 where
  pub value : Number
  pub source : Policy

unfoldable pub lower_ceiling : Option Ceiling → Number → Bool
unfolding below
lower_ceiling none value = true
lower_ceiling (some c) value = below value c.value

unfoldable pub add_ceilings : Policy → Numbers → List (String × Ceiling) → List (String × Ceiling)
unfolding store lookup lower_ceiling
add_ceilings policy [] out = out
add_ceilings policy ((key, value) ∷ limits) out = add_ceilings policy limits (
    if lower_ceiling (lookup out key) value
    then store out key (record { value = value; source = policy })
    else out)

unfoldable pub ceilings : List Policy → List (String × Ceiling) → List (String × Ceiling)
unfolding add_ceilings
ceilings [] out = out
ceilings (policy ∷ policies) out = ceilings policies (add_ceilings policy policy.limits out)

unfoldable pub effective_limits : List Policy → List (String × Ceiling)
unfolding ceilings sorted
effective_limits policies = ceilings (sorted policies) []
