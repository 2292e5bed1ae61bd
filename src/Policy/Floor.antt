-- ===== src/Policy/Floor.antt =====
-- Lemmas on the floor of domain/policy.py, and on malformed policies.
use patch_quest.Common.{
  ◌≤◌, String, ◌≡◌, refl, ◌⊎◌, inl, inr, true, Option, some, List, [], ◌∷◌, ◌++◌, arith, Bool-cases,
  first, any, contains, nat_eq, string_eq,
}
use patch_quest.Text.{Text, codes}
use patch_quest.Effects.{
  SideEffect, side_effect_eq, SideEffect-discrete, pure, read_only, network_read, workspace_write,
  repository_write, external_write, host_mutation, destructive, unknown,
}
use patch_quest.Glob.{glob, tokens, some_suffix, fnmatchcase}
use patch_quest.Policy.{
  Policy, Result, Scope, deny, require_approval, allow, allow_with_limits, strictness, evaluate,
  system_floor, malformed, matches, speaks, result_eq,
}
use patch_quest.Policy.Maximum.{weight, top-append, evaluate-top}

star-all : (t : Text) → some_suffix (glob []) t ≡ true
unfolding some_suffix glob
star-all [] = refl
star-all (c ∷ t) = ground (arith, star-all t)

any_action : (t : Text) → fnmatchcase t (codes "*") ≡ true
unfolding fnmatchcase tokens glob
any_action t = star-all t

strict-deny : (r : Result) → 3 ≤ strictness r → r ≡ deny
unfolding strictness
strict-deny deny h = refl
strict-deny require_approval h = absurd (omega arith)
strict-deny allow_with_limits h = absurd (omega arith)
strict-deny allow h = absurd (omega arith)

strict-not_allowed : (r : Result) → 2 ≤ strictness r → (r ≡ require_approval) ⊎ (r ≡ deny)
unfolding strictness
strict-not_allowed deny h = inr refl
strict-not_allowed require_approval h = inl refl
strict-not_allowed allow_with_limits h = absurd (omega arith)
strict-not_allowed allow h = absurd (omega arith)

abbrev pub dangerous : List SideEffect
dangerous = repository_write ∷ external_write ∷ host_mutation ∷ destructive ∷ unknown ∷ []

module _ (action : Text) where
  malformed-weight :
      (effect : Option SideEffect) (name : String) (scope : Scope) (scope_ref why : String)
      → weight action effect (malformed name scope scope_ref why) ≡ 3
  unfolding malformed speaks first matches strictness
  malformed-weight effect name scope scope_ref why = rw (any_action action) refl

  -- Where a policy could not be read, every action is denied, whatever the other policies say.
  pub malformed_denies :
      (effect : Option SideEffect) (before after : List Policy) (name : String) (scope : Scope)
      (scope_ref why : String)
      → (evaluate (before ++ malformed name scope scope_ref why ∷ after) action effect).result
        ≡ deny
  malformed_denies effect before after name scope scope_ref why =
      let bad = malformed name scope scope_ref why in
      strict-deny (evaluate (before ++ bad ∷ after) action effect).result (
        omega (
          arith,
          evaluate-top action effect (before ++ bad ∷ after),
          top-append action effect before (bad ∷ after),
          malformed-weight effect name scope scope_ref why,
        ))

  abbrev secrets : Text
  secrets = codes "artifact.disclose:secret:*"

  floor-dangerous :
      (e : SideEffect) → contains dangerous e ≡ true → 2 ≤ weight action (some e) system_floor
  unfolding system_floor speaks first matches strictness contains any SideEffect-discrete
  floor-dangerous repository_write h = elim (Bool-cases (fnmatchcase action secrets)) [
    | inl y ↦ rw y (omega arith)
    | inr n ↦ rw (n, any_action action) (omega arith)
  ]
  floor-dangerous external_write h = elim (Bool-cases (fnmatchcase action secrets)) [
    | inl y ↦ rw y (omega arith)
    | inr n ↦ rw (n, any_action action) (omega arith)
  ]
  floor-dangerous host_mutation h = elim (Bool-cases (fnmatchcase action secrets)) [
    | inl y ↦ rw y (omega arith)
    | inr n ↦ rw (n, any_action action) (omega arith)
  ]
  floor-dangerous destructive h = elim (Bool-cases (fnmatchcase action secrets)) [
    | inl y ↦ rw y (omega arith)
    | inr n ↦ rw (n, any_action action) (omega arith)
  ]
  floor-dangerous unknown h = elim (Bool-cases (fnmatchcase action secrets)) [
    | inl y ↦ rw y (omega arith)
    | inr n ↦ rw (n, any_action action) (omega arith)
  ]
  floor-dangerous pure h = absurd (cc h)
  floor-dangerous read_only h = absurd (cc h)
  floor-dangerous network_read h = absurd (cc h)
  floor-dangerous workspace_write h = absurd (cc h)

  -- Whatever the stored policies say, an action with a side effect outside the workspace, or an
  -- unknown one, is denied or needs an approval.
  pub floor_holds :
      (e : SideEffect) (policies : List Policy)
      → contains dangerous e ≡ true
      → ((evaluate policies action (some e)).result ≡ require_approval)
        ⊎ ((evaluate policies action (some e)).result ≡ deny)
  floor_holds e policies h =
      strict-not_allowed (evaluate policies action (some e)).result
        (omega (arith, evaluate-top action (some e) policies, floor-dangerous e h))
