-- ===== src/Policy/Maximum.antt =====
-- Lemmas on the strictness of what `evaluate` of domain/policy.py returns.
use patch_quest.Common.{
  ℕ, ◌≤◌, max, ◌≡◌, refl, inl, inr, Option, none, some, List, [], ◌∷◌, ◌++◌, arith, Option-cases,
}
use patch_quest.Effects.{SideEffect}
use patch_quest.Text.{Text}
use patch_quest.Policy.{
  Policy, PolicyDecision, Rule, strictness, keep_strictest, insert, sorted, speaks, answer, consult,
  conclude, evaluate, system_floor, Numbers, no_restriction, result_eq, add_limits,
}

module _ (action : Text) (effect : Option SideEffect) where
  abbrev pub rule_weight : Option Rule → ℕ
  rule_weight none = 0
  rule_weight (some r) = strictness r.result

  -- How strict the rule is by which a policy speaks; zero where it is silent.
  abbrev pub weight : Policy → ℕ
  weight p = rule_weight (speaks action effect p)

  abbrev pub top : List Policy → ℕ
  top [] = 0
  top (p ∷ ps) = max (weight p) (top ps)

  top-insert : (p : Policy) (ps : List Policy) → top (insert p ps) ≡ max (weight p) (top ps)
  unfolding insert
  top-insert p [] = refl
  top-insert p (q ∷ qs) = ground (arith, top-insert p qs)

  pub top-sorted : (ps : List Policy) → top (sorted ps) ≡ top ps
  unfolding sorted
  top-sorted [] = refl
  top-sorted (p ∷ ps) = omega (arith, top-insert p (sorted ps), top-sorted ps)

  pub top-append : (ps qs : List Policy) → top (ps ++ qs) ≡ max (top ps) (top qs)
  top-append [] qs = omega arith
  top-append (p ∷ ps) qs = omega (arith, top-append ps qs)

  abbrev level : Option PolicyDecision → ℕ
  level none = 0
  level (some d) = strictness d.result

  level-keep :
      (best : Option PolicyDecision) (p : Policy) (r : Rule)
      → level (some (keep_strictest best (answer action effect p r)))
        ≡ max (level best) (strictness r.result)
  unfolding answer
  level-keep none p r = omega arith
  level-keep (some b) p r = ground arith

  consult-level :
      (ps : List Policy) (best : Option PolicyDecision) (limits : Numbers)
      → level (consult action effect ps best limits).0 ≡ max (level best) (top ps)
  unfolding consult
  consult-level [] best limits = omega arith
  consult-level (p ∷ ps) best limits = elim (Option-cases (speaks action effect p)) [
    | inl e ↦ rw (consult, e) (omega (arith, consult-level ps best limits))
    | inr (r, e) ↦
        let next = keep_strictest best (answer action effect p r) in
        rw (consult, e)
          (omega (arith, level-keep best p r, consult-level ps (some next) (add_limits r limits)))
  ]

  conclude-level :
      (best : Option PolicyDecision) (limits : Numbers)
      → strictness (conclude action effect (best, limits)).result ≡ level best
  unfolding conclude no_restriction strictness
  conclude-level none limits = refl
  conclude-level (some b) limits = ground arith

  -- A decision is exactly as strict as the strictest rule by which the floor or a policy speaks.
  pub evaluate-top :
      (policies : List Policy)
      → strictness (evaluate policies action effect).result ≡ top (system_floor ∷ policies)
  unfolding evaluate
  evaluate-top policies =
      let found = consult action effect (system_floor ∷ sorted policies) none [] in
      omega (
        arith,
        conclude-level found.0 found.1,
        consult-level (system_floor ∷ sorted policies) none [],
        top-sorted policies,
      )

  -- More policies never loosen a decision.
  pub evaluate_monotone :
      (policies more : List Policy)
      → strictness (evaluate policies action effect).result
        ≤ strictness (evaluate (more ++ policies) action effect).result
  evaluate_monotone policies more =
      omega
        (arith, evaluate-top policies, evaluate-top (more ++ policies), top-append more policies)
