-- ===== src/Policy/Strictest.antt =====
-- Lemmas on the loop of `evaluate` and on `strictest` in domain/policy.py.
use patch_quest.Common.{
  ℕ, ◌≤◌, ◌<◌, String, ◌≡◌, refl, sym, ap, ◌∙◌, inl, inr, not, ◌&&◌, Option, none, some, List, [],
  ◌∷◌, ◌++◌, arith, leb, ◌==◌, Bool-cases, Option-cases, All, subst, if◌then◌else◌, nat_eq,
  string_eq,
}
use patch_quest.Text.{Text}
use patch_quest.Effects.{SideEffect}
use patch_quest.Policy.{
  PolicyDecision, Policy, Result, Scope, Numbers, strictness, strictest, larger_from, speaks,
  answer, no_restriction, consult, conclude, evaluate, sorted, system_floor, keep_strictest,
  add_limits, is_empty, allow_with_limits, result_eq,
}

abbrev weight : PolicyDecision → ℕ
weight d = strictness d.result

abbrev Below : ℕ → PolicyDecision → Type 0
Below n d = strictness d.result < n

abbrev AtMost : ℕ → PolicyDecision → Type 0
AtMost n d = strictness d.result ≤ n

-- The chosen decision stands among the others, those before it weaker, those after it no stricter.
pub record Chosen (ds : List PolicyDecision) (d : PolicyDecision) : Type 0 where
  pub front : List PolicyDecision
  pub back : List PolicyDecision
  pub order : ds ≡ front ++ d ∷ back
  pub weaker : All (Below (strictness d.result)) front
  pub no_stricter : All (AtMost (strictness d.result)) back

larger_from-grows :
    (best : PolicyDecision) (ds : List PolicyDecision)
    → strictness best.result ≤ strictness (larger_from weight best ds).result
unfolding larger_from
larger_from-grows best [] = omega arith
larger_from-grows best (d ∷ ds) = elim (Bool-cases (leb (weight d) (weight best))) [
  | inl under ↦ rw (larger_from, under) (larger_from-grows best ds)
  | inr over ↦ let ih = larger_from-grows d ds in rw (larger_from, over) (ground arith)
]

keep_first :
    {best d : PolicyDecision} {ds : List PolicyDecision} {c : PolicyDecision}
    → strictness d.result ≤ strictness best.result
    → (front back : List PolicyDecision) → best ∷ ds ≡ front ++ c ∷ back
    → All (Below (strictness c.result)) front
    → All (AtMost (strictness c.result)) back
    → Chosen (best ∷ d ∷ ds) c
keep_first {best = best} {d = d} {ds = ds} {c = c} under [] back e weaker rest =
    let same' : best ≡ c = cc in
    let tail' : ds ≡ back = cc in
    record {
      front = [];
      back = d ∷ back;
      order = cc;
      weaker = tt;
      no_stricter = (subst (λ w. strictness d.result ≤ strictness w.result) same' under, rest);
    }
keep_first {best = best} {d = d} {ds = ds} {c = c} under (b ∷ front) back e weaker rest =
    let same' : best ≡ b = cc in
    let tail' : ds ≡ front ++ c ∷ back = cc in
    let less : strictness best.result < strictness c.result =
      subst (λ w. strictness w.result < strictness c.result) (sym same') weaker.0 in
    record {
      front = best ∷ d ∷ front;
      back = back;
      order = cc;
      weaker = (less, (omega arith, weaker.1));
      no_stricter = rest;
    }

larger_from-Chosen :
    (best : PolicyDecision) (ds : List PolicyDecision)
    → Chosen (best ∷ ds) (larger_from weight best ds)
unfolding larger_from
larger_from-Chosen best [] = record {
  front = [];
  back = [];
  order = refl;
  weaker = tt;
  no_stricter = tt;
}
larger_from-Chosen best (d ∷ ds) = elim (Bool-cases (leb (weight d) (weight best))) [
  | inr over ↦
      let h = larger_from-Chosen d ds in
      let up = larger_from-grows d ds in
      rw (larger_from, over)
        (record {
          front = best ∷ h.front;
          back = h.back;
          order = ap (λ xs. best ∷ xs) h.order;
          weaker = (ground arith, h.weaker);
          no_stricter = h.no_stricter;
        })
  | inl under ↦
      let h = larger_from-Chosen best ds in
      rw (larger_from, under)
        (keep_first (ground arith) h.front h.back h.order h.weaker h.no_stricter)
]

-- `strictest` picks the most restrictive decision, and the first one of a tie.
pub strictest-Chosen :
    (ds : List PolicyDecision) (d : PolicyDecision) → strictest ds ≡ some d → Chosen ds d
unfolding strictest larger_from
strictest-Chosen [] d h = absurd (cc h)
strictest-Chosen (e ∷ ds) d h =
    let same' : larger_from weight e ds ≡ d = cc in
    subst (Chosen (e ∷ ds)) same' (larger_from-Chosen e ds)

-- All that a decision says besides the merged limits.
abbrev pub verdict : PolicyDecision → Result × String × String × String × Scope
verdict d = (d.result, d.reason_code, d.reason, d.source_policy, d.scope)

module _ (action : Text) (effect : Option SideEffect) where
  -- The answers of the policies that speak, in order.
  abbrev pub answers : List Policy → List PolicyDecision
  answers [] = []
  answers (p ∷ ps) = elim (speaks action effect p) [
    | none ↦ answers ps
    | some r ↦ answer action effect p r ∷ answers ps
  ]

  abbrev pub or_unrestricted : Option PolicyDecision → PolicyDecision
  or_unrestricted none = no_restriction action effect
  or_unrestricted (some d) = d

  abbrev from_best : Option PolicyDecision → List PolicyDecision → Option PolicyDecision
  from_best none ds = strictest ds
  from_best (some b) ds = some (larger_from weight b ds)

  -- The comparison of `evaluate` keeps what the one of `max` keeps.
  same_choice :
      (b d : PolicyDecision)
      → keep_strictest (some b) d ≡ (if leb (weight d) (weight b) then b else d)
  same_choice b d = ground arith

  consult-strictest :
      (ps : List Policy) (best : Option PolicyDecision) (limits : Numbers)
      → (consult action effect ps best limits).0 ≡ from_best best (answers ps)
  unfolding consult strictest larger_from
  consult-strictest [] none limits = refl
  consult-strictest [] (some b) limits = refl
  consult-strictest (p ∷ ps) best limits = elim (Option-cases (speaks action effect p)) [
    | inl e ↦ rw (consult, answers, e) (consult-strictest ps best limits)
    | inr (r, e) ↦
        rw (consult, answers, e)
          (consult-strictest ps (some (keep_strictest best (answer action effect p r)))
              (add_limits r limits)
            ∙ next best (answer action effect p r))
  ]
    where
      next :
          (best : Option PolicyDecision) (d : PolicyDecision)
          → from_best (some (keep_strictest best d)) (answers ps) ≡ from_best best (d ∷ answers ps)
      next none d = refl
      next (some b) d = ap (λ w. some (larger_from weight w (answers ps))) (same_choice b d)

  conclude-verdict :
      (best : Option PolicyDecision) (limits : Numbers)
      → verdict (conclude action effect (best, limits)) ≡ verdict (or_unrestricted best)
  unfolding conclude
  conclude-verdict none limits = refl
  conclude-verdict (some b) limits =
      elim (Bool-cases (not (is_empty limits) && b.result == allow_with_limits)) [
        | inl y ↦ rw y refl
        | inr n ↦ rw n refl
      ]

  -- The decision, its merged limits aside, is `strictest` of the answers of the floor and of the
  -- policies in order of scope, or, where none speaks, that nothing restricts the action.
  pub evaluate-strictest :
      (policies : List Policy)
      → verdict (evaluate policies action effect)
        ≡ verdict (or_unrestricted (strictest (answers (system_floor ∷ sorted policies))))
  unfolding evaluate
  evaluate-strictest policies =
      let found = consult action effect (system_floor ∷ sorted policies) none [] in
      conclude-verdict found.0 found.1
      ∙ ap (λ o. verdict (or_unrestricted o))
          (consult-strictest (system_floor ∷ sorted policies) none [])
