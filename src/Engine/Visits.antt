-- ===== src/Engine/Visits.antt =====
-- Predicates on the visits of the steps in workflows/engine.py.
use patch_quest.Common.{
  ℕ, ◌+◌, ◌≤◌, max, ◌≡◌, refl, sym, ap, ◌∙◌, inl, inr, Bool, Option, none, some, List, [], ◌∷◌,
  ◌++◌, arith, ◌==◌, Bool-cases, first, subst, if◌then◌else◌, nat_eq, string_eq,
}
use patch_quest.Text.{Text}
use patch_quest.Text.Equality.{text_eq}
use patch_quest.Workflow.{Workflow, Node, node}
use patch_quest.Engine.{Step, update_steps, last_visit}
use patch_quest.Engine.Requests.{count_steps}

abbrev pub of_node : Text → Step → Bool
of_node n s = s.node_id == n

-- How many steps a node has, and how many visits its definition allows.
abbrev pub visits : Text → List Step → ℕ
visits n steps = count_steps (of_node n) steps

abbrev pub allowed_by : Option Node → ℕ
allowed_by none = 0
allowed_by (some n) = n.max_visits

abbrev pub visit_limit : Workflow → Text → ℕ
visit_limit wf n = allowed_by (node wf n)

-- The steps of each node are as many as their last visit says, which its definition allows.
pub record Bounded (wf : Workflow) (steps : List Step) : Type 0 where
  pub numbered : (n : Text) → visits n steps ≡ last_visit n steps
  pub within : (n : Text) → last_visit n steps ≤ visit_limit wf n

-- A change of steps that keeps what node and which visit they are.
abbrev pub Keeps : (Step → Step) → Type 0
Keeps f = (s : Step) → ((f s).node_id ≡ s.node_id) × ((f s).visit ≡ s.visit)

module _ (p : Step → Bool) (f : Step → Step) (keep : Keeps f) where
  kept :
      (s : Step)
      → ((if p s then f s else s).node_id ≡ s.node_id) × ((if p s then f s else s).visit ≡ s.visit)
  kept s = elim (Bool-cases (p s)) [ inl y ↦ rw y (keep s) | inr n ↦ rw n (refl, refl) ]

  visits-update :
      (n : Text) (steps : List Step) → visits n (update_steps p f steps) ≡ visits n steps
  unfolding count_steps update_steps
  visits-update n [] = refl
  visits-update n (s ∷ ss) =
      let (same', _) = kept s in
      let t : of_node n (if p s then f s else s) ≡ of_node n s = ap (λ w. w == n) same' in
      let ih = visits-update n ss in rw (count_steps, t) (rw ih refl)

  last_visit-update :
      (n : Text) (steps : List Step) → last_visit n (update_steps p f steps) ≡ last_visit n steps
  unfolding last_visit update_steps
  last_visit-update n [] = refl
  last_visit-update n (s ∷ ss) =
      let (same', v) = kept s in
      let t : of_node n (if p s then f s else s) ≡ of_node n s = ap (λ w. w == n) same' in
      let ih = last_visit-update n ss in rw (last_visit, t) (rw (ih, v) refl)

module _ (wf : Workflow) where
  pub update-Bounded :
      (p : Step → Bool) (f : Step → Step) (steps : List Step)
      → Keeps f
      → Bounded wf steps
      → Bounded wf (update_steps p f steps)
  update-Bounded p f steps keep b = record {
    numbered = λ n.
        visits-update p f keep n steps ∙ b.numbered n ∙ sym (last_visit-update p f keep n steps);
    within = λ n. omega (arith, last_visit-update p f keep n steps, b.within n);
  }

  pub node-id : (k : Text) (x : Node) → node wf k ≡ some x → x.id ≡ k
  unfolding node
  node-id k x h = first-id wf.nodes h
    where
      first-id : (ns : List Node) → first (λ n. n.id == k) ns ≡ some x → x.id ≡ k
      first-id [] h = absurd (cc h)
      first-id (n ∷ ns) h = elim (Bool-cases (n.id == k)) [
        | inl y ↦
            let e : n ≡ x = cc (rw (first, y) at h) in
            subst (λ w. w.id ≡ k) e ((text_eq.same_iff n.id k).0 y)
        | inr m ↦ first-id ns (rw (first, m) at h)
      ]

abbrev one_visit : Text → Step → ℕ
one_visit n s = if of_node n s then s.visit else 0

visits-append :
    (n : Text) (steps : List Step) (s : Step)
    → visits n (steps ++ s ∷ []) ≡ visits n steps + (if of_node n s then 1 else 0)
unfolding count_steps
visits-append n [] s = elim (Bool-cases (of_node n s)) [
  | inl y ↦ rw (count_steps, y) refl
  | inr m ↦ rw (count_steps, m) refl
]
visits-append n (t ∷ ts) s =
    let ih = visits-append n ts s in
    elim (Bool-cases (of_node n t)) [
      | inl y ↦ rw (count_steps, y) (omega (arith, ih))
      | inr m ↦ rw (count_steps, m) (omega (arith, ih))
    ]

pub last_visit-append :
    (n : Text) (steps : List Step) (s : Step)
    → last_visit n (steps ++ s ∷ []) ≡ max (last_visit n steps) (one_visit n s)
unfolding last_visit
last_visit-append n [] s = elim (Bool-cases (of_node n s)) [
  | inl y ↦ rw (last_visit, y) (omega arith)
  | inr m ↦ rw (last_visit, m) (omega arith)
]
last_visit-append n (t ∷ ts) s =
    let ih = last_visit-append n ts s in
    elim (Bool-cases (of_node n t)) [
      | inl y ↦ rw (last_visit, y) (omega (arith, ih))
      | inr m ↦ rw (last_visit, m) ih
    ]

-- One step more, of the visit after the last one, which the definition still allows.
pub append-Bounded :
    (wf : Workflow) (steps : List Step) (s : Step)
    → s.visit ≡ last_visit s.node_id steps + 1
    → s.visit ≤ visit_limit wf s.node_id
    → Bounded wf steps
    → Bounded wf (steps ++ s ∷ [])
append-Bounded wf steps s next fits b = record {
  numbered = λ n. elim (Bool-cases (of_node n s)) [
    | inl y ↦
        let e : s.node_id ≡ n = (text_eq.same_iff s.node_id n).0 y in
        let v : s.visit ≡ last_visit n steps + 1 =
          subst (λ w. s.visit ≡ last_visit w steps + 1) e next in
        omega (
          arith,
          rw y at (visits-append n steps s),
          rw y at (last_visit-append n steps s),
          b.numbered n,
          v,
        )
    | inr m ↦ omega (
      arith,
      rw m at (visits-append n steps s),
      rw m at (last_visit-append n steps s),
      b.numbered n,
    )
  ];
  within = λ n. elim (Bool-cases (of_node n s)) [
    | inl y ↦
        let e : s.node_id ≡ n = (text_eq.same_iff s.node_id n).0 y in
        let v : s.visit ≤ visit_limit wf n = subst (λ w. s.visit ≤ visit_limit wf w) e fits in
        omega (arith, rw y at (last_visit-append n steps s), b.within n, v)
    | inr m ↦ omega (arith, rw m at (last_visit-append n steps s), b.within n)
  ];
}
