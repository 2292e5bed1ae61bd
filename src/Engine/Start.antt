-- ===== src/Engine/Start.antt =====
-- Lemmas on `start` of workflows/engine.py.
use patch_quest.Common.{
  ℕ, ◌≤◌, ◌≡◌, refl, ◌∙◌, inl, inr, Bool, true, false, not, Option, none, some, List, [], ◌∷◌, map,
  arith, ◌==◌, Bool-cases, if_both, any_own, select-All, select, first, any, All, contains, subst,
  nat_eq, string_eq,
}
use patch_quest.Text.{Text}
use patch_quest.Text.Equality.{text_eq, same_comm}
use patch_quest.Workflow.{Workflow, Node, Edge, node, entries}
use patch_quest.Engine.{Step, Run, pending, new_step, last_visit}
use patch_quest.Engine.Requests.{start_steps, start_run, count_steps}
use patch_quest.Engine.Visits.{Bounded, visit_limit, allowed_by, append-Bounded, last_visit-append}

-- No id stands twice.

abbrev pub Distinct : List Node → Type 0
Distinct [] = Unit
Distinct (n ∷ ns) = (any (λ m. m.id == n.id) ns ≡ false) × Distinct ns

module _ (p : Node → Bool) where
  any-select : (q : Node → Bool) (ns : List Node) → any q ns ≡ false → any q (select p ns) ≡ false
  unfolding any select
  any-select q [] h = refl
  any-select q (n ∷ ns) h = elim (Bool-cases (q n)) [
    | inl y ↦ absurd (cc (rw (any, y) at h))
    | inr m ↦
        let ih = any-select q ns (rw (any, m) at h) in
        if_both (λ ms. any q ms ≡ false) (p n) (rw (any, m) ih) ih
  ]

  select-Distinct : (ns : List Node) → Distinct ns → Distinct (select p ns)
  unfolding select
  select-Distinct [] h = tt
  select-Distinct (n ∷ ns) h =
      let ih = select-Distinct ns h.1 in
      if_both Distinct (p n) (any-select (λ m. m.id == n.id) ns h.0, ih) ih

module _ (wf : Workflow) where
  -- Every node of the definition may run once.
  abbrev Runs : Node → Type 0
  Runs n = 1 ≤ visit_limit wf n.id

  -- No step yet for any of these nodes.
  abbrev Unvisited : List Step → Node → Type 0
  Unvisited steps n = last_visit n.id steps ≡ 0

  -- The step that `new_step` adds.
  abbrev first_step : Text → Run → Step
  first_step id r = record {
    id = r.next_id;
    node_id = id;
    visit = 1;
    status = pending;
    wait_kind = none;
    wait_key = none;
    wake_at = none;
    child_run_id = none;
    decision = none;
    decided_by = none;
  }

  start_steps-Bounded :
      (ns : List Node) (r : Run)
      → Distinct ns
      → All Runs ns
      → All (Unvisited r.steps) ns
      → Bounded wf r.steps
      → Bounded wf (start_steps ns r).steps
  unfolding start_steps new_step any
  start_steps-Bounded [] r d runs fresh b = b
  start_steps-Bounded (n ∷ ns) r d runs fresh b =
      start_steps-Bounded ns (new_step n.id 1 r) d.1 runs.1 (others ns d.0 fresh.1)
        (append-Bounded wf r.steps _ (omega (arith, fresh.0)) runs.0 b)
    where
      others :
          (ms : List Node)
          → any (λ m. m.id == n.id) ms ≡ false
          → All (Unvisited r.steps) ms
          → All (Unvisited (new_step n.id 1 r).steps) ms
      others [] h f = tt
      others (m ∷ ms) h f = elim (Bool-cases (m.id == n.id)) [
        | inl y ↦ absurd (cc (rw (any, y) at h))
        | inr k ↦
            let other : (n.id == m.id) ≡ false = same_comm n.id m.id ∙ k in
            (
              omega (arith, rw other at (last_visit-append m.id r.steps (first_step n.id r)), f.0),
              others ms (rw (any, k) at h) f.1,
            )
      ]

  first-All :
      (p : Node → Bool) (ns : List Node) {x : Node}
      → All (λ n. 1 ≤ n.max_visits) ns
      → first p ns ≡ some x
      → 1 ≤ x.max_visits
  unfolding first
  first-All p [] h e = absurd (cc e)
  first-All p (n ∷ ns) {x = x} h e = elim (Bool-cases (p n)) [
    | inl y ↦ let same' : n ≡ x = cc (rw (first, y) at e) in subst (λ w. 1 ≤ w.max_visits) same' h.0
    | inr m ↦ first-All p ns h.1 (rw (first, m) at e)
  ]

  -- The list has a node of this one's id.
  abbrev Listed : List Node → Node → Type 0
  Listed ns n = any (λ m. m.id == n.id) ns ≡ true

  first-Listed : (n : Node) (ns : List Node) → first (λ m. m.id == n.id) ns ≡ none → Listed ns n → ⊥
  unfolding first any
  first-Listed n [] e h = cc h
  first-Listed n (m ∷ ms) e h = elim (Bool-cases (m.id == n.id)) [
    | inl y ↦ cc (rw (first, y) at e)
    | inr k ↦ first-Listed n ms (rw (first, k) at e) (rw (any, k) at h)
  ]

  all-Runs :
      (ns : List Node)
      → All (λ n. 1 ≤ n.max_visits) wf.nodes
      → All (Listed wf.nodes) ns
      → All Runs ns
  unfolding node
  all-Runs [] h l = tt
  all-Runs (n ∷ ns) h l = (head (node wf n.id) refl, all-Runs ns h l.1)
    where
      head : (o : Option Node) → node wf n.id ≡ o → 1 ≤ allowed_by o
      head none e = absurd (first-Listed n wf.nodes e l.0)
      head (some x) e = first-All (λ m. m.id == n.id) wf.nodes h e

  none-Bounded : Bounded wf []
  unfolding count_steps last_visit
  none-Bounded = record { numbered = λ n. refl; within = λ n. omega arith }

  -- No node stands twice in a definition that `validate` accepts, and `parse` allows each at least one visit.
  pub start_run-Bounded :
      (first_id : ℕ)
      → Distinct wf.nodes
      → All (λ n. 1 ≤ n.max_visits) wf.nodes
      → Bounded wf (start_run wf first_id).steps
  unfolding start_run entries last_visit
  start_run-Bounded first_id d visits =
      let p = λ (n : Node). not (contains (map (λ (e : Edge). e.target) wf.edges) n.id) in
      start_steps-Bounded (entries wf) _ (select-Distinct p wf.nodes d)
        (select-All p Runs wf.nodes (
          all-Runs wf.nodes visits (
            any_own (λ (m n : Node). m.id == n.id) (λ n. (text_eq.same_iff n.id n.id).1 refl)
              wf.nodes)))
        (fresh (entries wf)) none-Bounded
    where
      fresh : (ns : List Node) → All (Unvisited []) ns
      fresh [] = tt
      fresh (n ∷ ns) = (refl, fresh ns)
