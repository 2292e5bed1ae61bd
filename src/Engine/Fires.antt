-- ===== src/Engine/Fires.antt =====
-- Lemmas on `_fire` of workflows/engine.py.
use patch_quest.Common.{
  ℕ, ◌+◌, ◌≤◌, ◌≡◌, refl, sym, ap, inl, inr, Bool, Option, none, some, List, [], ◌∷◌, arith, ltb,
  Bool-cases, Option-cases, any, contains, subst, nat_eq, string_eq,
}
use patch_quest.Text.{Text}
use patch_quest.Text.Equality.{text_eq}
use patch_quest.Workflow.{Workflow, Node, Edge, node, outgoing, nodes_on_cycles}
use patch_quest.Engine.{
  StepStatus, Run, active_step, skipped, set_status, new_step, finish, skip_active, fail_run,
  last_visit, on_its_way, Fired, goes_on, gave_up, fire_target, fire_edges, fire,
}
use patch_quest.Engine.Visits.{
  visit_limit, allowed_by, Bounded, Keeps, update-Bounded, append-Bounded, node-id,
}

pub set_status-Keeps : (status : StepStatus) → Keeps (set_status status)
set_status-Keeps status s = (refl, refl)

module _ (wf : Workflow) where
  pub new_step-Bounded :
      (n : Text) (r : Run)
      → last_visit n r.steps + 1 ≤ visit_limit wf n
      → Bounded wf r.steps
      → Bounded wf (new_step n (last_visit n r.steps + 1) r).steps
  unfolding new_step
  new_step-Bounded n r fits b = append-Bounded wf r.steps _ refl fits b

  pub fail_run-Bounded : (r : Run) → Bounded wf r.steps → Bounded wf (fail_run r).steps
  unfolding fail_run skip_active finish
  fail_run-Bounded r b =
      update-Bounded wf (λ s. active_step s.status) (set_status skipped) r.steps
        (set_status-Keeps skipped) b

  -- What firing an edge leaves is bounded.
  abbrev FiredBounded : (pick : Edge → Bool) → Fired wf pick → Type 0
  FiredBounded pick (goes_on n s) = Bounded wf s.steps
  FiredBounded pick (gave_up s) = Bounded wf s.steps

  -- The target of an edge is the node of its name, so its limit is the definition's.
  limit-target : (k : Text) (x : Node) → node wf k ≡ some x → visit_limit wf x.id ≡ x.max_visits
  limit-target k x h =
      let e : node wf x.id ≡ some x = subst (λ w. node wf w ≡ some x) (sym (node-id wf k x h)) h in
      ap allowed_by e

  fire_target-Bounded :
      (pick : Edge → Bool) (k : Text) (x : Node) (r : Run)
      → node wf k ≡ some x
      → Bounded wf r.steps
      → FiredBounded pick (fire_target wf pick x r)
  unfolding fire_target
  fire_target-Bounded pick k x r h b = elim (Bool-cases (any (on_its_way x.id) r.steps)) [
    | inl y ↦ rw y b
    | inr n ↦ elim (Bool-cases (ltb x.max_visits (last_visit x.id r.steps + 1))) [
      | inl over ↦ elim (Bool-cases (contains (nodes_on_cycles wf) x.id)) [
        | inl y ↦ rw n (rw over (rw y (fail_run-Bounded r b)))
        | inr m ↦ rw n (rw over (rw m b))
      ]
      | inr fits ↦
          rw n (rw fits (new_step-Bounded x.id r (ground (arith, fits, limit-target k x h)) b))
    ]
  ]

  -- The answer of a sequence of edges.
  abbrev pub AfterBounded : Option (ℕ × Run) → Type 0
  AfterBounded none = Unit
  AfterBounded (some (n, s)) = Bounded wf s.steps

  fire_edges-Bounded :
      (pick : Edge → Bool) (es : List Edge) (count : ℕ) (r : Run)
      → Bounded wf r.steps
      → AfterBounded (fire_edges wf pick es count r)
  unfolding fire_edges
  fire_edges-Bounded pick [] count r b = b
  fire_edges-Bounded pick (e ∷ es) count r b = elim (Bool-cases (pick e)) [
    | inr n ↦ rw (fire_edges, n) (fire_edges-Bounded pick es count r b)
    | inl y ↦ elim (Option-cases (node wf e.target)) [
      | inl no_node ↦ rw (fire_edges, y) (rw no_node tt)
      | inr (x, is) ↦
          rw (fire_edges, y)
            (rw is (
              go_on (fire_edges-Bounded pick es) (fire_target wf pick x r)
                (fire_target-Bounded pick e.target x r is b)))
    ]
  ]
    where
      go_on :
          ((m : ℕ) (s : Run) → Bounded wf s.steps → AfterBounded (fire_edges wf pick es m s))
          → (w : Fired wf pick) → FiredBounded pick w
          → AfterBounded (elim w [
            | goes_on n s ↦ fire_edges wf pick es (count + n) s
            | gave_up s ↦ some (count, s)
          ])
      go_on ih (goes_on n s) h = ih (count + n) s h
      go_on ih (gave_up s) h = h

  pub fire-Bounded :
      (pick : Edge → Bool) (node_id : Text) (r : Run)
      → Bounded wf r.steps
      → AfterBounded (fire wf pick node_id r)
  unfolding fire
  fire-Bounded pick node_id r b = fire_edges-Bounded pick (outgoing wf node_id) 0 r b
