-- ===== src/Workflow/Graph.antt =====
-- Lemmas on the graph searches of domain/workflows.py.
use patch_quest.Common.{
  ℕ, suc, ◌+◌, ◌≤◌, ◌≡◌, refl, sym, ap, ◌∙◌, ◌≢◌, ◌↔◌, inl, inr, Bool, true, false, not, List, [],
  ◌∷◌, map, arith, ◌==◌, Bool-cases, length, select, any, contains, subst, nat_eq, string_eq,
}
use patch_quest.Text.{Text}
use patch_quest.Text.Equality.{text_eq, same_comm}
use patch_quest.Search.{Walk, found, visited, out_of_fuel, walk, extend}
use patch_quest.Search.Path.{From}
use patch_quest.Search.Correct.{IsBound, Answer, search-Answer, search-ends}
use patch_quest.Workflow.{
  Workflow, Edge, outgoing, incoming, successors, predecessors, fuel_for, seen_of, is_found,
  reachable, ancestors, on_cycle, past_gate, is_type, approval, node,
}

-- The edges whose end is not seen yet.

abbrev pub unseen : (Edge → Text) → List Edge → List Text → ℕ
unseen key es seen = length (select (λ e. not (contains seen (key e))) es)

length-map : {A B : Type 0} (f : A → B) (xs : List A) → length (map f xs) ≡ length xs
length-map f [] = refl
length-map f (x ∷ xs) = ap suc (length-map f xs)

unseen-drops :
    (key : Edge → Text) (es : List Edge) (seen : List Text) (c : Text)
    → contains seen c ≡ false
    → unseen key es (c ∷ seen) + length (select (λ e. key e == c) es) ≤ unseen key es seen
unfolding select contains any
unseen-drops key [] seen c new = omega arith
unseen-drops key (e ∷ es) seen c new =
    let ih = unseen-drops key es seen c new in
    elim (Bool-cases (key e == c)) [
      | inl y ↦
          let same' : key e ≡ c = (text_eq.same_iff (key e) c).0 y in
          let z : (c == key e) ≡ true = sym (same_comm (key e) c) ∙ y in
          let fresh : contains seen (key e) ≡ false =
            subst (λ w. contains seen w ≡ false) (sym same') new in
          rw (select, y) (rw z (rw fresh (omega (arith, ih))))
      | inr n ↦
          let z : (c == key e) ≡ false = sym (same_comm (key e) c) ∙ n in
          rw (select, n) (rw z (unfold contains in ground (arith, ih)))
    ]

module _ (wf : Workflow) where
  successors-IsBound : IsBound (successors wf) (unseen (λ e. e.source) wf.edges)
  unfolding outgoing
  successors-IsBound seen c new = omega (
    arith,
    unseen-drops (λ e. e.source) wf.edges seen c new,
    length-map (λ e. e.target) (outgoing wf c),
  )

  predecessors-IsBound : IsBound (predecessors wf) (unseen (λ e. e.target) wf.edges)
  unfolding incoming
  predecessors-IsBound seen c new = omega (
    arith,
    unseen-drops (λ e. e.target) wf.edges seen c new,
    length-map (λ e. e.source) (incoming wf c),
  )

  pub past_gate-IsBound : IsBound (past_gate wf) (unseen (λ e. e.source) wf.edges)
  unfolding past_gate
  past_gate-IsBound seen c new = elim (Bool-cases (is_type approval (node wf c))) [
    | inl y ↦ rw y (omega (arith, successors-IsBound seen c new))
    | inr n ↦ rw n (successors-IsBound seen c new)
  ]

unseen-none : (key : Edge → Text) (es : List Edge) → unseen key es [] ≡ length es
unfolding select contains any
unseen-none key [] = refl
unseen-none key (e ∷ es) = ap suc (unseen-none key es)

module _ (wf : Workflow) (next : Text → List Text) (goal : Text → Bool) (starts : List Text)
    (key : Edge → Text) (bound : IsBound next (unseen key wf.edges)) where
  abbrev pub searched : Walk Text
  searched = walk next goal (fuel_for wf starts) (extend starts []) []

  searched-ends : searched ≢ out_of_fuel
  searched-ends =
      search-ends next goal starts (unseen key wf.edges) bound (fuel_for wf starts)
        (omega (arith, unseen-none key wf.edges))

  read_found :
      (w : Walk Text)
      → w ≢ out_of_fuel
      → Answer next goal starts w
      → (is_found w ≡ true) ↔ ((x : Text) × From next starts x × (goal x ≡ true))
  read_found found ends a = (λ _. a, λ _. refl)
  read_found (visited seen) ends a = (λ h. absurd (cc h), λ (x, p, g). absurd (cc (g, (a.0 x p).1)))
  read_found out_of_fuel ends a = absurd (ends refl)

  -- A search for a goal finds one exactly when one is connected.
  pub is_found_iff :
      (is_found searched ≡ true) ↔ ((x : Text) × From next starts x × (goal x ≡ true))
  is_found_iff =
      read_found searched searched-ends (search-Answer next goal starts (fuel_for wf starts))

  read_seen :
      (w : Walk Text)
      → w ≢ out_of_fuel
      → ((x : Text) → goal x ≡ false)
      → Answer next goal starts w
      → (x : Text) → (contains (seen_of w) x ≡ true) ↔ From next starts x
  read_seen found ends none' (x, p, g) = absurd (cc (g, none' x))
  read_seen (visited seen) ends none' a = λ x. (λ i. a.1 x i, λ p. (a.0 x p).0)
  read_seen out_of_fuel ends none' a = absurd (ends refl)

  -- A search without a goal visits exactly what is connected.
  pub seen_of_iff :
      ((x : Text) → goal x ≡ false)
      → (x : Text) → (contains (seen_of searched) x ≡ true) ↔ From next starts x
  seen_of_iff none' =
      read_seen searched searched-ends none' (search-Answer next goal starts (fuel_for wf starts))

-- A node is reachable from some nodes exactly when the edges lead from one of them to it.
pub reachable_iff :
    (wf : Workflow) (starts : List Text) (x : Text)
    → (contains (reachable wf starts) x ≡ true) ↔ From (successors wf) starts x
unfolding reachable
reachable_iff wf starts =
    seen_of_iff wf (successors wf) (λ _. false) starts (λ e. e.source) (successors-IsBound wf)
      (λ x. refl)

-- A node is an ancestor of another exactly when the edges, followed backwards, lead there.
pub ancestors_iff :
    (wf : Workflow) (id x : Text)
    → (contains (ancestors wf id) x ≡ true) ↔ From (predecessors wf) (predecessors wf id) x
unfolding ancestors
ancestors_iff wf id =
    seen_of_iff wf (predecessors wf) (λ _. false) (predecessors wf id) (λ e. e.target)
      (predecessors-IsBound wf) (λ x. refl)

-- A node counts as on a loop exactly when the edges lead from its successors back to it.
pub on_cycle_iff :
    (wf : Workflow) (id : Text)
    → (on_cycle wf id ≡ true) ↔ From (successors wf) (successors wf id) id
unfolding on_cycle
on_cycle_iff wf id =
    let (there, back) =
      is_found_iff wf (successors wf) (λ cur. cur == id) (successors wf id) (λ e. e.source)
        (successors-IsBound wf) in
    (
      λ h.
          let (x, p, g) = there h in
          subst (From (successors wf) (successors wf id)) ((text_eq.same_iff x id).0 g) p,
      λ p. back (id, p, (text_eq.same_iff id id).1 refl),
    )
