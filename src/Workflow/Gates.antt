-- ===== src/Workflow/Gates.antt =====
-- Lemmas on `_check_approval_gates` of domain/workflows.py.
use patch_quest.Common.{
  ℕ, zero, suc, ◌≡◌, refl, ◌⊎◌, inl, inr, Bool, true, false, Option, some, List, [], ◌∷◌, map,
  arith, ◌==◌, Bool-cases, get_elem?, select, All, subst, nat_eq, string_eq,
}
use patch_quest.Text.{Text}
use patch_quest.Text.Equality.{text_eq}
use patch_quest.Search.Path.{In, From, start, step}
use patch_quest.Value.{Value}
use patch_quest.Workflow.{
  Workflow, Node, node_type_eq, action, approval, entries, successors, node, is_type, past_gate,
  reachable_avoiding_approval, ActionInfo, ValidationPolicy, info_of, is_dangerous, ungated,
  check_approval_gates,
}
use patch_quest.Workflow.Graph.{is_found_iff, past_gate-IsBound}

module _ (wf : Workflow) where
  abbrev pub entry_ids : List Text
  entry_ids = map (λ n. n.id) (entries wf)

  -- Some node that the path leaves is an approval.
  abbrev pub IsGated : {starts : List Text} {x : Text} → From (successors wf) starts x → Type 0
  IsGated (start i) = ⊥
  IsGated (step {a = a} p i) = (is_type approval (node wf a) ≡ true) ⊎ IsGated p

  IsGated-or_free :
      {starts : List Text} {x : Text} (p : From (successors wf) starts x)
      → IsGated p ⊎ From (past_gate wf) starts x
  IsGated-or_free (start i) = inr (start i)
  IsGated-or_free {starts = starts} (step {a = a} {b = b} p i) = elim (IsGated-or_free p) [
    | inl g ↦ inl (inr g)
    | inr q ↦ elim (Bool-cases (is_type approval (node wf a))) [
      | inl y ↦ inl (inl y)
      | inr n ↦ inr (step q (free a b n i))
    ]
  ]
    where
      free :
          (a b : Text)
          → is_type approval (node wf a) ≡ false
          → In (successors wf a) b
          → In (past_gate wf a) b
      free a b n i = unfold past_gate in rw n i

  avoiding :
      (id : Text) → From (past_gate wf) entry_ids id → reachable_avoiding_approval wf id ≡ true
  unfolding reachable_avoiding_approval
  avoiding id p =
      (is_found_iff wf (past_gate wf) (λ cur. cur == id) entry_ids (λ e. e.source)
          (past_gate-IsBound wf)).1
        (id, p, (text_eq.same_iff id id).1 refl)

none_selected :
    {A : Type 0} (p : A → Bool) (xs : List A) → select p xs ≡ [] → All (λ x. p x ≡ false) xs
unfolding select
none_selected p [] h = tt
none_selected p (x ∷ xs) h = elim (Bool-cases (p x)) [
  | inl y ↦ absurd (cc (rw (select, y) at h))
  | inr n ↦ (n, none_selected p xs (rw (select, n) at h))
]

All-get_elem? :
    {A : Type 0} (P : A → Type 0) (xs : List A) (i : ℕ) {x : A}
    → All P xs
    → get_elem? xs i ≡ some x
    → P x
All-get_elem? P [] i h e = absurd (cc e)
All-get_elem? P (y ∷ ys) zero {x = x} h e = let same' : y ≡ x = ground arith in subst P same' h.0
All-get_elem? P (y ∷ ys) (suc i) h e = All-get_elem? P ys i h.1 e

map-none : {A B : Type 0} (f : A → B) (xs : List A) → map f xs ≡ [] → xs ≡ []
map-none f [] h = refl
map-none f (x ∷ xs) h = absurd (cc h)

module _ (text_of : Value → Text) (wf : Workflow) (known : Text → Option ActionInfo) where
  none-ungated :
      (policy : ValidationPolicy)
      → policy.allow_unapproved_writes ≡ false
      → policy.known_actions ≡ some known
      → check_approval_gates text_of wf policy ≡ []
      → All (λ n. ungated text_of wf known n ≡ false) wf.nodes
  unfolding check_approval_gates
  none-ungated policy strict knows h = none_selected (ungated text_of wf known) wf.nodes (
      map-none (λ (n : Node). record { code = "missing_approval"; node = some n.id })
        (select (ungated text_of wf known) wf.nodes) (rw knows at (rw strict at h)))

  free_of_gate :
      (n : Node)
      → ungated text_of wf known n ≡ false
      → n.type ≡ action
      → is_dangerous text_of (info_of text_of known n) ≡ true
      → reachable_avoiding_approval wf n.id ≡ false
  unfolding ungated
  free_of_gate n h is bad =
      let t : (n.type == action) ≡ true = (node_type_eq.same_iff n.type action).1 is in
      rw bad at (rw t at h)

  -- Where the gates were checked against the known actions and no problem was found, every path from an
  -- entry to an action that changes something outside leaves an approval on its way.
  pub gates_hold :
      (policy : ValidationPolicy) (i : ℕ) (n : Node)
      → policy.allow_unapproved_writes ≡ false
      → policy.known_actions ≡ some known
      → check_approval_gates text_of wf policy ≡ []
      → get_elem? wf.nodes i ≡ some n
      → n.type ≡ action
      → is_dangerous text_of (info_of text_of known n) ≡ true
      → (p : From (successors wf) (entry_ids wf) n.id) → IsGated wf p
  gates_hold policy i n strict knows h at' is bad p =
      let closed =
        free_of_gate n
          (All-get_elem? (λ n. ungated text_of wf known n ≡ false) wf.nodes i
            (none-ungated policy strict knows h) at')
          is bad in
      elim (IsGated-or_free wf p) [ inl g ↦ g | inr q ↦ absurd (cc (closed, avoiding wf n.id q)) ]
