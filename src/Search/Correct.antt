-- ===== src/Search/Correct.antt =====
-- Lemmas on the stack loop over a graph.
use patch_quest.Common.{
  ℕ, zero, suc, ◌+◌, ◌≤◌, ◌<◌, ◌≡◌, sym, ◌≢◌, ◌⊎◌, inl, inr, Bool, true, false, List, [], ◌∷◌,
  arith, Eq, Bool-cases, length, contains, subst, nat_eq, string_eq,
}
use patch_quest.Search.{Walk, found, visited, out_of_fuel, extend, walk}
use patch_quest.Search.Path.{In, From, start, step, In-extend, In-head, In-cons, In-tail, In-nil}

module _ {K : Type 0} ⦃k : Eq K⦄ where
  length-extend : (xs stack : List K) → length (extend xs stack) ≡ length xs + length stack
  unfolding extend
  length-extend [] stack = omega arith
  length-extend (x ∷ xs) stack = omega (arith, length-extend xs (x ∷ stack))

  -- How many pushes are left once some were seen: each node not seen before uses up its own.
  abbrev pub IsBound : (K → List K) → (List K → ℕ) → Type 0
  IsBound next room =
      (seen : List K) (c : K)
      → contains seen c ≡ false
      → room (c ∷ seen) + length (next c) ≤ room seen

module _ {K : Type 0} ⦃k : Eq K⦄ (next : K → List K) (goal : K → Bool) where
  -- With fuel for the stack and for the pushes that are left, the loop ends.
  pub walk-ends :
      (room : List K → ℕ)
      → IsBound next room
      → (n : ℕ) (stack seen : List K) → length stack + room seen < n
      → walk next goal n stack seen ≢ out_of_fuel
  unfolding walk
  walk-ends room bound zero stack seen less e = omega (arith, less)
  walk-ends room bound (suc n) [] seen less e = cc e
  walk-ends room bound (suc n) (cur ∷ stack) seen less e = elim (Bool-cases (contains seen cur)) [
    | inl old ↦ walk-ends room bound n stack seen (omega arith) (rw (walk, old) at e)
    | inr new ↦ elim (Bool-cases (goal cur)) [
      | inl hit ↦ cc (rw hit at (rw (walk, new) at e))
      | inr miss ↦
          walk-ends room bound n (extend (next cur) stack) (cur ∷ seen)
            (omega (arith, length-extend (next cur) stack, bound seen cur new))
            (rw miss at (rw (walk, new) at e))
    ]
  ]

  module _ (starts : List K) where
    record Invariant (stack seen : List K) : Type 0 where
      pub old : (x : K) → In seen x → From next starts x
      pub waiting : (x : K) → In stack x → From next starts x
      pub closed : (u v : K) → In seen u → In (next u) v → In seen v ⊎ In stack v
      pub roots : (s : K) → In starts s → In seen s ⊎ In stack s
      pub clean : (u : K) → In seen u → goal u ≡ false

    -- What the end of the loop tells.
    abbrev pub Answer : Walk K → Type 0
    Answer found = (x : K) × From next starts x × (goal x ≡ true)
    Answer (visited seen) =
        ((x : K) → From next starts x → In seen x × (goal x ≡ false))
        × ((x : K) → In seen x → From next starts x)
    Answer out_of_fuel = Unit

    finished : (seen : List K) → Invariant [] seen → Answer (visited seen)
    finished seen h = (λ x f. let s = all_seen f in (s, h.clean x s), h.old)
      where
        only : (x : K) → In seen x ⊎ In [] x → In seen x
        only x (inl i) = i
        only x (inr i) = absurd (In-nil x i)

        all_seen : {x : K} → From next starts x → In seen x
        all_seen (start {a} i) = only a (h.roots a i)
        all_seen (step {a} {b} f i) = only b (h.closed a b (all_seen f) i)

    popped :
        (cur : K) (stack seen : List K)
        → contains seen cur ≡ true
        → Invariant (cur ∷ stack) seen
        → Invariant stack seen
    popped cur stack seen known h = record {
      old = h.old;
      waiting = λ x i. h.waiting x (In-tail stack cur x i);
      closed = λ u v i j. still v (h.closed u v i j);
      roots = λ s i. still s (h.roots s i);
      clean = h.clean;
    }
      where
        still : (v : K) → In seen v ⊎ In (cur ∷ stack) v → In seen v ⊎ In stack v
        still v (inl i) = inl i
        still v (inr i) = elim (In-cons stack cur v i) [
          | inl e ↦ inl (subst (In seen) e known)
          | inr j ↦ inr j
        ]

    expanded :
        (cur : K) (stack seen : List K)
        → goal cur ≡ false
        → Invariant (cur ∷ stack) seen
        → Invariant (extend (next cur) stack) (cur ∷ seen)
    expanded cur stack seen miss h = record {
      old = λ x i. elim (In-cons seen cur x i) [
        | inl e ↦ subst (From next starts) e here
        | inr j ↦ h.old x j
      ];
      waiting = λ x i. elim (pushed x i) [
        | inl n ↦ step here n
        | inr s ↦ h.waiting x (In-tail stack cur x s)
      ];
      closed = λ u v i j. elim (In-cons seen cur u i) [
        | inl e ↦ inr (push_left v (subst (λ w. In (next w) v) (sym e) j))
        | inr o ↦ moved v (h.closed u v o j)
      ];
      roots = λ s i. moved s (h.roots s i);
      clean = λ u i. elim (In-cons seen cur u i) [
        | inl e ↦ subst (λ w. goal w ≡ false) e miss
        | inr o ↦ h.clean u o
      ];
    }
      where
        here : From next starts cur
        here = h.waiting cur (In-head stack cur)

        pushed : (x : K) → In (extend (next cur) stack) x → In (next cur) x ⊎ In stack x
        pushed x i =
            let e = In-extend (next cur) stack x in
            elim (Bool-cases (contains (next cur) x)) [ inl y ↦ inl y | inr n ↦ inr (ground arith) ]

        push_left : (x : K) → In (next cur) x → In (extend (next cur) stack) x
        push_left x i = let e = In-extend (next cur) stack x in ground arith

        push_right : (x : K) → In stack x → In (extend (next cur) stack) x
        push_right x i = let e = In-extend (next cur) stack x in ground arith

        moved :
            (v : K)
            → In seen v ⊎ In (cur ∷ stack) v
            → In (cur ∷ seen) v ⊎ In (extend (next cur) stack) v
        moved v (inl i) = inl (In-tail seen cur v i)
        moved v (inr i) = elim (In-cons stack cur v i) [
          | inl e ↦ inl (subst (In (cur ∷ seen)) e (In-head seen cur))
          | inr j ↦ inr (push_right v j)
        ]

    walk-Answer :
        (n : ℕ) (stack seen : List K) → Invariant stack seen → Answer (walk next goal n stack seen)
    unfolding walk
    walk-Answer zero stack seen h = tt
    walk-Answer (suc n) [] seen h = finished seen h
    walk-Answer (suc n) (cur ∷ stack) seen h = elim (Bool-cases (contains seen cur)) [
      | inl known ↦ rw (walk, known) (walk-Answer n stack seen (popped cur stack seen known h))
      | inr new ↦ elim (Bool-cases (goal cur)) [
        | inl hit ↦ rw (walk, new) (rw hit (cur, h.waiting cur (In-head stack cur), hit))
        | inr miss ↦
            rw (walk, new)
              (rw miss (
                walk-Answer n (extend (next cur) stack) (cur ∷ seen)
                  (expanded cur stack seen miss h)))
      ]
    ]

    from_start : Invariant (extend starts []) []
    from_start = record {
      old = λ x i. absurd (In-nil x i);
      waiting = λ x i. start (from x i);
      closed = λ u v i j. absurd (In-nil u i);
      roots = λ s i. inr (into s i);
      clean = λ u i. absurd (In-nil u i);
    }
      where
        from : (x : K) → In (extend starts []) x → In starts x
        from x i =
            let e = In-extend starts [] x in
            elim (Bool-cases (contains starts x)) [
              | inl y ↦ y
              | inr n ↦ absurd (In-nil x (ground arith))
            ]

        into : (x : K) → In starts x → In (extend starts []) x
        into x i = let e = In-extend starts [] x in ground arith

    -- From the start: a goal that is found can be reached, and otherwise what was visited is what can be
    -- reached, without a goal.
    pub search-Answer : (n : ℕ) → Answer (walk next goal n (extend starts []) [])
    search-Answer n = walk-Answer n (extend starts []) [] from_start

    pub search-ends :
        (room : List K → ℕ)
        → IsBound next room
        → (n : ℕ) → length starts + room [] < n
        → walk next goal n (extend starts []) [] ≢ out_of_fuel
    search-ends room bound n less =
        walk-ends room bound n (extend starts []) [] (omega (arith, length-extend starts []))
