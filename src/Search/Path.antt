-- ===== src/Search/Path.antt =====
-- Paths in a graph, and membership in the lists of a search.
use patch_quest.Common.{
  ◌≡◌, refl, ◌⊎◌, inl, inr, true, ◌||◌, List, [], ◌∷◌, ◌++◌, arith, Eq, ◌==◌, Bool-cases, any,
  contains, nat_eq, string_eq,
}
use patch_quest.Search.{extend}

module _ {K : Type 0} ⦃k : Eq K⦄ where
  abbrev pub In : List K → K → Type 0
  In xs x = contains xs x ≡ true

  -- `b` is reached from one of `starts` along `next`.
  pub data From (next : K → List K) (starts : List K) : K → Type 0 where
    start : {a : K} → In starts a → From next starts a
    step : {a b : K} → From next starts a → In (next a) b → From next starts b

  pub In-append :
      (xs ys : List K) (x : K) → contains (xs ++ ys) x ≡ (contains xs x || contains ys x)
  unfolding contains any
  In-append [] ys x = refl
  In-append (y ∷ xs) ys x = let ih = In-append xs ys x in unfold contains in ground arith

  pub In-extend :
      (xs stack : List K) (x : K)
      → contains (extend xs stack) x ≡ (contains xs x || contains stack x)
  unfolding extend contains any
  In-extend [] stack x = refl
  In-extend (y ∷ xs) stack x = let ih = In-extend xs (y ∷ stack) x in ground arith

  pub In-head : (xs : List K) (x : K) → In (x ∷ xs) x
  unfolding contains any
  In-head xs x = let own : (x == x) ≡ true = (k.same_iff x x).1 refl in ground arith

  pub In-cons : (xs : List K) (y x : K) → In (y ∷ xs) x → (y ≡ x) ⊎ In xs x
  unfolding contains any
  In-cons xs y x h = elim (Bool-cases (y == x)) [
    | inl e ↦ inl ((k.same_iff y x).0 e)
    | inr n ↦ inr (ground arith)
  ]

  pub In-tail : (xs : List K) (y x : K) → In xs x → In (y ∷ xs) x
  unfolding contains any
  In-tail xs y x h = ground arith

  pub In-nil : (x : K) → ¬ (In [] x)
  unfolding contains any
  In-nil x h = cc h
