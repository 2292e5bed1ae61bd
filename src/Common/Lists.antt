-- ===== src/Common/Lists.antt =====
-- Lists measured by native numbers, with the searches that Python's comprehensions make.
use Prim.Native.Nat.{ℕ, zero, suc, ◌+◌, ◌-◌, ◌≤◌}
use mathlib.Core.Path.{◌≡◌, refl, ap}
use mathlib.Core.Logic.{◌⊎◌, inl, inr}
use mathlib.Core.Bool.{Bool, true, false, ◌&&◌, ◌||◌}
use mathlib.Core.List.{List, [], ◌∷◌, ◌++◌}
use mathlib.Core.Option.{Option, none, some}
use native.Mathlib.Omega.{arith}
use patch_quest.Common.Tests.{Eq, ◌==◌, if◌then◌else◌, if_both}

module _ {ℓ} {A : Type ℓ} where
  abbrev pub length : List A → ℕ
  length [] = 0
  length (x ∷ xs) = suc (length xs)

  abbrev pub get_elem? : List A → ℕ → Option A
  get_elem? [] i = none
  get_elem? (x ∷ xs) zero = some x
  get_elem? (x ∷ xs) (suc i) = get_elem? xs i

  abbrev pub take : ℕ → List A → List A
  take zero xs = []
  take (suc n) [] = []
  take (suc n) (x ∷ xs) = x ∷ take n xs

  abbrev pub drop : ℕ → List A → List A
  drop zero xs = xs
  drop (suc n) [] = []
  drop (suc n) (x ∷ xs) = drop n xs

  pub length-append : (xs ys : List A) → length (xs ++ ys) ≡ length xs + length ys
  length-append [] ys = omega arith
  length-append (x ∷ xs) ys = omega (arith, length-append xs ys)

  pub length-take : (n : ℕ) (xs : List A) → n ≤ length xs → length (take n xs) ≡ n
  length-take zero xs h = refl
  length-take (suc n) [] h = omega arith
  length-take (suc n) (x ∷ xs) h = ap suc (length-take n xs (omega arith))

  pub length-drop : (n : ℕ) (xs : List A) → length (drop n xs) ≡ length xs - n
  length-drop zero xs = omega arith
  length-drop (suc n) [] = omega arith
  length-drop (suc n) (x ∷ xs) = omega (arith, length-drop n xs)

  -- `[x for x in xs if p(x)]`
  unfoldable pub select : (A → Bool) → List A → List A
  select p [] = []
  select p (x ∷ xs) = let rest = select p xs in if p x then x ∷ rest else rest

  -- `next((x for x in xs if p(x)), None)`
  unfoldable pub first : (A → Bool) → List A → Option A
  first p [] = none
  first p (x ∷ xs) = let rest = first p xs in if p x then some x else rest

  -- `any(p(x) for x in xs)` and `all(p(x) for x in xs)`
  unfoldable pub any : (A → Bool) → List A → Bool
  any p [] = false
  any p (x ∷ xs) = p x || any p xs

  unfoldable pub all : (A → Bool) → List A → Bool
  all p [] = true
  all p (x ∷ xs) = p x && all p xs

  -- Every element satisfies `P`; some element does.
  abbrev pub All {κ} : (A → Type κ) → List A → Type κ
  All P [] = Unit
  All P (x ∷ xs) = P x × All P xs

  pub select-All {κ} :
      (p : A → Bool) (P : A → Type κ) (xs : List A) → All P xs → All P (select p xs)
  unfolding select
  select-All p P [] h = tt
  select-All p P (x ∷ xs) h = let ih = select-All p P xs h.1 in if_both (All P) (p x) (h.0, ih) ih

  -- Each element of a list stands in it, for a test that every element passes with itself.
  pub any_later :
      (same : A → A → Bool) (k : A) (xs ys : List A)
      → All (λ y. any (λ x. same x y) xs ≡ true) ys
      → All (λ y. any (λ x. same x y) (k ∷ xs) ≡ true) ys
  unfolding any
  any_later same k xs [] h = tt
  any_later same k xs (y ∷ ys) h = (or_true (same k y) h.0, any_later same k xs ys h.1)
    where
      or_true : (b : Bool) {c : Bool} → c ≡ true → (b || c) ≡ true
      or_true true e = refl
      or_true false e = e

  pub any_own :
      (same : A → A → Bool)
      → ((x : A) → same x x ≡ true)
      → (xs : List A) → All (λ y. any (λ x. same x y) xs ≡ true) xs
  unfolding any
  any_own same own [] = tt
  any_own same own (x ∷ xs) = (rw (any, own x) refl, any_later same x xs xs (any_own same own xs))

  pub List-cases : (xs : List A) → (xs ≡ []) ⊎ ((x : A) × (rest : List A) × (xs ≡ x ∷ rest))
  List-cases [] = inl refl
  List-cases (x ∷ xs) = inr (x, xs, refl)

-- `x in xs`
unfoldable pub contains {ℓ} : {K : Type ℓ} ⦃k : Eq K⦄ → List K → K → Bool
unfolding any
contains ks x = any (λ y. y == x) ks
