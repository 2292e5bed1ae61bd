-- ===== src/Common/Tests.antt =====
-- Tests on numbers, equality as an interface, the conditional, and splits that keep the equation.
use Prim.Native.Nat.{ℕ, ◌≤◌, ◌<◌, compare, Ordering}
use Prim.Native.String.{String}
use mathlib.Core.Path.{◌≡◌, refl}
use mathlib.Core.Logic.{◌↔◌, ◌⊎◌, inl, inr, ite}
use mathlib.Core.Bool.{Bool, true, false}
use mathlib.Core.Option.{Option, none, some}
use native.Mathlib.Omega.{arith}
use text.Mathlib.Text.{◌==◌ as str_eq}
use text.Mathlib.TextEquality.{eq_iff}

abbrev pub ltb : ℕ → ℕ → Bool
ltb a b = elim (compare a b) [ Ordering.lt ↦ true | _ ↦ false ]

abbrev pub leb : ℕ → ℕ → Bool
leb a b = elim (compare a b) [ Ordering.gt ↦ false | _ ↦ true ]

abbrev pub nat_test : ℕ → ℕ → Bool
nat_test m n = elim (compare m n) [ Ordering.eq ↦ true | _ ↦ false ]

pub nat_test_iff : (m n : ℕ) → (nat_test m n ≡ true) ↔ (m ≡ n)
nat_test_iff m n = ground arith

-- Enumerations: a test from the decision that `hlevel` gives.
abbrev pub decided {ℓ} : {E : Type ℓ} → Discrete E → E → E → Bool
decided dec x y = ite (dec x y) true false

pub decided_iff {ℓ} : {E : Type ℓ} (dec : Discrete E) (x y : E) → (decided dec x y ≡ true) ↔ (x ≡ y)
decided_iff dec x y = elim (dec x y) as (λ d. (ite d true false ≡ true) ↔ (x ≡ y)) [
  | yes p ↦ (λ _. p, λ _. refl)
  | no p ↦ (λ h. absurd (cc h), λ e. absurd (p e))
]

-- A type whose values the source compares by `==`, or looks up in a set or a dict.
pub record Eq {ℓ} (K : Type ℓ) : Type ℓ where
  pub same : K → K → Bool
  pub same_iff : (x y : K) → (same x y ≡ true) ↔ (x ≡ y)

abbrev pub discrete_eq {ℓ} : {E : Type ℓ} → Discrete E → Eq E
discrete_eq dec = record { same = decided dec; same_iff = decided_iff dec }

instance abbrev pub string_eq : Eq String
string_eq = record { same_iff = eq_iff; same = str_eq }

instance abbrev pub nat_eq : Eq ℕ
nat_eq = record { same_iff = nat_test_iff; same = nat_test }

infix 50 ◌==◌
abbrev pub ◌==◌ {ℓ} : {K : Type ℓ} ⦃k : Eq K⦄ → K → K → Bool
◌==◌ ⦃k⦄ x y = k.same x y

infix 1 if◌then◌else◌
abbrev pub if◌then◌else◌ {ℓ} : {A : Type ℓ} → Bool → A → A → A
if true then x else y = x
if false then x else y = y

pub ltb→lt : (a b : ℕ) → ltb a b ≡ true → a < b
ltb→lt a b h = ground arith

pub lt→ltb : (a b : ℕ) → a < b → ltb a b ≡ true
lt→ltb a b h = ground arith

pub leb→le : (a b : ℕ) → leb a b ≡ true → a ≤ b
leb→le a b h = ground arith

pub ruleset tests = (arith, ltb→lt, lt→ltb, leb→le)

pub Bool-cases : (b : Bool) → (b ≡ true) ⊎ (b ≡ false)
Bool-cases true = inl refl
Bool-cases false = inr refl

pub Option-cases {ℓ} : {A : Type ℓ} (o : Option A) → (o ≡ none) ⊎ ((a : A) × (o ≡ some a))
Option-cases none = inl refl
Option-cases (some a) = inr (a, refl)

pub if_both {ℓ κ} :
    {A : Type ℓ} (P : A → Type κ) (b : Bool) {x y : A} → P x → P y → P (if b then x else y)
if_both P true p q = p
if_both P false p q = q
