-- ===== src/Db/Keeps.antt =====
-- Predicates on the tables under the transactions of database.py.
use patch_quest.Common.{◌≡◌, refl, Option, first}
use patch_quest.Db.{
  Store, Result, ok, err, Tx, Fence, continue, ◌>>=◌, ◌>>◌, check_fence, commit, get_db,
}

-- Whatever the body returns, `P` holds of the tables that it leaves.
pub record Keeps {A : Type 0} (P : Store → Type 0) (m : Tx A) : Type 0 where
  pub at : (s : Store) (a : A) (t : Store) → P s → m s ≡ ok (a, t) → P t

continue-ok :
    {A B : Type 0} (r : Result (A × Store)) (f : A → Tx B) (b : B) (u : Store)
    → continue r f ≡ ok (b, u)
    → (a : A) × (t : Store) × (r ≡ ok (a, t)) × (f a t ≡ ok (b, u))
continue-ok (ok (a, t)) f b u h = (a, t, refl, h)
continue-ok (err e) f b u h = absurd (cc h)

pub >>=-ok :
    {A B : Type 0} (m : Tx A) (f : A → Tx B) (s : Store) (b : B) (u : Store)
    → (m >>= f) s ≡ ok (b, u)
    → (a : A) × (t : Store) × (m s ≡ ok (a, t)) × (f a t ≡ ok (b, u))
>>=-ok m f s b u h = continue-ok (m s) f b u h

pub >>-ok :
    {A B : Type 0} (m : Tx A) (k : Tx B) (s : Store) (b : B) (u : Store)
    → (m >> k) s ≡ ok (b, u)
    → (t : Store) × (k t ≡ ok (b, u))
>>-ok m k s b u h = let (_, t, _, second) = >>=-ok m (λ _. k) s b u h in (t, second)

pub Keeps-bind :
    {A B : Type 0} {P : Store → Type 0} (m : Tx A) (f : A → Tx B)
    → Keeps P m
    → ((a : A) → Keeps P (f a))
    → Keeps P (m >>= f)
Keeps-bind m f km kf = record {
  at = λ s b u p h.
      let (a, t, first, second) = >>=-ok m f s b u h in
      (kf a).at t b u (km.at s a t p first) second;
}

commit-Keeps :
    {A : Type 0} (P : Store → Type 0) (fence : Option Fence) (s : Store) (r : Result (A × Store))
    → P s
    → ((a : A) (t : Store) → r ≡ ok (a, t) → P t)
    → P (commit fence s r).1
unfolding commit
commit-Keeps P fence s (err e) h keep = h
commit-Keeps {A = A} P fence s (ok (a, t)) h keep =
    elim (check_fence fence t)
      as (λ c. P (elim c as (λ _. Result A × Store) [ ok _ ↦ (ok a, t) | err e ↦ (err e, s) ]).1) [
        | ok _ ↦ keep a t refl
        | err e ↦ h
      ]

-- A transaction that may be refused, or rolled back by its fence, keeps what its body keeps.
pub get_db-Keeps :
    {A : Type 0} {P : Store → Type 0} (fence : Option Fence) (body : Tx A)
    → Keeps P body
    → (s : Store) → P s
    → P (get_db fence body s).1
unfolding get_db
get_db-Keeps {P = P} fence body keep s h =
    commit-Keeps P fence s (body s) h (λ a t e. keep.at s a t h e)
