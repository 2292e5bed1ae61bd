-- ===== src/Db/Rows.antt =====
-- Laws of UPDATE, of SELECT and of the transaction wrapper, for the proofs about the tables.
use patch_quest.Common.{
  ℕ, ◌<◌, ◌≡◌, refl, inl, inr, Bool, true, false, Option, none, some, List, [], ◌∷◌, arith, ◌==◌,
  Bool-cases, Option-cases, select, any, All, subst, if◌then◌else◌, nat_eq, string_eq,
}
use patch_quest.Db.{
  RunRow, Store, Error, Result, ok, err, Fence, commit, update_where, count_where, find_run, least,
}

module _ {A : Type 0} where
  pub All-update_where :
      (P Q : A → Type 0) (p : A → Bool) (f : A → A)
      → ((r : A) → p r ≡ true → P r → Q (f r))
      → ((r : A) → p r ≡ false → P r → Q r)
      → (rs : List A) → All P rs
      → All Q (update_where p f rs)
  unfolding update_where
  All-update_where P Q p f hit miss [] h = tt
  All-update_where P Q p f hit miss (r ∷ rs) h = elim (Bool-cases (p r)) [
    | inl e ↦ rw e (hit r e h.0, All-update_where P Q p f hit miss rs h.1)
    | inr e ↦ rw e (miss r e h.0, All-update_where P Q p f hit miss rs h.1)
  ]

  pub All-map : (P Q : A → Type 0) → ((r : A) → P r → Q r) → (rs : List A) → All P rs → All Q rs
  All-map P Q f [] h = tt
  All-map P Q f (r ∷ rs) h = (f r h.0, All-map P Q f rs h.1)

  -- A counted row is there, with what holds of every row.
  pub count_where-pos :
      (P : A → Type 0) (p : A → Bool) (rs : List A)
      → All P rs
      → 0 < count_where p rs
      → (r : A) × (p r ≡ true) × P r
  unfolding count_where
  count_where-pos P p [] h pos = absurd (omega arith)
  count_where-pos P p (r ∷ rs) h pos = elim (Bool-cases (p r)) [
    | inl e ↦ (r, e, h.0)
    | inr e ↦ count_where-pos P p rs h.1 (rw e at pos)
  ]

  pub count_where_none :
      (p : A → Bool) (rs : List A) → All (λ r. p r ≡ false) rs → count_where p rs ≡ 0
  unfolding count_where
  count_where_none p [] h = refl
  count_where_none p (r ∷ rs) h = rw h.0 (count_where_none p rs h.1)

module _ (i : ℕ) where
  pub find_run-id : (rs : List RunRow) (r : RunRow) → find_run i rs ≡ some r → r.id ≡ i
  unfolding find_run
  find_run-id [] r h = cc
  find_run-id (q ∷ rs) r h = ground (arith, find_run-id rs r)

  pub find_run-All :
      (P : RunRow → Type 0) (rs : List RunRow) (r : RunRow)
      → All P rs
      → find_run i rs ≡ some r
      → P r
  unfolding find_run
  find_run-All P [] r h e = absurd (cc e)
  find_run-All P (q ∷ rs) r h e = elim (Bool-cases (q.id == i)) [
    | inl same ↦ let p : q ≡ r = ground (arith, rw same at e) in rw (← p) h.0
    | inr other ↦ find_run-All P rs r h.1 (rw other at e)
  ]

  -- A row that an UPDATE does not renumber is found where it was, changed if it matches.
  pub find_run-update_where :
      (p : RunRow → Bool) (f : RunRow → RunRow) (rs : List RunRow)
      → ((r : RunRow) → (f r).id ≡ r.id)
      → (r : RunRow) → find_run i rs ≡ some r
      → find_run i (update_where p f rs) ≡ some (if p r then f r else r)
  unfolding find_run update_where
  find_run-update_where p f [] keep r h = cc
  find_run-update_where p f (q ∷ rs) keep r h =
      ground (arith, find_run-update_where p f rs keep r, keep q)

-- A failed transaction leaves the tables as they were.
pub commit_err :
    {A : Type 0} (fence : Option Fence) (s : Store) (r : Result (A × Store)) {e : Error}
    → (commit fence s r).0 ≡ err e
    → (commit fence s r).1 ≡ s
unfolding commit
commit_err fence s (err x) h = refl
commit_err fence s (ok (a, t)) h = ground arith

module _ {A : Type 0} where
  pub All-least :
      (P : A → Type 0) (before : A → A → Bool) (rs : List A) (r : A)
      → All P rs
      → least before rs ≡ some r
      → P r
  unfolding least
  All-least P before [] r h e = absurd (cc e)
  All-least P before (q ∷ rs) r h e = elim (Option-cases (least before rs)) [
    | inl nothing ↦ let p : q ≡ r = ground (arith, rw nothing at e) in rw (← p) h.0
    | inr (x, found) ↦ elim (Bool-cases (before x q)) [
      | inl earlier ↦
          let p : x ≡ r = ground (arith, rw (found, earlier) at e) in
          rw (← p) (All-least P before rs x h.1 found)
      | inr later ↦ let p : q ≡ r = ground (arith, rw (found, later) at e) in rw (← p) h.0
    ]
  ]

  pub All-select :
      (P Q : A → Type 0) (p : A → Bool) (rs : List A)
      → ((r : A) → p r ≡ true → P r → Q r)
      → All P rs
      → All Q (select p rs)
  unfolding select
  All-select P Q p [] f h = tt
  All-select P Q p (r ∷ rs) f h = elim (Bool-cases (p r)) [
    | inl e ↦ rw e (f r e h.0, All-select P Q p rs f h.1)
    | inr e ↦ rw e (All-select P Q p rs f h.1)
  ]

  pub any_none : (p : A → Bool) (rs : List A) → All (λ r. p r ≡ false) rs → any p rs ≡ false
  unfolding any
  any_none p [] h = refl
  any_none p (r ∷ rs) h = rw h.0 (any_none p rs h.1)

pub All-unit : {A : Type 0} (rs : List A) → All (λ _. Unit {0}) rs
All-unit [] = tt
All-unit (r ∷ rs) = (tt, All-unit rs)

-- `ORDER BY ... LIMIT 1` gives a row that no row comes before.
module _ {A : Type 0} (before : A → A → Bool)
    (asym : (a b : A) → before a b ≡ true → before b a ≡ false)
    (negtrans : (a b c : A) → before a b ≡ false → before b c ≡ false → before a c ≡ false) where
  irrefl : (a : A) → before a a ≡ false
  irrefl a = elim (Bool-cases (before a a)) [ inl e ↦ asym a a e | inr e ↦ e ]

  least-none : (rs : List A) → least before rs ≡ none → rs ≡ []
  unfolding least
  least-none [] h = refl
  least-none (q ∷ rs) h = ground arith

  pub least-first :
      (rs : List A) (r : A) → least before rs ≡ some r → All (λ q. before q r ≡ false) rs
  unfolding least
  least-first [] r h = tt
  least-first (q ∷ rs) r h = elim (Option-cases (least before rs)) [
    | inl nothing ↦
        let p : q ≡ r = ground (arith, rw nothing at h) in
        subst (λ w. All (λ y. before y w ≡ false) (q ∷ rs)) p
          (rw (least-none rs nothing) (irrefl q, tt))
    | inr (x, found) ↦ elim (Bool-cases (before x q)) [
      | inl earlier ↦
          let p : x ≡ r = ground (arith, rw (found, earlier) at h) in
          subst (λ w. All (λ y. before y w ≡ false) (q ∷ rs)) p
            (asym x q earlier, least-first rs x found)
      | inr later ↦
          let p : q ≡ r = ground (arith, rw (found, later) at h) in
          subst (λ w. All (λ y. before y w ≡ false) (q ∷ rs)) p
            (
              irrefl q,
              All-map (λ y. before y x ≡ false) (λ y. before y q ≡ false)
                  (λ y h'. negtrans y x q h' later) rs (least-first rs x found),
            )
    ]
  ]

  pub All-of_select :
      (p : A → Bool) (r : A) (rs : List A)
      → All (λ q. before q r ≡ false) (select p rs)
      → All (λ q. p q ≡ true → before q r ≡ false) rs
  unfolding select
  All-of_select p r [] h = tt
  All-of_select p r (q ∷ rs) h = elim (Bool-cases (p q)) [
    | inl e ↦ let h' = rw e at h in (λ _. h'.0, All-of_select p r rs h'.1)
    | inr e ↦ (λ e'. cc, All-of_select p r rs (rw e at h))
  ]
