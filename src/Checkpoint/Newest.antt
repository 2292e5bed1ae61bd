-- ===== src/Checkpoint/Newest.antt =====
-- Lemmas on `latest_valid` of persistence/checkpoints.py.
use patch_quest.Common.{
  ℕ, ◌≤◌, ◌≡◌, refl, ◌⊎◌, inl, inr, Option, none, some, List, [], ◌∷◌, arith, ltb, Bool-cases,
  if_both, All,
}
use patch_quest.Checkpoint.{
  Checkpoint, CheckpointError, Row, Outside, Decoded, valid, invalid, decode, insert_desc,
  newest_first, Found, or_next, first_valid, of_run, latest_valid,
}

-- Some element satisfies `P`.
abbrev pub Some : (Row → Type 0) → List Row → Type 0
Some P [] = ⊥
Some P (r ∷ rs) = P r ⊎ Some P rs

-- Newer rows come first.
abbrev pub Descending : List Row → Type 0
Descending [] = Unit
Descending (r ∷ rs) = All (λ s. s.seq ≤ r.seq) rs × Descending rs

insert_desc-All :
    (P : Row → Type 0) (r : Row) (rs : List Row) → P r → All P rs → All P (insert_desc r rs)
unfolding insert_desc
insert_desc-All P r [] p h = (p, tt)
insert_desc-All P r (s ∷ ss) p h =
    if_both (All P) (ltb r.seq s.seq) (h.0, insert_desc-All P r ss p h.1) (p, (h.0, h.1))

All-insert_desc :
    (P : Row → Type 0) (r : Row) (rs : List Row) → All P (insert_desc r rs) → P r × All P rs
unfolding insert_desc
All-insert_desc P r [] h = (h.0, tt)
All-insert_desc P r (s ∷ ss) h = elim (Bool-cases (ltb r.seq s.seq)) [
  | inl y ↦
      let k = rw (insert_desc, y) at h in let (p, q) = All-insert_desc P r ss k.1 in (p, (k.0, q))
  | inr n ↦ let k = rw (insert_desc, n) at h in (k.0, (k.1.0, k.1.1))
]

Some-insert_desc :
    (P : Row → Type 0) (r : Row) (rs : List Row) → Some P (insert_desc r rs) → P r ⊎ Some P rs
unfolding insert_desc
Some-insert_desc P r [] h = h
Some-insert_desc P r (s ∷ ss) h = elim (Bool-cases (ltb r.seq s.seq)) [
  | inl y ↦ elim (rw (insert_desc, y) at h) [
    | inl p ↦ inr (inl p)
    | inr q ↦ elim (Some-insert_desc P r ss q) [ inl p ↦ inl p | inr t ↦ inr (inr t) ]
  ]
  | inr n ↦ rw (insert_desc, n) at h
]

insert_desc-Descending : (r : Row) (rs : List Row) → Descending rs → Descending (insert_desc r rs)
unfolding insert_desc
insert_desc-Descending r [] d = (tt, tt)
insert_desc-Descending r (s ∷ ss) d = elim (Bool-cases (ltb r.seq s.seq)) [
  | inl y ↦
      rw (insert_desc, y)
        (
          insert_desc-All (λ t. t.seq ≤ s.seq) r ss (ground (arith, y)) d.0,
          insert_desc-Descending r ss d.1,
        )
  | inr n ↦
      let le : s.seq ≤ r.seq = ground (arith, n) in rw (insert_desc, n) ((le, older ss le d.0), d)
]
  where
    older :
        (ts : List Row) → s.seq ≤ r.seq → All (λ t. t.seq ≤ s.seq) ts → All (λ t. t.seq ≤ r.seq) ts
    older [] le h = tt
    older (t ∷ ts) le h = (omega (arith, le, h.0), older ts le h.1)

newest_first-Descending : (rs : List Row) → Descending (newest_first rs)
unfolding newest_first
newest_first-Descending [] = tt
newest_first-Descending (r ∷ rs) =
    insert_desc-Descending r (newest_first rs) (newest_first-Descending rs)

All-newest_first : (P : Row → Type 0) (rs : List Row) → All P (newest_first rs) → All P rs
unfolding newest_first
All-newest_first P [] h = tt
All-newest_first P (r ∷ rs) h =
    let (p, q) = All-insert_desc P r (newest_first rs) h in (p, All-newest_first P rs q)

Some-newest_first : (P : Row → Type 0) (rs : List Row) → Some P (newest_first rs) → Some P rs
unfolding newest_first
Some-newest_first P [] h = h
Some-newest_first P (r ∷ rs) h = elim (Some-insert_desc P r (newest_first rs) h) [
  | inl p ↦ inl p
  | inr q ↦ inr (Some-newest_first P rs q)
]

module _ (outside : Outside) where
  -- The row does not verify.
  abbrev pub Fails : Row → Type 0
  Fails r = (e : CheckpointError) × (decode outside r ≡ invalid e)

  -- The row verifies, and every newer one does not.
  abbrev pub Best : List Row → Checkpoint → Row → Type 0
  Best rows cp r = (decode outside r ≡ valid cp) × All (λ s. (s.seq ≤ r.seq) ⊎ Fails s) rows

  abbrev pub Latest : List Row → Option Checkpoint → Type 0
  Latest rows none = All Fails rows
  Latest rows (some cp) = Some (Best rows cp) rows

  weaken-Best :
      (cp : Checkpoint) (s : Row) (rows rs : List Row)
      → Fails s
      → Some (Best rows cp) rs
      → Some (Best (s ∷ rows) cp) rs
  weaken-Best cp s rows [] f h = h
  weaken-Best cp s rows (r ∷ rs) f (inl b) = inl (b.0, (inr f, b.1))
  weaken-Best cp s rows (r ∷ rs) f (inr t) = inr (weaken-Best cp s rows rs f t)

  all_older :
      (r : Row) (rs : List Row)
      → All (λ s. s.seq ≤ r.seq) rs
      → All (λ s. (s.seq ≤ r.seq) ⊎ Fails s) rs
  all_older r [] h = tt
  all_older r (s ∷ ss) h = (inl h.0, all_older r ss h.1)

  next-Latest :
      (r : Row) (rs : List Row) (d : Decoded) (rest : Found)
      → decode outside r ≡ d
      → All (λ s. s.seq ≤ r.seq) rs
      → Latest rs rest.0
      → Latest (r ∷ rs) (or_next d rest).0
  unfolding or_next
  next-Latest r rs (valid cp) rest e older l = inl (e, (inl (omega arith), all_older r rs older))
  next-Latest r rs (invalid x) (none, problems) e older l = ((x, e), l)
  next-Latest r rs (invalid x) (some cp, problems) e older l = inr (weaken-Best cp r rs rs (x, e) l)

  first_valid-Latest : (rs : List Row) → Descending rs → Latest rs (first_valid outside rs).0
  unfolding first_valid
  first_valid-Latest [] d = tt
  first_valid-Latest (r ∷ rs) d =
      next-Latest r rs (decode outside r) (first_valid outside rs) refl d.0
        (first_valid-Latest rs d.1)

  Best-unsorted :
      (cp : Checkpoint) (rows rs : List Row)
      → Some (Best (newest_first rows) cp) rs
      → Some (Best rows cp) rs
  Best-unsorted cp rows [] h = h
  Best-unsorted cp rows (r ∷ rs) (inl b) =
      inl (b.0, All-newest_first (λ s. (s.seq ≤ r.seq) ⊎ Fails s) rows b.1)
  Best-unsorted cp rows (r ∷ rs) (inr t) = inr (Best-unsorted cp rows rs t)

  unsorted-Latest :
      (rows : List Row) (o : Option Checkpoint) → Latest (newest_first rows) o → Latest rows o
  unsorted-Latest rows none l = All-newest_first Fails rows l
  unsorted-Latest rows (some cp) l =
      Some-newest_first (Best rows cp) rows (Best-unsorted cp rows (newest_first rows) l)

  -- latest_valid gives the checkpoint of a row of the run that verifies, where every newer row of the run
  -- does not; and none only where no row of the run verifies.
  pub latest_valid-Latest :
      (run : ℕ) (rows : List Row) → Latest (of_run run rows) (latest_valid outside run rows).0
  unfolding latest_valid
  latest_valid-Latest run rows =
      unsorted-Latest (of_run run rows) (first_valid outside (newest_first (of_run run rows))).0 (
        first_valid-Latest (newest_first (of_run run rows))
          (newest_first-Descending (of_run run rows)))
