-- ===== src/Drift/Changes.antt =====
-- Lemmas on `classify` of runtime/fingerprint.py.
use patch_quest.Common.{
  String, ◌≡◌, refl, sym, ◌≢◌, inl, inr, Bool, true, false, not, ◌&&◌, Option, some, List, [], ◌∷◌,
  arith, ◌==◌, Bool-cases, select, any, contains, subst, nat_eq, string_eq,
}
use patch_quest.Policy.{lookup}
use patch_quest.Drift.{
  Files, RepoFingerprint, no_drift, conflicting_drift, hash_beq, differs, changed, is_nil, report,
  moved, incomparable, classify_drift,
}

self-same : (k : String) → (k == k) ≡ true
self-same k = (string_eq.same_iff k k).1 refl

changed-contains :
    (old new : Files) (rel : String) (a b : Option String)
    → lookup old rel ≡ some a
    → lookup new rel ≡ some b
    → hash_beq a b ≡ false
    → contains (changed old new) rel ≡ true
unfolding lookup changed contains any
changed-contains [] new rel a b h g d = absurd (cc h)
changed-contains ((j, c) ∷ old) new rel a b h g d = elim (Bool-cases (j == rel)) [
  | inl y ↦
      let same' : j ≡ rel = (string_eq.same_iff j rel).0 y in
      let value : c ≡ a = ground arith in
      let there : lookup new j ≡ some b = subst (λ w. lookup new w ≡ some b) (sym same') g in
      let apart : differs c (lookup new j) ≡ true =
        subst (λ w. differs c w ≡ true) (sym there) (ground arith) in
      rw (changed, apart) (rw y refl)
  | inr n ↦
      let ih = changed-contains old new rel a b (rw (lookup, n) at h) g d in
      elim (Bool-cases (differs c (lookup new j))) [
        | inl y ↦ rw (changed, y) (rw n ih)
        | inr m ↦ rw (changed, m) ih
      ]
]

-- A list that holds a path which passes the test is not empty when only such paths are kept.
select-some :
    (p : String → Bool) (rels : List String) (rel : String)
    → contains rels rel ≡ true
    → p rel ≡ true
    → is_nil (select p rels) ≡ false
unfolding select contains any
select-some p [] rel h t = absurd (cc h)
select-some p (j ∷ rels) rel h t = elim (Bool-cases (p j)) [
  | inl y ↦ rw (select, y) refl
  | inr n ↦ elim (Bool-cases (j == rel)) [
    | inl e ↦
        let same' : j ≡ rel = (string_eq.same_iff j rel).0 e in
        absurd (cc (subst (λ w. p w ≡ false) same' n, t))
    | inr apart ↦ rw (select, n) (select-some p rels rel (rw apart at h) t)
  ]
]

-- Where a file that the run writes has another hash than at the checkpoint, the report is of a
-- conflict.
pub touched-conflicts :
    (old new : RepoFingerprint) (touched : List String) (rel : String) (a b : Option String)
    → lookup old.files rel ≡ some a
    → lookup new.files rel ≡ some b
    → hash_beq a b ≡ false
    → contains touched rel ≡ true
    → (classify_drift old new touched).kind ≡ conflicting_drift
unfolding classify_drift
touched-conflicts old new touched rel a b h g d t =
    let found =
      select-some (contains touched) (changed old.files new.files) rel
        (changed-contains old.files new.files rel a b h g d) t in
    rw found refl

report-stale :
    (conflicts stale : List String) (old new : RepoFingerprint)
    → is_nil stale ≡ false
    → (report conflicts stale old new).kind ≢ no_drift
report-stale conflicts stale old new h quiet = elim (Bool-cases (is_nil conflicts)) [
  | inr some' ↦ absurd (cc (rw some' at quiet))
  | inl nil' ↦ elim (Bool-cases (incomparable old new)) [
    | inl i ↦ absurd (cc (rw i at (rw nil' at quiet)))
    | inr c ↦ elim (Bool-cases (not old.is_git && is_nil old.files)) [
      | inl u ↦ absurd (cc (rw u at (rw c at (rw nil' at quiet))))
      | inr r ↦ elim (Bool-cases (is_nil (moved old new))) [
        | inl m ↦ absurd (cc (rw h at (rw m at (rw r at (rw c at (rw nil' at quiet))))))
        | inr m ↦ absurd (cc (rw m at (rw r at (rw c at (rw nil' at quiet)))))
      ]
    ]
  ]
]

-- Where no drift is reported, every file that both fingerprints watch has the same hash in both.
pub no_drift_same :
    (old new : RepoFingerprint) (touched : List String) (rel : String) (a b : Option String)
    → (classify_drift old new touched).kind ≡ no_drift
    → lookup old.files rel ≡ some a
    → lookup new.files rel ≡ some b
    → hash_beq a b ≡ true
unfolding classify_drift
no_drift_same old new touched rel a b quiet h g = elim (Bool-cases (hash_beq a b)) [
  | inl y ↦ y
  | inr d ↦ elim (Bool-cases (contains touched rel)) [
    | inl t ↦ absurd (cc (touched-conflicts old new touched rel a b h g d t, quiet))
    | inr t ↦
        let files = changed old.files new.files in
        let rest =
          select-some (λ w. not (contains touched w)) files rel
            (changed-contains old.files new.files rel a b h g d) (rw t refl) in
        absurd (
          report-stale (select (contains touched) files)
            (select (λ w. not (contains touched w)) files) old new rest quiet)
  ]
]
