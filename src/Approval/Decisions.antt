-- ===== src/Approval/Decisions.antt =====
-- Lemmas on `decide` of persistence/approvals.py, and sequences of requests, decisions and expiries.
use patch_quest.Common.{
  ℕ, ◌+◌, ◌≡◌, refl, sym, ap, ◌∙◌, inl, inr, true, false, Option, none, some, List, [], ◌∷◌, ◌++◌,
  arith, ◌==◌, Bool-cases, Option-cases, subst, if◌then◌else◌, nat_eq, string_eq,
}
use patch_quest.Db.{
  Env, ApprovalRow, Store, Result, Tx, ok, err, Fence, get_db, update_where, count_where,
}
use patch_quest.Effects.{SideEffect, side_effect_eq}
use patch_quest.Ledger.{append, event_of}
use patch_quest.Approval.{
  decision_eq, Texts, Request, request, Ruling, Outcome, find_approval, of_run, overdue, is_pending,
  resolve, forbidden, decision_entry, new_grants, write_decision, decide_seen, decide, expire,
  effect_column,
}

-- What transactions do to the requests.

pub data Op : Type 0 where
  ask : ℕ → Request → Op
  rule_on : ℕ → ℕ → Ruling → Op
  run_out : ℕ → Op

unfoldable pub forget : {A : Type 0} → Result (A × Store) → Result (Unit {0} × Store)
forget (ok (a, t)) = ok (tt, t)
forget (err e) = err e

pub forget-ok :
    {A : Type 0} (r : Result (A × Store)) {u : Unit {0}} {t : Store}
    → forget r ≡ ok (u, t)
    → (a : A) × (r ≡ ok (a, t))
unfolding forget
forget-ok (ok (a, t)) h = (a, cc)
forget-ok (err e) h = absurd (cc h)

module _ (texts : Texts) where
  unfoldable pub run_op : Env → Op → Tx (Unit {0})
  unfolding forget
  run_op env (ask run q) s = forget (request env run q s)
  run_op env (rule_on run i g) s = forget (decide texts env run i g s)
  run_op env (run_out i) s = forget (expire env i s)

  -- The tables after transactions, each with its clock and perhaps a fence, refused ones included.
  unfoldable pub after : List (Env × Option Fence × Op) → Store → Store
  after [] s = s
  after ((env, fence, op) ∷ ops) s = after ops (get_db fence (run_op env op) s).1

pub find-append :
    (i : ℕ) (xs ys : List ApprovalRow) {a : ApprovalRow}
    → find_approval i xs ≡ some a
    → find_approval i (xs ++ ys) ≡ some a
unfolding find_approval
find-append i [] ys h = absurd (cc h)
find-append i (x ∷ xs) ys h = elim (Bool-cases (x.id == i)) [
  | inl y ↦ rw (find_approval, y) (ground arith)
  | inr n ↦ rw (find_approval, n) (find-append i xs ys (ground arith))
]

find-skip :
    (i : ℕ) (x : ApprovalRow) (xs : List ApprovalRow)
    → (x.id == i) ≡ false
    → find_approval i (x ∷ xs) ≡ find_approval i xs
unfolding find_approval
find-skip i x xs n = rw (find_approval, n) refl

-- An update of pending rows leaves a row that is decided, so the first row of an id stays.
pub find-update :
    (i j : ℕ) (f : ApprovalRow → ApprovalRow) (xs : List ApprovalRow) {a : ApprovalRow}
    → ((x : ApprovalRow) → (f x).id ≡ x.id)
    → find_approval i xs ≡ some a
    → (a.status == "pending") ≡ false
    → find_approval i (update_where (is_pending j) f xs) ≡ some a
unfolding find_approval update_where is_pending
find-update i j f [] same_id h over = absurd (cc h)
find-update i j f (x ∷ xs) {a = a} same_id h over = elim (Bool-cases (x.id == i)) [
  | inl y ↦
      let mine : x ≡ a = ground arith in
      let done : (x.status == "pending") ≡ false =
        subst (λ w. (w.status == "pending") ≡ false) (sym mine) over in
      ground arith
  | inr n ↦
      find-skip i (if is_pending j x then f x else x) (update_where (is_pending j) f xs) (apart n)
      ∙ find-update i j f xs same_id (sym (find-skip i x xs n) ∙ h) over
]
  where
    apart : (x.id == i) ≡ false → ((if is_pending j x then f x else x).id == i) ≡ false
    apart n = elim (Bool-cases (is_pending j x)) [
      | inl p ↦ rw p (subst (λ w. (w == i) ≡ false) (sym (same_id x)) n)
      | inr p ↦ rw p n
    ]

-- An update of pending rows changes the first row of its id where that one is pending.
pub find-resolved :
    (i : ℕ) (f : ApprovalRow → ApprovalRow) (xs : List ApprovalRow) {a : ApprovalRow}
    → ((x : ApprovalRow) → (f x).id ≡ x.id)
    → find_approval i xs ≡ some a
    → (a.status == "pending") ≡ true
    → (a.id ≡ i) × (find_approval i (update_where (is_pending i) f xs) ≡ some (f a))
unfolding find_approval update_where is_pending
find-resolved i f [] same_id h open' = absurd (cc h)
find-resolved i f (x ∷ xs) {a = a} same_id h open' = elim (Bool-cases (x.id == i)) [
  | inl y ↦
      let mine : x ≡ a = cc (rw (find_approval, y) at h) in
      let waits : (x.status == "pending") ≡ true =
        subst (λ w. (w.status == "pending") ≡ true) (sym mine) open' in
      let hit : is_pending i x ≡ true = rw (y, waits) refl in
      (
        subst (λ w. w.id ≡ i) mine ((nat_eq.same_iff x.id i).0 y),
        rw (hit, find_approval, subst (λ w. (w == i) ≡ true) (sym (same_id x)) y)
            (ap (λ w. some (f w)) mine),
      )
  | inr n ↦
      let miss : is_pending i x ≡ false = rw n refl in
      let (e, rest) = find-resolved i f xs same_id (sym (find-skip i x xs n) ∙ h) open' in
      (e, rw miss (find-skip i x (update_where (is_pending i) f xs) n ∙ rest))
]

pub of_run-found :
    (run : ℕ) (o : Option ApprovalRow) {a : ApprovalRow}
    → of_run run o ≡ some a
    → (o ≡ some a) × (a.run_id ≡ run)
of_run-found run none h = absurd (cc h)
of_run-found run (some b) {a = a} h = elim (Bool-cases (b.run_id == run)) [
  | inl y ↦
      let mine : b ≡ a = cc (rw y at h) in
      (ap (λ w. some w) mine, subst (λ w. w.run_id ≡ run) mine ((nat_eq.same_iff b.run_id run).0 y))
  | inr n ↦ absurd (cc (rw n at h))
]

-- What a decision that was recorded found and changed.
pub record Decided (texts : Texts) (env : Env) (run i : ℕ) (g : Ruling) (seen s : Store)
    (o : Outcome) (t : Store) : Type 0 where
  pub row : ApprovalRow
  pub effect : SideEffect
  pub found : of_run run (find_approval i seen.approvals) ≡ some row
  pub open' : (row.status == "pending") ≡ true
  pub in_time : overdue row.expires_at env.now ≡ false
  pub reads : effect_column row.side_effect ≡ some effect
  pub permitted : forbidden effect g row ≡ false
  pub unique : count_where (is_pending row.id) s.approvals ≡ 1
  pub approvals : t.approvals ≡ update_where (is_pending row.id) (resolve env g) s.approvals
  pub grants : t.grants ≡ new_grants texts env run row effect g s.grants
  pub logged :
      t.events
      ≡ event_of env
          (s.event_seq + 1)
          run
          "approval_decided"
          (decision_entry texts env run row effect g)
        ∷ s.events
  pub runs : t.runs ≡ s.runs

module _ (texts : Texts) (env : Env) (run : ℕ) (g : Ruling) where
  write_decision-Decided :
      (i : ℕ) (seen s : Store) (a : ApprovalRow) (effect : SideEffect) {o : Outcome} {t : Store}
      → of_run run (find_approval i seen.approvals) ≡ some a
      → (a.status == "pending") ≡ true
      → overdue a.expires_at env.now ≡ false
      → effect_column a.side_effect ≡ some effect
      → forbidden effect g a ≡ false
      → write_decision texts env run a effect g s ≡ ok (o, t)
      → Decided texts env run i g seen s o t
  unfolding write_decision append
  write_decision-Decided i seen s a effect found open' in_time read permitted h = record {
    row = a;
    effect = effect;
    found = found;
    open' = open';
    in_time = in_time;
    reads = read;
    permitted = permitted;
    unique = ground arith;
    approvals = ground arith;
    grants = ground arith;
    logged = ground arith;
    runs = ground arith;
  }

  pub decide_seen-Decided :
      (i : ℕ) (seen s : Store) (o : Outcome) (t : Store)
      → decide_seen texts env run i g seen s ≡ ok (o, t)
      → Decided texts env run i g seen s o t
  unfolding decide_seen
  decide_seen-Decided i seen s o t h =
      elim (Option-cases (of_run run (find_approval i seen.approvals))) [
        | inl missing ↦ absurd (cc (rw (decide_seen, missing) at h))
        | inr (a, found) ↦ elim (Bool-cases (a.status == "pending")) [
          | inr over ↦ absurd (cc (rw over at (rw (decide_seen, found) at h)))
          | inl open' ↦ elim (Bool-cases (overdue a.expires_at env.now)) [
            | inl late ↦ absurd (cc (rw late at (rw open' at (rw (decide_seen, found) at h))))
            | inr in_time ↦ elim (Option-cases (effect_column a.side_effect)) [
              | inl bad ↦
                  absurd
                    (cc (rw bad at (rw in_time at (rw open' at (rw (decide_seen, found) at h)))))
              | inr (effect, read) ↦ elim (Bool-cases (forbidden effect g a)) [
                | inl no' ↦ absurd (
                    cc (
                      rw no' at
                        (rw read at (rw in_time at (rw open' at (rw (decide_seen, found) at h))))))
                | inr permitted ↦
                    write_decision-Decided i seen s a effect found open' in_time read permitted (
                      rw permitted at
                        (rw read at (rw in_time at (rw open' at (rw (decide_seen, found) at h)))))
              ]
            ]
          ]
        ]
      ]
