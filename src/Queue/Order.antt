-- ===== src/Queue/Order.antt =====
-- Lemmas on the row that `claim` of runtime/queue.py selects and updates.
use patch_quest.Common.{
  ℕ, ◌+◌, String, ◌≡◌, refl, true, false, Option, some, List, arith, ◌==◌, select, All, nat_eq,
  string_eq,
}
use patch_quest.Run.{run_status_eq, queued, running}
use patch_quest.Db.{Env, RunRow, Store, ok, update_where, find_run}
use patch_quest.Db.Rows.{
  All-least, All-select, All-unit, All-map, least-first, All-of_select, find_run-update_where,
  find_run-id,
}
use patch_quest.Transition.Laws.{transition_effect}
use patch_quest.Queue.{Claim, start, ordered_by, is_run, leased, next_queued, claim}
use patch_quest.Queue.Claims.{start_change, start_claim, claim-start}

module _ (key : RunRow → Option ℕ) where
  asym : (a b : RunRow) → ordered_by key a b ≡ true → ordered_by key b a ≡ false
  asym a b h = ground arith

  negtrans :
      (a b c : RunRow)
      → ordered_by key a b ≡ false
      → ordered_by key b c ≡ false
      → ordered_by key a c ≡ false
  negtrans a b c h k = ground arith

-- The head of the queue is queued, and no queued run comes before it.
next_queued-first :
    (s : Store) (row : RunRow)
    → next_queued s ≡ some row
    → (row.status ≡ queued)
      × All (λ r. r.status ≡ queued → ordered_by (λ r. r.queued_at) r row ≡ false) s.runs
unfolding next_queued
next_queued-first s row h =
    let p = λ (r : RunRow). r.status == queued in
    let is_queued =
      All-select (λ _. Unit {0}) (λ r. r.status ≡ queued) p s.runs
        (λ r e _. (run_status_eq.same_iff r.status queued).0 e) (All-unit s.runs) in
    (
      All-least (λ r. r.status ≡ queued) _ (select p s.runs) row is_queued h,
      All-map (λ r. p r ≡ true → ordered_by (λ r. r.queued_at) r row ≡ false) _
          (λ r f e. f ((run_status_eq.same_iff r.status queued).1 e)) s.runs
          (All-of_select (ordered_by (λ r. r.queued_at)) (asym (λ r. r.queued_at))
            (negtrans (λ r. r.queued_at)) p row s.runs
            (least-first _ (asym (λ r. r.queued_at)) (negtrans (λ r. r.queued_at)) (select p s.runs)
              row h)),
    )

-- The row of a run after an UPDATE by id.
found_updated :
    (i j : ℕ) (f : RunRow → RunRow) (rows u : List RunRow) (q : RunRow)
    → ((r : RunRow) → (f r).id ≡ r.id)
    → rows ≡ update_where (is_run i) f u
    → find_run i u ≡ some q
    → j ≡ i
    → find_run j rows ≡ some (f q)
found_updated i j f rows u q keep e found same =
    let hit : is_run i q ≡ true = ground (arith, find_run-id i u q found) in
    rw (e, same) (rw hit at (find_run-update_where i (is_run i) f u keep q found))

pub record Takes (env : Env) (worker : String) (lease_s : ℕ) (s : Store) (c : Claim) (t : Store)
    : Type 0 where
  pub row : RunRow
  pub row' : RunRow
  pub id : row.id ≡ c.run_id
  pub was_queued : row.status ≡ queued
  pub oldest : All (λ r. r.status ≡ queued → ordered_by (λ r. r.queued_at) r row ≡ false) s.runs
  pub found' : find_run c.run_id t.runs ≡ some row'
  pub running_now : row'.status ≡ running
  pub owner : row'.lease_owner ≡ some worker
  pub expiry : row'.lease_expires_at ≡ some (env.now + lease_s)
  pub bumped : row'.lease_epoch ≡ row.lease_epoch + 1
  pub epoch : c.epoch ≡ row'.lease_epoch

-- A claim of kind start takes a queued run before which no queued run comes by queue time and id,
-- and leaves it running, leased to the worker until the given time, at an epoch one higher than
-- before, which the claim reports.
pub claim_fifo :
    (env : Env) (worker : String) (lease_s : ℕ) (s : Store) (c : Claim) (t : Store)
    → claim env worker lease_s s ≡ ok (some c, t)
    → c.kind ≡ start
    → Takes env worker lease_s s c t
claim_fifo env worker lease_s s c t h kind =
    let (row, next, started) = claim-start env worker lease_s s c t h kind in
    let given : c ≡ start_claim row = cc started.given in
    let (was, oldest) = next_queued-first s row next in
    let moves =
      transition_effect env row.id running (start_change worker row) s started.moved started.between
        started.changed in
    let lease = leased worker (env.now + lease_s) (row.lease_epoch + 1) in
    record {
      row = row;
      row' = lease moves.row';
      id = ground arith;
      was_queued = was;
      oldest = oldest;
      found' =
          found_updated row.id c.run_id lease t.runs started.between.runs moves.row' (λ x. refl)
            started.rows moves.found' (cc given);
      running_now = moves.arrived;
      owner = refl;
      expiry = refl;
      bumped = refl;
      epoch = ground arith;
    }
