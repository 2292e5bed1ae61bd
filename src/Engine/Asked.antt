-- ===== src/Engine/Asked.antt =====
-- Lemmas on `start`, `decide`, `cancel`, `resolve` and `deliver_event` of workflows/engine.py.
use patch_quest.Common.{
  refl, inl, inr, Bool, ◌&&◌, some, ◌==◌, Option-cases, if_both, nat_eq, string_eq,
}
use patch_quest.Text.{Text}
use patch_quest.Text.Equality.{text_eq}
use patch_quest.Workflow.{Workflow}
use patch_quest.Engine.{
  Step, Run, step_status_eq, skipped, succeeded, active_step, is_terminal, set_status, set_step,
  has_id, waiting, unlabelled, has_label, finish,
}
use patch_quest.Engine.Requests.{
  decide, cancel, resolve, wake_event, Settled, happened, retry, failed_for_good, approved_edge,
  awaits_approval, awaits_event, first_uncertain, count_steps, settled_status, settle_as,
}
use patch_quest.Engine.Visits.{Bounded, update-Bounded}
use patch_quest.Engine.Fires.{set_status-Keeps}
use patch_quest.Engine.Handlers.{RunBounded, fired, fired_or_failed, set_step-Bounded}

module _ (wf : Workflow) where
  pub decide-Bounded :
      (node_id : Text) (approve : Bool) (actor : Text) (r : Run)
      → Bounded wf r.steps
      → RunBounded wf (decide wf node_id approve actor r)
  unfolding decide
  decide-Bounded node_id approve actor r b =
      let c = update-Bounded wf (awaits_approval node_id) _ r.steps (λ s. (refl, refl)) b in
      if_both (RunBounded wf) (count_steps (awaits_approval node_id) r.steps == 1)
        (if_both (RunBounded wf) approve (fired wf approved_edge node_id _ c)
          (fired_or_failed wf (has_label "denied") node_id _ c))
        tt

  pub cancel-Bounded : (r : Run) → Bounded wf r.steps → Bounded wf (cancel r).steps
  unfolding cancel finish
  cancel-Bounded r b =
      if_both (λ (w : Run). Bounded wf w.steps) (is_terminal r.state) b
        (update-Bounded wf (λ s. active_step s.status) (set_status skipped) r.steps
          (set_status-Keeps skipped) b)

  settle_as-Bounded :
      (node_id : Text) (row : Step) (outcome : Settled) (actor : Text) (r : Run)
      → Bounded wf r.steps
      → RunBounded wf (settle_as wf node_id row outcome actor r)
  unfolding settle_as
  settle_as-Bounded node_id row outcome actor r b =
      let c =
        set_step-Bounded wf row.id
          (λ s. record s { status = settled_status outcome; decided_by = some actor }) r
          (λ s. (refl, refl)) b in
      by_outcome outcome c
    where
      settled : Settled → Run
      settled o =
          set_step row.id (λ s. record s { status = settled_status o; decided_by = some actor }) r

      by_outcome :
          (o : Settled)
          → Bounded wf (settled o).steps
          → RunBounded wf (settle_as wf node_id row o actor r)
      by_outcome happened c = fired wf unlabelled node_id (settled happened) c
      by_outcome retry c = c
      by_outcome failed_for_good c = c

  pub resolve-Bounded :
      (node_id : Text) (outcome : Settled) (actor : Text) (r : Run)
      → Bounded wf r.steps
      → RunBounded wf (resolve wf node_id outcome actor r)
  unfolding resolve
  resolve-Bounded node_id outcome actor r b =
      elim (Option-cases (first_uncertain node_id r.steps)) [
        | inl e ↦ rw (RunBounded, e) tt
        | inr (row, e) ↦ rw (RunBounded, e) (settle_as-Bounded node_id row outcome actor r b)
      ]

  pub wake_event-Bounded :
      (event : Text) (step : Step) (r : Run)
      → Bounded wf r.steps
      → RunBounded wf (wake_event wf event step r)
  unfolding wake_event
  wake_event-Bounded event step r b =
      if_both (RunBounded wf) (awaits_event event step.id step)
        (fired wf unlabelled step.node_id _ (
          update-Bounded wf (λ s. has_id step.id s && s.status == waiting) (set_status succeeded)
            r.steps (set_status-Keeps succeeded) b))
        b
