-- ===== src/Engine/Reached.antt =====
-- The runs that the engine's operations lead to, from the start of a definition.
use patch_quest.Common.{ℕ, ◌≤◌, ◌≡◌, Bool, some, arith, All, subst}
use patch_quest.Text.{Text}
use patch_quest.Workflow.{Workflow}
use patch_quest.Engine.{Step, Run, running, succeeded, set_status, set_step, update_steps}
use patch_quest.Engine.Nodes.{succeed}
use patch_quest.Engine.Requests.{start_run, decide, cancel, resolve, wake_event, Settled}
use patch_quest.Engine.Advance.{Inputs, advance}
use patch_quest.Engine.Visits.{Bounded, visits, visit_limit}
use patch_quest.Engine.Handlers.{RunBounded, set_status-Bounded}
use patch_quest.Engine.Asked.{decide-Bounded, cancel-Bounded, resolve-Bounded, wake_event-Bounded}
use patch_quest.Engine.History.{advance-Bounded}
use patch_quest.Engine.Start.{Distinct, start_run-Bounded}

module _ (allow_unapproved : Bool) (wf : Workflow) where
  pub data Reached : Run → Type 0 where
    started : (first_id : ℕ) → Reached (start_run wf first_id)
    advanced :
        {r : Run}
        → (inputs : ℕ → Step → Inputs) → Reached r
        → Reached (advance allow_unapproved wf inputs r)
    decided :
        {r s : Run}
        → (node_id : Text) (approve : Bool) (actor : Text)
        → decide wf node_id approve actor r ≡ some s
        → Reached r
        → Reached s
    stopped_by : {r : Run} → Reached r → Reached (cancel r)
    resolved :
        {r s : Run}
        → (node_id : Text) (outcome : Settled) (actor : Text)
        → resolve wf node_id outcome actor r ≡ some s
        → Reached r
        → Reached s
    woken :
        {r s : Run}
        → (event : Text) (step : Step) → wake_event wf event step r ≡ some s
        → Reached r
        → Reached s
    -- A process that ended between the transactions of an action: its step was set running, or succeeded
    -- while its edges were not followed.
    left_running : {r : Run} → (i : ℕ) → Reached r → Reached (set_step i (set_status running) r)
    left_succeeded : {r : Run} → (i : ℕ) → Reached r → Reached (succeed i r)

  Reached-Bounded :
      Distinct wf.nodes
      → All (λ n. 1 ≤ n.max_visits) wf.nodes
      → {r : Run} → Reached r
      → Bounded wf r.steps
  unfolding update_steps
  Reached-Bounded d v (started first_id) = start_run-Bounded wf first_id d v
  Reached-Bounded d v (advanced {r = r} inputs p) =
      advance-Bounded allow_unapproved wf inputs r (Reached-Bounded d v p)
  Reached-Bounded d v (decided {r = r} node_id approve actor e p) =
      subst (RunBounded wf) e (decide-Bounded wf node_id approve actor r (Reached-Bounded d v p))
  Reached-Bounded d v (stopped_by {r = r} p) = cancel-Bounded wf r (Reached-Bounded d v p)
  Reached-Bounded d v (resolved {r = r} node_id outcome actor e p) =
      subst (RunBounded wf) e (resolve-Bounded wf node_id outcome actor r (Reached-Bounded d v p))
  Reached-Bounded d v (woken {r = r} event step e p) =
      subst (RunBounded wf) e (wake_event-Bounded wf event step r (Reached-Bounded d v p))
  Reached-Bounded d v (left_running {r = r} i p) =
      set_status-Bounded wf i running r (Reached-Bounded d v p)
  Reached-Bounded d v (left_succeeded {r = r} i p) =
      set_status-Bounded wf i succeeded r (Reached-Bounded d v p)

  -- However a run was started, advanced, answered, cancelled, resolved and woken, and whatever its handlers
  -- were told, no node has more steps than its definition's `max_visits`, where no node id stands twice in
  -- the definition and every node may be visited at least once.
  pub Reached-visits :
      (r : Run) (n : Text)
      → Distinct wf.nodes
      → All (λ n. 1 ≤ n.max_visits) wf.nodes
      → Reached r
      → visits n r.steps ≤ visit_limit wf n
  Reached-visits r n d v p =
      let b = Reached-Bounded d v p in omega (arith, b.numbered n, b.within n)
