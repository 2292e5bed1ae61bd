-- ===== src/Lib.antt =====
-- PatchQuest: a runtime for coding agents. Every run is a row in a database that moves through a
-- table of legal statuses; workers claim queued runs under a lease; every change is recorded in an
-- event ledger; each action passes policies and, where these ask for it, an approval; failures are
-- classified once, and retried by rule; patches are applied by their context. This library models
-- the decisions and the state of backend/patchquest, and proves what the parts promise each other.
--
-- The parts, and the files of the repository that they model:
--   Run           domain/runs.py: RunStatus, TRANSITIONS, can_transition
--   Db            database.py, persistence/schema.py: the tables `runs`, `run_events`, `approvals`
--                 and `approval_grants` as lists of records, `get_db` as a transaction with
--                 rollback, and the fence that a worker's transactions pass at their end
--   Ledger        persistence/ledger.py: append, redact, read
--   Transition    persistence/runs.py: transition, the compare-and-set of a status with its event
--   Queue         runtime/queue.py: enqueue, claim, heartbeat, release, stats
--   Failure       domain/failures.py: the kinds, SPECS, classify, parse_retry_after
--   Retry         runtime/retry.py: backoff, decide, run_with_retry
--   Effects       domain/effects.py: SideEffect, GRANTABLE
--   Egress        domain/egress.py, runtime/egress.py: the decisions on data that leaves the runtime
--   Glob          the fnmatch patterns in which domain/policy.py writes its rules
--   Policy        domain/policy.py: evaluate, strictest, effective_limits, and in Policy.Clamp
--                 runtime/policy.py: clamp_overrides
--   Approval      domain/approvals.py, persistence/approvals.py: request, decide, expire,
--                 has_grant, pending
--   Patch         patching/unified.py: _find_block as find_block, apply_hunks, and in Patch.Parse
--                 parse_unified_diff
--   Atomic        patching/engine.py: in Atomic.Plan load and the changes in memory, in Atomic.Write
--                 the preconditions, _write, rollback and apply_changes
--   Edit          patching/edits.py: apply_search_replace
--   Commands      tools/command_effects.py: effect_of; in Commands.Tables, .Shell, .Sensitive, .Risk,
--                 .Classify
--                 tools/command_risk.py: find_shell_syntax, _touches_sensitive, _classify_git,
--                 _classify_toolchain, classify (here classify_command)
--   Value         JSON values and their equality, as the workflows read them
--   Search        the loops over a stack in domain/workflows.py
--   Workflow      domain/workflows.py: definitions, _reachable, _ancestors, _nodes_on_cycles,
--                 _check_approval_gates
--   Engine        workflows/engine.py: the run and its steps, _fire, _settle; in Engine.Nodes and
--                 Engine.Actions the handlers of the node types, in Engine.Requests start, decide,
--                 cancel, resolve and the wake-up by an event, in Engine.Advance _step and advance
--   Checkpoint    persistence/checkpoints.py: save, _decode, latest_valid, get
--   Drift         runtime/fingerprint.py: classify, here classify_drift
--   Access        domain/identity.py, domain/tenancy.py: roles, can, authorize, may_grant,
--                 strongest
--   Budget        domain/budget.py: snapshot, exhausted
-- All paths are below backend/patchquest. Common and Text hold what the parts share.
--
-- How they interact: Queue and Transition write through Ledger.append; every operation of Queue,
-- Transition and Approval is a body of Db.get_db, which checks a worker's fence before it commits;
-- Policy decides by Effects and Glob, and Commands classifies for Policy; Approval gives grants
-- for the Effects that may be granted; Retry asks Failure. Atomic applies the hunks of Patch and
-- the edits of Edit. Engine follows the edges of Workflow, asks Policy before an action and Egress
-- on what it sends, calls the connector through Retry, and finds by Workflow.ancestors who
-- approved it.
--
-- Conventions: numbers are natural; an id or a time is a number, since the code compares and
-- orders them only; a run's clock and uuid come from `Env`. Code that reads and later writes takes
-- both states of the tables where another writer may come between (transition_seen, decide_seen).
-- Strings that the code takes apart are lists of code points (Text). The clock, the random
-- generator, hashes, urlsplit, the builtin float and the texts of messages are parameters. A float
-- of a policy or a delay is finite thousandths, an infinity or NaN.
--
-- Fuel: run_with_retry has one unit for each attempt, and as much as the policy has attempts is
-- enough for the calls; the sleep and the hook between them are values, and may hang. A search
-- over a graph has one unit for each start and each edge and one more, which is enough since each
-- edge is pushed at most once. advance has the 1000 rounds that the code has. The loops of the
-- diff parser have one unit for each line, and each turn takes a line. The pattern reader has fuel
-- for one token a character. Every other loop is structural.
--
-- Not modelled: HTTP routes, the command line, the frontend, providers and connectors (I/O),
-- PostgreSQL's own locking, JSON texts, prompts and agents. The describe of the checkpoints is not
-- modelled either. Of the patch engine, directories, file modes and the diff it reports are left
-- out; the resolution of paths and the scan for secrets are arguments. Of the workflows,
-- templates, conditions, the checks of a single node and the parser are left out: what a template
-- gives and what a comparison says are arguments of the handlers. Of a workflow run, outputs and
-- the log are left out, except what decides anything, and so are the child runs that the service
-- keeps. Of a run's row, direct inserts and the updates of attempt, current_phase, overrides_json
-- and resume_note outside the queue are left out.
mod Common
pub mod Run
pub mod Db
pub mod Ledger
pub mod Transition
pub mod Queue
pub mod Text
pub mod Value
pub mod Search
pub mod Workflow
pub mod Engine
pub mod Failure
pub mod Retry
pub mod Effects
pub mod Egress
pub mod Glob
pub mod Policy
pub mod Approval
pub mod Patch
pub mod Access
pub mod Budget
pub mod Edit
pub mod Atomic
pub mod Commands
pub mod Drift
pub mod Checkpoint
mod Examples
