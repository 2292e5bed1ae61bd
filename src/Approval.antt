-- ===== src/Approval.antt =====
-- backend/patchquest/domain/approvals.py and backend/patchquest/persistence/approvals.py: requests for
-- approval, the decisions on them, and grants for the rest of a run.
pub mod Decisions
pub mod First
pub mod Grants
use patch_quest.Common.{
  ℕ, ◌+◌, String, Bool, true, false, not, ◌&&◌, ◌||◌, Option, none, some, List, [], ◌∷◌, ◌++◌, map,
  leb, Eq, ◌==◌, discrete_eq, select, any, all, contains, if◌then◌else◌, nat_eq, string_eq,
}
use patch_quest.Text.{Text, codes, is_space}
use patch_quest.Effects.{
  SideEffect, side_effect_eq, SideEffect-discrete, unknown, grantable, effect_value, side_effect,
}
use patch_quest.Db.{
  Env, ApprovalRow, Grant, Store, Result, ok, err, Tx, approval_not_found, already_decided,
  decision_not_allowed, bad_value, update_where, count_where,
}
use patch_quest.Db.{decision as decided_payload}
use patch_quest.Ledger.{Entry, entry, append}

pub data Decision : Type 0 where
  approve_once approve_for_run deny modify cancel_run : Decision

unfoldable pub Decision-discrete : Discrete Decision
Decision-discrete = hlevel

instance abbrev pub decision_eq : Eq Decision
unfolding Decision-discrete
decision_eq = discrete_eq Decision-discrete

unfoldable pub decision_value : Decision → String
decision_value approve_once = "APPROVE_ONCE"
decision_value approve_for_run = "APPROVE_FOR_RUN"
decision_value deny = "DENY"
decision_value modify = "MODIFY"
decision_value cancel_run = "CANCEL_RUN"

unfoldable pub status_for : Decision → String
status_for approve_once = "approved"
status_for approve_for_run = "approved"
status_for modify = "approved"
status_for deny = "denied"
status_for cancel_run = "cancelled"

unfoldable pub approving : Decision → Bool
unfolding contains Decision-discrete
approving d = contains (approve_once ∷ approve_for_run ∷ modify ∷ []) d

-- What `signature` hashes a command to, and the f-string of the event's message.
pub record Texts : Type 0 where
  pub signature : String → String
  pub message : Decision → ApprovalRow → String

-- The arguments of `request`.
pub record Request : Type 0 where
  pub kind : String
  pub reason : String
  pub command : Option String
  pub side_effect : SideEffect
  pub risk : Option String
  pub phase : Option String
  pub requested_by : String
  pub timeout_s : Option ℕ
  pub resources : List String

abbrev deadline : ℕ → Option ℕ → Option ℕ
deadline now none = none
deadline now (some t) = some (now + t)

unfoldable pub new_request : Env → ℕ → Request → ApprovalRow
unfolding effect_value
new_request env run_id q = record {
  id = env.uid;
  run_id = run_id;
  type = q.kind;
  command = q.command;
  reason = some q.reason;
  status = "pending";
  created_at = env.now;
  side_effect = some (effect_value q.side_effect);
  risk = q.risk;
  phase = q.phase;
  requested_by = q.requested_by;
  expires_at = deadline env.now q.timeout_s;
  resources = q.resources;
  resolved_at = none;
  decision = none;
  note = none;
  decided_by = none;
  modified_command = none;
}

unfoldable pub request : Env → ℕ → Request → Tx ℕ
unfolding new_request
request env run_id q s =
    ok (env.uid, record s { approvals = s.approvals ++ new_request env run_id q ∷ [] })

-- The arguments of `decide` besides the ids.
pub record Ruling : Type 0 where
  pub decision : Decision
  pub actor : String
  pub note : Option String
  pub modified_command : Option String

pub record Outcome : Type 0 where
  pub approval_id : ℕ
  pub decision : Decision
  pub status : String
  pub command : Option String

unfoldable pub approved : Outcome → Bool
approved o = approving o.decision

unfoldable pub find_approval : ℕ → List ApprovalRow → Option ApprovalRow
find_approval i [] = none
find_approval i (a ∷ rest) = let later = find_approval i rest in if a.id == i then some a else later

abbrev pub of_run : ℕ → Option ApprovalRow → Option ApprovalRow
of_run run none = none
of_run run (some a) = if a.run_id == run then some a else none

abbrev pub overdue : Option ℕ → ℕ → Bool
overdue none now = false
overdue (some t) now = leb t now

abbrev is_blank : Option String → Bool
is_blank none = true
is_blank (some t) = all is_space (codes t)

abbrev is_missing : Option String → Bool
is_missing none = true
is_missing (some t) = t == ""

abbrev pub effect_column : Option String → Option SideEffect
effect_column none = some unknown
effect_column (some t) = if t == "" then some unknown else side_effect t

unfoldable pub is_pending : ℕ → ApprovalRow → Bool
is_pending i a = a.id == i && a.status == "pending"

unfoldable pub edited : Ruling → Option String
unfolding Decision-discrete
edited g = if g.decision == modify then g.modified_command else none

unfoldable pub resolve : Env → Ruling → ApprovalRow → ApprovalRow
unfolding status_for decision_value
resolve env g a = record a {
  status = status_for g.decision;
  decision = some (decision_value g.decision);
  note = g.note;
  resolved_at = some env.now;
  decided_by = some g.actor;
  modified_command = edited g;
}

-- `INSERT OR IGNORE`, the key being the run and the signature.
unfoldable pub is_grant : ℕ → String → Grant → Bool
is_grant run sign g = g.run_id == run && g.signature == sign

unfoldable pub insert_grant : Grant → List Grant → List Grant
unfolding is_grant any
insert_grant g gs = if any (is_grant g.run_id g.signature) gs then gs else g ∷ gs

abbrev or_empty : Option String → String
or_empty none = ""
or_empty (some t) = t

-- A decision that may not be made on this request.
unfoldable pub forbidden : SideEffect → Ruling → ApprovalRow → Bool
unfolding Decision-discrete SideEffect-discrete contains all
forbidden effect g a =
    (g.decision == approve_for_run && (not (contains grantable effect) || is_missing a.command))
    || (g.decision == modify && (not (a.type == "command") || is_blank g.modified_command))

module _ (texts : Texts) (env : Env) (run_id : ℕ) where
  abbrev pub grant_for : ApprovalRow → SideEffect → Grant
  grant_for a effect = record {
    run_id = run_id;
    signature = texts.signature (or_empty a.command);
    side_effect = effect_value effect;
    approval_id = a.id;
    created_at = env.now;
  }

  unfoldable pub decision_entry : ApprovalRow → SideEffect → Ruling → Entry
  unfolding Decision-discrete
  decision_entry a effect g = record entry {
    phase = a.phase;
    status = some (status_for g.decision);
    message = some (texts.message g.decision a);
    payload = some (
        decided_payload a.id (decision_value g.decision) (effect_value effect) g.note
          (g.decision == modify));
    actor = g.actor;
  }

  abbrev pub new_grants : ApprovalRow → SideEffect → Ruling → List Grant → List Grant
  unfolding Decision-discrete
  new_grants a effect g gs =
      if g.decision == approve_for_run then insert_grant (grant_for a effect) gs else gs

  -- The compare-and-set, the grant and the event, on the tables as they are at the UPDATE.
  unfoldable pub write_decision :
      ApprovalRow → SideEffect → Ruling → Store → Result (Outcome × Store)
  unfolding Decision-discrete update_where count_where append
  write_decision a effect g s =
      let t = record s {
        approvals = update_where (is_pending a.id) (resolve env g) s.approvals;
        grants = new_grants a effect g s.grants;
      } in
      let outcome : Outcome = record {
        approval_id = a.id;
        decision = g.decision;
        status = status_for g.decision;
        command = if g.decision == modify then g.modified_command else a.command;
      } in
      if count_where (is_pending a.id) s.approvals == 1
      then ok (outcome, (append env run_id "approval_decided" (decision_entry a effect g) t).1)
      else err already_decided

  -- `seen` are the tables at the SELECT, the last argument those at the UPDATE.
  unfoldable pub decide_seen : ℕ → Ruling → Store → Store → Result (Outcome × Store)
  unfolding find_approval
  decide_seen approval_id g seen s =
      elim (of_run run_id (find_approval approval_id seen.approvals)) [
        | none ↦ err approval_not_found
        | some a ↦
            if not (a.status == "pending")
            then err already_decided
            else if overdue a.expires_at env.now
            then err already_decided
            else elim (effect_column a.side_effect) [
              | none ↦ err bad_value
              | some effect ↦
                  if forbidden effect g a
                  then err decision_not_allowed
                  else write_decision a effect g s
            ]
      ]

  unfoldable pub decide : ℕ → Ruling → Tx Outcome
  unfolding decide_seen
  decide approval_id g s = decide_seen approval_id g s s

-- True if the request was still pending.
unfoldable pub expire : Env → ℕ → Tx Bool
unfolding update_where count_where is_pending
expire env i s = ok (
  count_where (is_pending i) s.approvals == 1,
  record s {
    approvals =
        update_where (is_pending i)
          (λ a. record a { status = "expired"; resolved_at = some env.now }) s.approvals;
  },
)

unfoldable pub has_grant : Texts → ℕ → String → Store → Bool
unfolding any is_grant
has_grant texts run_id command s = any (is_grant run_id (texts.signature command)) s.grants

abbrev open_at : ℕ → ℕ → ApprovalRow → Bool
open_at now run a = a.run_id == run && (a.status == "pending" && not (overdue a.expires_at now))

abbrev pub can_grant : ApprovalRow → Bool
unfolding contains SideEffect-discrete
can_grant a =
    not (is_missing a.command)
    && (a.type == "command"
        && elim (effect_column a.side_effect) [ none ↦ false | some e ↦ contains grantable e ])

unfoldable pub by_created : ApprovalRow → List ApprovalRow → List ApprovalRow
by_created a [] = a ∷ []
by_created a (b ∷ bs) =
    let rest = by_created a bs in if leb a.created_at b.created_at then a ∷ b ∷ bs else b ∷ rest

unfoldable pub ordered : List ApprovalRow → List ApprovalRow
unfolding by_created
ordered [] = []
ordered (a ∷ rest) = by_created a (ordered rest)

-- The requests that wait for a decision, each with whether it may be granted for the run.
unfoldable pub pending : Env → ℕ → Store → List (ApprovalRow × Bool)
unfolding select ordered
pending env run_id s =
    map (λ a. (a, can_grant a)) (ordered (select (open_at env.now run_id) s.approvals))
