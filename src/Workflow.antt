-- ===== src/Workflow.antt =====
-- backend/patchquest/domain/workflows.py: workflow definitions, and the graph rules of `validate`.
pub mod Graph
pub mod Gates
use patch_quest.Common.{
  ℕ, suc, ◌+◌, String, Bool, true, false, not, ◌&&◌, Option, none, some, List, [], ◌∷◌, map, Eq,
  ◌==◌, discrete_eq, length, select, first, any, contains, if◌then◌else◌, nat_eq, string_eq,
}
use patch_quest.Text.{Text, codes, text_beq}
use patch_quest.Text.Equality.{text_eq}
use patch_quest.Value.{Value, Fields, get, keys}
use patch_quest.Effects.{
  SideEffect, side_effect_eq, SideEffect-discrete, external_write, destructive, host_mutation,
  repository_write, unknown,
}
use patch_quest.Search.{Walk, found, visited, out_of_fuel, walk, extend}

pub data NodeType : Type 0 where
  agent action condition approval wait_event timer end_node : NodeType

unfoldable pub NodeType-discrete : Discrete NodeType
NodeType-discrete = hlevel

instance abbrev pub node_type_eq : Eq NodeType
unfolding NodeType-discrete
node_type_eq = discrete_eq NodeType-discrete

abbrev pub requires_approval_effects : List SideEffect
requires_approval_effects =
    external_write ∷ destructive ∷ host_mutation ∷ repository_write ∷ unknown ∷ []

pub record Node : Type 0 where
  pub id : Text
  pub type : NodeType
  pub config : Fields
  pub max_visits : ℕ

-- `when` is one of the labels, or none.
pub record Edge : Type 0 where
  pub source : Text
  pub target : Text
  pub when : Option Text

pub record Trigger : Type 0 where
  pub type : Text
  pub filter : Fields

pub record Workflow : Type 0 where
  pub name : Text
  pub trigger : Trigger
  pub nodes : List Node
  pub edges : List Edge
  pub variables : Fields
  pub description : Text
  pub schema : ℕ
  pub layout : Fields

unfoldable pub node : Workflow → Text → Option Node
unfolding first text_beq
node wf node_id = first (λ n. n.id == node_id) wf.nodes

unfoldable pub outgoing : Workflow → Text → List Edge
unfolding select
outgoing wf node_id = select (λ e. e.source == node_id) wf.edges

unfoldable pub incoming : Workflow → Text → List Edge
unfolding select
incoming wf node_id = select (λ e. e.target == node_id) wf.edges

abbrev pub ids : Workflow → List Text
ids wf = map (λ n. n.id) wf.nodes

unfoldable pub entries : Workflow → List Node
unfolding select contains
entries wf = select (λ n. not (contains (map (λ e. e.target) wf.edges) n.id)) wf.nodes

-- What follows and what precedes a node.
abbrev pub successors : Workflow → Text → List Text
successors wf cur = map (λ e. e.target) (outgoing wf cur)

abbrev pub predecessors : Workflow → Text → List Text
predecessors wf cur = map (λ e. e.source) (incoming wf cur)

-- Each edge is pushed at most once.
abbrev pub fuel_for : Workflow → List Text → ℕ
fuel_for wf starts = suc (length starts + length wf.edges)

abbrev pub seen_of : Walk Text → List Text
seen_of (visited seen) = seen
seen_of found = []
seen_of out_of_fuel = []

abbrev pub is_found : Walk Text → Bool
is_found found = true
is_found (visited seen) = false
is_found out_of_fuel = false

unfoldable pub reachable : Workflow → List Text → List Text
unfolding walk outgoing
reachable wf starts =
    seen_of (walk (successors wf) (λ _. false) (fuel_for wf starts) (extend starts []) [])

unfoldable pub ancestors : Workflow → Text → List Text
unfolding walk incoming
ancestors wf node_id =
    let starts = predecessors wf node_id in
    seen_of (walk (predecessors wf) (λ _. false) (fuel_for wf starts) (extend starts []) [])

unfoldable pub has_terminal : Workflow → Bool
unfolding any
has_terminal wf = any (λ n. elim (outgoing wf n.id) [ [] ↦ true | _ ∷ _ ↦ false ]) wf.nodes

-- The node is met again from its successors. The source tests for it before it tests `seen`, which is
-- the same, since the node itself is never added to `seen`.
unfoldable pub on_cycle : Workflow → Text → Bool
unfolding walk text_beq
on_cycle wf id =
    let starts = successors wf id in
    is_found (walk (successors wf) (λ cur. cur == id) (fuel_for wf starts) (extend starts []) [])

unfoldable pub nodes_on_cycles : Workflow → List Text
unfolding select
nodes_on_cycles wf = select (on_cycle wf) (ids wf)

abbrev pub is_type : NodeType → Option Node → Bool
unfolding NodeType-discrete
is_type t none = false
is_type t (some n) = n.type == t

-- What follows a node that is no approval: nothing past the gate counts.
unfoldable pub past_gate : Workflow → Text → List Text
unfolding node outgoing
past_gate wf cur = if is_type approval (node wf cur) then [] else successors wf cur

unfoldable pub reachable_avoiding_approval : Workflow → Text → Bool
unfolding walk past_gate entries text_beq
reachable_avoiding_approval wf target =
    let starts = map (λ n. n.id) (entries wf) in
    is_found (walk (past_gate wf) (λ cur. cur == target) (fuel_for wf starts) (extend starts []) [])

pub record ActionInfo : Type 0 where
  pub side_effect : SideEffect
  pub idempotent : Bool
  pub discloses : List Text
  pub network_host : Text

pub record ValidationPolicy : Type 0 where
  pub allow_unapproved_writes : Bool
  pub known_actions : Option (Text → Option ActionInfo)
  pub secret_exists : Option (Text → Bool)

-- The code of a problem, with the node it names; the message is left out.
pub record Problem : Type 0 where
  pub code : String
  pub node : Option Text

-- `str(v)` of a configured action: `text_of` stands for `str` of what is no text.
abbrev pub str : (Value → Text) → Option Value → Text
str text_of none = codes "None"
str text_of (some (Value.text t)) = t
str text_of (some v) = text_of v

module _ (text_of : Value → Text) where
  abbrev pub info_of : (Text → Option ActionInfo) → Node → Option ActionInfo
  info_of known n = known (str text_of (get n.config (codes "action")))

  abbrev pub is_dangerous : Option ActionInfo → Bool
  unfolding contains SideEffect-discrete
  is_dangerous none = false
  is_dangerous (some info) = contains requires_approval_effects info.side_effect

  -- An action whose effect needs an approval, and that can be reached without one.
  unfoldable pub ungated : Workflow → (Text → Option ActionInfo) → Node → Bool
  unfolding NodeType-discrete get reachable_avoiding_approval
  ungated wf known n =
      n.type == action && (is_dangerous (info_of known n) && reachable_avoiding_approval wf n.id)

  unfoldable pub check_approval_gates : Workflow → ValidationPolicy → List Problem
  unfolding ungated select
  check_approval_gates wf policy =
      if policy.allow_unapproved_writes then [] else (elim policy.known_actions [
        | none ↦ []
        | some known ↦
            map (λ n. record { code = "missing_approval"; node = some n.id })
              (select (ungated wf known) wf.nodes)
      ])
