-- ===== src/Egress.antt =====
-- backend/patchquest/domain/egress.py and backend/patchquest/runtime/egress.py: data that leaves the
-- runtime, as actions that the policies decide on. `urlsplit` is an argument.
use patch_quest.Common.{
  String, Bool, true, false, not, ◌&&◌, Option, none, some, List, [], ◌∷◌, ◌++◌, map, ◌==◌,
  contains, if◌then◌else◌, nat_eq, string_eq,
}
use patch_quest.Text.{Text, codes, text_beq, lower, lstrip, rstrip, is_within}
use patch_quest.Text.Equality.{text_eq}
use patch_quest.Effects.{network_read}
use patch_quest.Policy.{Policy, PolicyDecision, allow, deny, system, evaluate, strictest}

-- The host name in a URL by `urlsplit`, none where there is none, and the text of a ValueError.

pub record Urls : Type 0 where
  pub hostname : Text → Option Text
  pub refusal : Text → Text → String

unfoldable pub data_classes : List Text
data_classes =
    codes "metadata"
    ∷ codes "logs"
    ∷ codes "diff"
    ∷ codes "source_code"
    ∷ codes "test_output"
    ∷ codes "model_io"
    ∷ codes "trajectory"
    ∷ codes "artifact"
    ∷ codes "secret"
    ∷ []

unfoldable pub destination_kinds : List Text
destination_kinds =
    codes "model_provider" ∷ codes "connector" ∷ codes "portable_bundle" ∷ codes "external_api" ∷ []

-- `rstrip(".")`
unfoldable pub strip_dots : Text → Text
strip_dots [] = []
strip_dots (c ∷ t) = elim (strip_dots t) [
  | [] ↦ if c == 46 then [] else c ∷ []
  | d ∷ rest ↦ c ∷ d ∷ rest
]

abbrev or_none : Option Text → Text
or_none none = []
or_none (some t) = t

unfoldable pub network_read_action : Urls → Text → Text
unfolding strip_dots lower lstrip rstrip is_within
network_read_action urls url_or_host =
    let text = lstrip (rstrip url_or_host) in
    let host =
      or_none (urls.hostname (if is_within (codes "//") text then text else codes "//" ++ text)) in
    codes "network.read.domain:" ++ strip_dots (lower host)

unfoldable pub disclosure_id : Text → Text → Text
disclosure_id data_class destination =
    codes "artifact.disclose:" ++ data_class ++ codes ":" ++ destination

abbrev has_text : Text → Bool
has_text [] = false
has_text (c ∷ t) = true

-- None where a ValueError is raised; no name is the empty one.
unfoldable pub disclosure_actions : Text → Text → Text → Option (List Text)
unfolding contains data_classes destination_kinds disclosure_id text_beq lower
disclosure_actions data_class kind name =
    if not (contains data_classes data_class)
    then none
    else if not (contains destination_kinds kind)
    then none
    else some (
        disclosure_id data_class kind
        ∷ (if has_text name && not (name == kind)
            then disclosure_id data_class (lower name) ∷ []
            else []))

module _ (urls : Urls) (chain : List Policy) where
  unfoldable pub decide_network_read : Text → PolicyDecision
  unfolding network_read_action evaluate
  decide_network_read url_or_host =
      evaluate chain (network_read_action urls url_or_host) (some network_read)

  unfoldable pub unknown_disclosure : Text → Text → PolicyDecision
  unfolding disclosure_id
  unknown_disclosure data_class kind = record {
    action = disclosure_id data_class kind;
    result = deny;
    reason_code = "UNKNOWN_DISCLOSURE";
    reason = urls.refusal data_class kind;
    source_policy = "system-floor";
    scope = system;
    constraints = [];
    side_effect = none;
  }

  unfoldable pub nothing_disclosed : Text → PolicyDecision
  unfolding disclosure_id
  nothing_disclosed kind = record {
    action = disclosure_id (codes "-") kind;
    result = allow;
    reason_code = "NOTHING_DISCLOSED";
    reason = "no data leaves";
    source_policy = "system-floor";
    scope = system;
    constraints = [];
    side_effect = none;
  }

  abbrev or_nothing : Text → Option PolicyDecision → PolicyDecision
  or_nothing kind none = nothing_disclosed kind
  or_nothing kind (some d) = d

  -- The loop over the classes, with the decisions so far.
  unfoldable pub disclosed : Text → Text → List Text → List PolicyDecision → PolicyDecision
  unfolding strictest disclosure_actions evaluate
  disclosed kind name [] decisions = or_nothing kind (strictest decisions)
  disclosed kind name (data_class ∷ classes) decisions =
      elim (disclosure_actions data_class kind name) [
        | none ↦ unknown_disclosure data_class kind
        | some actions ↦
            disclosed kind name classes (decisions ++ map (λ a. evaluate chain a none) actions)
      ]

  unfoldable pub decide_disclosure : List Text → Text → Text → PolicyDecision
  decide_disclosure classes kind name = disclosed kind name classes []
