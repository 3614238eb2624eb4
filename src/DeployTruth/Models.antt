-- ===== src/DeployTruth/Models.antt =====
-- packages/deploy-truth/src/deploy_truth/models.py: the types of the report, and its identity.
use shipcheck.Base.{
  ℕ, String, Bool, true, false, Option, none, some, List, [], ◌∷◌, map, Result, ◌<>◌,
}
use shipcheck.Json.{Value, null, str, dict, array, number}

-- a value, or the message of a `ContractError`
abbrev pub Checked : Type 0 → Type 0
Checked = Result String

pub data Decision : Type 0 where
  verified degraded blocked : Decision

abbrev pub decision_value : Decision → String
decision_value verified = "verified"
decision_value degraded = "degraded"
decision_value blocked = "blocked"

-- `impaired` is DEGRADED.
pub data ComponentState : Type 0 where
  ready disabled impaired : ComponentState

abbrev pub is_ready : ComponentState → Bool
is_ready ready = true
is_ready _ = false

abbrev component_state_value : ComponentState → String
component_state_value ready = "ready"
component_state_value disabled = "disabled"
component_state_value impaired = "degraded"

pub record Component : Type 0 where
  pub name : String
  pub version : String
  pub dependencies : List String
  pub state : ComponentState
  pub artifacts : List String

pub record Spec : Type 0 where
  pub release_version : String
  pub components : List Component
  pub spec_sha256 : String

pub record Artifact : Type 0 where
  pub path : String
  pub component : Option String
  pub sha256 : String
  pub size : ℕ

pub data Layer : Type 0 where
  source bundle live : Layer

abbrev pub same_layer : Layer → Layer → Bool
same_layer source source = true
same_layer bundle bundle = true
same_layer live live = true
same_layer _ _ = false

abbrev pub layer_value : Layer → String
layer_value source = "source"
layer_value bundle = "bundle"
layer_value live = "live"

-- `halted` is BLOCKED.
pub data CaptureState : Type 0 where
  captured halted : CaptureState

abbrev pub is_blocked : CaptureState → Bool
is_blocked captured = false
is_blocked halted = true

abbrev capture_value : CaptureState → String
capture_value captured = "captured"
capture_value halted = "blocked"

pub record Inventory : Type 0 where
  pub layer : Layer
  pub state : CaptureState
  pub artifacts : List Artifact
  pub inventory_sha256 : String
  pub error_code : Option String
  pub summary : String

pub data Kind : Type 0 where
  match byte_drift missing_source missing_bundle missing_live : Kind
  unexpected_source unexpected_bundle unexpected_live : Kind

abbrev pub kind_value : Kind → String
kind_value match = "match"
kind_value byte_drift = "byte_drift"
kind_value missing_source = "missing_source"
kind_value missing_bundle = "missing_bundle"
kind_value missing_live = "missing_live"
kind_value unexpected_source = "unexpected_source"
kind_value unexpected_bundle = "unexpected_bundle"
kind_value unexpected_live = "unexpected_live"

abbrev pub is_match : Kind → Bool
is_match match = true
is_match _ = false

-- `kind in blocking_kinds`
abbrev pub is_blocking : Kind → Bool
is_blocking missing_source = true
is_blocking missing_bundle = true
is_blocking missing_live = true
is_blocking unexpected_source = true
is_blocking _ = false

pub record Difference : Type 0 where
  pub path : String
  pub component : Option String
  pub kind : Kind
  pub source_sha256 : Option String
  pub bundle_sha256 : Option String
  pub live_sha256 : Option String
  pub summary : String

-- `TruthReport`, less what the specification holds
pub record Report : Type 0 where
  pub spec : Spec
  pub source_layer : Inventory
  pub bundle_layer : Inventory
  pub live_layer : Inventory
  pub differences : List Difference
  pub decision : Decision
  pub reasons : List String
  pub evidence_sha256 : String

abbrev pub text_or_null : Option String → Value
text_or_null none = null
text_or_null (some s) = str s

-- `asdict(artifact)`
abbrev pub artifact_to_dict : Artifact → Value
artifact_to_dict a = dict (
    ("path", str a.path)
    ∷ ("component", text_or_null a.component)
    ∷ ("sha256", str a.sha256)
    ∷ ("size", number a.size)
    ∷ [])

-- `LayerInventory.to_dict`
abbrev inventory_to_dict : Inventory → Value
inventory_to_dict i = dict (
    ("layer", str (layer_value i.layer))
    ∷ ("state", str (capture_value i.state))
    ∷ ("artifacts", array (map artifact_to_dict i.artifacts))
    ∷ ("inventory_sha256", str i.inventory_sha256)
    ∷ ("error_code", text_or_null i.error_code)
    ∷ ("summary", str i.summary)
    ∷ [])

-- `Difference.to_dict`
abbrev difference_to_dict : Difference → Value
difference_to_dict d = dict (
    ("path", str d.path)
    ∷ ("component", text_or_null d.component)
    ∷ ("kind", str (kind_value d.kind))
    ∷ ("source_sha256", text_or_null d.source_sha256)
    ∷ ("bundle_sha256", text_or_null d.bundle_sha256)
    ∷ ("live_sha256", text_or_null d.live_sha256)
    ∷ ("summary", str d.summary)
    ∷ [])

abbrev join_comma : List String → String
join_comma [] = ""
join_comma (t ∷ []) = t
join_comma (t ∷ u ∷ ts) = t <> ("," <> join_comma (u ∷ ts))

-- an entry of `versions`
abbrev version_entry : Component → String × Value
version_entry c = (
  c.name,
  dict (
      ("version", str c.version)
      ∷ ("state", str (component_state_value c.state))
      ∷ ("dependencies", str (join_comma c.dependencies))
      ∷ []),
)

-- the dict whose digest is the evidence
unfoldable pub identity : Report → Value
identity r = dict (
    ("schema_version", str "1.0")
    ∷ ("release_version", str r.spec.release_version)
    ∷ ("spec_sha256", str r.spec.spec_sha256)
    ∷ ("source", inventory_to_dict r.source_layer)
    ∷ ("bundle", inventory_to_dict r.bundle_layer)
    ∷ ("live", inventory_to_dict r.live_layer)
    ∷ ("differences", array (map difference_to_dict r.differences))
    ∷ ("component_versions", dict (map version_entry r.spec.components))
    ∷ ("decision", str (decision_value r.decision))
    ∷ ("decision_reasons", array (map str r.reasons))
    ∷ [])
