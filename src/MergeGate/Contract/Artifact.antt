-- ===== src/MergeGate/Contract/Artifact.antt =====
-- contract.py: `Check` and `GateArtifact`.
pub mod Digest
use shipcheck.Base.{
  String, Bool, true, false, not, ◌&&◌, List, [], ◌∷◌, any, ok, ◌>>=◌, ◌>>◌, raise_if,
}
use shipcheck.Json.{Value, Fields, str, bool, dict}
use shipcheck.MergeGate.Errors.{Checked, contract}
use shipcheck.MergeGate.Contract.Fields.{
  CheckState, is_success, state_value, Decision, is_ready, text, Datetime, timestamp,
}
use shipcheck.MergeGate.Contract.Snapshot.{MergeSnapshot}
use shipcheck.MergeGate.Contract.Policy.{GatePolicy}

pub record Check : Type 0 where
  pub name : String
  pub state : CheckState
  pub required : Bool
  pub message : String
  pub evidence : List (String × Value)

-- `Check.__post_init__`
unfoldable pub create_check :
    String → CheckState → Bool → String → List (String × Value) → Checked Check
create_check name state required message evidence = do
  n ← text (str name) "check.name"
  m ← text (str message) "check.message"
  ok (record { name = n; state = state; required = required; message = m; evidence = evidence })

-- `check.required and not check.success`
abbrev pub required_failure : Check → Bool
required_failure c = c.required && not (is_success c.state)

-- `not check.required and not check.success`
abbrev pub optional_failure : Check → Bool
optional_failure c = not c.required && not (is_success c.state)

unfoldable pub check_to_dict : Check → Value
check_to_dict c = dict (
    ("name", str c.name)
    ∷ ("state", str (state_value c.state))
    ∷ ("success", bool (is_success c.state))
    ∷ ("required", bool c.required)
    ∷ ("message", str c.message)
    ∷ ("evidence", dict c.evidence)
    ∷ [])

pub record GateArtifact : Type 0 where
  pub decision : Decision
  pub snapshot : MergeSnapshot
  pub policy : GatePolicy
  pub checks : List Check
  pub generated_at : String
  pub outputs : List (String × Value)

-- `GateArtifact.__post_init__`, for the versions of this tool
unfoldable pub create_artifact :
    (d : Datetime)
    → Decision
    → MergeSnapshot
    → GatePolicy
    → List Check
    → String
    → List (String × Value)
    → Checked GateArtifact
create_artifact d decision snapshot policy checks generated_at outputs = do
  generated ← timestamp d (str generated_at)
  raise_if (is_ready decision && any required_failure checks)
      (contract "ready artifact contains a failing required check")
  ok (record {
    decision = decision;
    snapshot = snapshot;
    policy = policy;
    checks = checks;
    generated_at = generated;
    outputs = outputs;
  })
