-- ===== src/MergeGate/Contract/Artifact/Digest.antt =====
-- contract.py: the digests of snapshots, inventories and artifacts.
use shipcheck.Base.{String, [], ◌∷◌, map}
use shipcheck.Json.{Value, str, bool, array, dict}
use shipcheck.MergeGate.Contract.Fields.{decision_value, is_ready}
use shipcheck.MergeGate.Contract.Snapshot.{inventory, snapshot_to_dict}
use shipcheck.MergeGate.Contract.Policy.{policy_to_dict}
use shipcheck.MergeGate.Contract.Artifact.{GateArtifact, check_to_dict}

-- `sha256_json` is a parameter: SHA-256 of the canonical JSON of a value.
module _ (sha256_json : Value → String) where
  -- `GateArtifact.body_dict`
  unfoldable pub artifact_body : GateArtifact → Value
  artifact_body a = dict (
      ("schema_version", str "1.0")
      ∷ ("tool_version", str "0.1.0")
      ∷ ("generated_at", str a.generated_at)
      ∷ ("decision", str (decision_value a.decision))
      ∷ ("ready", bool (is_ready a.decision))
      ∷ ("snapshot_sha256", str (sha256_json (snapshot_to_dict a.snapshot)))
      ∷ ("inventory_sha256", str (sha256_json (inventory a.snapshot)))
      ∷ ("policy", policy_to_dict a.policy)
      ∷ ("policy_sha256", str (sha256_json (policy_to_dict a.policy)))
      ∷ ("checks", array (map check_to_dict a.checks))
      ∷ ("outputs", dict a.outputs)
      ∷ ("snapshot", snapshot_to_dict a.snapshot)
      ∷ [])

  -- `GateArtifact.sha256`
  abbrev pub artifact_sha256 : GateArtifact → String
  artifact_sha256 a = sha256_json (artifact_body a)
