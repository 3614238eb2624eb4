-- ===== src/ReleaseGate/Ledger/Faults.antt =====
-- ledger.py: what `verify` finds in one row of `ledger_entries`, given the rows before it.
use Prim.Native.String.{count}
use shipcheck.Base.{
  ℕ, String, ◌==◌, Bool, true, false, not, ◌&&◌, ◌||◌, Option, none, some, List, [], ◌∷◌, all,
  length, eqb, ltb, if◌then◌else◌,
}
use shipcheck.Base.Texts.{is_empty, contains, le_text}
use shipcheck.Json.{Value, str, arr, obj, items}
use shipcheck.ReleaseGate.Ledger.State.{Promotion}
use shipcheck.ReleaseGate.Ledger.AnchorFile.{has_keys}

-- the entries of `errors`, with the sequence that they name
pub data Fault : Type 0 where
  database foreign_keys states anchor_invalid anchor_missing truncated anchor_hash : Fault
  anchor_absent anchor_history invalid_sequence : Fault
  sequence_gap previous_hash payload_digest invalid_payload unhashable entry_hash : ℕ → Fault
  invalid_column : String → ℕ → Fault
  envelope binding request payload_shape transition type_state plan_fault order decision : ℕ → Fault
  -- no entry: a `TypeError` that leaves `verify`
  escaped : ℕ → Fault

abbrev pub has_escaped : Fault → Bool
has_escaped (escaped n) = true
has_escaped _ = false

abbrev pub fault_if : Bool → Fault → List Fault
fault_if true f = f ∷ []
fault_if false f = []

-- `not raw_value or len(raw_value) > 64`, and the value that the source goes on with
abbrev pub is_bad_column : String → Bool
is_bad_column t = is_empty t || ltb 64 (count t)

abbrev pub clean : String → String
clean t = if is_bad_column t then "" else t

-- what the rows before have left
pub record Progress (Decision : Type 0) : Type 0 where
  pub faults : List Fault
  pub previous : String
  pub expected : ℕ
  pub derived : List Promotion
  -- by their digests, the last one first
  pub evaluated : List (String × ℕ × Decision)

abbrev pub find_evaluated : {D : Type 0} → String → List (String × ℕ × D) → Option (ℕ × D)
find_evaluated t [] = none
find_evaluated t ((k, n, d) ∷ rest) = if k == t then some (n, d) else find_evaluated t rest

abbrev pub envelope_keys : List String
envelope_keys =
    "schema_version" ∷ "engine_version" ∷ "candidate_digest" ∷ "evidence_digest" ∷ "policy_digest"
    ∷ "trust_digest" ∷ "assurance_profile" ∷ "source_kinds" ∷ "policy_summary" ∷ "waiver_digests"
    ∷ "decision" ∷ []

abbrev pub policy_summary_keys : List String
policy_summary_keys =
    "required_checks" ∷ "required_matrix" ∷ "required_test_suites" ∷ "required_artifacts"
    ∷ "expected_environment" ∷ "expected_version" ∷ "max_evidence_age_hours" ∷ "max_diff_risk"
    ∷ "minimum_test_count" ∷ "minimum_flake_samples" ∷ "maximum_flake_rate"
    ∷ "minimum_reproducible_builds" ∷ "minimum_reproducible_authorities" ∷ "require_artifact"
    ∷ "require_sbom" ∷ "require_changelog" ∷ "require_rollback" ∷ "require_deploy_observation"
    ∷ "rollback_max_age_hours" ∷ "maximum_rollback_minutes" ∷ []

abbrev pub is_kind : Value → Bool
is_kind (str t) = contains t ("synthetic" ∷ "supplied" ∷ "observed" ∷ "attested" ∷ [])
is_kind _ = false

abbrev below : Value → List Value → Bool
below (str s) (str t ∷ rest) = le_text s t && not (s == t)
below _ [] = true
below _ _ = false

-- `source_kinds == sorted(set(source_kinds))`, of texts
abbrev pub is_increasing : List Value → Bool
is_increasing [] = true
is_increasing (v ∷ vs) = below v vs && is_increasing vs

abbrev pub are_kinds : Value → Bool
are_kinds (arr vs) =
    not (eqb (length (items vs)) 0) && is_increasing (items vs) && all is_kind (items vs)
are_kinds _ = false

abbrev pub is_summary : Value → Bool
is_summary (obj fs) = has_keys policy_summary_keys fs
is_summary _ = false
