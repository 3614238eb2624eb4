-- ===== src/DeployTruth/Plan.antt =====
-- packages/deploy-truth/src/deploy_truth/transactions.py: operations, plans and results. Digests
-- are texts; plans read from JSON are not here.
pub mod Effect
pub mod Reaches
use Prim.Native.String.{count}
use shipcheck.Base.{
  String, Bool, true, false, not, ◌&&◌, ◌||◌, Option, none, some, List, [], ◌∷◌, ◌++◌, map, eqb,
  all, keep, if◌then◌else◌, ok, err, ◌>>=◌, ◌>>◌, raise_if, each,
}
use shipcheck.Base.Sort.{sort_by}
use shipcheck.Base.Texts.{le_text, contains, all_chars, is_hex, first_chars}
use shipcheck.Json.{Value, str, dict, array}
use shipcheck.DeployTruth.Models.{
  Decision, decision_value, text_or_null, Spec, Artifact, artifact_to_dict, Inventory, is_blocked,
  Checked,
}
use shipcheck.DeployTruth.{
  artifact_components, find_artifact, sha_of, same_bytes, unique, artifact_paths,
}
use shipcheck.DeployTruth.Capture.{Hashing, validate_relative_path}

pub data OperationKind : Type 0 where
  write delete : OperationKind

abbrev operation_kind_value : OperationKind → String
operation_kind_value write = "write"
operation_kind_value delete = "delete"

-- `confirmed` is VERIFIED, and `barred` is BLOCKED.
pub data TransactionOutcome : Type 0 where
  applied confirmed rolled_back auto_rolled_back barred : TransactionOutcome

abbrev outcome_value : TransactionOutcome → String
outcome_value applied = "applied"
outcome_value confirmed = "verified"
outcome_value rolled_back = "rolled_back"
outcome_value auto_rolled_back = "auto_rolled_back"
outcome_value barred = "blocked"

pub record Operation : Type 0 where
  pub kind : OperationKind
  pub path : String
  pub bundle_sha256 : Option String
  pub previous_live_sha256 : Option String

abbrev lacks_digest : OperationKind → Option String → Bool
lacks_digest write none = true
lacks_digest _ _ = false

abbrev bad_digest : Option String → Bool
bad_digest none = false
bad_digest (some s) = not (eqb (count s) 64) || not (all_chars is_hex s)

-- `Operation.__post_init__`
unfoldable pub create_operation :
    OperationKind → String → Option String → Option String → Checked Operation
create_operation kind path bundle previous = do
  _ ← validate_relative_path path
  raise_if (lacks_digest kind bundle) "write operations require bundle_sha256"
  raise_if (bad_digest bundle || bad_digest previous) "operation sha256 is invalid"
  ok (record { kind = kind; path = path; bundle_sha256 = bundle; previous_live_sha256 = previous })

-- `Operation.to_dict`
abbrev pub operation_to_dict : Operation → Value
operation_to_dict o = dict (
    ("kind", str (operation_kind_value o.kind))
    ∷ ("path", str o.path)
    ∷ ("bundle_sha256", text_or_null o.bundle_sha256)
    ∷ ("previous_live_sha256", text_or_null o.previous_live_sha256)
    ∷ [])

-- `DeploymentPlan`, whose `schema_version` is "1.0"
pub record DeploymentPlan : Type 0 where
  pub spec_sha256 : String
  pub release_version : String
  pub expected_live_content_sha256 : String
  pub desired_bundle_content_sha256 : String
  pub operations : List Operation
  pub plan_id : String

-- the live artifact of a path differs from the bundle's, or is absent
abbrev pub differs : Artifact → Option Artifact → Bool
differs desired none = true
differs desired (some previous) = not (same_bytes previous desired)

-- the body of the loop over the expected paths; the bundle has the path there
abbrev pub write_if_changed : String → Option Artifact → Option Artifact → Checked (List Operation)
write_if_changed path none previous = err "KeyError"
write_if_changed path (some desired) previous =
    if differs desired previous
    then (create_operation write path (some desired.sha256) (sha_of previous) >>= λ o. ok (o ∷ []))
    else ok []

-- the loop over the expected paths
unfoldable pub writes_of : List Artifact → List Artifact → List String → Checked (List Operation)
writes_of bundle live [] = ok []
writes_of bundle live (path ∷ paths) = do
  os ← write_if_changed path (find_artifact path bundle) (find_artifact path live)
  rest ← writes_of bundle live paths
  ok (os ++ rest)

-- the loop over the live paths that are not expected
abbrev pub delete_of : List Artifact → String → Checked Operation
delete_of live path = create_operation delete path none (sha_of (find_artifact path live))

-- `set(xs) == set(ys)`
abbrev pub same_set : List String → List String → Bool
same_set xs ys = all (λ x. contains x ys) xs && all (λ y. contains y xs) ys

abbrev pub expected_paths : Spec → List String
expected_paths spec = map (λ (e : String × String). e.0) (artifact_components spec)

-- the operations of `DeploymentPlan.create`
unfoldable pub plan_operations : List String → Inventory → Inventory → Checked (List Operation)
plan_operations expected bundle live = do
  writes ← writes_of bundle.artifacts live.artifacts (sort_by le_text expected)
  deletes ←
      each (delete_of live.artifacts)
        (sort_by le_text (keep (λ p. not (contains p expected)) (unique (artifact_paths live))))
  ok (writes ++ deletes)

pub record TransactionResult : Type 0 where
  pub plan_id : String
  pub outcome : TransactionOutcome
  pub decision : Decision
  pub outputs : List String
  pub before_content_sha256 : Option String
  pub after_content_sha256 : Option String
  pub rollback_content_sha256 : Option String
  pub evidence_sha256 : String

module _ (h : Hashing) where
  open h use {sha256_json}

  unfoldable pub content_sha256 : Inventory → String
  content_sha256 i = sha256_json (array (map artifact_to_dict i.artifacts))

  -- the dict whose digest is the plan's id
  abbrev plan_identity : Spec → String → String → List Operation → Value
  plan_identity spec expected desired operations = dict (
      ("schema_version", str "1.0")
      ∷ ("spec_sha256", str spec.spec_sha256)
      ∷ ("release_version", str spec.release_version)
      ∷ ("expected_live_content_sha256", str expected)
      ∷ ("desired_bundle_content_sha256", str desired)
      ∷ ("operations", array (map operation_to_dict operations))
      ∷ [])

  -- `DeploymentPlan.create`
  unfoldable pub create_plan : Spec → Inventory → Inventory → Checked DeploymentPlan
  create_plan spec bundle live = do
    raise_if (is_blocked bundle.state || is_blocked live.state)
        "cannot plan from a blocked inventory"
    raise_if (not (same_set (artifact_paths bundle) (expected_paths spec)))
        "bundle must contain exactly the release spec artifacts before planning"
    operations ← plan_operations (expected_paths spec) bundle live
    ok (record {
      spec_sha256 = spec.spec_sha256;
      release_version = spec.release_version;
      expected_live_content_sha256 = content_sha256 live;
      desired_bundle_content_sha256 = content_sha256 bundle;
      operations = operations;
      plan_id =
          sha256_json (plan_identity spec (content_sha256 live) (content_sha256 bundle) operations);
    })

  -- `TransactionResult.create`
  unfoldable pub create_result :
      String
      → TransactionOutcome
      → Decision
      → List String
      → (before after rollback : Option String) → TransactionResult
  create_result id outcome decision outputs before after rollback =
      let bounded = map (first_chars 512) outputs in
      record {
        plan_id = id;
        outcome = outcome;
        decision = decision;
        outputs = bounded;
        before_content_sha256 = before;
        after_content_sha256 = after;
        rollback_content_sha256 = rollback;
        evidence_sha256 = sha256_json (
            dict (
              ("plan_id", str id)
              ∷ ("outcome", str (outcome_value outcome))
              ∷ ("decision", str (decision_value decision))
              ∷ ("outputs", array (map str bounded))
              ∷ ("before_content_sha256", text_or_null before)
              ∷ ("after_content_sha256", text_or_null after)
              ∷ ("rollback_content_sha256", text_or_null rollback)
              ∷ []));
      }

-- `DeploymentPlan.to_dict`
unfoldable plan_to_dict : DeploymentPlan → Value
plan_to_dict p = dict (
    ("schema_version", str "1.0")
    ∷ ("spec_sha256", str p.spec_sha256)
    ∷ ("release_version", str p.release_version)
    ∷ ("expected_live_content_sha256", str p.expected_live_content_sha256)
    ∷ ("desired_bundle_content_sha256", str p.desired_bundle_content_sha256)
    ∷ ("operations", array (map operation_to_dict p.operations))
    ∷ ("plan_id", str p.plan_id)
    ∷ [])

-- `TransactionResult.to_dict`
unfoldable result_to_dict : TransactionResult → Value
result_to_dict r = dict (
    ("schema_version", str "1.0")
    ∷ ("plan_id", str r.plan_id)
    ∷ ("outcome", str (outcome_value r.outcome))
    ∷ ("decision", str (decision_value r.decision))
    ∷ ("outputs", array (map str r.outputs))
    ∷ ("before_content_sha256", text_or_null r.before_content_sha256)
    ∷ ("after_content_sha256", text_or_null r.after_content_sha256)
    ∷ ("rollback_content_sha256", text_or_null r.rollback_content_sha256)
    ∷ ("evidence_sha256", str r.evidence_sha256)
    ∷ [])
