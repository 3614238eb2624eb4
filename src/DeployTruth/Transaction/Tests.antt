-- ===== src/DeployTruth/Transaction/Tests.antt =====
-- A release of one file over another.
use shipcheck.Base.{
  ℕ, String, ◌≡◌, ◌<>◌, refl, true, Option, none, some, [], ◌∷◌, eqb, ok, if◌then◌else◌, err,
}
use shipcheck.Base.Results.{Result}
use shipcheck.Base.Exec.{Ends}
use shipcheck.Base.Sort.{sort_by, insert_by}
use shipcheck.Base.Texts.{split_slash, is_hex}
use shipcheck.Json.{Value, Items, nil, cons, arr, obj, str, get}
use shipcheck.DeployTruth.{artifact_components, unique}
use shipcheck.DeployTruth.Models
use shipcheck.DeployTruth.Plan.Effect.{effect, digests_of}
use shipcheck.DeployTruth.Plan.Reaches.{create_plan-reaches}
use shipcheck.DeployTruth.Models.{ready, Spec, verified, Layer, bundle, live, Inventory}
use shipcheck.DeployTruth.Capture.{
  Hashing, Limits, capture, create_artifact, validate_relative_path,
}
use shipcheck.DeployTruth.Plan.{
  applied, rolled_back, auto_rolled_back, TransactionOutcome, write, delete, DeploymentPlan,
  TransactionResult, create_result, content_sha256, create_plan, plan_operations, writes_of,
  create_operation,
}
use shipcheck.DeployTruth.Trees.{
  Tree, file, folder, Evidence, World, find_node, put_node, folders_of, scan, capture_directory,
}
use shipcheck.DeployTruth.Transaction.{
  Raised, Paths, restore_snapshot, clear_entries, restore_entries, recover, answered, make_folders,
  atomic_copy, run_operations, write_marker, tree_content, perform, marker_value, update,
}
use shipcheck.DeployTruth.Transaction.Apply.{execute, apply_plan, rollback_plan}
use shipcheck.DeployTruth.Transaction.Restore.{Calm, IsTree}
use shipcheck.DeployTruth.Transaction.Verdict.{Spared, Means, apply_plan-Means}
use shipcheck.DeployTruth.Transaction.Undo.{rollback-apply_plan}

abbrev ones : String
ones = "1111111111111111111111111111111111111111111111111111111111111111"

abbrev twos : String
twos = "2222222222222222222222222222222222222222222222222222222222222222"

-- the texts of the digests in a row
abbrev join_digests : Items → String
join_digests nil = ""
join_digests (cons (obj fs) vs) = (elim (get "sha256" fs) [ str s ↦ s | _ ↦ "" ]) <> join_digests vs
join_digests (cons _ vs) = join_digests vs

abbrev digest : Value → String
digest (arr vs) = join_digests vs
digest _ = "id"

abbrev sample : Hashing
sample = record {
  Bytes = ℕ;
  size_of = λ n. n;
  hash_bytes = λ n. if eqb n 1 then ones else twos;
  sha256_json = digest;
}

abbrev spec : Spec
spec = record {
  release_version = "1";
  components =
      record {
        name = "api";
        version = "1";
        dependencies = [];
        state = ready;
        artifacts = "a.js" ∷ [];
      }
      ∷ [];
  spec_sha256 = "s";
}

abbrev limits : Limits
limits = record { max_files = 4; max_file_bytes = 10; max_total_bytes = 15 }

abbrev plan : DeploymentPlan
plan = record {
  spec_sha256 = "s";
  release_version = "1";
  expected_live_content_sha256 = twos;
  desired_bundle_content_sha256 = ones;
  operations =
      record {
        kind = write;
        path = "a.js";
        bundle_sha256 = some ones;
        previous_live_sha256 = some twos;
      }
      ∷ [];
  plan_id = "id";
}

abbrev paths : Paths
paths = record { safe_bundle = true; safe_live = true; separate = true }

abbrev new_tree : Tree ℕ
new_tree = ("a.js", file 1) ∷ []

abbrev old_tree : Tree ℕ
old_tree = ("a.js", file 2) ∷ []

abbrev start : World ℕ
start = record { live = old_tree; evidence = λ id. none; outputs = []; answers = [] }

abbrev no_evidence : String → Option (Evidence ℕ)
no_evidence id = none

abbrev finish : World ℕ
finish = record {
  live = new_tree;
  evidence =
      update sample
        (update sample (update sample no_evidence "id" (record { snapshot = none; marker = none }))
          "id" (record { snapshot = some old_tree; marker = none }))
        "id"
        (record {
          snapshot = some old_tree;
          marker = some (marker_value sample "id" "applied" []);
        });
  outputs = "write a.js" ∷ [];
  answers = [];
}

abbrev result : TransactionResult
result = record {
  plan_id = "id";
  outcome = applied;
  decision = verified;
  outputs = "write a.js" ∷ "post-apply live content matches bundle" ∷ [];
  before_content_sha256 = some twos;
  after_content_sha256 = some ones;
  rollback_content_sha256 = none;
  evidence_sha256 = "id";
}

old_tree-IsTree : IsTree old_tree
unfolding find_node folders_of split_slash
old_tree-IsTree = (tt, refl, tt)

ran : apply_plan sample plan spec limits paths new_tree "id" start ≡ (ok result, finish)
unfolding apply_plan execute perform run_operations atomic_copy make_folders answered write_marker
    tree_content capture_directory scan capture create_artifact validate_relative_path
    content_sha256 create_result find_node put_node folders_of split_slash sort_by insert_by is_hex
    artifact_components
ran = refl

captured : tree_content sample spec limits new_tree ≡ ok ones
unfolding tree_content capture_directory scan capture create_artifact validate_relative_path
    content_sha256 split_slash sort_by insert_by is_hex artifact_components
captured = refl

apply_plan-Means_example :
    Ends
      (Spared sample plan spec limits start)
      (λ res t. Means sample plan spec limits start res.outcome t)
      (apply_plan sample plan spec limits paths new_tree "id" start)
apply_plan-Means_example =
    apply_plan-Means sample plan spec limits paths new_tree "id" start old_tree-IsTree

rollback-apply_plan_example :
    Ends
      (λ e v. Calm finish.answers → ⊥)
      (λ res v. (res.outcome ≡ rolled_back) × (v.live ≡ old_tree))
      (rollback_plan sample plan spec limits paths "id" finish)
rollback-apply_plan_example =
    rollback-apply_plan sample plan spec limits paths new_tree "id" ones start finish finish result
      old_tree-IsTree refl ran refl refl refl captured

abbrev layer : Layer → String → ℕ → Inventory
layer name sha size = record {
  layer = name;
  state = Models.captured;
  artifacts = record { path = "a.js"; component = some "api"; sha256 = sha; size = size } ∷ [];
  inventory_sha256 = "i";
  error_code = none;
  summary = "captured";
}

planned : create_plan sample spec (layer bundle ones 1) (layer live twos 2) ≡ ok plan
unfolding create_plan plan_operations writes_of create_operation validate_relative_path
    content_sha256 sort_by insert_by is_hex split_slash artifact_components unique
planned = refl

create_plan-reaches_example :
    effect plan.operations (digests_of (layer live twos 2).artifacts) "a.js"
    ≡ digests_of (layer bundle ones 1).artifacts "a.js"
create_plan-reaches_example =
    create_plan-reaches sample spec (layer bundle ones 1) (layer live twos 2) plan "a.js" planned

-- A release that puts a file into a folder of the name of an old file cannot be applied: the write
-- comes before the deletion.
abbrev nested_plan : DeploymentPlan
nested_plan = record {
  spec_sha256 = "s";
  release_version = "1";
  expected_live_content_sha256 = twos;
  desired_bundle_content_sha256 = ones;
  operations =
      record {
        kind = write;
        path = "a.js/b";
        bundle_sha256 = some ones;
        previous_live_sha256 = none;
      }
      ∷ record {
        kind = delete;
        path = "a.js";
        bundle_sha256 = none;
        previous_live_sha256 = some twos;
      }
      ∷ [];
  plan_id = "id";
}

abbrev outcome_of : Result Raised TransactionResult × World ℕ → Option TransactionOutcome
outcome_of (ok res, w) = some res.outcome
outcome_of (err e, w) = none

nested_release :
    outcome_of (
      apply_plan sample nested_plan spec limits paths
        (("a.js", folder) ∷ ("a.js/b", file 1) ∷ [])
        "id"
        start)
    ≡ some auto_rolled_back
unfolding apply_plan execute perform recover run_operations atomic_copy make_folders answered
    write_marker restore_snapshot clear_entries restore_entries tree_content capture_directory scan
    capture create_artifact validate_relative_path content_sha256 create_result find_node put_node
    folders_of split_slash sort_by insert_by is_hex artifact_components
nested_release = refl
