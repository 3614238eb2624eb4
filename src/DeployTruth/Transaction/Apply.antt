-- ===== src/DeployTruth/Transaction/Apply.antt =====
-- packages/deploy-truth/src/deploy_truth/transactions.py: `apply_plan`, `verify_applied`,
-- `rollback_plan` and `build_plan`.
use shipcheck.Base.{
  String, Bool, not, ◌&&◌, ◌||◌, Option, none, some, [], ◌∷◌, ◌==◌, ok, err, if◌then◌else◌,
}
use shipcheck.Base.Results.{Result}
use shipcheck.Base.Exec.{pure, raise, ◌>>=◌, ◌>>◌, raise_when}
use shipcheck.Json.{obj, Fields, end, get, is_text}
use shipcheck.DeployTruth.Models.{
  verified, degraded, blocked, bundle, live, Inventory, is_blocked, Spec,
}
use shipcheck.DeployTruth.Capture.{Hashing, Limits}
use shipcheck.DeployTruth.Plan.{
  applied, confirmed, rolled_back, barred, DeploymentPlan, TransactionResult, content_sha256,
  create_plan, create_result,
}
use shipcheck.DeployTruth.Trees.{
  Tree, Root, tree, Marker, unreadable, undecodable, parsed, Evidence, capture_directory,
}
use shipcheck.DeployTruth.Transaction.{
  Raised, contract_error, os_error, decode_error, attribute_error, checked, Paths, Action, answered,
  restore_snapshot, update, snapshot_of, marker_of, write_marker, live_content, perform, recover,
  try_except,
}

module _ (h : Hashing) where
  open h use {Bytes}

  abbrev pub refuse :
      DeploymentPlan → String → (before after : Option String) → Action h TransactionResult
  refuse plan reason before after =
      pure (create_result h plan.plan_id barred blocked (reason ∷ []) before after none)

  -- the evidence of the plan: what `json.loads` reads, with its exceptions
  abbrev pub read_state : Marker → Result Raised Fields
  read_state unreadable = ok end
  read_state undecodable = err decode_error
  read_state (parsed (obj fs)) = ok fs
  read_state (parsed _) = err attribute_error

  -- the plan has a marker: the test of a replay
  abbrev pub replay :
      DeploymentPlan → (bundle_content before : String) → Fields → Action h TransactionResult
  replay plan bundle_content before state =
      if is_text (get "status" state) "applied"
        && (bundle_content == plan.desired_bundle_content_sha256
            && before == plan.desired_bundle_content_sha256)
      then pure (
          create_result h plan.plan_id applied verified
            ("plan was already applied; no bytes changed" ∷ []) (some before) (some before) none)
      else refuse plan "transaction evidence already exists in a non-replayable state" (some before)
          (some before)

  abbrev pub start_folder : String → Action h (Unit {0})
  start_folder id w = (
    ok tt,
    record w { evidence = update h w.evidence id (record { snapshot = none; marker = none }) },
  )

  abbrev pub copy_live : String → Action h (Unit {0})
  copy_live id w = (
    ok tt,
    record w {
      evidence = update h w.evidence id (record { snapshot = some w.live; marker = none });
      outputs = [];
    },
  )

  -- `mkdir(exist_ok=False)`, and `copytree`; nothing reads a copy that failed
  abbrev pub make_snapshot : String → Option (Evidence Bytes) → Action h (Unit {0})
  make_snapshot id (some e) = raise os_error
  make_snapshot id none = answered h >> (start_folder id >> (answered h >> copy_live id))

  -- the plan has no marker
  unfoldable pub execute :
      DeploymentPlan
      → Spec
      → Limits
      → Tree Bytes
      → (bundle_content before : String) → Action h TransactionResult
  execute plan spec limits b bundle_content before w =
      if not (bundle_content == plan.desired_bundle_content_sha256)
        || not (before == plan.expected_live_content_sha256)
      then refuse plan "bundle or live bytes changed after dry-run" (some before) none w
      else (make_snapshot plan.plan_id (w.evidence plan.plan_id)
            >> try_except h (perform h plan spec limits b before)
                (recover h plan spec limits w.live before))
          w

  abbrev pub proceed :
      DeploymentPlan
      → Spec
      → Limits
      → Tree Bytes
      → (bundle_content before : String) → Option Marker
      → Action h TransactionResult
  proceed plan spec limits b bundle_content before none =
      execute plan spec limits b bundle_content before
  proceed plan spec limits b bundle_content before (some m) =
      (λ w. (read_state m, w)) >>= replay plan bundle_content before

  -- both trees are captured
  abbrev pub with_inventories :
      DeploymentPlan
      → Spec
      → Limits
      → Tree Bytes
      → (current_bundle current_live : Inventory) → Action h TransactionResult
  with_inventories plan spec limits b cb cl =
      if is_blocked cb.state || is_blocked cl.state
      then refuse plan "precondition inventory capture was blocked" (some (content_sha256 h cl))
          none
      else λ w.
          proceed plan spec limits b (content_sha256 h cb) (content_sha256 h cl)
            (marker_of h (w.evidence plan.plan_id)) w

  abbrev pub capture_live : Spec → Limits → Action h Inventory
  capture_live spec limits w = (checked (capture_directory h live (tree w.live) spec limits), w)

  -- the roots passed: both trees are captured
  abbrev pub inspect : DeploymentPlan → Spec → Limits → Tree Bytes → Action h TransactionResult
  inspect plan spec limits b =
      (λ w. (checked (capture_directory h bundle (tree b) spec limits), w)) >>= λ cb.
      capture_live spec limits >>= λ cl. with_inventories plan spec limits b cb cl

  abbrev pub test_separate :
      DeploymentPlan → Spec → Limits → Paths → Tree Bytes → Action h TransactionResult
  test_separate plan spec limits paths b =
      raise_when (not paths.separate)
        (contract_error "rollback_root must be separate from bundle and live roots")
      >> inspect plan spec limits b

  -- `_safe_root` of the live root, and the test of the rollback root
  abbrev pub test_live :
      DeploymentPlan → Spec → Limits → Paths → Tree Bytes → Action h TransactionResult
  test_live plan spec limits paths b =
      raise_when (not paths.safe_live) (contract_error "live_root is refused")
      >> test_separate plan spec limits paths b

  -- `apply_plan`
  unfoldable pub apply_plan :
      DeploymentPlan → Spec → Limits → Paths → Tree Bytes → String → Action h TransactionResult
  apply_plan plan spec limits paths b confirm_plan_id =
      if not (confirm_plan_id == plan.plan_id) || not (spec.spec_sha256 == plan.spec_sha256)
      then refuse plan "plan confirmation or release spec does not match" none none
      else do
        raise_when (not paths.safe_bundle) (contract_error "bundle_root is refused")
        test_live plan spec limits paths b

  -- `verify_applied`
  unfoldable pub verify_applied :
      DeploymentPlan → Spec → Root Bytes → Limits → Result Raised TransactionResult
  verify_applied plan spec root limits =
      elim (checked (capture_directory h live root spec limits)) [
        | err e ↦ err e
        | ok i ↦ ok (
            if not (is_blocked i.state) && content_sha256 h i == plan.desired_bundle_content_sha256
            then create_result h plan.plan_id confirmed verified
                ("live content matches planned bundle" ∷ []) none (some (content_sha256 h i)) none
            else create_result h plan.plan_id barred degraded
                ("live content drifts from planned bundle" ∷ []) none (some (content_sha256 h i))
                none)
      ]

  abbrev pub is_applied : DeploymentPlan → Fields → Bool
  is_applied plan state =
      is_text (get "plan_id" state) plan.plan_id && is_text (get "status" state) "applied"

  abbrev pub undone_result : DeploymentPlan → String → String → Action h TransactionResult
  undone_result plan before restored w = (
    ok (
        create_result h plan.plan_id rolled_back verified
          ("original live snapshot restored exactly" ∷ []) (some before) none (some restored)),
    w,
  )

  -- how `rollback_plan` ends
  abbrev pub conclude : DeploymentPlan → String → String → Action h TransactionResult
  conclude plan before restored =
      if not (restored == plan.expected_live_content_sha256)
      then pure (
          create_result h plan.plan_id barred blocked
            ("rollback completed but original live hash was not restored" ∷ []) (some before) none
            (some restored))
      else (write_marker h plan.plan_id "rolled_back" [] >> undone_result plan before restored)

  -- what follows the tests of `rollback_plan`
  unfoldable pub undo : DeploymentPlan → Spec → Limits → Tree Bytes → Action h TransactionResult
  undo plan spec limits snapshot = do
    before ← live_content h spec limits
    restore_snapshot h snapshot
    restored ← live_content h spec limits
    conclude plan before restored

  abbrev pub with_evidence :
      DeploymentPlan
      → Spec
      → Limits
      → Option Marker
      → Option (Tree Bytes)
      → Action h TransactionResult
  with_evidence plan spec limits (some m) (some snapshot) = (λ w. (read_state m, w)) >>= λ state.
      if not (is_applied plan state)
      then refuse plan "transaction is not in an applied state" none none
      else undo plan spec limits snapshot
  with_evidence plan spec limits _ _ =
      refuse plan "rollback evidence or snapshot is missing" none none

  -- `rollback_plan`
  unfoldable pub rollback_plan :
      DeploymentPlan → Spec → Limits → Paths → String → Action h TransactionResult
  rollback_plan plan spec limits paths confirm_plan_id =
      if not (confirm_plan_id == plan.plan_id)
      then refuse plan "plan confirmation does not match" none none
      else (raise_when (not paths.safe_live) (contract_error "live_root is refused") >> (λ w.
          with_evidence plan spec limits (marker_of h (w.evidence plan.plan_id))
            (snapshot_of h (w.evidence plan.plan_id)) w))

  -- `build_plan`
  unfoldable pub build_plan :
      Spec → Limits → (bundle_root live_root : Root Bytes) → Result Raised DeploymentPlan
  build_plan spec limits bundle_root live_root =
      elim (checked (capture_directory h bundle bundle_root spec limits)) [
        | err e ↦ err e
        | ok b ↦ elim (checked (capture_directory h live live_root spec limits)) [
          | err e ↦ err e
          | ok l ↦ checked (create_plan h spec b l)
        ]
      ]
