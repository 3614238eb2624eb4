-- ===== src/DeployTruth/Transaction.antt =====
-- packages/deploy-truth/src/deploy_truth/transactions.py: what changes files, the body of `try` in
-- `apply_plan`, and its handler. The bundle and the live root are two folders.
pub mod Apply
pub mod Restore
pub mod Calmly
pub mod Settled
pub mod Rescue
pub mod Verdict
pub mod Tests
pub mod Undo
use shipcheck.Base.{
  String, Bool, true, false, not, ◌&&◌, ◌||◌, Option, none, some, List, [], ◌∷◌, ◌++◌, ◌==◌, ◌<>◌,
  ok, err, if◌then◌else◌,
}
use shipcheck.Base.Results.{Result}
use shipcheck.Base.Exec.{Exec, pure, raise, ◌>>=◌, ◌>>◌, raise_when}
use shipcheck.Json.{Value, str, obj, Fields, end, get, is_text, dict}
use shipcheck.DeployTruth.Models.{
  Decision, verified, degraded, blocked, Layer, bundle, live, Inventory, is_blocked, Spec, Checked,
}
use shipcheck.DeployTruth.Capture.{Hashing, Limits}
use shipcheck.DeployTruth.Plan.{
  OperationKind, write, delete, applied, confirmed, rolled_back, auto_rolled_back, barred,
  Operation, DeploymentPlan, TransactionResult, content_sha256, create_plan, create_result,
}
use shipcheck.DeployTruth.Trees.{
  Node, file, folder, link, Tree, Root, tree, Marker, unreadable, undecodable, parsed, Evidence,
  World, find_node, put_node, drop_node, folders_of, capture_directory,
}

pub data Raised : Type 0 where
  contract_error : String → Raised
  os_error decode_error attribute_error : Raised

-- `type(exc).__name__`; the subclasses of `OSError` are not told apart
abbrev pub type_name : Raised → String
type_name (contract_error m) = "ContractError"
type_name os_error = "OSError"
type_name decode_error = "UnicodeDecodeError"
type_name attribute_error = "AttributeError"

abbrev pub checked : {A : Type 0} → Checked A → Result Raised A
checked (ok a) = ok a
checked (err m) = err (contract_error m)

-- what the path checks find, in the order of `apply_plan`
pub record Paths : Type 0 where
  pub safe_bundle : Bool
  pub safe_live : Bool
  -- the rollback root is neither root, nor below one
  pub separate : Bool

module _ (h : Hashing) where
  open h use {Bytes}

  abbrev pub Action : Type 0 → Type 0
  Action A = Exec (World Bytes) Raised A

  abbrev pub set_live : Tree Bytes → Action (Unit {0})
  set_live t w = (ok tt, record w { live = t })

  abbrev pub take_answer : List Bool → Action (Unit {0})
  take_answer [] w = (ok tt, w)
  take_answer (true ∷ rest) w = (ok tt, record w { answers = rest })
  take_answer (false ∷ rest) w = (err os_error, record w { answers = rest })

  -- the next write is done, or raises
  unfoldable pub answered : Action (Unit {0})
  answered w = take_answer w.answers w

  abbrev pub enter : String → Option (Node Bytes) → Action (Unit {0})
  enter p none w = (ok tt, record w { live = put_node p folder w.live })
  enter p (some folder) w = (ok tt, w)
  enter p (some (link true)) w = (ok tt, w)
  enter p (some _) w = (err os_error, w)

  -- `mkdir(parents=True, exist_ok=True)` of the last of the folders
  unfoldable pub make_folders : List String → Action (Unit {0})
  make_folders [] = pure tt
  make_folders (p ∷ ps) = (λ w. enter p (find_node p w.live) w) >> make_folders ps

  -- `os.replace` of what stands at a path
  abbrev pub replace : String → Bytes → Option (Node Bytes) → Action (Unit {0})
  replace p b (some folder) w = (err os_error, w)
  replace p b _ w = (ok tt, record w { live = put_node p (file b) w.live })

  -- `_atomic_copy` of a file that was read
  unfoldable pub atomic_copy : Bytes → String → Action (Unit {0})
  atomic_copy b p =
      make_folders (folders_of p) >> (answered >> (λ w. replace p b (find_node p w.live) w))

  -- `_clear_directory`, entry by entry
  unfoldable pub clear_entries : Tree Bytes → Action (Unit {0})
  clear_entries [] = pure tt
  clear_entries (e ∷ t) = answered >> (set_live t >> clear_entries t)

  abbrev pub restore_entry : String → Node Bytes → Action (Unit {0})
  restore_entry p folder = make_folders (folders_of p ++ (p ∷ []))
  restore_entry p (link true) = make_folders (folders_of p ++ (p ∷ []))
  restore_entry p (link false) =
      raise (contract_error "rollback snapshot contains a forbidden entry")
  restore_entry p (file b) = atomic_copy b p

  unfoldable pub restore_entries : Tree Bytes → Action (Unit {0})
  restore_entries [] = pure tt
  restore_entries ((p, n) ∷ t) = restore_entry p n >> restore_entries t

  -- `_restore_snapshot`
  unfoldable pub restore_snapshot : Tree Bytes → Action (Unit {0})
  restore_snapshot snapshot = (λ w. clear_entries w.live w) >> restore_entries snapshot

  abbrev pub log : String → Action (Unit {0})
  log line w = (ok tt, record w { outputs = w.outputs ++ (line ∷ []) })

  abbrev pub write_file : String → Option (Node Bytes) → Action (Unit {0})
  write_file p (some (file b)) = atomic_copy b p >> log ("write " <> p)
  write_file p _ = raise (contract_error ("bundle artifact unavailable during apply: " <> p))

  abbrev pub drop_file : String → Action (Unit {0})
  drop_file p = (λ w. (ok tt, record w { live = drop_node p w.live })) >> log ("delete " <> p)

  abbrev pub delete_file : String → Option (Node Bytes) → Action (Unit {0})
  delete_file p none = log ("delete " <> p)
  delete_file p (some folder) =
      raise (contract_error ("refusing to delete directory operation: " <> p))
  delete_file p (some _) = answered >> drop_file p

  abbrev pub run_operation : Tree Bytes → OperationKind → String → Action (Unit {0})
  run_operation b write p = write_file p (find_node p b)
  run_operation b delete p = λ w. delete_file p (find_node p w.live) w

  -- the loop over the operations
  unfoldable pub run_operations : Tree Bytes → List Operation → Action (Unit {0})
  run_operations b [] = pure tt
  run_operations b (o ∷ os) = run_operation b o.kind o.path >> run_operations b os

  abbrev pub update :
      (String → Option (Evidence Bytes))
      → String
      → Evidence Bytes
      → String
      → Option (Evidence Bytes)
  update f id e q = if id == q then some e else f q

  abbrev pub marker_value : String → String → List (String × Value) → Marker
  marker_value id status more = parsed (
      dict (
        (("schema_version", str "1.0") ∷ ("plan_id", str id) ∷ ("status", str status) ∷ [])
        ++ more))

  abbrev pub snapshot_of : Option (Evidence Bytes) → Option (Tree Bytes)
  snapshot_of none = none
  snapshot_of (some e) = e.snapshot

  abbrev pub marker_of : Option (Evidence Bytes) → Option Marker
  marker_of none = none
  marker_of (some e) = e.marker

  abbrev pub place_marker : String → Marker → Action (Unit {0})
  place_marker id m w = (
    ok tt,
    record w {
      evidence =
          update w.evidence id (record { snapshot = snapshot_of (w.evidence id); marker = some m });
    },
  )

  -- `write_json_atomic(marker, ...)`
  unfoldable pub write_marker : String → String → List (String × Value) → Action (Unit {0})
  write_marker id status more = answered >> place_marker id (marker_value id status more)

  -- `content_sha256(capture_directory(LayerName.LIVE, live, spec, limits))` of a live tree
  unfoldable pub tree_content : Spec → Limits → Tree Bytes → Result Raised String
  tree_content spec limits t = elim (checked (capture_directory h live (tree t) spec limits)) [
    | ok i ↦ ok (content_sha256 h i)
    | err e ↦ err e
  ]

  abbrev pub live_content : Spec → Limits → Action String
  live_content spec limits w = (tree_content spec limits w.live, w)

  abbrev pub applied_result : DeploymentPlan → String → String → Action TransactionResult
  applied_result plan before after w = (
    ok (
        create_result h plan.plan_id applied verified
          (w.outputs ++ ("post-apply live content matches bundle" ∷ [])) (some before) (some after)
          none),
    w,
  )

  -- the body of `try`
  unfoldable pub perform :
      DeploymentPlan → Spec → Limits → Tree Bytes → String → Action TransactionResult
  perform plan spec limits b before = do
    run_operations b plan.operations
    after ← live_content spec limits
    raise_when (not (after == plan.desired_bundle_content_sha256))
        (contract_error "post-apply live content does not match the bundle")
    write_marker plan.plan_id "applied" []
    applied_result plan before after

  abbrev pub restored_result : DeploymentPlan → String → String → Raised → Action TransactionResult
  restored_result plan before restored e w = (
    ok (
        create_result h plan.plan_id auto_rolled_back blocked
          (w.outputs
            ++ (("apply failed: " <> type_name e) ∷ "original live snapshot restored" ∷ []))
          (some before) none (some restored)),
    w,
  )

  -- the handler
  unfoldable pub recover :
      DeploymentPlan → Spec → Limits → Tree Bytes → String → Raised → Action TransactionResult
  recover plan spec limits snapshot before e = do
    restore_snapshot snapshot
    restored ← live_content spec limits
    write_marker plan.plan_id "auto_rolled_back" (("error", str (type_name e)) ∷ [])
    restored_result plan before restored e

  -- `try: m except Exception as e: handler(e)`
  abbrev pub try_except : {A : Type 0} → Action A → (Raised → Action A) → Action A
  try_except m handler w = let (r, w') = m w in elim r [ ok a ↦ (ok a, w') | err e ↦ handler e w' ]
