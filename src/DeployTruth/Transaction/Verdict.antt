-- ===== src/DeployTruth/Transaction/Verdict.antt =====
-- transactions.py: what `apply_plan` did, by its outcome.
use shipcheck.Base.{
  String, ◌==◌, eq_iff, ◌≡◌, refl, ap, sym, subst, ◌∙◌, Bool, true, false, not, ◌||◌, ◌&&◌,
  Bool-cases, Option, none, some, [], All, ok, err, arith, ◌⊎◌, inl, inr,
}
use mathlib.Core.Logic.{◌≢◌}
use shipcheck.Base.Exec.{Ends, >>=-Ends, Ends-imp, ◌>>=◌, ◌>>◌, raise_when}
use shipcheck.Base.Results.{Result, Result-cases}
use shipcheck.Json.{Fields, get, is_text}
use shipcheck.DeployTruth.Models.{bundle, live, Inventory, is_blocked, Spec}
use shipcheck.DeployTruth.Capture.{Hashing, Limits}
use shipcheck.DeployTruth.Plan.{
  TransactionOutcome, applied, confirmed, rolled_back, auto_rolled_back, barred, DeploymentPlan,
  TransactionResult, content_sha256, create_result,
}
use shipcheck.DeployTruth.Trees.{Tree, tree, Marker, World, capture_directory}
use shipcheck.DeployTruth.Transaction.{
  Raised, contract_error, checked, Paths, Action, snapshot_of, marker_of, marker_value,
  tree_content, perform, recover, try_except,
}
use shipcheck.DeployTruth.Transaction.Restore.{Calm, IsTree, IsPlain, Refused}
use shipcheck.DeployTruth.Transaction.Apply.{
  read_state, replay, make_snapshot, execute, proceed, with_inventories, capture_live, inspect,
  test_separate, test_live, apply_plan,
}
use shipcheck.DeployTruth.Transaction.Rescue.{
  try_except-Ends, Copied, make_snapshot-copies, Restored, recover-Restored,
}
use shipcheck.DeployTruth.Transaction.Settled.{captured-IsPlain, Deployed, Calms, perform-Deployed}

module _ (h : Hashing) (plan : DeploymentPlan) (spec : Spec) (limits : Limits) where
  open h use {Bytes}

  -- This run deployed the bundle, and keeps the tree that was there.
  abbrev pub Fresh : World Bytes → World Bytes → Type 0
  Fresh w t =
      (tree_content h spec limits w.live ≡ ok plan.expected_live_content_sha256)
      × (marker_of h (t.evidence plan.plan_id) ≡ some (marker_value h plan.plan_id "applied" []))
      × (snapshot_of h (t.evidence plan.plan_id) ≡ some w.live)
      × All IsPlain w.live

  -- An earlier run left a marker.
  abbrev pub Again : World Bytes → World Bytes → Type 0
  Again w t = (t ≡ w) × (marker_of h (w.evidence plan.plan_id) ≢ none)

  -- What an outcome means. APPLIED: the live tree has the content of the plan's bundle, since
  -- an earlier run that left a marker, or by this run. AUTO_ROLLED_BACK: the live tree is as before. BLOCKED: nothing
  -- changed.
  abbrev pub Means : World Bytes → TransactionOutcome → World Bytes → Type 0
  Means w applied t =
      (tree_content h spec limits t.live ≡ ok plan.desired_bundle_content_sha256)
      × (Again w t ⊎ Fresh w t)
  Means w auto_rolled_back t = t.live ≡ w.live
  Means w barred t = t ≡ w
  Means w confirmed t = ⊥
  Means w rolled_back t = ⊥

  abbrev pub Spared : World Bytes → Raised → World Bytes → Type 0
  Spared w e t = Calm w.answers → t.live ≡ w.live

  abbrev Judged : World Bytes → TransactionResult → World Bytes → Type 0
  Judged w res t = Means w res.outcome t

  execute-Means :
      (b : Tree Bytes) (bundle_content before : String) (w : World Bytes)
      → All IsPlain w.live
      → IsTree w.live
      → tree_content h spec limits w.live ≡ ok before
      → Ends (Spared w) (Judged w) (execute h plan spec limits b bundle_content before w)
  unfolding execute create_result
  execute-Means b bundle_content before w plain rooted content =
      elim (Bool-cases (
        not (bundle_content == plan.desired_bundle_content_sha256)
        || not (before == plan.expected_live_content_sha256))) [
          | inl changed ↦ rw changed refl
          | inr fits ↦ rw fits (
              >>=-Ends (Spared w) (Copied h plan.plan_id w) (Judged w)
                (make_snapshot h plan.plan_id (w.evidence plan.plan_id))
                (λ _.
                  try_except h (perform h plan spec limits b before)
                    (recover h plan spec limits w.live before))
                w
                (Ends-imp (λ e t. t.live ≡ w.live) (Spared w) (Copied h plan.plan_id w)
                  (Copied h plan.plan_id w) (λ e t r c. r) (λ a t r. r)
                  (make_snapshot h plan.plan_id (w.evidence plan.plan_id) w)
                  (make_snapshot-copies h plan.plan_id (w.evidence plan.plan_id) w))
                λ _ v q.
                  try_except-Ends h (Calms h plan spec limits b v) (Spared w)
                    (Deployed h plan spec limits b v) (Judged w)
                    (perform h plan spec limits b before) (recover h plan spec limits w.live before)
                    v (perform-Deployed h plan spec limits b before v)
                    (λ res t r.
                      subst (λ o. Means w o t) (sym r.0)
                        (
                          r.1,
                          inr (
                            content
                                ∙ ap ok (
                                    ground
                                      (arith, eq_iff before plan.expected_live_content_sha256)),
                            r.2,
                            r.3 ∙ q.2,
                            plain,
                          ),
                        ))
                    λ e t r.
                      Ends-imp (Refused t) (Spared w) (Restored h plan spec limits w.live before)
                        (Judged w) (λ x u s c. absurd (s (r (q.1 c))))
                        (λ res u s. subst (λ o. Means w o u) (sym s.0) s.2)
                        (recover h plan spec limits w.live before e t)
                        (recover-Restored h plan spec limits w.live before e t plain rooted
                          content))
        ]

  replay-Means :
      (bundle_content before : String) (state : Fields) (w : World Bytes)
      → tree_content h spec limits w.live ≡ ok before
      → marker_of h (w.evidence plan.plan_id) ≢ none
      → Ends (Spared w) (Judged w) (replay h plan bundle_content before state w)
  unfolding create_result
  replay-Means bundle_content before state w content marked =
      elim (Bool-cases (
        is_text (get "status" state) "applied"
        && (bundle_content == plan.desired_bundle_content_sha256
            && before == plan.desired_bundle_content_sha256))) [
              | inr other ↦ rw other refl
              | inl again ↦ rw again (
                content ∙ ap ok (ground (arith, eq_iff before plan.desired_bundle_content_sha256)),
                inl (refl, marked),
              )
            ]

  proceed-Means :
      (b : Tree Bytes) (bundle_content before : String) (m : Option Marker) (w : World Bytes)
      → All IsPlain w.live
      → IsTree w.live
      → tree_content h spec limits w.live ≡ ok before
      → marker_of h (w.evidence plan.plan_id) ≡ m
      → Ends (Spared w) (Judged w) (proceed h plan spec limits b bundle_content before m w)
  proceed-Means b bundle_content before none w plain rooted content here =
      execute-Means b bundle_content before w plain rooted content
  proceed-Means b bundle_content before (some m) w plain rooted content marked =
      elim (Result-cases (read_state h m)) [
        | inl (e, unread) ↦ rw unread (λ c. refl)
        | inr (state, here) ↦ rw here (replay-Means bundle_content before state w content (λ n. cc))
      ]

  with_inventories-Means :
      (b : Tree Bytes) (cb cl : Inventory) (w : World Bytes)
      → IsTree w.live
      → capture_directory h live (tree w.live) spec limits ≡ ok cl
      → Ends (Spared w) (Judged w) (with_inventories h plan spec limits b cb cl w)
  unfolding tree_content create_result
  with_inventories-Means b cb cl w rooted seen =
      elim (Bool-cases (is_blocked cb.state || is_blocked cl.state)) [
        | inl halted ↦ rw halted refl
        | inr both ↦ rw both (
            proceed-Means b (content_sha256 h cb) (content_sha256 h cl)
              (marker_of h (w.evidence plan.plan_id)) w
              (captured-IsPlain h live spec limits w.live cl seen (ground arith)) rooted
              (ap content_of seen) refl)
      ]
    where
      content_of : Result String Inventory → Result Raised String
      content_of r = elim (checked r) [ ok i ↦ ok (content_sha256 h i) | err e ↦ err e ]

  -- a test in a row
  test-Means :
      (test : Bool) (e : Raised) (k : Action h (TransactionResult)) (w : World Bytes)
      → Ends (Spared w) (Judged w) (k w)
      → Ends (Spared w) (Judged w) ((raise_when test e >> k) w)
  test-Means true e k w r = λ c. refl
  test-Means false e k w r = r

  -- From a live folder that is a tree, `apply_plan` ends in one of these ways. It returns APPLIED:
  -- the live tree has the content of the plan's bundle, and either there was a marker and
  -- nothing changed, or the content before was the one that the plan expects, the marker says
  -- applied, and the snapshot is the tree before, which has no links. It returns AUTO_ROLLED_BACK: the live tree is the tree before. It returns
  -- BLOCKED: nothing changed. It raises: the live tree is the tree before, if no write is refused.
  pub apply_plan-Means :
      (paths : Paths) (b : Tree Bytes) (confirm_plan_id : String) (w : World Bytes)
      → IsTree w.live
      → Ends
          (Spared w)
          (λ res t. Means w res.outcome t)
          (apply_plan h plan spec limits paths b confirm_plan_id w)
  unfolding apply_plan create_result
  apply_plan-Means paths b id w rooted =
      elim (Bool-cases (not (id == plan.plan_id) || not (spec.spec_sha256 == plan.spec_sha256))) [
        | inl differs ↦ rw differs refl
        | inr agrees ↦ rw agrees (
            test-Means (not paths.safe_bundle) (contract_error "bundle_root is refused")
              (test_live h plan spec limits paths b) w
              (test-Means (not paths.safe_live) (contract_error "live_root is refused")
                (test_separate h plan spec limits paths b) w
                (test-Means (not paths.separate)
                  (contract_error "rollback_root must be separate from bundle and live roots")
                  (inspect h plan spec limits b) w
                  (from_bundle (capture_directory h bundle (tree b) spec limits)))))
      ]
    where
      from_live :
          (cb : Inventory) (r : Result String Inventory)
          → capture_directory h live (tree w.live) spec limits ≡ r
          → Ends
              (Spared w)
              (Judged w)
              (((λ u. (checked r, u)) >>= λ cl. with_inventories h plan spec limits b cb cl) w)
      from_live cb (err m) seen = λ c. refl
      from_live cb (ok cl) seen = with_inventories-Means b cb cl w rooted seen

      from_bundle :
          (r : Result String Inventory)
          → Ends (Spared w) (Judged w) (
              ((λ u. (checked r, u)) >>= λ cb.
              capture_live h spec limits >>= λ cl. with_inventories h plan spec limits b cb cl)
                w)
      from_bundle (err m) = λ c. refl
      from_bundle (ok cb) = from_live cb (capture_directory h live (tree w.live) spec limits) refl
