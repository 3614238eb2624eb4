-- ===== src/DeployTruth/Transaction/Rescue.antt =====
-- transactions.py: the snapshot, `try`, and the handler of `apply_plan`.
use shipcheck.Base.{
  String, eq_refl, ◌≡◌, refl, ap, sym, subst, ◌∙◌, Option, none, some, [], ◌∷◌, All, ok, err,
}
use shipcheck.Base.Exec.{Ends, >>=-Ends, Ends-imp, ◌>>=◌, ◌>>◌}
use shipcheck.Base.Results.{Result}
use shipcheck.Json.{str}
use shipcheck.DeployTruth.Models.{Spec}
use shipcheck.DeployTruth.Capture.{Hashing, Limits}
use shipcheck.DeployTruth.Plan.{auto_rolled_back, DeploymentPlan, TransactionResult, create_result}
use shipcheck.DeployTruth.Trees.{Tree, Evidence, World}
use shipcheck.DeployTruth.Transaction.{
  Raised, type_name, Action, restored_result, snapshot_of, update, answered, restore_snapshot,
  write_marker, tree_content, live_content, recover, try_except,
}
use shipcheck.DeployTruth.Transaction.Restore.{
  Calm, IsTree, IsPlain, Beside, Refused, restore_snapshot-exact,
}
use shipcheck.DeployTruth.Transaction.Calmly.{answered-keeps, write_marker-marks}
use shipcheck.DeployTruth.Transaction.Apply.{start_folder, copy_live, make_snapshot}

module _ (h : Hashing) where
  open h use {Bytes}

  pub try_except-Ends :
      {A : Type 0} (X Y : Raised → World Bytes → Type 0) (Q P : A → World Bytes → Type 0)
      (m : Action h A) (handler : Raised → Action h A) (w : World Bytes)
      → Ends X Q (m w)
      → ((a : A) (t : World Bytes) → Q a t → P a t)
      → ((e : Raised) (t : World Bytes) → X e t → Ends Y P (handler e t))
      → Ends Y P (try_except h m handler w)
  try_except-Ends {A = A} X Y Q P m handler w first done rescue = after (m w) first
    where
      after :
          (r : Result Raised A × World Bytes)
          → Ends X Q r
          → Ends Y P (elim r.0 [ ok a ↦ (ok a, r.1) | err e ↦ handler e r.1 ])
      after (ok a, t) q = done a t q
      after (err e, t) q = rescue e t q

  abbrev pub Copied : {A : Type 0} → String → World Bytes → A → World Bytes → Type 0
  Copied id w a t =
      (t.live ≡ w.live)
      × (Calm w.answers → Calm t.answers)
      × (snapshot_of h (t.evidence id) ≡ some w.live)

  abbrev started : String → World Bytes → World Bytes
  started id v = record v {
    evidence = update h v.evidence id (record { snapshot = none; marker = none });
  }

  -- the folder of the plan is made, and the live tree is copied there
  pub make_snapshot-copies :
      (id : String) (o : Option (Evidence Bytes)) (w : World Bytes)
      → Ends (λ e t. t.live ≡ w.live) (Copied id w) (make_snapshot h id o w)
  make_snapshot-copies id (some e) w = refl
  make_snapshot-copies id none w =
      >>=-Ends (λ e t. t.live ≡ w.live)
        (λ _ t. (t.live ≡ w.live) × (Calm w.answers → Calm t.answers)) (Copied id w) (answered h)
        (λ _. start_folder h id >> (answered h >> copy_live h id)) w (answered-keeps h w)
        λ _ v q.
          >>=-Ends (λ e t. t.live ≡ w.live)
            (λ _ t. (t.live ≡ v.live) × (Calm v.answers → Calm t.answers)) (Copied id w)
            (answered h) (λ _. copy_live h id) (started id v)
            (Ends-imp (λ e t. t.live ≡ v.live) (λ e t. t.live ≡ w.live)
              (λ _ t. (t.live ≡ v.live) × (Calm v.answers → Calm t.answers))
              (λ _ t. (t.live ≡ v.live) × (Calm v.answers → Calm t.answers)) (λ e t r. r ∙ q.0)
              (λ _ t r. r) (answered h (started id v)) (answered-keeps h (started id v)))
            λ _ u r. (r.0 ∙ q.0, λ c. r.1 (q.1 c), rw (eq_refl id) (ap some (r.0 ∙ q.0)))

  module _ (plan : DeploymentPlan) (spec : Spec) (limits : Limits) where
    -- The result says that the snapshot was restored, and it was.
    abbrev pub Restored : Tree Bytes → String → TransactionResult → World Bytes → Type 0
    Restored snapshot before res t =
        (res.outcome ≡ auto_rolled_back)
        × (res.rollback_content_sha256 ≡ some before)
        × (t.live ≡ snapshot)

    pub recover-Restored :
        (snapshot : Tree Bytes) (before : String) (e : Raised) (w : World Bytes)
        → All IsPlain snapshot
        → IsTree snapshot
        → tree_content h spec limits snapshot ≡ ok before
        → Ends
            (Refused w)
            (Restored snapshot before)
            (recover h plan spec limits snapshot before e w)
    unfolding recover create_result
    recover-Restored snapshot before e w plain rooted content =
        let more = ("error", str (type_name e)) ∷ [] in
        >>=-Ends (Refused w) (λ _ v. (v.live ≡ snapshot) × Beside w v) (Restored snapshot before)
          (restore_snapshot h snapshot)
          (λ _. live_content h spec limits >>= λ restored.
            write_marker h plan.plan_id "auto_rolled_back" more
            >> restored_result h plan before restored e)
          w (restore_snapshot-exact h snapshot w plain rooted)
          λ _ v q.
            subst
              (λ (r : Result Raised String). Ends (Refused w) (Restored snapshot before) (
                ((λ u. (r, u)) >>= λ restored.
                write_marker h plan.plan_id "auto_rolled_back" more
                >> restored_result h plan before restored e)
                  v))
              (sym (ap (tree_content h spec limits) q.0 ∙ content))
              (>>=-Ends (Refused w) (λ a t. t.live ≡ v.live) (Restored snapshot before)
                (write_marker h plan.plan_id "auto_rolled_back" more)
                (λ _. restored_result h plan before before e) v
                (Ends-imp _ (Refused w) _ (λ a t. t.live ≡ v.live) (λ x t r c. r.0 (q.1.2 c))
                  (λ a t r. r.0) (write_marker h plan.plan_id "auto_rolled_back" more v)
                  (write_marker-marks h plan.plan_id "auto_rolled_back" more v))
                λ _ t r. (refl, refl, r ∙ q.0))
