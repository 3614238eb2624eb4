-- ===== src/DeployTruth/Transaction/Undo.antt =====
-- transactions.py: `rollback_plan` after `apply_plan`.
use shipcheck.Base.{
  String, eq_refl, ◌≡◌, refl, ap, sym, subst, ◌∙◌, true, none, some, [], All, ok, inl, inr,
}
use shipcheck.Base.Exec.{Ends, >>=-Ends, Ends-imp, ◌>>=◌, ◌>>◌}
use shipcheck.DeployTruth.Models.{Spec}
use shipcheck.DeployTruth.Capture.{Hashing, Limits}
use shipcheck.DeployTruth.Plan.{
  applied, rolled_back, DeploymentPlan, TransactionResult, create_result,
}
use shipcheck.DeployTruth.Trees.{Tree, World}
use shipcheck.DeployTruth.Transaction.{
  Paths, Action, snapshot_of, marker_of, marker_value, restore_snapshot, write_marker, tree_content,
  live_content,
}
use shipcheck.DeployTruth.Transaction.Restore.{
  Calm, IsTree, IsPlain, Beside, Refused, restore_snapshot-exact,
}
use shipcheck.DeployTruth.Transaction.Calmly.{write_marker-marks}
use shipcheck.DeployTruth.Transaction.Apply.{
  undo, undone_result, conclude, with_evidence, apply_plan, rollback_plan,
}
use shipcheck.DeployTruth.Transaction.Verdict.{Fresh, Means, apply_plan-Means}

module _ (h : Hashing) (plan : DeploymentPlan) (spec : Spec) (limits : Limits) where
  open h use {Bytes}

  -- ROLLED_BACK, and the live tree is `old`
  abbrev pub BackAt : Tree Bytes → TransactionResult → World Bytes → Type 0
  BackAt old res t = (res.outcome ≡ rolled_back) × (t.live ≡ old)

  conclude-BackAt :
      (old : Tree Bytes) (before restored : String) (v : World Bytes)
      → v.live ≡ old
      → restored ≡ plan.expected_live_content_sha256
      → Ends (Refused v) (BackAt old) (conclude h plan before restored v)
  unfolding create_result
  conclude-BackAt old before restored v at same =
      rw (same, eq_refl plan.expected_live_content_sha256)
        (>>=-Ends (Refused v) (λ _ t. t.live ≡ v.live) (BackAt old)
          (write_marker h plan.plan_id "rolled_back" [])
          (λ _. undone_result h plan before plan.expected_live_content_sha256) v
          (Ends-imp _ (Refused v) _ (λ _ t. t.live ≡ v.live) (λ e t r. r.0) (λ _ t r. r.0)
            (write_marker h plan.plan_id "rolled_back" [] v)
            (write_marker-marks h plan.plan_id "rolled_back" [] v))
          λ _ t q. (refl, q ∙ at))

  undo-BackAt :
      (old : Tree Bytes) (before : String) (u : World Bytes)
      → IsTree old
      → All IsPlain old
      → tree_content h spec limits old ≡ ok plan.expected_live_content_sha256
      → tree_content h spec limits u.live ≡ ok before
      → Ends (Refused u) (BackAt old) (undo h plan spec limits old u)
  unfolding undo
  undo-BackAt old before u rooted plain expected now =
      subst (λ r. Ends (Refused u) (BackAt old) (((λ w. (r, w)) >>= back) u)) (sym now)
        (>>=-Ends (Refused u) (λ _ v. (v.live ≡ old) × Beside u v) (BackAt old)
          (restore_snapshot h old) (λ _. live_content h spec limits >>= conclude h plan before) u
          (restore_snapshot-exact h old u plain rooted)
          λ _ v q.
            subst
              (λ r. Ends (Refused u) (BackAt old) (((λ w. (r, w)) >>= conclude h plan before) v))
              (sym (ap (tree_content h spec limits) q.0 ∙ expected))
              (Ends-imp (Refused v) (Refused u) (BackAt old) (BackAt old) (λ e t r c. r (q.1.2 c))
                (λ res t r. r) (conclude h plan before plan.expected_live_content_sha256 v)
                (conclude-BackAt old before plan.expected_live_content_sha256 v q.0 refl)))
    where
      back : String → Action h TransactionResult
      back before' =
          restore_snapshot h old >> (live_content h spec limits >>= conclude h plan before')

  Fresh-BackAt :
      (paths : Paths) (before : String) (w t u : World Bytes)
      → IsTree w.live
      → Fresh h plan spec limits w t
      → u.evidence ≡ t.evidence
      → paths.safe_live ≡ true
      → tree_content h spec limits u.live ≡ ok before
      → Ends (Refused u) (BackAt w.live) (rollback_plan h plan spec limits paths plan.plan_id u)
  unfolding rollback_plan
  Fresh-BackAt paths before w t u rooted fresh kept safe now =
      rw (eq_refl plan.plan_id, safe)
        (subst
          (λ m.
            Ends (Refused u) (BackAt w.live)
              (with_evidence h plan spec limits m (snapshot_of h (u.evidence plan.plan_id)) u))
          (sym (ap (λ e. marker_of h (e plan.plan_id)) kept ∙ fresh.1))
          (subst
            (λ s. Ends (Refused u) (BackAt w.live) (
              with_evidence h plan spec limits (some (marker_value h plan.plan_id "applied" [])) s
                u))
            (sym (ap (λ e. snapshot_of h (e plan.plan_id)) kept ∙ fresh.2))
            (rw (eq_refl plan.plan_id) (undo-BackAt w.live before u rooted fresh.3 fresh.0 now))))

  -- `apply_plan` found no marker and returned APPLIED on a live folder that is a tree. Later the
  -- evidence is still the same, and the live folder is any that can be captured. Then
  -- `rollback_plan` of a live root that passes its check returns ROLLED_BACK and the live tree is
  -- the one before `apply_plan`; it raises only if a write is refused.
  pub rollback-apply_plan :
      (paths : Paths) (b : Tree Bytes) (confirm_plan_id before : String) (w t u : World Bytes)
      (res : TransactionResult)
      → IsTree w.live
      → marker_of h (w.evidence plan.plan_id) ≡ none
      → apply_plan h plan spec limits paths b confirm_plan_id w ≡ (ok res, t)
      → res.outcome ≡ applied
      → u.evidence ≡ t.evidence
      → paths.safe_live ≡ true
      → tree_content h spec limits u.live ≡ ok before
      → Ends
          (λ e v. Calm u.answers → ⊥)
          (λ res' v. (res'.outcome ≡ rolled_back) × (v.live ≡ w.live))
          (rollback_plan h plan spec limits paths plan.plan_id u)
  rollback-apply_plan paths b id before w t u res rooted unmarked ran done kept safe now =
      elim (subst (λ o. Means h plan spec limits w o t) done means).1 [
        | inl again ↦ absurd (again.1 unmarked)
        | inr fresh ↦ Fresh-BackAt paths before w t u rooted fresh kept safe now
      ]
    where
      means : Means h plan spec limits w res.outcome t
      means = subst (Ends _ _) ran (apply_plan-Means h plan spec limits paths b id w rooted)
