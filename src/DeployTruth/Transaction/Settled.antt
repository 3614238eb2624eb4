-- ===== src/DeployTruth/Transaction/Settled.antt =====
-- transactions.py: how `apply_plan` and `rollback_plan` may leave the live tree.
use shipcheck.Base.{
  ℕ, suc, ◌+◌, String, ◌==◌, eq_iff, ◌≡◌, refl, ap, sym, ◌∙◌, Bool, true, false, not, Bool-cases,
  all, some, List, [], ◌∷◌, All, ok, err, arith, inl, inr,
}
use shipcheck.Base.Exec.{Ends, >>=-Ends, Ends-imp, ◌>>=◌, ◌>>◌, raise_when}
use shipcheck.Base.Results.{Result, Result-cases}
use shipcheck.DeployTruth.Models.{Layer, Artifact, Inventory, is_blocked, Spec}
use shipcheck.DeployTruth.{artifact_components}
use shipcheck.DeployTruth.Capture.{
  Hashing, Limits, Stop, explained, capture, explain, explain_or, ended,
}
use shipcheck.DeployTruth.Capture
use shipcheck.DeployTruth.Plan.{applied, DeploymentPlan, TransactionResult, create_result}
use shipcheck.DeployTruth.Trees.{
  Node, file, folder, link, Tree, tree, capture_error, World, capture_directory, scan,
}
use shipcheck.DeployTruth.Transaction.{
  Raised, contract_error, applied_result, run_operations, snapshot_of, marker_of, marker_value,
  write_marker, tree_content, perform,
}
use shipcheck.DeployTruth.Transaction.Restore.{Calm, IsPlain}
use shipcheck.DeployTruth.Transaction.Calmly.{Steady, run_operations-IsSteady, write_marker-marks}

module _ {Bytes : Type 0} where
  abbrev is_plain : String × Node Bytes → Bool
  is_plain (p, link b) = false
  is_plain (p, file b) = true
  is_plain (p, folder) = true

  all-IsPlain : (t : Tree Bytes) → all is_plain t ≡ true → All IsPlain t
  all-IsPlain [] e = tt
  all-IsPlain ((p, link b) ∷ t) e = cc
  all-IsPlain ((p, file b) ∷ t) e = (tt, all-IsPlain t e)
  all-IsPlain ((p, folder) ∷ t) e = (tt, all-IsPlain t e)

module _ (h : Hashing) where
  open h use {Bytes}

  -- a walk that ends has met no link
  scan-is_plain :
      (limits : Limits) (components : List (String × String)) (seen total : ℕ) (t : Tree Bytes)
      (as' : List Artifact)
      → scan h limits components seen total t ≡ ok as'
      → all is_plain t ≡ true
  unfolding scan
  scan-is_plain limits components seen total [] as' e = refl
  scan-is_plain limits components seen total ((p, folder) ∷ t) as' e =
      scan-is_plain limits components seen total t as' e
  scan-is_plain limits components seen total ((p, link true) ∷ t) as' e = cc
  scan-is_plain limits components seen total ((p, link false) ∷ t) as' e = cc
  scan-is_plain limits components seen total ((p, file b) ∷ t) as' e =
      let n = suc seen in
      let sum = total + h.size_of b in
      elim (Result-cases (scan h limits components n sum t)) [
        | inr (others, walked) ↦ scan-is_plain limits components n sum t others walked
        | inl (stop, stopped) ↦ ground arith
      ]

  -- an inventory that explains why a capture stopped is blocked
  blocked-halts :
      (layer : Layer) (code summary : String) (i : Inventory)
      → Capture.blocked h layer code summary ≡ ok i
      → is_blocked i.state ≡ true
  blocked-halts layer code summary i e = ground arith

  explain-halts :
      (layer : Layer) (stop : Stop) (i : Inventory)
      → explain h layer stop ≡ ok i
      → is_blocked i.state ≡ true
  explain-halts layer (explained code summary) i e = blocked-halts layer code summary i e

  explain_or-halts :
      (handler stop : Stop) (layer : Layer) (i : Inventory)
      → explain_or h handler layer (explain h layer stop) ≡ ok i
      → is_blocked i.state ≡ true
  explain_or-halts handler stop layer i e = elim (Result-cases (explain h layer stop)) [
    | inl (m, raised) ↦
        explain-halts layer handler i (ap (explain_or h handler layer) (sym raised) ∙ e)
    | inr (j, made) ↦
        explain-halts layer stop i (made ∙ ap (explain_or h handler layer) (sym made) ∙ e)
  ]

  -- a tree whose capture is not blocked has no link
  pub captured-IsPlain :
      (layer : Layer) (spec : Spec) (limits : Limits) (t : Tree Bytes) (i : Inventory)
      → capture_directory h layer (tree t) spec limits ≡ ok i
      → is_blocked i.state ≡ false
      → All IsPlain t
  unfolding capture_directory
  captured-IsPlain layer spec limits t i e s =
      elim (Result-cases (scan h limits (artifact_components spec) 0 0 t)) [
        | inr (as', walked) ↦
            all-IsPlain t (scan-is_plain limits (artifact_components spec) 0 0 t as' walked)
        | inl (stop, stopped) ↦ absurd (
            ground (
              arith,
              explain_or-halts (capture_error h) stop layer i
                  (ap (ended h (capture_error h) layer) (sym stopped) ∙ e),
            ))
      ]

  -- a test that raises, or passes
  pub raise_when-passes :
      (b : Bool) (e : Raised) (w : World Bytes)
      → Ends (λ e' t. t ≡ w) (λ _ t. (t ≡ w) × (b ≡ false)) (raise_when b e w)
  raise_when-passes true e w = refl
  raise_when-passes false e w = (refl, refl)

  module _ (plan : DeploymentPlan) (spec : Spec) (limits : Limits) (b : Tree Bytes) where
    -- The live tree has the content of the plan's bundle, and the marker says so; the snapshot of
    -- `w` is kept.
    abbrev pub Deployed : World Bytes → TransactionResult → World Bytes → Type 0
    Deployed w res t =
        (res.outcome ≡ applied)
        × (tree_content h spec limits t.live ≡ ok plan.desired_bundle_content_sha256)
        × (marker_of h (t.evidence plan.plan_id) ≡ some (marker_value h plan.plan_id "applied" []))
        × (snapshot_of h (t.evidence plan.plan_id) ≡ snapshot_of h (w.evidence plan.plan_id))

    abbrev pub Calms : World Bytes → Raised → World Bytes → Type 0
    Calms w e t = Calm w.answers → Calm t.answers

    perform_end :
        (before after : String) (w v : World Bytes)
        → v.evidence ≡ w.evidence
        → (Calm w.answers → Calm v.answers)
        → tree_content h spec limits v.live ≡ ok after
        → (not (after == plan.desired_bundle_content_sha256) ≡ false)
        → Ends
            (Calms w)
            (Deployed w)
            ((write_marker h plan.plan_id "applied" [] >> applied_result h plan before after) v)
    unfolding create_result
    perform_end before after w v kept calm content same =
        >>=-Ends (Calms w)
          (λ a t.
            (t.live ≡ v.live)
            × (marker_of h (t.evidence plan.plan_id)
                ≡ some (marker_value h plan.plan_id "applied" []))
            × (snapshot_of h (t.evidence plan.plan_id) ≡ snapshot_of h (v.evidence plan.plan_id)))
          (Deployed w) (write_marker h plan.plan_id "applied" [])
          (λ _. applied_result h plan before after) v
          (Ends-imp _ (Calms w) _ _ (λ e t r c. r.1 (calm c)) (λ a t r. (r.0, r.2, r.3))
            (write_marker h plan.plan_id "applied" [] v)
            (write_marker-marks h plan.plan_id "applied" [] v))
          λ _ t q. (
            refl,
            ap (tree_content h spec limits) q.0
                ∙ content
                ∙ ap ok (ground (arith, eq_iff after plan.desired_bundle_content_sha256)),
            q.1,
            q.2 ∙ ap (λ f. snapshot_of h (f plan.plan_id)) kept,
          )

    pub perform-Deployed :
        (before : String) (w : World Bytes)
        → Ends (Calms w) (Deployed w) (perform h plan spec limits b before w)
    unfolding perform
    perform-Deployed before w =
        >>=-Ends (Calms w) (λ a t. Steady w t) (Deployed w) (run_operations h b plan.operations) _ w
          (Ends-imp (λ e t. Steady w t) (Calms w) (λ a t. Steady w t) (λ a t. Steady w t)
            (λ e t r. r.1) (λ a t r. r) (run_operations h b plan.operations w)
            (run_operations-IsSteady h b plan.operations w))
          λ _ v q. go v q (tree_content h spec limits v.live) refl
      where
        go :
            (v : World Bytes)
            → Steady w v
            → (r : Result Raised String) → tree_content h spec limits v.live ≡ r
            → Ends (Calms w) (Deployed w) (
                ((λ u. (r, u)) >>= λ after.
                raise_when
                  (not (after == plan.desired_bundle_content_sha256))
                  (contract_error "post-apply live content does not match the bundle")
                >> (write_marker h plan.plan_id "applied" [] >> applied_result h plan before after))
                  v)
        go v q (err e) content = q.1
        go v q (ok after) content =
            elim (Bool-cases (not (after == plan.desired_bundle_content_sha256))) [
              | inl differs ↦ rw differs q.1
              | inr same ↦ rw same (perform_end before after w v q.0 q.1 content same)
            ]
