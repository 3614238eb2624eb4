-- ===== src/Publisher/Undo.antt =====
-- `rollback` of a publication restores the old report.
use shipcheck.Base.{
  String, eq_iff, eq_refl, ◌≡◌, ◌≢◌, refl, sym, ap, subst, ◌∙◌, true, false, not, Option, none,
  some, [], ok, err, arith, ◌⊎◌,
}
use shipcheck.Base.Results.{Result}
use shipcheck.Base.Texts.{is_empty, same}
use shipcheck.Files.{Disk, done, update, is_file, next_answer}
use shipcheck.MergeGate.Library.{Library}
use shipcheck.Publisher.{
  Error, Plan, Paths, Receipt, RolledBack, plan, check_plan, put_aside, place_report, conclude,
  apply, receipt_of, undo, rollback, sha_of,
}
use shipcheck.Publisher.Keeps.{IsFree, Kept, apply-Kept}

-- the call raised
abbrev pub Raises : {A : Type 0} → Result Error A → Type 0
Raises (ok a) = ⊥
Raises (err e) = Unit

module _ (L : Library) where
  -- the old report is at the output path again
  abbrev pub Restored :
      Plan → (f : String → Option L.Bytes) → Result Error (RolledBack L) × Disk L.Bytes → Type 0
  Restored p f (ok _, u) =
      (u.file p.output_path ≡ f p.output_path)
      × ((q : String) → q ≢ p.output_path → q ≢ p.backup_path → u.file q ≡ f q)
  Restored p f (err _, u) = ⊥

  rollback-moved :
      (p : Plan) (payload b : L.Bytes) (v : Disk L.Bytes)
      → (next_answer v.answers).0 ≡ done
      → is_empty p.backup_path ≡ false
      → L.sha256 payload ≡ p.payload_sha
      → p.previous_sha ≡ some (L.sha256 b)
      → v.file p.output_path ≡ some payload
      → v.file p.backup_path ≡ some b
      → rollback L (receipt_of L p true true) v ≡ (
        ok (record {
          transaction_id = (receipt_of L p true true).transaction_id;
          restored_sha = p.previous_sha;
        }),
        record {
          file = update (update v.file p.backup_path none) p.output_path (some b);
          answers = (next_answer v.answers).1;
        },
      )
  unfolding rollback undo
  rollback-moved p payload b v d named report previous served kept =
      ground (arith, eq_refl p.payload_sha, eq_refl (L.sha256 b), eq_refl p.output_path)

  rollback-new :
      (p : Plan) (payload : L.Bytes) (v : Disk L.Bytes)
      → (next_answer v.answers).0 ≡ done
      → L.sha256 payload ≡ p.payload_sha
      → p.previous_sha ≡ none
      → v.file p.output_path ≡ some payload
      → rollback L (receipt_of L p false true) v ≡ (
        ok (record {
          transaction_id = (receipt_of L p true true).transaction_id;
          restored_sha = p.previous_sha;
        }),
        record { file = update v.file p.output_path none; answers = (next_answer v.answers).1 },
      )
  unfolding rollback undo
  rollback-new p payload v d report previous served =
      ground (arith, eq_refl p.payload_sha, eq_refl p.output_path)

  -- A report that changed after planning, an output whose content changed, or a backup path that is
  -- taken makes `apply` raise before it changes anything.
  pub apply-stale :
      (p : Plan) (payload : L.Bytes) (staged : String) (w : Disk L.Bytes)
      → (L.sha256 payload ≢ p.payload_sha)
        ⊎ ((is_file (w.file p.output_path) ≡ true)
            × (same (sha_of L (w.file p.output_path)) p.previous_sha ≡ false))
        ⊎ (is_file (w.file p.backup_path) ≡ true)
      → Raises (apply L p payload staged w).0 × ((apply L p payload staged w).1 ≡ w)
  unfolding apply check_plan
  apply-stale p payload staged w h = ground (arith, eq_iff (L.sha256 payload) p.payload_sha)

  -- what a plan holds
  record IsPlanned (payload : L.Bytes) (f : String → Option L.Bytes) (p : Plan) : Type 0 where
    report : p.payload_sha ≡ L.sha256 payload
    previous : p.previous_sha ≡ sha_of L (f p.output_path)
    new : p.creates_new ≡ not (is_file (f p.output_path))

  abbrev Planned : L.Bytes → (String → Option L.Bytes) → Result Error Plan → Type 0
  Planned payload f (ok p) = IsPlanned payload f p
  Planned payload f (err e) = ⊥

  plan-Planned :
      (paths : Paths) (payload : L.Bytes) (output : String) (w : Disk L.Bytes)
      → Planned payload w.file (plan L paths payload output w).0
  unfolding plan
  plan-Planned paths payload output w = record { report = refl; previous = refl; new = refl }

  check_plan-ok :
      (p : Plan) (payload : L.Bytes) (f : String → Option L.Bytes) (old : Option L.Bytes)
      → IsPlanned payload f p
      → f p.backup_path ≡ none
      → f p.output_path ≡ old
      → check_plan L p payload (record { file = f; answers = [] })
        ≡ (ok tt, record { file = f; answers = [] })
  unfolding check_plan
  check_plan-ok p payload f none h free e =
      ground (arith, h.report, h.previous, h.new, eq_refl (L.sha256 payload))
  check_plan-ok p payload f (some b) h free e =
      ground (arith, h.report, h.previous, h.new, eq_refl (L.sha256 payload), eq_refl (L.sha256 b))

  apply-planned :
      (p : Plan) (payload : L.Bytes) (staged : String) (f : String → Option L.Bytes)
      → IsPlanned payload f p
      → IsFree L p staged f
      → f p.backup_path ≡ none
      → (apply L p payload staged (record { file = f; answers = [] })).0
        ≡ ok (receipt_of L p (is_file (f p.output_path)) true)
  unfolding apply put_aside place_report conclude
  apply-planned p payload staged f h s free = ground (
    arith,
    check_plan-ok p payload f (f p.output_path) h free refl,
    h.report,
    eq_refl p.payload_sha,
    eq_refl p.output_path,
    eq_iff p.backup_path p.output_path,
    eq_iff p.backup_path staged,
    eq_iff p.output_path staged,
    eq_refl staged,
    s.unused,
    s.not_output,
    s.not_backup,
  )

  of_plan :
      (paths : Paths) (payload : L.Bytes) (output : String) (w : Disk L.Bytes) (p : Plan)
      → (plan L paths payload output w).0 ≡ ok p
      → IsPlanned payload w.file p
  of_plan paths payload output w p e =
      subst (Planned payload w.file) e (plan-Planned paths payload output w)

  -- A plan that is applied at once, with the same report, a free backup path and an operating system
  -- that does every write, succeeds. The name of the staged file is free and none of the plan's paths.
  pub plan-apply :
      (paths : Paths) (payload : L.Bytes) (output staged : String) (f : String → Option L.Bytes)
      (p : Plan)
      → (plan L paths payload output (record { file = f; answers = [] })).0 ≡ ok p
      → IsFree L p staged f
      → f p.backup_path ≡ none
      → (apply L p payload staged (record { file = f; answers = [] })).0
        ≡ ok (receipt_of L p (is_file (f p.output_path)) true)
  plan-apply paths payload output staged f p planned s free =
      apply-planned p payload staged f
        (of_plan paths payload output (record { file = f; answers = [] }) p planned) s free

  restored :
      (p : Plan) (payload : L.Bytes) (staged : String) (f : String → Option L.Bytes)
      (v : Disk L.Bytes) (r : Receipt) (res : Result Error Receipt × Disk L.Bytes)
      → Kept L p payload staged f res
      → res.0 ≡ ok r
      → v.file ≡ res.1.file
      → (next_answer v.answers).0 ≡ done
      → is_empty p.backup_path ≡ false
      → p.previous_sha ≡ sha_of L (f p.output_path)
      → (old : Option L.Bytes) → f p.output_path ≡ old
      → Restored p f (rollback L r v)
  restored p payload staged f v r (ok q, u) (made, report, new, kept, others) e files d named
        previous none old =
      let receipt : receipt_of L p false true ≡ r =
        ap (λ o. receipt_of L p (is_file o) true) (sym old) ∙ sym made ∙ ground arith in
      subst (λ x. Restored p f (rollback L x v)) receipt
        (subst (Restored p f)
          (sym (
            rollback-new p payload v d report (previous ∙ ap (sha_of L) old)
              (ap (λ h. h p.output_path) files ∙ new)))
          (
            ground (arith, eq_refl p.output_path),
            λ x a b. ground (arith, eq_iff p.output_path x, others x a b, ap (λ h. h x) files),
          ))
  restored p payload staged f v r (ok q, u) (made, report, new, kept, others) e files d named
        previous (some c) old =
      let receipt : receipt_of L p true true ≡ r =
        ap (λ o. receipt_of L p (is_file o) true) (sym old) ∙ sym made ∙ ground arith in
      subst (λ x. Restored p f (rollback L x v)) receipt
        (subst (Restored p f)
          (sym (
            rollback-moved p payload c v d named report (previous ∙ ap (sha_of L) old)
              (ap (λ h. h p.output_path) files ∙ new)
              (ap (λ h. h p.backup_path) files ∙ kept (ap is_file old) ∙ old)))
          (
            ground (arith, eq_refl p.output_path),
            λ x a b. ground (
              arith,
              eq_iff p.output_path x,
              eq_iff p.backup_path x,
              others x a b,
              ap (λ h. h x) files,
            ),
          ))
  restored p payload staged f v r (err x, u) k e files d named previous o old = ground arith

  -- A rollback with the receipt of an `apply` that returned, on a disk with the files that `apply`
  -- left and that does the next write, returns, and the output path holds what it held before the
  -- publication, also where it held nothing; no third file changes. The plan is one whose previous
  -- digest is that of the output, and its backup path is not empty; the name of the staged file is free
  -- and none of the plan's paths.
  pub rollback-Restored_output :
      (p : Plan) (payload : L.Bytes) (staged : String) (w v : Disk L.Bytes) (r : Receipt)
      → IsFree L p staged w.file
      → (apply L p payload staged w).0 ≡ ok r
      → v.file ≡ (apply L p payload staged w).1.file
      → (next_answer v.answers).0 ≡ done
      → is_empty p.backup_path ≡ false
      → p.previous_sha ≡ sha_of L (w.file p.output_path)
      → Restored p w.file (rollback L r v)
  rollback-Restored_output p payload staged w v r s e files d named previous =
      restored p payload staged w.file v r (apply L p payload staged w)
        (apply-Kept L p payload staged w s) e files d named previous (w.file p.output_path) refl
