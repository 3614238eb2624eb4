-- ===== src/MergeGate/Transaction/Rollback.antt =====
-- `rollback` restores what `apply` found, refuses a state that has drifted, and checks its work.
use shipcheck.Base.{
  String, eq_iff, eq_refl, ◌≡◌, ◌≢◌, sym, ap, subst, ◌∙◌, false, Option, none, some, ok, err, arith,
}
use shipcheck.Base.Results.{Result}
use shipcheck.Files.{Disk, done, update, is_file, next_answer}
use shipcheck.MergeGate.Errors.{Error}
use shipcheck.MergeGate.Contract.Artifact.{GateArtifact}
use shipcheck.MergeGate.Library.{Library, IsLawful}
use shipcheck.MergeGate.Receipt.{Receipt}
use shipcheck.MergeGate.Transaction.{
  restore, check_drift, restore_checked, rollback, RolledBack, apply, after_bytes, receipt_of,
  bytes_or_empty,
}
use shipcheck.MergeGate.Transaction.Atomic.{Raises, Applied, apply-Applied}

module _ (L : Library) where
  -- the state file is as the receipt says it was before
  abbrev pub Restored : Receipt → String → Result Error (RolledBack L) × Disk L.Bytes → Type 0
  Restored r path (ok _, u) =
      (L.sha256 (bytes_or_empty L (u.file path)) ≡ r.before_bytes_sha256)
      × (is_file (u.file path) ≡ r.before_exists)
  Restored r path (err _, u) = Unit

  restore_checked-Restored :
      (r : Receipt) (path : String) (w : Disk L.Bytes)
      → Restored r path (restore_checked L r path w)
  unfolding restore_checked
  restore_checked-Restored r path w =
      let u = (restore L r path w).1 in
      ground (arith, eq_iff (L.sha256 (bytes_or_empty L (u.file path))) r.before_bytes_sha256)

  -- the early return of `rollback`
  abbrev Early : Receipt → Option L.Bytes → Result Error (Option (RolledBack L)) → Type 0
  Early r content (ok (some x)) =
      (L.sha256 (bytes_or_empty L content) ≡ r.before_bytes_sha256)
      × (is_file content ≡ r.before_exists)
  Early r content _ = Unit

  check_drift-Early :
      (r : Receipt) (content : Option L.Bytes) → Early r content (check_drift L r content)
  unfolding check_drift
  check_drift-Early r none = ground arith
  check_drift-Early r (some b) = ground (arith, eq_iff (L.sha256 b) r.before_bytes_sha256)

  -- Whatever the receipt, the disk and the answers to the writes, a rollback that returns leaves a
  -- state file whose existence and digest are those of the receipt.
  pub rollback-Restored :
      (r : Receipt) (path : String) (w : Disk L.Bytes) → Restored r path (rollback L r path w)
  unfolding rollback
  rollback-Restored r path w =
      ground (arith, restore_checked-Restored r path w, check_drift-Early r (w.file path))

  -- A state file that is neither the one before nor the one after is not touched: `rollback` raises
  -- and nothing changes.
  pub rollback-drift :
      (r : Receipt) (path : String) (w : Disk L.Bytes) (content : L.Bytes)
      → w.file path ≡ some content
      → L.sha256 content ≢ r.before_bytes_sha256
      → L.sha256 content ≢ r.after_bytes_sha256
      → Raises (rollback L r path w).0 × ((rollback L r path w).1 ≡ w)
  unfolding rollback check_drift
  rollback-drift r path w content there other changed = ground (
    arith,
    eq_iff (L.sha256 content) r.before_bytes_sha256,
    eq_iff (L.sha256 content) r.after_bytes_sha256,
  )

module _ (L : Library) (law : IsLawful L) where
  -- the state file is as it was before, and the other files are as they are
  abbrev pub Undone :
      (path : String)
      → Option L.Bytes
      → Disk L.Bytes
      → Result Error (RolledBack L) × Disk L.Bytes
      → Type 0
  Undone path before v (ok _, u) =
      (u.file path ≡ before) × ((p : String) → p ≢ path → u.file p ≡ v.file p)
  Undone path before v (err _, u) = ⊥

  restore-done :
      (a : GateArtifact) (path now : String) (b : L.Bytes) (v : Disk L.Bytes)
      → (next_answer v.answers).0 ≡ done
      → restore L (receipt_of L a path (some b) now) path v ≡ (
        ok tt,
        record { file = update v.file path (some b); answers = (next_answer v.answers).1 },
      )
  unfolding restore
  restore-done a path now b v d = ground (arith, law.b64decode_lax-b64encode b)

  restore_checked-done :
      (a : GateArtifact) (path now : String) (b : L.Bytes) (v : Disk L.Bytes)
      → (next_answer v.answers).0 ≡ done
      → restore_checked L (receipt_of L a path (some b) now) path v ≡ (
        ok (record { idempotent = false; restored_sha256 = L.sha256 b }),
        record { file = update v.file path (some b); answers = (next_answer v.answers).1 },
      )
  unfolding restore_checked
  restore_checked-done a path now b v d =
      ground (arith, restore-done a path now b v d, eq_refl path, eq_refl (L.sha256 b))

  restore_checked-before :
      (a : GateArtifact) (path now : String) (b : L.Bytes) (v : Disk L.Bytes)
      → (next_answer v.answers).0 ≡ done
      → Undone path (some b) v (restore_checked L (receipt_of L a path (some b) now) path v)
  restore_checked-before a path now b v d =
      subst (Undone path (some b) v) (sym (restore_checked-done a path now b v d))
        (ground (arith, eq_refl path), λ p other. ground (arith, eq_iff path p))

  returned :
      (a : GateArtifact) (path receipt_file now : String) (w : Disk L.Bytes)
      (res : Result Error Receipt × Disk L.Bytes) (r : Receipt)
      → Applied L law a path receipt_file now w res
      → res.0 ≡ ok r
      → r ≡ receipt_of L a path (w.file path) now
  returned a path receipt_file now w res r h e = ground arith

  rollback-receipt_of :
      (a : GateArtifact) (path now : String) (b : L.Bytes) (v : Disk L.Bytes)
      → v.file path ≡ some (after_bytes L a)
      → (next_answer v.answers).0 ≡ done
      → (L.sha256 (after_bytes L a) ≡ L.sha256 b → after_bytes L a ≡ b)
      → Undone path (some b) v (rollback L (receipt_of L a path (some b) now) path v)
  unfolding rollback check_drift
  rollback-receipt_of a path now b v there d collision = ground (
    arith,
    law.b64decode-b64encode b,
    eq_refl path,
    eq_refl (L.sha256 b),
    eq_refl (L.sha256 (after_bytes L a)),
    eq_iff (L.sha256 (after_bytes L a)) (L.sha256 b),
    restore_checked-before a path now b v d,
  )

  -- A rollback with the receipt of an `apply` that returned, of a state file that still holds what
  -- `apply` wrote, on a disk that does the next write, returns: the state file holds the bytes that
  -- it held before `apply`, and no other file changes. This is so where the two contents do not
  -- collide under SHA-256.
  pub rollback-apply :
      (a : GateArtifact) (path receipt_file now : String) (w v : Disk L.Bytes) (r : Receipt)
      (b : L.Bytes)
      → (apply L a path receipt_file now w).0 ≡ ok r
      → w.file path ≡ some b
      → v.file path ≡ some (after_bytes L a)
      → (next_answer v.answers).0 ≡ done
      → (L.sha256 (after_bytes L a) ≡ L.sha256 b → after_bytes L a ≡ b)
      → Undone path (some b) v (rollback L r path v)
  rollback-apply a path receipt_file now w v r b applied held there d collision =
      subst (λ q. Undone path (some b) v (rollback L q path v))
        (sym (
          returned a path receipt_file now w (apply L a path receipt_file now w) r
            (apply-Applied L law a path receipt_file now w) applied
          ∙ ap (λ x. receipt_of L a path x now) held))
        (rollback-receipt_of a path now b v there d collision)
