-- ===== src/MergeGate/Tests.antt =====
-- The merge gate and its transaction at concrete inputs.
pub mod Inputs
pub mod Long
use shipcheck.Base.{◌≡◌, ◌≢◌, ◌↔◌, refl, true, false, none, some, [], ◌∷◌, ok, arith, ◌==◌, String}
use shipcheck.Files.{Disk, done, refused}
use shipcheck.MergeGate.Contract.Fields.{ready, degraded, blocked, is_ready}
use shipcheck.MergeGate.Contract.Policy.{default_policy}
use shipcheck.MergeGate.Contract.Artifact.Digest.{artifact_body}
use shipcheck.MergeGate.Contract.Artifact.{GateArtifact}
use shipcheck.MergeGate.Gate.{or_default, evaluate}
use shipcheck.MergeGate.Gate.Verdict.{MeetsPolicy, IsFlawless}
use shipcheck.MergeGate.Gate.Decides.{evaluate-ready, evaluate-blocked}
use shipcheck.MergeGate.Gate.Monotone.{evaluate-IsLaxer}
use shipcheck.MergeGate.Gate.Total.{evaluate-returns, evaluate-long_name}
use shipcheck.Base.Texts.{lower, is_hex}
use shipcheck.MergeGate.Receipt.{Receipt, create_receipt, receipt_to_dict}
use shipcheck.MergeGate.Receipt.Parse.{
  receipt_from_dict, fields_of, receipt_from_dict-receipt_to_dict,
}
use shipcheck.MergeGate.Sample.Printed.{read_fields, print_fields}
use shipcheck.MergeGate.Transaction.{
  sha256_json, dry_run, read_current, perform, commit, verify, apply, rollback, after_bytes,
  receipt_of,
}
use shipcheck.MergeGate.Transaction.Atomic.{Raises, apply-not_ready, Applied, apply-Applied}
use shipcheck.MergeGate.Transaction.Rollback.{
  Restored, rollback-Restored, rollback-drift, Undone, rollback-apply,
}
use shipcheck.MergeGate.Sample.{sample, sample-IsLawful, text_differs}
use shipcheck.MergeGate.Tests.Long.{long_name, strip-long_name, count-long_name}
use shipcheck.MergeGate.Tests.Inputs.{
  clock, moment, sound, dirty, lax, lax-IsLaxer, run, artifact, unit-IsCheckName, lint-IsCheckName,
  moment-timestamp, state_before, disk,
}

evaluate-ready_example :
    ((run sound none refl refl).0.decision ≡ ready)
    ↔ (MeetsPolicy sound (or_default none) × IsFlawless sound)
evaluate-ready_example =
    evaluate-ready clock moment sound none none {a = (run sound none refl refl).0}
      (run sound none refl refl).1

evaluate-blocked_example :
    (((run dirty none refl refl).0.decision ≡ blocked) ↔ (¬ MeetsPolicy dirty (or_default none)))
    × (((run dirty none refl refl).0.decision ≡ degraded)
        ↔ (MeetsPolicy dirty (or_default none) × (¬ IsFlawless dirty)))
evaluate-blocked_example =
    evaluate-blocked clock moment dirty none none {a = (run dirty none refl refl).0}
      (run dirty none refl refl).1

evaluate-IsLaxer_example :
    ((run dirty none refl refl).0.decision ≡ ready
      → (run dirty (some lax) refl refl).0.decision ≡ ready)
    × ((run dirty (some lax) refl refl).0.decision ≡ blocked
        → (run dirty none refl refl).0.decision ≡ blocked)
evaluate-IsLaxer_example =
    evaluate-IsLaxer clock moment dirty none (some lax) none {a = (run dirty none refl refl).0}
      {b = (run dirty (some lax) refl refl).0} lax-IsLaxer (run dirty none refl refl).1
      (run dirty (some lax) refl refl).1

evaluate-returns_example : (a : GateArtifact) × (evaluate clock moment sound none none ≡ ok a)
evaluate-returns_example =
    evaluate-returns clock moment sound none none {t = moment} (unit-IsCheckName, tt)
      (lint-IsCheckName, tt) moment-timestamp

evaluate-long_name_example :
    evaluate clock moment (record sound { required_ci = "unit" ∷ long_name ∷ [] }) none none
    ≢ ok (artifact ready)
evaluate-long_name_example =
    evaluate-long_name clock moment (record sound { required_ci = "unit" ∷ long_name ∷ [] }) none
      none ("unit" ∷ []) [] long_name refl strip-long_name count-long_name (artifact ready)

apply-not_ready_example :
    Raises
      (apply sample (artifact degraded) "state" "receipt" moment (disk (some state_before) [])).0
    × ((apply sample (artifact degraded) "state" "receipt" moment (disk (some state_before) [])).1
        ≡ disk (some state_before) [])
apply-not_ready_example =
    apply-not_ready sample (artifact degraded) "state" "receipt" moment
      (disk (some state_before) []) refl

apply-Applied_example :
    Applied sample sample-IsLawful
      (artifact ready)
      "state"
      "receipt"
      moment
      (disk (some state_before) (done ∷ refused ∷ []))
      (apply sample
        (artifact ready)
        "state"
        "receipt"
        moment
        (disk (some state_before) (done ∷ refused ∷ [])))
apply-Applied_example =
    apply-Applied sample sample-IsLawful (artifact ready) "state" "receipt" moment
      (disk (some state_before) (done ∷ refused ∷ []))

-- the receipt of an apply
abbrev receipt : Receipt
receipt = receipt_of sample (artifact ready) "state" (some state_before) moment

-- the disk after it
abbrev after : Disk String
after = disk (some (after_bytes sample (artifact ready))) []

applied :
    (apply sample (artifact ready) "state" "receipt" moment (disk (some state_before) [])).0
    ≡ ok receipt
unfolding apply dry_run read_current read_fields print_fields lower create_receipt is_hex perform
    commit verify artifact_body
applied = refl

rollback-Restored_example : Restored sample receipt "state" (rollback sample receipt "state" after)
rollback-Restored_example = rollback-Restored sample receipt "state" after

rollback-drift_example :
    Raises (rollback sample receipt "state" (disk (some "changed") [])).0
    × ((rollback sample receipt "state" (disk (some "changed") [])).1 ≡ disk (some "changed") [])
unfolding print_fields artifact_body
rollback-drift_example =
    rollback-drift sample receipt "state" (disk (some "changed") []) "changed" refl
      (text_differs (sample.sha256 "changed") receipt.before_bytes_sha256 refl)
      (text_differs (sample.sha256 "changed") receipt.after_bytes_sha256 refl)

rollback-apply_example :
    Undone sample sample-IsLawful "state"
      (some state_before)
      after
      (rollback sample receipt "state" after)
unfolding print_fields artifact_body
rollback-apply_example =
    rollback-apply sample sample-IsLawful (artifact ready) "state" "receipt" moment
      (disk (some state_before) []) after receipt state_before applied refl refl refl
      (λ h. absurd (text_differs receipt.after_bytes_sha256 receipt.before_bytes_sha256 refl h))

receipt_accepted : create_receipt receipt ≡ ok receipt
unfolding create_receipt is_hex print_fields artifact_body
receipt_accepted = refl

receipt_from_dict-receipt_to_dict_example :
    receipt_from_dict sample
      (sha256_json sample)
      (fields_of sample (sha256_json sample) (receipt_to_dict (sha256_json sample) receipt))
    ≡ ok receipt
receipt_from_dict-receipt_to_dict_example =
    receipt_from_dict-receipt_to_dict sample (sha256_json sample) receipt state_before
      receipt_accepted refl refl
