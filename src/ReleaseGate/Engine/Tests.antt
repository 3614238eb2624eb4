-- ===== src/ReleaseGate/Engine/Tests.antt =====
-- Gates with a mismatch and a waiver that a policy seems to allow for it.
use shipcheck.Base.{◌≡◌, refl, none, some, [], ◌∷◌}
use shipcheck.Json.{null}
use shipcheck.ReleaseGate.Engine.{
  GateResult, Waiver, Context, outcome, apply_waivers, sort_out, objection, find_waiver, waive_all,
  waive, applied_to, unused_ids,
}
use shipcheck.Base.Sort.{sort_by, insert_by}
use shipcheck.ReleaseGate.Engine.Waived.{apply_waivers-hard}

abbrev mismatch : GateResult
mismatch = record {
  gate = "subject_binding";
  status = "fail";
  reason_code = "SUBJECT_MISMATCH";
  message = "evidence is mixed or bound to another candidate";
  evidence_ids = [];
  waived_by = none;
  original_status = none;
  details = null;
}

abbrev flaky : GateResult
flaky = record mismatch { gate = "flakiness"; reason_code = "FLAKE_RATE" }

abbrev waiver_of : GateResult → Waiver
waiver_of g = record {
  waiver_id = "w";
  reason_code = g.reason_code;
  candidate_digest = "c";
  policy_digest = "p";
  gate = g.gate;
  expires_at = 10;
  approver = "lead";
  authority = some "lead";
}

abbrev context : Context
context = record {
  candidate_digest = "c";
  policy_digest = "p";
  allowed_waiver_authorities = "lead" ∷ [];
  waivable_reason_codes = "SUBJECT_MISMATCH" ∷ "FLAKE_RATE" ∷ [];
  now = 5;
  verify_waiver = λ w. none;
}

-- another failure is waived
waived_flaky : outcome (apply_waivers context (flaky ∷ []) (waiver_of flaky ∷ [])).0 ≡ "READY"
unfolding outcome apply_waivers sort_out objection find_waiver waive_all waive applied_to unused_ids
    sort_by insert_by
waived_flaky = refl

apply_waivers-hard_example :
    outcome (apply_waivers context (mismatch ∷ []) (waiver_of mismatch ∷ [])).0 ≡ "BLOCKED"
apply_waivers-hard_example =
    apply_waivers-hard context (mismatch ∷ []) (waiver_of mismatch ∷ []) refl
