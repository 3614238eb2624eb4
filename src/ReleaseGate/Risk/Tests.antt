-- ===== src/ReleaseGate/Risk/Tests.antt =====
-- A diff that changes a workflow.
use shipcheck.Base.{min, ◌≡◌, ◌↔◌, ◌≤◌, refl, false, [], ◌∷◌, All, ok, sum_by}
use shipcheck.Base.Texts.{split_slash}
use shipcheck.Json.{Fields, dict, dict_fields, array, str, number, bool}
use shipcheck.ReleaseGate.Risk.Values.{require_keys, require_string, require_int, require_bool}
use shipcheck.ReleaseGate.Risk.{
  Reason, RiskAssessment, check_file, check_files, reasons_of, score_diff,
}
use shipcheck.ReleaseGate.Risk.Paths.{
  Texts, is_in, ends_with, has_forbidden, before_dot, normalize_repo_path,
}
use shipcheck.ReleaseGate.Risk.Bounds.{Weighs, score_diff-Weighs}

abbrev plain : Texts
plain = record { nfc = λ s. s; casefold = λ s. s; upper = λ s. s; decimal = λ n. "n" }

abbrev diff : Fields
diff = dict_fields (
    ("version", str "shipcheck/diff-risk-v1")
    ∷ (
      "files",
      array (
          dict (
            ("path", str ".github/workflows/ci.yml")
            ∷ ("status", str "modified")
            ∷ ("additions", number 3)
            ∷ ("deletions", number 1)
            ∷ ("binary", bool false)
            ∷ [])
          ∷ []),
    )
    ∷ ("claimed_score", number 22)
    ∷ [])

abbrev assessed : RiskAssessment
assessed = record {
  score = 22;
  reasons =
      record { code = "CHANGE_VOLUME_FILES"; points = 1; detail = "n changed files" }
      ∷ record { code = "CHANGE_VOLUME_LINES"; points = 1; detail = "n changed lines" }
      ∷ record { code = "WORKFLOW_CHANGE"; points = 20; detail = "n matching path(s)" }
      ∷ [];
  file_count = 1;
  changed_lines = 4;
}

scored : score_diff plain diff ≡ ok assessed
unfolding score_diff check_files check_file reasons_of normalize_repo_path require_keys
    require_string require_int require_bool is_in ends_with has_forbidden before_dot split_slash
scored = refl

score_diff-Weighs_example :
    (assessed.score ≡ min 100 (sum_by (λ (r : Reason). r.points) assessed.reasons))
    × All Weighs assessed.reasons
    × ((assessed.score ≡ 0) ↔ (assessed.file_count ≡ 0))
    × (assessed.file_count ≤ 2000)
    × (assessed.changed_lines ≤ 100_000_000)
score_diff-Weighs_example = score_diff-Weighs plain diff assessed scored
