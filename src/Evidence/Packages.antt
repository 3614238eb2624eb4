-- ===== src/Evidence/Packages.antt =====
-- The settings of the eight packages, each from its packages/<name>/src/<name>/core.py.
use shipcheck.Base.{String, Option, List, [], ◌∷◌}
use shipcheck.Json.{Value, Fields}
use shipcheck.Evidence.{
  Evidence, evaluate, Package, summary, matrix, flaky, exit, readiness, rollback, tests, coverage,
}

abbrev pub ci_failure_summarizer : Package
ci_failure_summarizer = record {
  required = "job" ∷ "failure" ∷ "log_excerpt" ∷ [];
  project = "ci-failure-summarizer";
  rule_text = "failure and log excerpt must be present";
  kind = summary;
}

abbrev pub ci_matrix_generator : Package
ci_matrix_generator = record {
  required = "target" ∷ "python_versions" ∷ "operating_systems" ∷ [];
  project = "ci-matrix-generator";
  rule_text = "matrix dimensions must be non-empty lists";
  kind = matrix;
}

abbrev pub flaky_test_tracker : Package
flaky_test_tracker = record {
  required = "test_name" ∷ "passes" ∷ "runs" ∷ [];
  project = "flaky-test-tracker";
  rule_text = "runs must be positive and passes cannot exceed runs";
  kind = flaky;
}

abbrev pub local_ci_runner : Package
local_ci_runner = record {
  required = "command" ∷ "exit_code" ∷ "duration_ms" ∷ [];
  project = "local-ci-runner";
  rule_text = "exit_code must be zero";
  kind = exit;
}

abbrev pub release_readiness : Package
release_readiness = record {
  required = "version" ∷ "commit_sha" ∷ "checks_passed" ∷ "checks_total" ∷ [];
  project = "release-readiness";
  rule_text = "all release checks must pass";
  kind = readiness;
}

abbrev pub rollback_drill : Package
rollback_drill = record {
  required = "release" ∷ "rollback_target" ∷ "recovery_seconds" ∷ [];
  project = "rollback-drill";
  rule_text = "recovery must complete within five minutes";
  kind = rollback;
}

abbrev pub test_evidence_pack : Package
test_evidence_pack = record {
  required = "suite" ∷ "commit_sha" ∷ "passed" ∷ "failed" ∷ [];
  project = "test-evidence-pack";
  rule_text = "failed must be zero";
  kind = tests;
}

abbrev pub test_gap_finder : Package
test_gap_finder = record {
  required = "surface" ∷ "tested" ∷ "total" ∷ [];
  project = "test-gap-finder";
  rule_text = "tested must cover total";
  kind = coverage;
}

abbrev pub packages : List Package
packages =
    ci_failure_summarizer ∷ ci_matrix_generator ∷ flaky_test_tracker ∷ local_ci_runner
    ∷ release_readiness ∷ rollback_drill ∷ test_evidence_pack ∷ test_gap_finder ∷ []

-- `evaluate` of each core.py
module _ (sha256_json : Value → String) where
  abbrev pub summarize_failure : Fields → Option Evidence
  summarize_failure = evaluate sha256_json ci_failure_summarizer

  abbrev pub generate_matrix : Fields → Option Evidence
  generate_matrix = evaluate sha256_json ci_matrix_generator

  abbrev pub track_flaky : Fields → Option Evidence
  track_flaky = evaluate sha256_json flaky_test_tracker

  abbrev pub run_local : Fields → Option Evidence
  run_local = evaluate sha256_json local_ci_runner

  abbrev pub judge_readiness : Fields → Option Evidence
  judge_readiness = evaluate sha256_json release_readiness

  abbrev pub drill_rollback : Fields → Option Evidence
  drill_rollback = evaluate sha256_json rollback_drill

  abbrev pub pack_evidence : Fields → Option Evidence
  pack_evidence = evaluate sha256_json test_evidence_pack

  abbrev pub find_gap : Fields → Option Evidence
  find_gap = evaluate sha256_json test_gap_finder
