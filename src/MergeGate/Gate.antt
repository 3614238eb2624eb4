-- ===== src/MergeGate/Gate.antt =====
-- src/safe_merge_gate/gate.py: `evaluate`.
pub mod Checks
pub mod Verdict
pub mod Decides
pub mod Monotone
pub mod Total
use shipcheck.Base.{
  ℕ, String, Bool, true, false, not, ◌&&◌, Option, none, some, List, [], ◌∷◌, ◌++◌, ◌==◌, length,
  any, count_if, leb, eqb, if◌then◌else◌, ok, ◌>>=◌, collect, map, ◌<>◌,
}
use shipcheck.Base.Texts.{is_empty}
use shipcheck.Json.{Value, str, bool, number}
use shipcheck.MergeGate.Errors.{Checked}
use shipcheck.MergeGate.Contract.Fields.{
  CheckState, success, failure, missing, is_success, state_value, Decision, ready, degraded,
  blocked, Datetime,
}
use shipcheck.MergeGate.Contract.Snapshot.{
  MergeSnapshot, state_of, inventory_files, inventory_lines, inventory_binaries,
}
use shipcheck.MergeGate.Contract.Policy.{GatePolicy, default_policy}
use shipcheck.MergeGate.Contract.Artifact.{
  Check, create_check, required_failure, optional_failure, GateArtifact, create_artifact,
}

-- the local `add`, with the message of each outcome
add : String → Bool → Bool → String → String → List (String × Value) → Checked Check
add name passed required passing failing evidence =
    create_check name (if passed then success else failure) required
      (if passed then passing else failing) evidence

-- `snapshot.ci.get(name, CheckState.MISSING)`
abbrev pub observed_state : MergeSnapshot → String → CheckState
observed_state s name = elim (state_of name s.ci) [ none ↦ missing | some state ↦ state ]

-- the body of the two loops over CI names
ci_check : MergeSnapshot → Bool → String → String → Checked Check
ci_check s required label name =
    let state = observed_state s name in
    create_check ("ci:" <> name) state required
      (if is_success state
        then label <> " CI check succeeded."
        else label <> " CI check is " <> state_value state <> ".")
      (("check", str name) ∷ ("observed_state", str (state_value state)) ∷ [])

limit_check : String → ℕ → ℕ → String → Checked Check
limit_check name observed maximum label =
    add name (leb observed maximum) true (label <> " is within policy.")
      (label <> " exceeds policy.")
      (("observed", number observed) ∷ ("maximum", number maximum) ∷ [])

-- the three checks that the policy may make optional, and the three limits
pub policy_checks : MergeSnapshot → GatePolicy → List (Checked Check)
policy_checks s p =
    add "tests" (s.tests_complete && s.tests_passed) p.require_tests
      "Required tests completed successfully." "Tests are incomplete or failed."
      (("complete", bool s.tests_complete) ∷ ("passed", bool s.tests_passed) ∷ [])
    ∷ add "secrets" (s.secret_scan_complete && eqb (length s.secret_findings) 0)
        p.require_secret_scan "Secret scan completed without findings."
        "Secret scan is incomplete or contains findings."
        (("complete", bool s.secret_scan_complete)
          ∷ ("finding_count", number (length s.secret_findings))
          ∷ [])
    ∷ add "clean-tree" s.clean_tree p.require_clean_tree "Working tree is clean."
        "Working tree contains uncommitted changes." (("clean", bool s.clean_tree) ∷ [])
    ∷ limit_check "changed-files-limit" (inventory_files s) p.max_changed_files "Changed file count"
    ∷ limit_check "changed-lines-limit" (inventory_lines s) p.max_changed_lines "Changed line count"
    ∷ limit_check "binary-files-limit" (inventory_binaries s) p.max_binary_files "Binary file count"
    ∷ []

sha_check : MergeSnapshot → Checked Check
sha_check s =
    add "sha-match" (s.expected_sha == s.observed_sha) true
      "Observed SHA matches the expected immutable base."
      "Observed SHA differs from the expected immutable base."
      (("expected_sha", str s.expected_sha) ∷ ("observed_sha", str s.observed_sha) ∷ [])

-- the constructions whose results `checks` holds, in the order of the code
pub all_checks : MergeSnapshot → GatePolicy → List (Checked Check)
all_checks s p =
    sha_check s ∷ map (ci_check s true "Required") s.required_ci
    ++ (map (ci_check s false "Optional") s.optional_ci ++ policy_checks s p)

unfoldable pub decide_checks : List Check → Decision
decide_checks checks =
    if any required_failure checks
    then blocked
    else if any optional_failure checks
    then degraded
    else ready

-- the dict `outputs`
abbrev pub outputs_of : List Check → List (String × Value)
outputs_of checks =
    ("check_count", number (length checks))
    ∷ ("required_failures", number (count_if required_failure checks))
    ∷ ("optional_failures", number (count_if optional_failure checks))
    ∷ []

-- `generated_at or utc_now()`
abbrev pub or_now : Option String → String → String
or_now none now = now
or_now (some t) now = if is_empty t then now else t

-- `policy or GatePolicy()`
abbrev pub or_default : Option GatePolicy → GatePolicy
or_default none = default_policy
or_default (some p) = p

-- `evaluate`; `now` is the answer of `utc_now()`
pub evaluate :
    Datetime
    → (now : String) → MergeSnapshot
    → Option GatePolicy
    → (generated_at : Option String) → Checked GateArtifact
evaluate d now s policy generated_at = do
  let p = or_default policy
  checks ← collect (all_checks s p)
  create_artifact d (decide_checks checks) s p checks (or_now generated_at now) (outputs_of checks)
