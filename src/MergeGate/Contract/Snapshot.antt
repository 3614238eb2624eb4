-- ===== src/MergeGate/Contract/Snapshot.antt =====
-- contract.py: `MergeSnapshot`, its construction and its canonical form.
pub mod Parse
use shipcheck.Base.{
  ℕ, ◌+◌, String, Bool, true, false, not, ◌||◌, Option, none, some, List, [], ◌∷◌, map, ◌==◌,
  length, any, all, sum_by, count_if, ltb, if◌then◌else◌, ok, err, ◌>>=◌, ◌>>◌, raise_if, each,
  ◌<>◌,
}
use shipcheck.Base.Texts.{le_text, contains, has_duplicate}
use shipcheck.Base.Sort.{sort_by}
use shipcheck.Json.{Value, Fields, str, bool, number, is_text, entries, dict, array}
use shipcheck.MergeGate.Errors.{Checked, contract}
use shipcheck.MergeGate.Contract.Fields.{
  CheckState, success, failure, pending, missing, state_value, text, sha, Datetime, timestamp,
  boolean,
}
use shipcheck.MergeGate.Contract.Change.{
  Change, changed_lines, change_to_dict, SecretFinding, finding_to_dict,
}

pub record MergeSnapshot : Type 0 where
  pub repository : String
  pub expected_sha : String
  pub observed_sha : String
  pub merge_sha : String
  pub captured_at : String
  pub ci : List (String × CheckState)
  pub required_ci : List String
  pub optional_ci : List String
  pub tests_complete : Bool
  pub tests_passed : Bool
  pub secret_scan_complete : Bool
  pub secret_findings : List SecretFinding
  pub clean_tree : Bool
  pub changes : List Change

-- What `MergeSnapshot(...)` is given. The findings and changes are constructed objects.
pub record RawSnapshot : Type 0 where
  pub repository : Value
  pub expected_sha : Value
  pub observed_sha : Value
  pub merge_sha : Value
  pub captured_at : Value
  pub ci : Fields
  pub required_ci : List Value
  pub optional_ci : List Value
  pub tests_complete : Value
  pub tests_passed : Value
  pub secret_scan_complete : Value
  pub secret_findings : List SecretFinding
  pub clean_tree : Value
  pub changes : List Change
  pub schema_version : Value

-- `CheckState(value)`; `none` is the `ValueError`
unfoldable pub check_state : Value → Option CheckState
check_state v =
    if is_text v "success"
    then some success
    else if is_text v "failure"
    then some failure
    else if is_text v "pending"
    then some pending
    else if is_text v "missing"
    then some missing
    else none

-- `set(xs) & set(ys)`, as a truth value
abbrev pub overlaps : List String → List String → Bool
overlaps xs ys = any (λ x. contains x ys) xs

-- `d[k] = v`
abbrev pub assign : String → CheckState → List (String × CheckState) → List (String × CheckState)
assign k v [] = (k, v) ∷ []
assign k v ((j, w) ∷ d) = if j == k then (j, v) ∷ d else (j, w) ∷ assign k v d

-- `d.get(k)`
abbrev pub state_of : String → List (String × CheckState) → Option CheckState
state_of k [] = none
state_of k ((j, v) ∷ d) = if j == k then some v else state_of k d

ci_state : Value → String → Checked CheckState
ci_state v key = elim (check_state v) [
  | none ↦ err (contract ("invalid CI state for " <> key))
  | some s ↦ ok s
]

-- the loop that fills `clean_ci`
unfoldable pub clean_ci :
    List (String × CheckState) → List (String × Value) → Checked (List (String × CheckState))
unfolding ci_state
clean_ci done [] = ok done
clean_ci done ((k, v) ∷ rest) = do
  key ← text (str k) "ci name"
  state ← ci_state v key
  clean_ci (assign key state done) rest

abbrev pub by_name : String × CheckState → String × CheckState → Bool
by_name a b = le_text a.0 b.0

abbrev pub by_path : Change → Change → Bool
by_path a b = le_text a.path b.path

-- the order of the pairs `(item.path, item.fingerprint)`
abbrev pub by_place : SecretFinding → SecretFinding → Bool
by_place a b =
    if a.path == b.path then le_text a.fingerprint b.fingerprint else le_text a.path b.path

abbrev pub paths : List Change → List String
paths = map (λ c. c.path)

abbrev check_names : List String → List String → Checked (Unit {0})
check_names required optional = do
  raise_if (has_duplicate required || has_duplicate optional)
      (contract "CI check names must be unique")
  raise_if (overlaps required optional) (contract "required_ci and optional_ci must not overlap")

abbrev check_sizes : List SecretFinding → List Change → Checked (Unit {0})
check_sizes findings changes = do
  raise_if (ltb 100 (length findings)) (contract "secret_findings exceeds 100")
  raise_if (ltb 500 (length changes)) (contract "changes exceeds 500")
  raise_if (has_duplicate (paths changes)) (contract "change paths must be unique")

module _ (d : Datetime) where
  -- `MergeSnapshot.__post_init__`
  unfoldable pub create_snapshot : RawSnapshot → Checked MergeSnapshot
  create_snapshot raw = do
    raise_if (not (is_text raw.schema_version "1.0")) (contract "unsupported schema_version")
    repository ← text raw.repository "repository"
    expected ← sha raw.expected_sha "expected_sha"
    observed ← sha raw.observed_sha "observed_sha"
    merge ← sha raw.merge_sha "merge_sha"
    captured ← timestamp d raw.captured_at
    raise_if (ltb 100 (length (entries raw.ci))) (contract "ci exceeds 100 checks")
    states ← clean_ci [] (entries raw.ci)
    required ← each (λ v. text v "required_ci") raw.required_ci
    optional ← each (λ v. text v "optional_ci") raw.optional_ci
    check_names required optional
    tests_complete ← boolean raw.tests_complete "tests_complete"
    tests_passed ← boolean raw.tests_passed "tests_passed"
    scan_complete ← boolean raw.secret_scan_complete "secret_scan_complete"
    clean_tree ← boolean raw.clean_tree "clean_tree"
    check_sizes raw.secret_findings raw.changes
    ok (record {
      repository = repository;
      expected_sha = expected;
      observed_sha = observed;
      merge_sha = merge;
      captured_at = captured;
      ci = sort_by by_name states;
      required_ci = sort_by le_text required;
      optional_ci = sort_by le_text optional;
      tests_complete = tests_complete;
      tests_passed = tests_passed;
      secret_scan_complete = scan_complete;
      secret_findings = sort_by by_place raw.secret_findings;
      clean_tree = clean_tree;
      changes = sort_by by_path raw.changes;
    })

-- the totals of `MergeSnapshot.inventory`
abbrev pub inventory_files : MergeSnapshot → ℕ
inventory_files s = length s.changes

abbrev pub inventory_lines : MergeSnapshot → ℕ
inventory_lines s = sum_by changed_lines s.changes

abbrev pub inventory_binaries : MergeSnapshot → ℕ
inventory_binaries s = count_if (λ c. c.binary) s.changes

-- `MergeSnapshot.inventory`
unfoldable pub inventory : MergeSnapshot → Value
inventory s = dict (
    ("files", number (inventory_files s))
    ∷ ("changed_lines", number (inventory_lines s))
    ∷ ("binary_files", number (inventory_binaries s))
    ∷ ("changes", array (map change_to_dict s.changes))
    ∷ [])

-- `MergeSnapshot.to_dict`
unfoldable pub snapshot_to_dict : MergeSnapshot → Value
snapshot_to_dict s = dict (
    ("schema_version", str "1.0")
    ∷ ("repository", str s.repository)
    ∷ ("expected_sha", str s.expected_sha)
    ∷ ("observed_sha", str s.observed_sha)
    ∷ ("merge_sha", str s.merge_sha)
    ∷ ("captured_at", str s.captured_at)
    ∷ ("ci", dict (map (λ (e : String × CheckState). (e.0, str (state_value e.1))) s.ci))
    ∷ ("required_ci", array (map str s.required_ci))
    ∷ ("optional_ci", array (map str s.optional_ci))
    ∷ ("tests_complete", bool s.tests_complete)
    ∷ ("tests_passed", bool s.tests_passed)
    ∷ ("secret_scan_complete", bool s.secret_scan_complete)
    ∷ ("secret_findings", array (map finding_to_dict s.secret_findings))
    ∷ ("clean_tree", bool s.clean_tree)
    ∷ ("inventory", inventory s)
    ∷ [])
