-- ===== src/MergeGate/Contract/Snapshot/Parse.antt =====
-- contract.py: `MergeSnapshot.from_dict`.
use shipcheck.Base.{
  ℕ, String, Bool, false, not, none, some, List, [], ◌∷◌, map, ok, err, ◌>>=◌, ◌>>◌, raise_if, each,
  ◌<>◌,
}
use shipcheck.Json.{
  Value, Fields, str, arr, obj, array, items, entries, find_field, get, get_or, is_number,
}
use shipcheck.MergeGate.Errors.{Checked, contract, type_error}
use shipcheck.MergeGate.Contract.Fields.{Datetime}
use shipcheck.MergeGate.Contract.Change.{change_from_dict, finding_from_dict}
use shipcheck.MergeGate.Contract.Snapshot.{
  MergeSnapshot, create_snapshot, inventory_files, inventory_lines, inventory_binaries,
}

-- `isinstance(value, Mapping)`, or the error
unfoldable pub mapping : Value → String → Checked Fields
mapping (obj fs) message = ok fs
mapping _ message = err (contract message)

-- `isinstance(value, Sequence) and not isinstance(value, (str, bytes))`, or the error
unfoldable pub sequence : Value → String → Checked (List Value)
sequence (arr xs) message = ok (items xs)
sequence _ message = err (contract message)

abbrev characters : String → List Value
characters String.[] = []
characters (String.◌∷◌ c s) = str (String.◌∷◌ c "") ∷ characters s

-- `tuple(value)`: a text gives its characters and a dict its keys
unfoldable pub tuple : Value → Checked (List Value)
tuple (arr xs) = ok (items xs)
tuple (str s) = ok (characters s)
tuple (obj fs) = ok (map (λ (e : String × Value). str e.0) (entries fs))
tuple _ = err type_error

-- `[item for item in xs if isinstance(item, Mapping)]`
abbrev pub mappings : List Value → List Fields
mappings [] = []
mappings (obj fs ∷ vs) = fs ∷ mappings vs
mappings (_ ∷ vs) = mappings vs

-- `name in inventory and inventory.get(name) != expected`
abbrev pub differs : Fields → String → ℕ → Bool
differs inventory name expected = elim (find_field name inventory) [
  | none ↦ false
  | some v ↦ not (is_number v expected)
]

abbrev check_total : Fields → String → ℕ → Checked (Unit {0})
check_total inventory name expected =
    raise_if (differs inventory name expected)
      (contract ("inventory " <> name <> " does not match canonical changes"))

module _ (d : Datetime) where
  -- `MergeSnapshot.from_dict`
  unfoldable pub snapshot_from_dict : Fields → Checked MergeSnapshot
  snapshot_from_dict value = do
    inventory ← mapping (get "inventory" value) "inventory must be an object"
    raw_changes ← sequence (get "changes" inventory) "inventory.changes must be an array"
    raw_findings ←
        sequence (get_or "secret_findings" (array []) value) "secret_findings must be an array"
    ci ← mapping (get "ci" value) "ci must be an object"
    required ← tuple (get_or "required_ci" (array []) value)
    optional ← tuple (get_or "optional_ci" (array []) value)
    findings ← each finding_from_dict (mappings raw_findings)
    changes ← each change_from_dict (mappings raw_changes)
    item ← create_snapshot d (record {
      repository = get "repository" value;
      expected_sha = get "expected_sha" value;
      observed_sha = get "observed_sha" value;
      merge_sha = get "merge_sha" value;
      captured_at = get "captured_at" value;
      ci = ci;
      required_ci = required;
      optional_ci = optional;
      tests_complete = get "tests_complete" value;
      tests_passed = get "tests_passed" value;
      secret_scan_complete = get "secret_scan_complete" value;
      secret_findings = findings;
      clean_tree = get "clean_tree" value;
      changes = changes;
      schema_version = get_or "schema_version" (str "") value;
    })
    check_total inventory "files" (inventory_files item)
    check_total inventory "changed_lines" (inventory_lines item)
    check_total inventory "binary_files" (inventory_binaries item)
    ok item
