-- ===== src/MergeGate/Contract/Policy.antt =====
-- contract.py: `GatePolicy`.
use shipcheck.Base.{ℕ, String, Bool, true, [], ◌∷◌, ok, ◌>>=◌}
use shipcheck.Json.{Value, Fields, str, bool, number, get_or, dict}
use shipcheck.MergeGate.Errors.{Checked}
use shipcheck.MergeGate.Contract.Fields.{text, non_negative, boolean}

pub record GatePolicy : Type 0 where
  pub max_changed_files : ℕ
  pub max_changed_lines : ℕ
  pub max_binary_files : ℕ
  pub require_clean_tree : Bool
  pub require_tests : Bool
  pub require_secret_scan : Bool
  pub policy_version : String

-- `GatePolicy()`
abbrev pub default_policy : GatePolicy
default_policy = record {
  max_changed_files = 100;
  max_changed_lines = 5000;
  max_binary_files = 5;
  require_clean_tree = true;
  require_tests = true;
  require_secret_scan = true;
  policy_version = "1.0";
}

-- `GatePolicy.__post_init__`
unfoldable pub create_policy :
    (files lines binaries clean tests scan version : Value) → Checked GatePolicy
create_policy files lines binaries clean tests scan version = do
  f ← non_negative files "max_changed_files"
  l ← non_negative lines "max_changed_lines"
  b ← non_negative binaries "max_binary_files"
  c ← boolean clean "require_clean_tree"
  t ← boolean tests "require_tests"
  s ← boolean scan "require_secret_scan"
  v ← text version "policy_version"
  ok (record {
    max_changed_files = f;
    max_changed_lines = l;
    max_binary_files = b;
    require_clean_tree = c;
    require_tests = t;
    require_secret_scan = s;
    policy_version = v;
  })

-- `GatePolicy.to_dict`
unfoldable pub policy_to_dict : GatePolicy → Value
policy_to_dict p = dict (
    ("policy_version", str p.policy_version)
    ∷ ("max_changed_files", number p.max_changed_files)
    ∷ ("max_changed_lines", number p.max_changed_lines)
    ∷ ("max_binary_files", number p.max_binary_files)
    ∷ ("require_clean_tree", bool p.require_clean_tree)
    ∷ ("require_tests", bool p.require_tests)
    ∷ ("require_secret_scan", bool p.require_secret_scan)
    ∷ [])

-- `GatePolicy.from_dict`
unfoldable pub policy_from_dict : Fields → Checked GatePolicy
policy_from_dict v =
    create_policy (get_or "max_changed_files" (number 100) v)
      (get_or "max_changed_lines" (number 5000) v) (get_or "max_binary_files" (number 5) v)
      (get_or "require_clean_tree" (bool true) v) (get_or "require_tests" (bool true) v)
      (get_or "require_secret_scan" (bool true) v) (get_or "policy_version" (str "1.0") v)
