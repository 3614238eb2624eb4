-- ===== src/MergeGate/Receipt.antt =====
-- src/safe_merge_gate/transaction.py: `Receipt`.
pub mod Parse
use Prim.Native.String.{count}
use shipcheck.Base.{String, Bool, not, ◌&&◌, List, [], ◌∷◌, ◌++◌, eqb, ok, ◌>>◌, raise_if}
use shipcheck.Base.Texts.{is_empty, all_chars, is_hex}
use shipcheck.Json.{Value, str, bool, dict}
use shipcheck.MergeGate.Errors.{contract, Checked}
use shipcheck.MergeGate.Contract.Fields.{is_sha}

pub record Receipt : Type 0 where
  pub state_path : String
  pub artifact_sha256 : String
  pub expected_before_sha : String
  pub merge_sha : String
  pub before_exists : Bool
  pub before_bytes_b64 : String
  pub before_bytes_sha256 : String
  pub after_bytes_sha256 : String
  pub created_at : String

-- 64 lower-case hexadecimal digits
abbrev pub is_sha256 : String → Bool
is_sha256 s = eqb (count s) 64 && all_chars is_hex s

-- `Receipt.__post_init__`, for fields that have their types
unfoldable pub create_receipt : Receipt → Checked Receipt
create_receipt r = do
  raise_if (is_empty r.state_path) (contract "receipt state_path must be a non-empty string")
  raise_if (not (is_sha256 r.artifact_sha256))
      (contract "receipt artifact_sha256 must be a SHA-256")
  raise_if (not (is_sha256 r.before_bytes_sha256))
      (contract "receipt before_bytes_sha256 must be a SHA-256")
  raise_if (not (is_sha256 r.after_bytes_sha256))
      (contract "receipt after_bytes_sha256 must be a SHA-256")
  raise_if (not (is_sha r.expected_before_sha))
      (contract "receipt expected_before_sha must be a Git SHA")
  raise_if (not (is_sha r.merge_sha)) (contract "receipt merge_sha must be a Git SHA")
  raise_if (is_empty r.created_at) (contract "receipt created_at must be a string")
  ok r

abbrev pub receipt_body : Receipt → List (String × Value)
receipt_body r =
    ("schema_version", str "1.0")
    ∷ ("state_path", str r.state_path)
    ∷ ("artifact_sha256", str r.artifact_sha256)
    ∷ ("expected_before_sha", str r.expected_before_sha)
    ∷ ("merge_sha", str r.merge_sha)
    ∷ ("before_exists", bool r.before_exists)
    ∷ ("before_bytes_b64", str r.before_bytes_b64)
    ∷ ("before_bytes_sha256", str r.before_bytes_sha256)
    ∷ ("after_bytes_sha256", str r.after_bytes_sha256)
    ∷ ("created_at", str r.created_at)
    ∷ []

-- `Receipt.to_dict`; `sha256_json` is SHA-256 of the canonical JSON of a value
unfoldable pub receipt_to_dict : (sha256_json : Value → String) → Receipt → Value
receipt_to_dict sha256_json r =
    dict (receipt_body r ++ ("receipt_sha256", str (sha256_json (dict (receipt_body r)))) ∷ [])
