-- ===== src/MergeGate/Receipt/Parse.antt =====
-- transaction.py: `Receipt.from_dict`, and that it reads back what `Receipt.to_dict` writes.
use shipcheck.Base.{
  String, ◌==◌, eq_refl, ◌≡◌, Bool, true, false, not, Option, none, some, [], ok, err, ◌>>=◌, ◌>>◌,
  raise_if, arith,
}
use shipcheck.Base.Texts.{is_empty}
use shipcheck.Json.{Value, Fields, str, bool, obj, get, is_text, dict_fields, dict}
use shipcheck.MergeGate.Errors.{contract, Checked}
use shipcheck.MergeGate.Contract.Fields.{is_sha}
use shipcheck.MergeGate.Library.{Library}
use shipcheck.MergeGate.Receipt.{Receipt, is_sha256, create_receipt, receipt_body, receipt_to_dict}

-- a text that passes a test, or the error
abbrev tested : (String → Bool) → Value → String → Checked String
tested p (str s) message = do raise_if (not (p s)) (contract message); ok s
tested p _ message = err (contract message)

abbrev flag : Value → String → Checked Bool
flag (bool b) message = ok b
flag _ message = err (contract message)

-- `cls(**kwargs)` in `from_dict`: the checks of `Receipt.__post_init__` on any values
unfoldable pub receipt_of_fields : Fields → Checked Receipt
receipt_of_fields v = do
  raise_if (not (is_text (get "schema_version" v) "1.0"))
      (contract "unsupported receipt schema_version")
  state_path ←
      tested (λ s. not (is_empty s)) (get "state_path" v)
        "receipt state_path must be a non-empty string"
  artifact ← tested is_sha256 (get "artifact_sha256" v) "receipt artifact_sha256 must be a SHA-256"
  before ←
      tested is_sha256 (get "before_bytes_sha256" v) "receipt before_bytes_sha256 must be a SHA-256"
  after ←
      tested is_sha256 (get "after_bytes_sha256" v) "receipt after_bytes_sha256 must be a SHA-256"
  expected ←
      tested is_sha (get "expected_before_sha" v) "receipt expected_before_sha must be a Git SHA"
  merge ← tested is_sha (get "merge_sha" v) "receipt merge_sha must be a Git SHA"
  before_exists ← flag (get "before_exists" v) "receipt before_exists must be boolean"
  content ←
      tested (λ s. true) (get "before_bytes_b64" v) "receipt before_bytes_b64 must be a string"
  created ←
      tested (λ s. not (is_empty s)) (get "created_at" v) "receipt created_at must be a string"
  ok (record {
    state_path = state_path;
    artifact_sha256 = artifact;
    expected_before_sha = expected;
    merge_sha = merge;
    before_exists = before_exists;
    before_bytes_b64 = content;
    before_bytes_sha256 = before;
    after_bytes_sha256 = after;
    created_at = created;
  })

module _ (L : Library) (sha256_json : Value → String) where
  abbrev check_bytes : Receipt → Option L.Bytes → Checked Receipt
  check_bytes r none = err (contract "receipt before bytes are invalid")
  check_bytes r (some before) = do
    raise_if (not (L.sha256 before == r.before_bytes_sha256))
        (contract "receipt before-byte SHA-256 mismatch")
    ok r

  -- `Receipt.from_dict`
  unfoldable pub receipt_from_dict : Fields → Checked Receipt
  receipt_from_dict v = do
    item ← receipt_of_fields v
    raise_if (not (is_text (get "receipt_sha256" v) (sha256_json (dict (receipt_body item)))))
        (contract "receipt SHA-256 mismatch")
    check_bytes item (L.b64decode item.before_bytes_b64)

  -- the entries of `Receipt.to_dict`
  abbrev pub fields_of : Value → Fields
  fields_of (obj fs) = fs
  fields_of _ = dict_fields []

  -- what the checks of a constructed receipt have established
  abbrev Accepted : Receipt → Checked Receipt → Type 0
  Accepted r (ok q) =
      (is_empty r.state_path ≡ false)
      × (is_sha256 r.artifact_sha256 ≡ true)
      × (is_sha256 r.before_bytes_sha256 ≡ true)
      × (is_sha256 r.after_bytes_sha256 ≡ true)
      × (is_sha r.expected_before_sha ≡ true)
      × (is_sha r.merge_sha ≡ true)
      × (is_empty r.created_at ≡ false)
  Accepted r (err e) = Unit

  create_receipt-tests : (r : Receipt) → Accepted r (create_receipt r)
  unfolding create_receipt
  create_receipt-tests r = ground arith

  -- A receipt that was constructed, and whose bytes are decoded to bytes of its digest, is read back
  -- from its dictionary unchanged.
  pub receipt_from_dict-receipt_to_dict :
      (r : Receipt) (before : L.Bytes)
      → create_receipt r ≡ ok r
      → L.b64decode r.before_bytes_b64 ≡ some before
      → L.sha256 before ≡ r.before_bytes_sha256
      → receipt_from_dict (fields_of (receipt_to_dict sha256_json r)) ≡ ok r
  unfolding receipt_from_dict receipt_of_fields receipt_to_dict
  receipt_from_dict-receipt_to_dict r before made decoded same_digest = ground (
    arith,
    create_receipt-tests r,
    eq_refl (sha256_json (dict (receipt_body r))),
    eq_refl r.before_bytes_sha256,
  )
