-- ===== src/MergeGate/Transaction.antt =====
-- src/safe_merge_gate/transaction.py: dry run, apply, verify and rollback of the local state file.
-- A path is the text that `str(Path(path))` gives.
pub mod Parts
pub mod Atomic
pub mod Rollback
use shipcheck.Base.{
  String, ◌==◌, Bool, true, false, not, ◌&&◌, ◌||◌, Option, none, some, List, [], ◌∷◌, ◌++◌, ok,
  err, if◌then◌else◌, ◌<>◌,
}
use shipcheck.Base.Exec.{Exec, pure, raise, lift, ◌>>=◌, ◌>>◌, raise_when, on_error}
use shipcheck.Base.Texts.{lower, same}
use shipcheck.Files
use shipcheck.Files.{Disk, path_exists}
use shipcheck.Json.{Value, Fields, str, obj, get}
use shipcheck.MergeGate.Errors.{
  Error, blocked, conflict, unverified, os_error, value_error, Checked,
}
use shipcheck.MergeGate.Contract.Fields.{is_ready, decision_value}
use shipcheck.MergeGate.Contract.Artifact.{GateArtifact}
use shipcheck.MergeGate.Contract.Artifact.Digest.{artifact_sha256}
use shipcheck.MergeGate.Library.{Library, text_dict}
use shipcheck.MergeGate.Receipt.{Receipt, create_receipt, receipt_to_dict}

abbrev same_bool : Bool → Bool → Bool
same_bool true b = b
same_bool false b = not b

module _ (L : Library) where
  open L use {
    Bytes, empty, sha256, b64encode, b64decode, b64decode_lax, encode, decode, dumps, loads,
  }

  abbrev pub Action : Type 0 → Type 0
  Action = Exec (Disk Bytes) Error

  -- `(canonical_json(value) + "\n").encode("utf-8")`
  abbrev pub json_line : Value → Bytes
  json_line v = encode (dumps v <> "\n")

  -- `sha256_json`
  abbrev pub sha256_json : Value → String
  sha256_json v = sha256 (encode (dumps v))

  current_of : Value → Checked (Option String)
  current_of (str s) = ok (some (lower s))
  current_of _ = err (conflict "state current_sha is missing")

  state_root : Value → Checked (Option String)
  state_root (obj fs) = current_of (get "current_sha" fs)
  state_root _ = err (conflict "state root must be an object")

  not_json : Checked (Option String)
  not_json = err (conflict "state file is not valid UTF-8 JSON")

  -- what `_read_current` makes of the bytes of a state file
  unfoldable pub parse_state : Bytes → Checked (Option String)
  unfolding current_of state_root not_json
  parse_state b = elim (decode b) [
    | none ↦ not_json
    | some t ↦ elim (loads t) [ none ↦ not_json | some v ↦ state_root v ]
  ]

  -- `_read_current`
  unfoldable pub read_current : String → Action (Option String)
  unfolding parse_state
  read_current path w = (elim (w.file path) [ none ↦ ok none | some b ↦ parse_state b ], w)

  -- `_restore`
  unfoldable pub restore : Receipt → String → Action (Unit {0})
  restore r path w = elim (b64decode_lax r.before_bytes_b64) [
    | none ↦ (err (value_error), w)
    | some before ↦
        (if r.before_exists
          then Files.replace_file (os_error "OSError") path before w
          else if Files.is_file (w.file path)
          then Files.unlink (os_error "OSError") path w
          else (ok tt, w))
  ]

  pub record Preview : Type 0 where
    pub applicable : Bool
    pub state_path : String
    pub current_sha : Option String
    pub merge_sha : String
    pub artifact_sha : String
    pub reasons : List String

  -- `dry_run`
  unfoldable pub dry_run : GateArtifact → String → Action Preview
  dry_run a path = do
    current ← read_current path
    let ready = is_ready a.decision
    let matches = same current (some a.snapshot.observed_sha)
    pure (record {
      applicable = ready && matches;
      state_path = path;
      current_sha = current;
      merge_sha = a.snapshot.merge_sha;
      artifact_sha = artifact_sha256 sha256_json a;
      reasons =
          (if ready then [] else ("decision is " <> decision_value a.decision) ∷ [])
          ++ (if matches then [] else "local SHA differs from artifact observed SHA" ∷ []);
    })

  pub record Verified : Type 0 where
    pub current_sha : Option String
    pub bytes_sha256 : String

  -- `verify`
  unfoldable pub verify : Receipt → String → Action Verified
  verify r path = do
    raise_when (not (path == r.state_path)) (unverified "state path differs from receipt")
    there ← path_exists path
    raise_when (not there) (unverified "applied state is missing")
    content ← Files.read_bytes (os_error "FileNotFoundError") path
    raise_when (not (sha256 content == r.after_bytes_sha256))
        (unverified "applied bytes differ from receipt")
    current ← read_current path
    raise_when (not (same current (some r.merge_sha)))
        (unverified "applied SHA differs from receipt")
    pure (record { current_sha = current; bytes_sha256 = sha256 content })

  -- the object that `apply` writes
  abbrev pub after_fields : GateArtifact → List (String × String)
  after_fields a =
      ("schema_version", "1.0")
      ∷ ("repository", a.snapshot.repository)
      ∷ ("current_sha", a.snapshot.merge_sha)
      ∷ ("artifact_sha256", artifact_sha256 sha256_json a)
      ∷ []

  abbrev pub after_bytes : GateArtifact → Bytes
  after_bytes a = json_line (text_dict (after_fields a))

  -- `path.read_bytes() if before_exists else b""`
  abbrev pub bytes_or_empty : Option Bytes → Bytes
  bytes_or_empty none = empty
  bytes_or_empty (some b) = b

  -- the receipt that `apply` makes of the state file; `now` is `created_at or utc_now()`
  abbrev pub receipt_of : GateArtifact → String → Option Bytes → String → Receipt
  receipt_of a path before now = record {
    state_path = path;
    artifact_sha256 = artifact_sha256 sha256_json a;
    expected_before_sha = a.snapshot.observed_sha;
    merge_sha = a.snapshot.merge_sha;
    before_exists = Files.is_file before;
    before_bytes_b64 = b64encode (bytes_or_empty before);
    before_bytes_sha256 = sha256 (bytes_or_empty before);
    after_bytes_sha256 = sha256 (after_bytes a);
    created_at = now;
  }

  -- the content of the receipt file
  abbrev pub receipt_line : Receipt → Bytes
  receipt_line r = json_line (receipt_to_dict sha256_json r)

  -- `self.verify(receipt, path)` for its exceptions
  verify_only : Receipt → String → Action (Unit {0})
  verify_only r path = do _ ← verify r path; pure tt

  -- the part of `apply` under `try`, with its handler
  unfoldable pub commit : Receipt → String → Bytes → Action (Unit {0})
  unfolding verify_only
  commit r path content =
      on_error (do Files.replace_file (os_error "OSError") path content; verify_only r path)
        (restore r path)

  -- `path.exists()` and `path.read_bytes()`, together
  abbrev read_state : String → Action (Option Bytes)
  read_state path w = (ok (w.file path), w)

  -- `apply` up to its first write
  unfoldable pub prepare : GateArtifact → String → String → String → Action Receipt
  prepare a path receipt_file now = do
    taken ← path_exists receipt_file
    raise_when taken (conflict "receipt path already exists")
    preview ← dry_run a path
    raise_when (not (is_ready a.decision))
        (blocked ("artifact decision is " <> decision_value a.decision))
    raise_when (not preview.applicable) (conflict "local SHA differs from artifact observed SHA")
    before ← read_state path
    lift (create_receipt (receipt_of a path before now))

  -- the writes of `apply`
  unfoldable pub perform : GateArtifact → String → String → Receipt → Action Receipt
  perform a path receipt_file receipt = do
    Files.create_file (os_error "OSError") receipt_file (receipt_line receipt)
    commit receipt path (after_bytes a)
    pure receipt

  -- `apply`; `now` is `created_at or utc_now()`
  unfoldable pub apply : GateArtifact → String → String → String → Action Receipt
  unfolding prepare
  apply a path receipt_file now = do
    receipt ← prepare a path receipt_file now
    perform a path receipt_file receipt

  pub record RolledBack : Type 0 where
    pub idempotent : Bool
    pub restored_sha256 : String

  -- what `rollback` does before it restores: `some` is its early return
  unfoldable pub check_drift : Receipt → Option Bytes → Checked (Option RolledBack)
  check_drift r none =
      if r.before_exists
      then err (conflict "state disappeared after apply; refusing rollback")
      else ok none
  check_drift r (some content) =
      if sha256 content == r.before_bytes_sha256 && r.before_exists
      then ok (some (record { idempotent = true; restored_sha256 = sha256 content }))
      else if sha256 content == r.after_bytes_sha256
      then ok none
      else err (conflict "state changed after apply; refusing rollback")

  -- the end of `rollback`
  unfoldable pub restore_checked : Receipt → String → Action RolledBack
  restore_checked r path = do
    restore r path
    restored ← read_state path
    raise_when
        (not (sha256 (bytes_or_empty restored) == r.before_bytes_sha256)
          || not (same_bool (Files.is_file restored) r.before_exists))
        (unverified "rollback did not restore exact prior state")
    pure (record { idempotent = false; restored_sha256 = sha256 (bytes_or_empty restored) })

  decoded : Option Bytes → Checked Bytes
  decoded none = err (value_error)
  decoded (some b) = ok b

  -- `rollback`
  unfoldable pub rollback : Receipt → String → Action RolledBack
  unfolding decoded
  rollback r path = do
    raise_when (not (path == r.state_path)) (conflict "state path differs from receipt")
    before ← lift (decoded (b64decode r.before_bytes_b64))
    raise_when (not (sha256 before == r.before_bytes_sha256))
        (unverified "receipt before bytes are corrupt")
    content ← read_state path
    early ← lift (check_drift r content)
    elim early [ some result ↦ pure result | none ↦ restore_checked r path ]
