-- ===== src/Publisher.antt =====
-- packages/pr-review-council/src/pr_review_council/publisher.py: `ReportPublisher`.
-- A path is the text of the resolved path; the disk holds regular files, so an output path that
-- names something else does not occur.
pub mod Keeps
pub mod Undo
pub mod Tests
use shipcheck.Base.{
  String, ◌==◌, Bool, true, false, not, ◌&&◌, ◌||◌, Option, none, some, List, [], ◌∷◌, ◌<>◌, ok,
  err, if◌then◌else◌,
}
use shipcheck.Base.Exec.{Exec, pure, raise, ◌>>=◌, ◌>>◌, raise_when, on_error}
use shipcheck.Base.Texts.{is_empty, same, first_chars}
use shipcheck.Files
use shipcheck.Files.{Disk, path_exists, is_file}
use shipcheck.Json.{Value, str, null, array}
use shipcheck.MergeGate.Library.{Library}

pub data Error : Type 0 where
  publication os_error : String → Error

pub record Plan : Type 0 where
  pub output_path : String
  pub backup_path : String
  pub payload_sha : String
  pub previous_sha : Option String
  pub creates_new : Bool

pub record Receipt : Type 0 where
  pub transaction_id : String
  pub state : String
  pub output_path : String
  pub backup_path : Option String
  pub previous_sha : Option String
  pub applied_sha : String
  pub verified : Bool

-- `pathlib`: `path.name` and `path.with_name(name)`
pub record Paths : Type 0 where
  pub name_of : String → String
  pub with_name : String → String → String

abbrev text_or_null : Option String → Value
text_or_null none = null
text_or_null (some s) = str s

module _ (L : Library) where
  abbrev pub Action : Type 0 → Type 0
  Action = Exec (Disk L.Bytes) Error

  -- `_sha_file(path)` of a file that may be missing
  abbrev pub sha_of : Option L.Bytes → Option String
  sha_of none = none
  sha_of (some b) = some (L.sha256 b)

  -- `report_payload`; `pretty` is `json.dumps` with an indent and sorted keys
  abbrev pub report_payload : (pretty : Value → String) → Value → L.Bytes
  report_payload pretty report = L.encode (pretty report <> "\n")

  -- `ReportPublisher.plan`, for the bytes of the report
  unfoldable pub plan : Paths → L.Bytes → String → Action Plan
  plan paths payload output w =
      let payload_sha = L.sha256 payload in
      (
        ok (record {
          output_path = output;
          backup_path =
              paths.with_name output
                ("." <> (paths.name_of output <> ("." <> (first_chars 12 payload_sha <> ".bak"))));
          payload_sha = payload_sha;
          previous_sha = sha_of (w.file output);
          creates_new = not (is_file (w.file output));
        }),
        w,
      )

  -- the file at a path
  abbrev content : String → Action (Option L.Bytes)
  content path w = (ok (w.file path), w)

  abbrev same_bool : Bool → Bool → Bool
  same_bool true b = b
  same_bool false b = not b

  -- the four tests at the start of `apply`
  unfoldable pub check_plan : Plan → L.Bytes → Action (Unit {0})
  check_plan p payload = do
    raise_when (not (L.sha256 payload == p.payload_sha))
        (publication "report changed after planning")
    old ← content p.output_path
    raise_when (not (same_bool (is_file old) (not p.creates_new)))
        (publication "output existence changed after planning")
    raise_when (is_file old && not (same (sha_of old) p.previous_sha))
        (publication "output content changed after planning")
    taken ← path_exists p.backup_path
    raise_when taken (publication "refusing to overwrite an existing rollback backup")

  -- the move of the old output, and the new value of `moved_old`
  unfoldable pub put_aside : Plan → Action Bool
  put_aside p = do
    there ← path_exists p.output_path
    if there
        then (Files.move_file (os_error "OSError") p.output_path p.backup_path >> pure true)
        else pure false

  -- the handler of `apply`
  unfoldable pub put_back : Plan → Bool → Action (Unit {0})
  put_back p moved_old = do
    kept ← path_exists p.backup_path
    there ← path_exists p.output_path
    if moved_old && (kept && not there)
        then Files.move_file (os_error "OSError") p.backup_path p.output_path
        else pure tt

  -- `transaction_id`
  abbrev transaction_id_of : Plan → String
  transaction_id_of p = L.sha256 (
      L.encode (
        L.dumps (array (str p.output_path ∷ str p.payload_sha ∷ text_or_null p.previous_sha ∷ []))))

  -- the receipt of `apply`
  abbrev pub receipt_of : Plan → (moved_old verified : Bool) → Receipt
  receipt_of p moved_old verified = record {
    transaction_id = transaction_id_of p;
    state = if verified then "verified" else "blocked";
    output_path = p.output_path;
    backup_path = if moved_old then some p.backup_path else none;
    previous_sha = p.previous_sha;
    applied_sha = p.payload_sha;
    verified = verified;
  }

  -- `if receipt.backup_path`
  abbrev backup_of : Option String → Option String
  backup_of none = none
  backup_of (some s) = if is_empty s then none else some s

  remove_output : Receipt → Action (Unit {0})
  remove_output r = do
    there ← path_exists r.output_path
    if there then Files.unlink (os_error "OSError") r.output_path else pure tt

  -- `_rollback_unverified`
  unfoldable pub rollback_unverified : Receipt → Action (Unit {0})
  unfolding remove_output
  rollback_unverified r = elim (backup_of r.backup_path) [
    | none ↦ remove_output r
    | some backup ↦ (do
      kept ← path_exists backup
      if kept then Files.move_file (os_error "OSError") backup r.output_path else remove_output r)
  ]

  -- `output.is_file() and _sha_file(output) == sha`
  abbrev pub holds : Option L.Bytes → String → Bool
  holds none sha = false
  holds (some b) sha = L.sha256 b == sha

  -- the end of `apply`
  unfoldable pub conclude : Plan → Bool → Action Receipt
  conclude p moved_old = do
    new ← content p.output_path
    let receipt = receipt_of p moved_old (holds new p.payload_sha)
    if holds new p.payload_sha
        then pure receipt
        else (rollback_unverified receipt
            >> raise (publication "functional verification failed; rollback attempted"))

  -- the staged file, which nothing removes where a write or the replacement raises
  unfoldable pub place_report : Plan → L.Bytes → String → Action (Unit {0})
  place_report p payload staged =
      Files.stage_file (os_error "OSError") staged payload
      >> Files.move_file (os_error "OSError") staged p.output_path

  -- `ReportPublisher.apply`, for the bytes of the report and the name that `tempfile` picks
  unfoldable pub apply : Plan → L.Bytes → String → Action Receipt
  apply p payload staged = do
    check_plan p payload
    moved_old ← put_aside p
    on_error (place_report p payload staged) (put_back p moved_old)
    conclude p moved_old

  -- `ReportPublisher.verify`
  unfoldable pub verify : Receipt → Action Bool
  verify r = do new ← content r.output_path; pure (r.verified && holds new r.applied_sha)

  pub record RolledBack : Type 0 where
    pub transaction_id : String
    pub restored_sha : Option String

  -- the moves of `rollback`
  unfoldable pub undo : Receipt → Action (Unit {0})
  undo r = elim (backup_of r.backup_path) [
    | none ↦ Files.unlink (os_error "OSError") r.output_path
    | some backup ↦ (do
      old ← content backup
      raise_when (not (is_file old && same (sha_of old) r.previous_sha))
          (publication "rollback backup is missing or changed")
      Files.move_file (os_error "OSError") backup r.output_path)
  ]

  -- `ReportPublisher.rollback`
  unfoldable pub rollback : Receipt → Action RolledBack
  rollback r = do
    served ← content r.output_path
    raise_when (not (holds served r.applied_sha))
        (publication "refusing rollback because the served output no longer matches the receipt")
    undo r
    restored ← content r.output_path
    raise_when (not (same (sha_of restored) r.previous_sha))
        (publication "rollback could not be verified")
    pure (record { transaction_id = r.transaction_id; restored_sha = r.previous_sha })
