-- ===== src/Council/Models.antt =====
-- packages/pr-review-council/src/pr_review_council/models.py.
use Prim.Native.Char.{code}
use Prim.Native.String.{count}
use shipcheck.Base.{
  ℕ, ◌+◌, String, Bool, true, false, not, ◌&&◌, ◌||◌, Option, none, some, List, [], ◌∷◌, map, keep,
  any, ◌==◌, ◌<>◌, ltb, eqb, if◌then◌else◌, length, count_if, Result, ok, err, ◌>>=◌, ◌>>◌,
  raise_if, each,
}
use shipcheck.Base.Sort.{sort_by}
use shipcheck.Base.Texts.{
  strip, is_empty, lower, all_chars, is_hex, has_char, split_slash, has_duplicate, le_text,
}
use shipcheck.Json.{Value, null, str, bool, arr, obj, items, get, get_or, number, dict, array}
use shipcheck.Json.Compare.{as_int, at_least_zero}
use text.Mathlib.Text.{starts_with}

-- a value, or the message of a `ValidationError`; values that a message prints are left out of it
abbrev pub Checked : Type 0 → Type 0
Checked = Result String

pub data Severity : Type 0 where
  info low medium high critical : Severity

abbrev pub same_severity : Severity → Severity → Bool
same_severity info info = true
same_severity low low = true
same_severity medium medium = true
same_severity high high = true
same_severity critical critical = true
same_severity _ _ = false

abbrev pub severity_value : Severity → String
severity_value info = "info"
severity_value low = "low"
severity_value medium = "medium"
severity_value high = "high"
severity_value critical = "critical"

pub data Decision : Type 0 where
  approved changes_requested degraded blocked : Decision

abbrev decision_value : Decision → String
decision_value approved = "approved"
decision_value changes_requested = "changes_requested"
decision_value degraded = "degraded"
decision_value blocked = "blocked"

pub data Status : Type 0 where
  success failed : Status

abbrev pub is_success : Status → Bool
is_success success = true
is_success failed = false

abbrev status_value : Status → String
status_value success = "success"
status_value failed = "failed"

-- the bytes of a character in UTF-8
abbrev char_size : ℕ → ℕ
char_size n = if ltb n 128 then 1 else if ltb n 2048 then 2 else if ltb n 65536 then 3 else 4

-- `len(s.encode("utf-8"))`
unfoldable pub byte_size : String → ℕ
byte_size String.[] = 0
byte_size (String.◌∷◌ c s) = char_size (code c) + byte_size s

-- `_bounded_text`; the text comes back as it was given
unfoldable pub bounded_text : Value → String → ℕ → (allow_empty : Bool) → Checked String
bounded_text (str value) name limit allow_empty = do
  raise_if (is_empty (strip value) && not allow_empty) (name <> " must not be empty")
  raise_if (ltb limit (byte_size value)) (name <> " exceeds the limit of bytes")
  ok value
bounded_text _ name limit allow_empty = err (name <> " must be a string")

-- the parts of a `PurePosixPath`, less the root of an absolute one
abbrev parts : String → List String
parts path = keep (λ p. not (is_empty p) && not (p == ".")) (split_slash path)

abbrev join_slash : List String → String
join_slash [] = ""
join_slash (p ∷ []) = p
join_slash (p ∷ q ∷ ps) = p <> ("/" <> join_slash (q ∷ ps))

abbrev is_git : List String → Bool
is_git [] = false
is_git (p ∷ ps) = p == ".git"

-- `_safe_path`
unfoldable pub safe_path : Value → Checked String
unfolding split_slash
safe_path v = do
  path ← bounded_text v "file path" 1024 false
  raise_if
      (starts_with path "/" || any (λ p. p == "..") (parts path) || eqb (length (parts path)) 0)
      "unsafe file path"
  raise_if (is_git (parts path) || has_char 92 path) "unsafe file path"
  ok (join_slash (parts path))

-- The counts are kept as they are given: an int, which may be a bool.
pub record FileChange : Type 0 where
  pub path : String
  pub patch : String
  pub additions : Value
  pub deletions : Value

abbrev is_count : Value → Bool
is_count v = elim (as_int v) [ none ↦ false | some z ↦ at_least_zero z ]

-- `FileChange.from_dict`
unfoldable pub file_from_dict : Value → Checked FileChange
file_from_dict (obj data_of) = do
  raise_if (not (is_count (get_or "additions" (number 0) data_of)))
      "additions must be a non-negative integer"
  raise_if (not (is_count (get_or "deletions" (number 0) data_of)))
      "deletions must be a non-negative integer"
  path ← safe_path (get "path" data_of)
  patch ← bounded_text (get_or "patch" (str "") data_of) "patch" 256000 true
  ok (record {
    path = path;
    patch = patch;
    additions = get_or "additions" (number 0) data_of;
    deletions = get_or "deletions" (number 0) data_of;
  })
file_from_dict _ = err "each file change must be an object"

pub record Snapshot : Type 0 where
  pub pr_id : String
  pub commit_sha : String
  pub title : String
  pub body : String
  pub files : List FileChange

-- `isinstance(raw_files, list) and raw_files`, or the error
abbrev files_of : Value → Checked (List Value)
files_of (arr xs) = do
  raise_if (eqb (length (items xs)) 0) "files must be a non-empty array"
  raise_if (ltb 500 (length (items xs))) "files exceeds 500 entries"
  ok (items xs)
files_of _ = err "files must be a non-empty array"

-- `PullRequestSnapshot.from_dict`
unfoldable pub snapshot_from_dict : Value → Checked Snapshot
snapshot_from_dict (obj data_of) = do
  given ← bounded_text (get "commit_sha" data_of) "commit_sha" 40 false
  let sha = lower given
  raise_if (not (eqb (count sha) 40 && all_chars is_hex sha))
      "commit_sha must be exactly 40 lowercase hexadecimal characters"
  raw_files ← files_of (get "files" data_of)
  files ← each file_from_dict raw_files
  raise_if (has_duplicate (map (λ (f : FileChange). f.path) files)) "file paths must be unique"
  pr_id ← bounded_text (get "pr_id" data_of) "pr_id" 128 false
  title ← bounded_text (get "title" data_of) "title" 300 false
  body ← bounded_text (get_or "body" (str "") data_of) "body" 200000 true
  ok (record { pr_id = pr_id; commit_sha = sha; title = title; body = body; files = files })
snapshot_from_dict _ = err "pull request input must be an object"

pub record Finding : Type 0 where
  pub rule_id : String
  pub reviewer : String
  pub severity : Severity
  pub title : String
  pub message : String
  pub path : Option String
  pub line : Option ℕ
  pub fingerprint : String

abbrev text_or_null : Option String → Value
text_or_null none = null
text_or_null (some s) = str s

abbrev line_or_null : Option ℕ → Value
line_or_null none = null
line_or_null (some n) = number n

-- `Finding.to_dict`
abbrev pub finding_to_dict : Finding → Value
finding_to_dict f = dict (
    ("rule_id", str f.rule_id)
    ∷ ("reviewer", str f.reviewer)
    ∷ ("severity", str (severity_value f.severity))
    ∷ ("title", str f.title)
    ∷ ("message", str f.message)
    ∷ ("path", text_or_null f.path)
    ∷ ("line", line_or_null f.line)
    ∷ ("fingerprint", str f.fingerprint)
    ∷ [])

pub record Outcome : Type 0 where
  pub reviewer : String
  pub status : Status
  pub finding_count : ℕ
  pub error : Option String

abbrev outcome_to_dict : Outcome → Value
outcome_to_dict o = dict (
    ("reviewer", str o.reviewer)
    ∷ ("status", str (status_value o.status))
    ∷ ("finding_count", number o.finding_count)
    ∷ ("error", text_or_null o.error)
    ∷ [])

pub record Report : Type 0 where
  pub tool_version : String
  pub pr_id : String
  pub commit_sha : String
  pub decision : Decision
  pub degraded : Bool
  pub outcomes : List Outcome
  pub findings : List Finding
  pub summary : List (String × ℕ)
  pub report_sha : String

abbrev by_key : String × ℕ → String × ℕ → Bool
by_key a b = le_text a.0 b.0

-- `ReviewReport.unsigned_dict`
unfoldable pub unsigned_dict : Report → Value
unsigned_dict r = dict (
    ("schema_version", str "1.0")
    ∷ ("tool_version", str r.tool_version)
    ∷ ("pr_id", str r.pr_id)
    ∷ ("commit_sha", str r.commit_sha)
    ∷ ("decision", str (decision_value r.decision))
    ∷ ("degraded", bool r.degraded)
    ∷ ("outcomes", array (map outcome_to_dict r.outcomes))
    ∷ ("findings", array (map finding_to_dict r.findings))
    ∷ ("summary", dict (map (λ (e : String × ℕ). (e.0, number e.1)) (sort_by by_key r.summary)))
    ∷ [])

-- `severity_counts`
abbrev pub severity_counts : List Finding → List (String × ℕ)
severity_counts findings = map count_of (info ∷ low ∷ medium ∷ high ∷ critical ∷ [])
  where
    count_of : Severity → String × ℕ
    count_of s = (severity_value s, count_if (λ (f : Finding). same_severity s f.severity) findings)
