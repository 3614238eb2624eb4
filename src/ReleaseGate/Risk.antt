-- ===== src/ReleaseGate/Risk.antt =====
-- src/shipcheck/release_gate/risk.py: the score of a diff.
pub mod Values
pub mod Paths
pub mod Bounds
pub mod Tests
use Prim.Native.Char.{code}
use Prim.Native.String.{[], ◌∷◌}
use shipcheck.Base.{
  ℕ, suc, ◌+◌, ◌*◌, ◌/◌, min, max, String, Bool, true, false, not, ◌||◌, ◌==◌, ◌<>◌, Option, none,
  some, List, [], ◌∷◌, ◌++◌, map, any, keep, length, ltb, eqb, if◌then◌else◌, ok, err, ◌>>=◌, ◌>>◌,
  raise_if, sum_by,
}
use shipcheck.Base.Texts.{is_empty, has_char, split_slash, contains}
use text.Mathlib.Text.{starts_with}
use shipcheck.Json.{
  Value, null, str, arr, obj, Fields, find_field, get, is_text, items, array, dict, number,
}
use shipcheck.ReleaseGate.Errors.{Error, validation, Checked}
use shipcheck.ReleaseGate.Risk.Paths.{Texts, is_in, ends_with, normalize_repo_path}
use shipcheck.ReleaseGate.Risk.Values.{require_keys, require_string, require_int, require_bool}

abbrev pub risk_version : String
risk_version = "shipcheck/diff-risk-v1"

pub record Reason : Type 0 where
  pub code : String
  pub points : ℕ
  pub detail : String

pub record RiskAssessment : Type 0 where
  pub score : ℕ
  pub reasons : List Reason
  pub file_count : ℕ
  pub changed_lines : ℕ

-- `RiskAssessment.to_dict`
unfoldable assessment_to_dict : RiskAssessment → Value
assessment_to_dict a = dict (
    ("version", str risk_version)
    ∷ ("score", number a.score)
    ∷ ("file_count", number a.file_count)
    ∷ ("changed_lines", number a.changed_lines)
    ∷ ("reasons", array (map reason_dict a.reasons))
    ∷ [])
  where
    reason_dict : Reason → Value
    reason_dict r =
        dict (("code", str r.code) ∷ ("points", number r.points) ∷ ("detail", str r.detail) ∷ [])

-- the words of a category, each with its test
abbrev pub any_word : List String → String → Bool
any_word words p = any (λ w. is_in w p) words

abbrev pub any_end : List String → String → Bool
any_end ends p = any (λ w. ends_with w p) ends

pub record Category : Type 0 where
  pub code : String
  pub points : ℕ
  pub matches : String → Bool

abbrev pub categories : List Category
categories =
    record {
      code = "WORKFLOW_CHANGE";
      points = 20;
      matches = λ p. starts_with p ".github/workflows/" || starts_with p ".gitlab-ci";
    }
    ∷ record {
      code = "MIGRATION_CHANGE";
      points = 18;
      matches = λ p. is_in "migration" p || is_in "/migrations/" ("/" <> p);
    }
    ∷ record {
      code = "AUTH_CHANGE";
      points = 18;
      matches = any_word ("auth" ∷ "permission" ∷ "rbac" ∷ "oauth" ∷ []);
    }
    ∷ record {
      code = "SECRET_BOUNDARY_CHANGE";
      points = 20;
      matches = any_word ("secret" ∷ "credential" ∷ "keyring" ∷ []);
    }
    ∷ record {
      code = "DEPENDENCY_CHANGE";
      points = 12;
      matches = any_end (".lock" ∷ "requirements.txt" ∷ "pyproject.toml" ∷ "package.json" ∷ []);
    }
    ∷ record {
      code = "PUBLIC_API_CHANGE";
      points = 10;
      matches = any_word ("/api/" ∷ "schema" ∷ "openapi" ∷ []);
    }
    ∷ []

-- what the loop over the files has counted
pub record Totals : Type 0 where
  pub paths : List String
  pub changed_lines : ℕ
  pub binary_count : ℕ

module _ (T : Texts) where
  open T use {casefold, decimal}

  abbrev statuses : List String
  statuses = "added" ∷ "modified" ∷ "deleted" ∷ "renamed" ∷ []

  abbrev pub bit : Bool → ℕ
  bit true = 1
  bit false = 0

  abbrev name_of : ℕ → String → String
  name_of index field = "diff.files[" <> (decimal index <> ("]" <> field))

  -- the body of the loop over the files
  unfoldable pub check_file : ℕ → List String → Totals → Value → Checked (String × Totals)
  check_file index seen t (obj fs) = do
    require_keys fs (name_of index "")
        ("path" ∷ "status" ∷ "additions" ∷ "deletions" ∷ "binary" ∷ []) []
    path ← normalize_repo_path T (get "path" fs)
    raise_if (contains (casefold path) seen) (validation ("duplicate diff path: " <> path))
    status ← require_string decimal (get "status" fs) (name_of index ".status") 16
    raise_if (not (contains status statuses)) (validation ("invalid diff status: " <> status))
    additions ← require_int decimal (get "additions" fs) (name_of index ".additions") 10_000_000
    deletions ← require_int decimal (get "deletions" fs) (name_of index ".deletions") 10_000_000
    raise_if (ltb 100_000_000 (t.changed_lines + additions + deletions))
        (validation "diff changed-line count exceeds 100,000,000")
    binary ← require_bool (get "binary" fs) (name_of index ".binary")
    ok (
      casefold path,
      record {
        paths = t.paths ++ (path ∷ []);
        changed_lines = t.changed_lines + (additions + deletions);
        binary_count = t.binary_count + bit binary;
      },
    )
  check_file index seen t _ = err (validation (name_of index " must be an object"))

  -- the loop over the files
  unfoldable pub check_files : ℕ → List String → Totals → List Value → Checked Totals
  check_files index seen t [] = ok t
  check_files index seen t (item ∷ rest) = do
    (key, t') ← check_file index seen t item
    check_files (suc index) (key ∷ seen) t' rest

  -- `add` under a test
  abbrev pub add_if : Bool → String → ℕ → String → List Reason
  add_if b code points detail =
      if b then record { code = code; points = points; detail = detail } ∷ [] else []

  abbrev pub category_reason : List String → Category → List Reason
  category_reason lowered c =
      let matched = length (keep c.matches lowered) in
      add_if (ltb 0 matched) c.code c.points (decimal matched <> " matching path(s)")

  -- the loop over the categories
  abbrev pub category_reasons : List String → List Category → List Reason
  category_reasons lowered [] = []
  category_reasons lowered (c ∷ cs) = category_reason lowered c ++ category_reasons lowered cs

  -- the reasons, in the order in which they are added
  unfoldable pub reasons_of : ℕ → Totals → List Reason
  reasons_of files t =
      add_if (ltb 0 files) "CHANGE_VOLUME_FILES" (min 20 (max 1 (files / 5 + 1)))
        (decimal files <> " changed files")
      ++ (add_if (ltb 0 t.changed_lines) "CHANGE_VOLUME_LINES"
            (min 20 (max 1 (t.changed_lines / 250 + 1)))
            (decimal t.changed_lines <> " changed lines")
          ++ (category_reasons (map casefold t.paths) categories
              ++ add_if (ltb 0 t.binary_count) "BINARY_CHANGE" (min 10 (t.binary_count * 2))
                  (decimal t.binary_count <> " binary file(s)")))

  -- the sum of the points, at most 100
  abbrev pub score_of : List Reason → ℕ
  score_of reasons = min 100 (sum_by (λ (r : Reason). r.points) reasons)

  -- the test of `claimed_score`; `None` is like a missing key
  abbrev pub check_claim : Value → ℕ → Checked (Unit {0})
  check_claim null score = ok tt
  check_claim claimed score = require_int decimal claimed "diff.claimed_score" 100 >>= λ n.
      raise_if (not (eqb n score))
        (validation "diff.claimed_score does not match deterministic score")

  abbrev pub files_of : Value → Checked (List Value)
  files_of (arr vs) =
      raise_if (ltb 2000 (length (items vs)))
        (validation "diff.files must contain at most 2,000 entries")
      >> ok (items vs)
  files_of _ = err (validation "diff.files must contain at most 2,000 entries")

  -- `score_diff`
  unfoldable pub score_diff : Fields → Checked RiskAssessment
  score_diff payload = do
    require_keys payload "diff payload" ("version" ∷ "files" ∷ []) ("claimed_score" ∷ [])
    raise_if (not (is_text (get "version" payload) risk_version))
        (validation "unsupported diff risk version")
    files ← files_of (get "files" payload)
    t ← check_files 0 [] (record { paths = []; changed_lines = 0; binary_count = 0 }) files
    check_claim (get "claimed_score" payload) (score_of (reasons_of (length files) t))
    ok (record {
      score = score_of (reasons_of (length files) t);
      reasons = reasons_of (length files) t;
      file_count = length files;
      changed_lines = t.changed_lines;
    })
