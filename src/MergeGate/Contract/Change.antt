-- ===== src/MergeGate/Contract/Change.antt =====
-- contract.py: `Change` and `SecretFinding`.
use shipcheck.Base.{
  ℕ, ◌+◌, String, Bool, false, ◌||◌, [], ◌∷◌, ◌==◌, any, ok, ◌>>=◌, ◌>>◌, raise_if,
}
use shipcheck.Base.Texts.{has_char, split_slash}
use package.text.Mathlib.Text.{starts_with}
use shipcheck.Json.{Value, Fields, str, bool, number, get, get_or, dict}
use shipcheck.MergeGate.Errors.{Checked, contract}
use shipcheck.MergeGate.Contract.Fields.{text, sha, non_negative, boolean}

pub record Change : Type 0 where
  pub path : String
  pub additions : ℕ
  pub deletions : ℕ
  pub binary : Bool

-- `posix.is_absolute() or ".." in posix.parts or path.startswith("./") or "\\" in path`.
-- `PurePosixPath` drops the segments "" and "." from its parts and keeps "..".
unfoldable pub is_bad_path : String → Bool
unfolding split_slash
is_bad_path path =
    starts_with path "/"
    || any (λ part. part == "..") (split_slash path)
    || starts_with path "./"
    || has_char 92 path

unfoldable pub clean_path : Value → Checked String
clean_path v = do
  path ← text v "change.path"
  raise_if (is_bad_path path) (contract "change.path must be a normalized relative POSIX path")
  ok path

-- `Change.__post_init__`
unfoldable pub create_change : Value → Value → Value → Value → Checked Change
create_change path additions deletions binary = do
  p ← clean_path path
  a ← non_negative additions "change.additions"
  d ← non_negative deletions "change.deletions"
  b ← boolean binary "change.binary"
  ok (record { path = p; additions = a; deletions = d; binary = b })

abbrev pub changed_lines : Change → ℕ
changed_lines c = c.additions + c.deletions

unfoldable pub change_to_dict : Change → Value
change_to_dict c = dict (
    ("path", str c.path)
    ∷ ("additions", number c.additions)
    ∷ ("deletions", number c.deletions)
    ∷ ("binary", bool c.binary)
    ∷ [])

-- `Change.from_dict`
unfoldable pub change_from_dict : Fields → Checked Change
change_from_dict v =
    create_change (get "path" v) (get "additions" v) (get "deletions" v)
      (get_or "binary" (bool false) v)

pub record SecretFinding : Type 0 where
  pub fingerprint : String
  pub path : String
  pub kind : String

-- `SecretFinding.__post_init__`; the path is checked by making a `Change`
unfoldable pub create_finding : Value → Value → Value → Checked SecretFinding
create_finding fingerprint path kind = do
  f ← sha fingerprint "finding.fingerprint"
  c ← create_change path (number 0) (number 0) (bool false)
  k ← text kind "finding.kind"
  ok (record { fingerprint = f; path = c.path; kind = k })

unfoldable pub finding_to_dict : SecretFinding → Value
finding_to_dict f =
    dict (("fingerprint", str f.fingerprint) ∷ ("path", str f.path) ∷ ("kind", str f.kind) ∷ [])

-- `SecretFinding.from_dict`
unfoldable pub finding_from_dict : Fields → Checked SecretFinding
finding_from_dict v = create_finding (get "fingerprint" v) (get "path" v) (get "kind" v)
