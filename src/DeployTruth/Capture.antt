-- ===== src/DeployTruth/Capture.antt =====
-- packages/deploy-truth/src/deploy_truth: inventory.py `inventory_from_bytes`, and the constructors
-- of artifacts and inventories in models.py. A mapping holds contents that are bytes.
use Prim.Native.String.{count}
use shipcheck.Base.{
  ℕ, ◌+◌, String, Bool, false, not, ◌||◌, Option, none, some, List, [], ◌∷◌, map, any, ◌==◌, length,
  ltb, eqb, if◌then◌else◌, Result, ok, err, ◌>>=◌, ◌>>◌, raise_if, ◌<>◌,
}
use shipcheck.Base.Sort.{sort_by}
use shipcheck.Base.Texts.{
  is_empty, all_chars, is_hex, has_char, split_slash, has_duplicate, le_text,
}
use text.Mathlib.Text.{starts_with}
use shipcheck.Json.{Value, str, dict, array}
use shipcheck.DeployTruth.Models.{
  Layer, layer_value, captured, halted, Artifact, artifact_to_dict, Inventory, Spec, Checked,
}
use shipcheck.DeployTruth.{artifact_components}

-- `str(path)` of the parts of a relative `PurePosixPath`
abbrev join_parts : List String → String
join_parts [] = "."
join_parts (p ∷ []) = p
join_parts (p ∷ q ∷ ps) = p <> ("/" <> join_parts (q ∷ ps))

-- the parts, less "" and "."
abbrev parts_of : List String → List String
parts_of [] = []
parts_of (p ∷ ps) = let rest = parts_of ps in if is_empty p || p == "." then rest else p ∷ rest

-- `validate_relative_path` of a text
unfoldable pub validate_relative_path : String → Checked String
unfolding split_slash
validate_relative_path value = do
  raise_if (is_empty value || (ltb 512 (count value) || has_char 92 value))
      "artifact paths must be non-empty bounded POSIX paths"
  raise_if (starts_with value "/" || any (λ p. p == "..") (parts_of (split_slash value)))
      "unsafe artifact path"
  ok (join_parts (parts_of (split_slash value)))

abbrev bad_component : Option String → Bool
bad_component none = false
bad_component (some c) = is_empty c || ltb 96 (count c)

-- `Artifact.__post_init__`; the path is kept as it is given
unfoldable pub create_artifact : String → Option String → String → ℕ → Checked Artifact
create_artifact path component sha size = do
  _ ← validate_relative_path path
  raise_if (bad_component component) "artifact component is invalid"
  raise_if (not (eqb (count sha) 64) || not (all_chars is_hex sha)) "artifact sha256 is invalid"
  ok (record { path = path; component = component; sha256 = sha; size = size })

-- the library: bytes, their number and their SHA-256
pub record Hashing : Type 1 where
  pub Bytes : Type 0
  pub size_of : Bytes → ℕ
  pub hash_bytes : Bytes → String
  pub sha256_json : Value → String

pub record Limits : Type 0 where
  pub max_files : ℕ
  pub max_file_bytes : ℕ
  pub max_total_bytes : ℕ

-- `CaptureLimits.__post_init__`
unfoldable pub create_limits : ℕ → ℕ → ℕ → Checked Limits
create_limits files file_bytes total_bytes = do
  raise_if (eqb files 0 || ltb 10000 files) "max_files must be between 1 and 10000"
  raise_if (eqb file_bytes 0 || ltb 1073741824 file_bytes) "max_file_bytes is out of bounds"
  raise_if (ltb total_bytes file_bytes || ltb 4294967296 total_bytes)
      "max_total_bytes is out of bounds"
  ok (record { max_files = files; max_file_bytes = file_bytes; max_total_bytes = total_bytes })

-- `components.get(path)`
abbrev pub component_of : String → List (String × String) → Option String
component_of path [] = none
component_of path ((p, c) ∷ d) = if p == path then some c else component_of path d

-- why a capture stops: an explanation of its own, or an exception
pub data Stop : Type 0 where
  explained : String → String → Stop

module _ (h : Hashing) where
  open h use {Bytes, size_of, hash_bytes, sha256_json}

  -- `LayerInventory.blocked`
  abbrev pub blocked : Layer → String → String → Checked Inventory
  blocked layer code summary = do
    raise_if
        (is_empty code || (ltb 64 (count code) || (is_empty summary || ltb 512 (count summary))))
        "blocked layer explanation is invalid"
    ok (record {
      layer = layer;
      state = halted;
      artifacts = [];
      inventory_sha256 = sha256_json (
          dict (
            ("layer", str (layer_value layer))
            ∷ ("state", str "blocked")
            ∷ ("error_code", str code)
            ∷ ("summary", str summary)
            ∷ []));
      error_code = some code;
      summary = summary;
    })

  abbrev by_path : Artifact → Artifact → Bool
  by_path a b = le_text a.path b.path

  -- `LayerInventory.captured`
  unfoldable pub capture : Layer → List Artifact → Checked Inventory
  capture layer artifacts = do
    let ordered = sort_by by_path artifacts
    raise_if (ltb 2048 (length ordered) || has_duplicate (map (λ (a : Artifact). a.path) ordered))
        "layer artifacts are duplicated or exceed the limit"
    ok (record {
      layer = layer;
      state = captured;
      artifacts = ordered;
      inventory_sha256 = sha256_json (
          dict (
            ("layer", str (layer_value layer))
            ∷ ("state", str "captured")
            ∷ ("artifacts", array (map artifact_to_dict ordered))
            ∷ []));
      error_code = none;
      summary = "captured";
    })

  -- what the handler explains
  abbrev invalid_inventory : Stop
  invalid_inventory = explained "invalid_inventory" "inventory rejected: ContractError"

  -- a raise inside `try`
  abbrev guarded : {A : Type 0} → Checked A → Result Stop A
  guarded (ok a) = ok a
  guarded (err e) = err invalid_inventory

  -- the loop over the files; `total` is what was seen before
  unfoldable pub read_files :
      Limits → List (String × String) → ℕ → List (String × Bytes) → Result Stop (List Artifact)
  read_files limits components total [] = ok []
  read_files limits components total ((raw_path, content) ∷ rest) = do
    path ← guarded (validate_relative_path raw_path)
    raise_if (ltb limits.max_file_bytes (size_of content))
        (explained "file_size_limit" ("artifact " <> (path <> " exceeds the file limit")))
    raise_if (ltb limits.max_total_bytes (total + size_of content))
        (explained "total_size_limit" "artifact bytes exceed the total limit")
    artifact ←
        guarded (
          create_artifact path (component_of path components) (hash_bytes content)
            (size_of content))
    others ← read_files limits components (total + size_of content) rest
    ok (artifact ∷ others)

  abbrev pub explain : Layer → Stop → Checked Inventory
  explain layer (explained code summary) = blocked layer code summary

  -- an explanation inside `try`, whose own exception the handler explains
  abbrev pub explain_or : Stop → Layer → Checked Inventory → Checked Inventory
  explain_or handler layer (ok i) = ok i
  explain_or handler layer (err e) = explain layer handler

  abbrev pub ended : Stop → Layer → Result Stop (List Artifact) → Checked Inventory
  ended handler layer (ok artifacts) = capture layer artifacts
  ended handler layer (err stop) = explain_or handler layer (explain layer stop)

  -- `inventory_from_bytes`
  unfoldable pub inventory_from_bytes :
      Layer → List (String × Bytes) → Spec → Limits → Checked Inventory
  inventory_from_bytes layer files spec limits =
      if ltb limits.max_files (length files)
      then blocked layer "file_limit" "artifact count exceeds the configured limit"
      else ended invalid_inventory layer (read_files limits (artifact_components spec) 0 files)
