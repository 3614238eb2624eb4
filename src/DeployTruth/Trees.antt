-- ===== src/DeployTruth/Trees.antt =====
-- packages/deploy-truth/src/deploy_truth: inventory.py `capture_directory`, and the state of
-- transactions.py. A tree lists the entries below a root by relative path, a folder before what is
-- in it; the code sorts what it captures, and sees no more of the order. Reading does not fail.
use shipcheck.Base.{
  ℕ, suc, ◌+◌, String, Bool, true, false, ◌||◌, Option, none, some, List, [], ◌∷◌, keep, not, ◌==◌,
  ◌<>◌, ltb, if◌then◌else◌, Result, ok, err, ◌>>=◌, ◌>>◌, raise_if,
}
use shipcheck.Base.Texts.{split_slash}
use shipcheck.Json.{Value}
use shipcheck.DeployTruth.Models.{Layer, Artifact, Inventory, Spec, Checked}
use shipcheck.DeployTruth.{artifact_components}
use shipcheck.DeployTruth.Capture.{
  Hashing, Limits, Stop, explained, blocked, component_of, create_artifact, ended,
}

-- a link tells if it leads to a folder
pub data Node (Bytes : Type 0) : Type 0 where
  file : Bytes → Node Bytes
  folder : Node Bytes
  link : Bool → Node Bytes

abbrev pub Tree : Type 0 → Type 0
Tree Bytes = List (String × Node Bytes)

-- what stands at the path of a root
pub data Root (Bytes : Type 0) : Type 0 where
  missing linked not_folder : Root Bytes
  tree : Tree Bytes → Root Bytes

-- the content of `state.json`: it raises on reading or parsing, it is no UTF-8, or it parses
pub data Marker : Type 0 where
  unreadable undecodable : Marker
  parsed : Value → Marker

-- the folder of a plan below the rollback root
pub record Evidence (Bytes : Type 0) : Type 0 where
  pub snapshot : Option (Tree Bytes)
  pub marker : Option Marker

-- The live tree, the folders by plan id, the list `outputs`, and whether each write to come is
-- done or raises `OSError`; behind the last answer writes are done.
pub record World (Bytes : Type 0) : Type 0 where
  pub live : Tree Bytes
  pub evidence : String → Option (Evidence Bytes)
  pub outputs : List String
  pub answers : List Bool

module _ {Bytes : Type 0} where
  unfoldable pub find_node : String → Tree Bytes → Option (Node Bytes)
  find_node p [] = none
  find_node p ((q, n) ∷ t) = if q == p then some n else find_node p t

  unfoldable pub put_node : String → Node Bytes → Tree Bytes → Tree Bytes
  put_node p n [] = (p, n) ∷ []
  put_node p n ((q, m) ∷ t) = if q == p then (q, n) ∷ t else (q, m) ∷ put_node p n t

  unfoldable pub drop_node : String → Tree Bytes → Tree Bytes
  drop_node p t = keep (λ (e : String × Node Bytes). not (e.0 == p)) t

abbrev pub ancestors : String → List String → List String
ancestors prefix [] = []
ancestors prefix (p ∷ []) = []
ancestors prefix (p ∷ q ∷ ps) = (prefix <> p) ∷ ancestors (prefix <> (p <> "/")) (q ∷ ps)

-- the folders on the way to a relative path in normal form
unfoldable pub folders_of : String → List String
folders_of p = ancestors "" (split_slash p)

module _ (h : Hashing) where
  open h use {Bytes, size_of, hash_bytes}

  -- what the handler explains: `ContractError` is a `ValueError`
  abbrev pub capture_error : Stop
  capture_error = explained "capture_error" "layer capture failed: ContractError"

  abbrev pub caught : {A : Type 0} → Checked A → Result Stop A
  caught (ok a) = ok a
  caught (err e) = err capture_error

  -- the walk; `seen` artifacts of `total` bytes came before
  unfoldable pub scan :
      Limits → List (String × String) → (seen total : ℕ) → Tree Bytes → Result Stop (List Artifact)
  scan limits components seen total [] = ok []
  scan limits components seen total ((path, folder) ∷ rest) = scan limits components seen total rest
  scan limits components seen total ((path, link true) ∷ rest) =
      err (explained "symlink_forbidden" "symlinked directories are not captured")
  scan limits components seen total ((path, link false) ∷ rest) =
      err (explained "symlink_forbidden" "symlinked files are not captured")
  scan limits components seen total ((path, file content) ∷ rest) = do
    raise_if (ltb limits.max_file_bytes (size_of content))
        (explained "file_size_limit" ("artifact " <> (path <> " exceeds the file limit")))
    raise_if
        (ltb limits.max_files (suc seen) || ltb limits.max_total_bytes (total + size_of content))
        (explained "inventory_limit" "layer exceeds configured capture limits")
    artifact ←
        caught (
          create_artifact path (component_of path components) (hash_bytes content)
            (size_of content))
    others ← scan limits components (suc seen) (total + size_of content) rest
    ok (artifact ∷ others)

  -- `capture_directory`
  unfoldable pub capture_directory : Layer → Root Bytes → Spec → Limits → Checked Inventory
  capture_directory layer missing spec limits =
      blocked h layer "root_missing" "layer root does not exist"
  capture_directory layer linked spec limits =
      blocked h layer "root_symlink" "layer root must not be a symlink"
  capture_directory layer not_folder spec limits =
      blocked h layer "root_not_directory" "layer root is not a directory"
  capture_directory layer (tree t) spec limits =
      ended h capture_error layer (scan limits (artifact_components spec) 0 0 t)
