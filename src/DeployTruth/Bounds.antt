-- ===== src/DeployTruth/Bounds.antt =====
-- What inventory.py reads stays within its limits.
use shipcheck.Base.{
  ℕ, ◌+◌, ◌≤◌, String, Option, ◌≡◌, refl, List, [], ◌∷◌, All, sum_by, Result, ok, err, arith,
}
use shipcheck.DeployTruth.Models.{Artifact, Checked}
use shipcheck.DeployTruth.Capture.{
  Hashing, Limits, Stop, create_artifact, validate_relative_path, component_of, read_files,
}

-- an artifact that is created has the size it is given
abbrev Sized : ℕ → Checked Artifact → Type 0
Sized size (ok a) = a.size ≡ size
Sized size (err e) = Unit

create_artifact-Sized :
    (path : String) (component : Option String) (sha : String) (size : ℕ)
    → Sized size (create_artifact path component sha size)
unfolding create_artifact
create_artifact-Sized path component sha size = ground arith

-- every artifact is within the limit of a file, and all together with `total` within that of a layer
abbrev pub Within : Limits → ℕ → Result Stop (List Artifact) → Type 0
Within limits total (ok as') =
    All (λ (a : Artifact). a.size ≤ limits.max_file_bytes) as'
    × (total + sum_by (λ (a : Artifact). a.size) as' ≤ limits.max_total_bytes)
Within limits total (err e) = Unit

module _ (h : Hashing) where
  -- The artifacts that the loop returns are each within the limit of a file, and their sizes add up to
  -- at most the limit of a layer, where what was seen before is within it.
  pub read_files-Within :
      (limits : Limits) (components : List (String × String)) (total : ℕ)
      (files : List (String × h.Bytes))
      → total ≤ limits.max_total_bytes
      → Within limits total (read_files h limits components total files)
  unfolding read_files
  read_files-Within limits components total [] le = ground arith
  read_files-Within limits components total ((path, content) ∷ rest) le =
      of_path (validate_relative_path path) refl
        (λ k. read_files-Within limits components (total + h.size_of content) rest k)
    where
      of_path :
          (m : Checked String)
          → validate_relative_path path ≡ m
          → (total + h.size_of content ≤ limits.max_total_bytes
              → Within limits
                  (total + h.size_of content)
                  (read_files h limits components (total + h.size_of content) rest))
          → Within limits total (read_files h limits components total ((path, content) ∷ rest))
      of_path (err e) q others = ground arith
      of_path (ok p) q others = ground (
        arith,
        create_artifact-Sized p (component_of p components) (h.hash_bytes content)
            (h.size_of content),
        others,
      )
