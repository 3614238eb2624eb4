-- ===== src/DeployTruth/Tests.antt =====
-- A release with one artifact that drifts in the live layer.
use shipcheck.Base.{ℕ, arith, String, ◌≡◌, ◌↔◌, refl, true, false, none, some, [], ◌∷◌, All, ok}
use shipcheck.Base.Sort.{sort_by}
use shipcheck.Json.{Value}
use shipcheck.DeployTruth.Models.{
  verified, Component, ready, is_ready, Spec, Layer, source, bundle, live, Inventory, is_blocked,
  captured, Report,
}
use shipcheck.DeployTruth.{
  artifact_components, differences_of, by_place, decide, reasons_of, create_report,
  verify_inventories,
}
use shipcheck.DeployTruth.Capture.{Hashing, Limits, read_files}
use shipcheck.DeployTruth.Bounds.{Within, read_files-Within}
use shipcheck.DeployTruth.Verified.{Agrees, Expected, verify_inventories-verified}

abbrev digest : Value → String
digest v = "d"

abbrev spec : Spec
spec = record {
  release_version = "1";
  components =
      record {
        name = "api";
        version = "1";
        dependencies = [];
        state = ready;
        artifacts = "a.js" ∷ [];
      }
      ∷ [];
  spec_sha256 = "s";
}

abbrev layer : Layer → String → Inventory
layer name sha = record {
  layer = name;
  state = captured;
  artifacts = record { path = "a.js"; component = some "api"; sha256 = sha; size = 3 } ∷ [];
  inventory_sha256 = "i";
  error_code = none;
  summary = "captured";
}

abbrev drifted : Report
drifted =
    let ds =
      sort_by by_place
        (differences_of spec (layer source "x") (layer bundle "x") (layer live "y")) in
    let layers = layer source "x" ∷ layer bundle "x" ∷ layer live "y" ∷ [] in
    record {
      spec = spec;
      source_layer = layer source "x";
      bundle_layer = layer bundle "x";
      live_layer = layer live "y";
      differences = ds;
      decision = decide false spec.components ds;
      reasons = reasons_of layers spec.components ds;
      evidence_sha256 = "d";
    }

created :
    verify_inventories digest spec (layer source "x") (layer bundle "x") (layer live "y")
    ≡ ok drifted
unfolding verify_inventories create_report
created = refl

verify_inventories-verified_example : (drifted.decision ≡ verified) ↔ (
    (is_blocked captured ≡ false)
    × (is_blocked captured ≡ false)
    × (is_blocked captured ≡ false)
    × All (λ (c : Component). is_ready c.state ≡ true) spec.components
    × All
        (Agrees spec (layer source "x") (layer bundle "x") (layer live "y"))
        (artifact_components spec)
    × Expected spec (layer source "x") (layer bundle "x") (layer live "y") (layer source "x")
    × Expected spec (layer source "x") (layer bundle "x") (layer live "y") (layer bundle "x")
    × Expected spec (layer source "x") (layer bundle "x") (layer live "y") (layer live "y"))
verify_inventories-verified_example =
    verify_inventories-verified spec (layer source "x") (layer bundle "x") (layer live "y") digest
      {r = drifted} created

-- two files, the second of which is too large with the first
abbrev lengths : Hashing
lengths = record {
  Bytes = ℕ;
  size_of = λ n. n;
  hash_bytes = λ n. "aaaaaaaaaaaaaaaaaaaaaaaaaaaaaaaaaaaaaaaaaaaaaaaaaaaaaaaaaaaaaaaa";
  sha256_json = λ v. "d";
}

abbrev limits : Limits
limits = record { max_files = 4; max_file_bytes = 10; max_total_bytes = 15 }

read_files-Within_example :
    Within limits 0 (read_files lengths limits [] 0 (("a.js", 9) ∷ ("b.js", 6) ∷ []))
read_files-Within_example =
    read_files-Within lengths limits [] 0 (("a.js", 9) ∷ ("b.js", 6) ∷ []) (omega arith)
