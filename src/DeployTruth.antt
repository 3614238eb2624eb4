-- ===== src/DeployTruth.antt =====
-- packages/deploy-truth/src/deploy_truth: verification.py, and the report of models.py.
pub mod Models
pub mod Capture
pub mod Plan
pub mod Trees
pub mod Transaction
pub mod Bounds
pub mod Verified
pub mod Tests
use shipcheck.Base.{
  ℕ, String, Bool, true, false, not, ◌&&◌, ◌||◌, Option, none, some, List, [], ◌∷◌, ◌++◌, map, ◌==◌,
  ◌<>◌, eqb, if◌then◌else◌, any, keep, ok, err, ◌>>=◌, ◌>>◌, raise_if,
}
use shipcheck.Base.Sort.{sort_by}
use shipcheck.Base.Texts.{le_text, contains}
use shipcheck.Json.{Value, str, dict, array}
use shipcheck.DeployTruth.Models.{
  Decision, verified, degraded, blocked, Component, is_ready, ready, Spec, Artifact, Layer, source,
  bundle, live, layer_value, same_layer, Inventory, is_blocked, Kind, match, byte_drift,
  missing_source, missing_bundle, missing_live, unexpected_source, unexpected_bundle,
  unexpected_live, kind_value, is_match, is_blocking, Difference, Report, identity, Checked,
}

-- `d[key] = value`
abbrev put : String → String → List (String × String) → List (String × String)
put k v [] = (k, v) ∷ []
put k v ((j, w) ∷ d) = if j == k then (j, v) ∷ d else (j, w) ∷ put k v d

abbrev put_all : String → List String → List (String × String) → List (String × String)
put_all name [] d = d
put_all name (path ∷ ps) d = put_all name ps (put path name d)

abbrev fill : List Component → List (String × String) → List (String × String)
fill [] d = d
fill (c ∷ cs) d = fill cs (put_all c.name c.artifacts d)

-- `ReleaseSpec.artifact_components`
unfoldable pub artifact_components : Spec → List (String × String)
artifact_components spec = fill spec.components []

-- `_index(inventory).get(path)`: the last artifact of a path
abbrev pub find_artifact : String → List Artifact → Option Artifact
find_artifact path [] = none
find_artifact path (a ∷ as') = elim (find_artifact path as') [
  | some b ↦ some b
  | none ↦ if a.path == path then some a else none
]

abbrev pub sha_of : Option Artifact → Option String
sha_of none = none
sha_of (some a) = some a.sha256

abbrev pub same_bytes : Artifact → Artifact → Bool
same_bytes a b = a.sha256 == b.sha256 && eqb a.size b.size

-- the kind of an expected path, by its artifacts in source, bundle and live
unfoldable pub kind_of : Option Artifact → Option Artifact → Option Artifact → Kind
kind_of none _ _ = missing_source
kind_of (some a) none _ = missing_bundle
kind_of (some a) (some b) none = missing_live
kind_of (some a) (some b) (some c) = if same_bytes a b && same_bytes b c then match else byte_drift

abbrev summary_of : Kind → String
summary_of missing_source = "required artifact is absent from source"
summary_of missing_bundle = "required artifact is absent from bundle"
summary_of missing_live = "required artifact is absent from live"
summary_of byte_drift = "source, bundle, and live bytes are not identical"
summary_of match = "source, bundle, and live bytes match"
summary_of unexpected_source = "unexpected artifact exists only in source inventory"
summary_of unexpected_bundle = "unexpected artifact exists only in bundle inventory"
summary_of unexpected_live = "unexpected artifact exists only in live inventory"

-- the body of the loop over the expected paths
abbrev pub compare_path : Inventory → Inventory → Inventory → String × String → Difference
compare_path s b l (path, component) =
    let sa = find_artifact path s.artifacts in
    let ba = find_artifact path b.artifacts in
    let la = find_artifact path l.artifacts in
    let kind = kind_of sa ba la in
    record {
      path = path;
      component = some component;
      kind = kind;
      source_sha256 = sha_of sa;
      bundle_sha256 = sha_of ba;
      live_sha256 = sha_of la;
      summary = summary_of kind;
    }

-- `list(set(xs))`
unfoldable pub unique : List String → List String
unique [] = []
unique (x ∷ xs) = x ∷ keep (λ y. not (y == x)) (unique xs)

abbrev pub artifact_paths : Inventory → List String
artifact_paths i = map (λ (a : Artifact). a.path) i.artifacts

-- `sorted(set(index) - set(expected))`
unfoldable pub unexpected_paths : List String → Inventory → List String
unexpected_paths expected i =
    sort_by le_text (keep (λ p. not (contains p expected)) (unique (artifact_paths i)))

abbrev unexpected_kind : Layer → Kind
unexpected_kind source = unexpected_source
unexpected_kind bundle = unexpected_bundle
unexpected_kind live = unexpected_live

-- the digest in the place of its layer
abbrev in_layer : Layer → Layer → Option String → Option String
in_layer here there sha = if same_layer here there then sha else none

-- the body of the loop over the layers
abbrev pub unexpected : Layer → List String → Inventory → List Difference
unexpected layer expected i = map difference (unexpected_paths expected i)
  where
    difference : String → Difference
    difference path =
        let sha = sha_of (find_artifact path i.artifacts) in
        record {
          path = path;
          component = none;
          kind = unexpected_kind layer;
          source_sha256 = in_layer source layer sha;
          bundle_sha256 = in_layer bundle layer sha;
          live_sha256 = in_layer live layer sha;
          summary = summary_of (unexpected_kind layer);
        }

abbrev pub by_path : String × String → String × String → Bool
by_path a b = le_text a.0 b.0

-- the differences of `verify_inventories`
unfoldable pub differences_of : Spec → Inventory → Inventory → Inventory → List Difference
differences_of spec s b l =
    let expected = artifact_components spec in
    let paths = map (λ (e : String × String). e.0) expected in
    map (compare_path s b l) (sort_by by_path expected)
    ++ (unexpected source paths s ++ (unexpected bundle paths b ++ unexpected live paths l))

-- the order of the pairs `(item.path, item.kind.value)`
abbrev pub by_place : Difference → Difference → Bool
by_place a b =
    if a.path == b.path
    then le_text (kind_value a.kind) (kind_value b.kind)
    else le_text a.path b.path

-- the decision of `TruthReport.create`
unfoldable pub decide : (any_blocked : Bool) → List Component → List Difference → Decision
decide any_blocked components differences =
    if any_blocked || any (λ (d : Difference). is_blocking d.kind) differences
    then blocked
    else if any (λ (d : Difference). not (is_match d.kind)) differences
        || any (λ (c : Component). not (is_ready c.state)) components
    then degraded
    else verified

abbrev join : List String → String
join [] = ""
join (t ∷ []) = t
join (t ∷ u ∷ ts) = t <> (", " <> join (u ∷ ts))

abbrev not_ready : List Component → List String
not_ready cs = map (λ (c : Component). c.name) (keep (λ (c : Component). not (is_ready c.state)) cs)

abbrev blocked_layers : List Inventory → List String
blocked_layers is =
    map (λ (i : Inventory). layer_value i.layer) (keep (λ (i : Inventory). is_blocked i.state) is)

abbrev when : Bool → String → List String
when b t = if b then t ∷ [] else []

-- the reasons of `TruthReport.create`
unfoldable pub reasons_of : List Inventory → List Component → List Difference → List String
reasons_of layers components differences =
    let halted = any (λ (i : Inventory). is_blocked i.state) layers in
    let incomplete = any (λ (d : Difference). is_blocking d.kind) differences in
    let drifts = any (λ (d : Difference). not (is_match d.kind)) differences in
    let unready = any (λ (c : Component). not (is_ready c.state)) components in
    when halted ("layer capture blocked: " <> join (blocked_layers layers))
    ++ (when incomplete
          "required artifact inventory is incomplete or the source baseline is invalid"
        ++ (if halted || incomplete
            then []
            else if drifts || unready
            then (when drifts "bundle/live bytes or inventories drift from source"
                ++ when unready ("components not ready: " <> join (not_ready components)))
            else "source, bundle, and live contain the exact expected artifacts and bytes" ∷ []))

module _ (sha256_json : Value → String) where
  -- `TruthReport.create`
  unfoldable pub create_report :
      Spec → Inventory → Inventory → Inventory → List Difference → Checked Report
  create_report spec s b l differences = do
    raise_if
        (not (same_layer s.layer source && (same_layer b.layer bundle && same_layer l.layer live)))
        "truth report layers are out of order"
    let ordered = sort_by by_place differences
    let layers = s ∷ b ∷ l ∷ []
    let report : Report = record {
      spec = spec;
      source_layer = s;
      bundle_layer = b;
      live_layer = l;
      differences = ordered;
      decision =
          decide (any (λ (i : Inventory). is_blocked i.state) layers) spec.components ordered;
      reasons = reasons_of layers spec.components ordered;
      evidence_sha256 = "";
    }
    ok (record report { evidence_sha256 = sha256_json (identity report) })

  -- `verify_inventories`
  unfoldable pub verify_inventories : Spec → Inventory → Inventory → Inventory → Checked Report
  verify_inventories spec s b l = create_report spec s b l (differences_of spec s b l)
