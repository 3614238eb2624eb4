-- ===== src/DeployTruth/Verified.antt =====
-- What a VERIFIED report of deploy_truth means.
use shipcheck.Base.{
  String, ◌==◌, eq_iff, ◌≡◌, ◌↔◌, refl, ap, ◌∙◌, Bool, true, false, not, ◌||◌, Option, none, some,
  List, [], ◌∷◌, ◌++◌, map, keep, any, All, any-append, any-map, any-eq-false, All-imp, ok, arith,
}
use shipcheck.Base.Sort.{sort_by, any-sort_by}
use shipcheck.Base.Texts.{le_text, contains}
use shipcheck.Json.{Value}
use shipcheck.DeployTruth.Models.{
  verified, Component, is_ready, Spec, Artifact, Layer, source, bundle, live, Inventory, is_blocked,
  is_match, is_blocking, Difference, Report,
}
use shipcheck.DeployTruth.{
  artifact_components, find_artifact, kind_of, compare_path, unique, artifact_paths,
  unexpected_paths, unexpected, differences_of, by_path, by_place, decide, create_report,
  verify_inventories,
}

-- the artifact is in the three layers, with the same digest and size
abbrev pub Identical : Option Artifact → Option Artifact → Option Artifact → Type 0
Identical (some a) (some b) (some c) =
    (a.sha256 ≡ b.sha256) × (b.sha256 ≡ c.sha256) × (a.size ≡ b.size) × (b.size ≡ c.size)
Identical _ _ _ = ⊥

kind_of-Identical :
    (x y z : Option Artifact) → (not (is_match (kind_of x y z)) ≡ false) ↔ Identical x y z
unfolding kind_of
kind_of-Identical none y z = ground arith
kind_of-Identical (some a) none z = ground arith
kind_of-Identical (some a) (some b) none = ground arith
kind_of-Identical (some a) (some b) (some c) =
    ground (arith, eq_iff a.sha256 b.sha256, eq_iff b.sha256 c.sha256)

any-keep : (p : String → Bool) (xs : List String) → any (λ x. true) (keep p xs) ≡ any p xs
any-keep p [] = refl
any-keep p (x ∷ xs) = ground (arith, any-keep p xs)

-- dropping the copies of a text that passes changes nothing
any-drop :
    (p : String → Bool) (x : String) (ys : List String)
    → (p x || any p (keep (λ y. not (y == x)) ys)) ≡ (p x || any p ys)
any-drop p x [] = refl
any-drop p x (y ∷ ys) = ground (arith, any-drop p x ys, eq_iff y x, ap p)

pub any-unique : (p : String → Bool) (xs : List String) → any p (unique xs) ≡ any p xs
unfolding unique
any-unique p [] = refl
any-unique p (x ∷ xs) = any-drop p x (unique xs) ∙ ap (λ b. p x || b) (any-unique p xs)

-- an inventory has unexpected paths where some artifact has one
any-unexpected_paths :
    (expected : List String) (i : Inventory)
    → any (λ p. true) (unexpected_paths expected i)
      ≡ any (λ p. not (contains p expected)) (artifact_paths i)
unfolding unexpected_paths
any-unexpected_paths expected i =
    any-sort_by le_text (λ p. true)
      (keep (λ p. not (contains p expected)) (unique (artifact_paths i)))
    ∙ any-keep (λ p. not (contains p expected)) (unique (artifact_paths i))
    ∙ any-unique (λ p. not (contains p expected)) (artifact_paths i)

abbrev mismatch : Difference → Bool
mismatch d = not (is_match d.kind)

any-unexpected :
    (layer : Layer) (expected : List String) (i : Inventory)
    → any mismatch (unexpected layer expected i)
      ≡ any (λ p. not (contains p expected)) (artifact_paths i)
any-unexpected source expected i =
    any-map mismatch _ (unexpected_paths expected i) ∙ any-unexpected_paths expected i
any-unexpected bundle expected i =
    any-map mismatch _ (unexpected_paths expected i) ∙ any-unexpected_paths expected i
any-unexpected live expected i =
    any-map mismatch _ (unexpected_paths expected i) ∙ any-unexpected_paths expected i

is_blocking-mismatch :
    (ds : List Difference)
    → any mismatch ds ≡ false
    → any (λ (d : Difference). is_blocking d.kind) ds ≡ false
is_blocking-mismatch [] h = refl
is_blocking-mismatch (d ∷ ds) h = ground (arith, is_blocking-mismatch ds)

abbrev unready : Component → Bool
unready c = not (is_ready c.state)

decide-verified :
    (halted : Bool) (cs : List Component) (ds : List Difference)
    → (decide halted cs ds ≡ verified)
      ↔ ((halted ≡ false) × (any mismatch ds ≡ false) × (any unready cs ≡ false))
unfolding decide
decide-verified halted cs ds = ground (arith, is_blocking-mismatch ds)

module _ (spec : Spec) (s b l : Inventory) where
  abbrev expected_paths : List String
  expected_paths = map (λ (e : String × String). e.0) (artifact_components spec)

  -- the artifact of an expected path is the same in the three layers
  abbrev pub Agrees : String × String → Type 0
  Agrees e =
      Identical (find_artifact e.0 s.artifacts) (find_artifact e.0 b.artifacts)
        (find_artifact e.0 l.artifacts)

  -- every path of the layer is one that the specification names
  abbrev pub Expected : Inventory → Type 0
  Expected i = All (λ p. contains p expected_paths ≡ true) (artifact_paths i)

  any-differences : any mismatch (differences_of spec s b l) ≡ (
      any (λ e. mismatch (compare_path s b l e)) (artifact_components spec)
      || (any (λ p. not (contains p expected_paths)) (artifact_paths s)
          || (any (λ p. not (contains p expected_paths)) (artifact_paths b)
              || any (λ p. not (contains p expected_paths)) (artifact_paths l))))
  unfolding differences_of
  any-differences =
      let us = unexpected source expected_paths s in
      let ub = unexpected bundle expected_paths b in
      let ul = unexpected live expected_paths l in
      let compared = map (compare_path s b l) (sort_by by_path (artifact_components spec)) in
      ground (
        arith,
        any-append mismatch compared (us ++ (ub ++ ul)),
        any-append mismatch us (ub ++ ul),
        any-append mismatch ub ul,
        any-map mismatch (compare_path s b l) (sort_by by_path (artifact_components spec)),
        any-sort_by by_path (λ e. mismatch (compare_path s b l e)) (artifact_components spec),
        any-unexpected source expected_paths s,
        any-unexpected bundle expected_paths b,
        any-unexpected live expected_paths l,
      )

  any-Expected :
      (i : Inventory)
      → (any (λ p. not (contains p expected_paths)) (artifact_paths i) ≡ false) ↔ Expected i
  any-Expected i = (
    λ h.
        All-imp (λ p k. ground arith) (artifact_paths i)
          ((any-eq-false (λ p. not (contains p expected_paths)) (artifact_paths i)).0 h),
    λ h.
        (any-eq-false (λ p. not (contains p expected_paths)) (artifact_paths i)).1
          (All-imp (λ p k. ground arith) (artifact_paths i) h),
  )

  any-Agrees :
      (any (λ e. mismatch (compare_path s b l e)) (artifact_components spec) ≡ false)
      ↔ All Agrees (artifact_components spec)
  any-Agrees = (
    λ h.
        All-imp (λ e k. (kind_of-Identical _ _ _).0 k) (artifact_components spec)
          ((any-eq-false (λ e. mismatch (compare_path s b l e)) (artifact_components spec)).0 h),
    λ h.
        (any-eq-false (λ e. mismatch (compare_path s b l e)) (artifact_components spec)).1
          (All-imp (λ e k. (kind_of-Identical _ _ _).1 k) (artifact_components spec) h),
  )

  any-unready :
      (any unready spec.components ≡ false)
      ↔ All (λ (c : Component). is_ready c.state ≡ true) spec.components
  any-unready = (
    λ h. All-imp (λ c k. ground arith) spec.components ((any-eq-false unready spec.components).0 h),
    λ h. (any-eq-false unready spec.components).1 (All-imp (λ c k. ground arith) spec.components h),
  )

  -- A report that is created is VERIFIED exactly where the three layers were captured, every component
  -- is ready, every artifact of the specification is in the three layers with one digest and one size,
  -- and no layer has a path that the specification does not name.
  pub verify_inventories-verified :
      (sha256_json : Value → String) {r : Report}
      → verify_inventories sha256_json spec s b l ≡ ok r
      → (r.decision ≡ verified) ↔ (
          (is_blocked s.state ≡ false)
          × (is_blocked b.state ≡ false)
          × (is_blocked l.state ≡ false)
          × All (λ (c : Component). is_ready c.state ≡ true) spec.components
          × All Agrees (artifact_components spec)
          × Expected s
          × Expected b
          × Expected l)
  unfolding verify_inventories create_report
  verify_inventories-verified sha256_json {r} h = ground (
    arith,
    decide-verified (any (λ (i : Inventory). is_blocked i.state) (s ∷ b ∷ l ∷ [])) spec.components
        (sort_by by_place (differences_of spec s b l)),
    any-sort_by by_place mismatch (differences_of spec s b l),
    any-differences,
    any-Agrees,
    any-unready,
    any-Expected s,
    any-Expected b,
    any-Expected l,
  )
