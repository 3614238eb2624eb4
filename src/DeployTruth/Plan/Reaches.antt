-- ===== src/DeployTruth/Plan/Reaches.antt =====
-- transactions.py: the operations of a plan turn the live digests into those of the bundle.
use shipcheck.Base.{
  String, ◌==◌, eq_iff, ◌≡◌, refl, ap, sym, ◌∙◌, Bool, true, false, not, ◌||◌, ◌&&◌, Bool-cases,
  none, List, [], ◌∷◌, map, keep, all, ok, arith, inl, inr, if◌then◌else◌, each, raise_if,
}
use shipcheck.Base.Sort.{sort_by, any-sort_by}
use shipcheck.Base.Texts.{le_text, contains}
use shipcheck.Base.Results.{>>=-eq-ok, ok_injective, each-cons}
use shipcheck.DeployTruth.Models.{Artifact, Inventory, is_blocked, Spec}
use shipcheck.DeployTruth.{unique, artifact_paths}
use shipcheck.DeployTruth.Verified.{any-unique}
use shipcheck.DeployTruth.Capture.{Hashing}
use shipcheck.DeployTruth.Plan.{
  delete, Operation, writes_of, delete_of, same_set, expected_paths, plan_operations, create_plan,
  DeploymentPlan,
}
use shipcheck.DeployTruth.Plan.Effect.{
  Digests, digests_of, effect, effect-append, create_operation-fields, writes_of-kept,
  writes_of-set,
}

-- the paths that are deleted, and the others
deletes-effect :
    (l : List Artifact) (ps : List String) (os : List Operation) (f : Digests) (q : String)
    → each (delete_of l) ps ≡ ok os
    → effect os f q ≡ (if contains q ps then none else f q)
deletes-effect l [] os f q e = ap (λ os'. effect os' f q) (sym (ok_injective e))
deletes-effect l (p ∷ ps) os f q e =
    let (o, os', made, rest, shape) = each-cons (delete_of l) p ps e in
    ap (λ r. effect r f q) shape
    ∙ ap (λ (o' : Operation). effect (o' ∷ os') f q)
        (create_operation-fields delete p none _ o made)
    ∙ deletes-effect l ps os' (λ r. if p == r then none else f r) q rest
    ∙ ground arith

contains-keep :
    (test : String → Bool) (q : String) (xs : List String)
    → contains q (keep test xs) ≡ (contains q xs && test q)
contains-keep test q [] = refl
contains-keep test q (x ∷ xs) = ground (arith, contains-keep test q xs, eq_iff x q, ap test)

-- a path that no artifact has
absent :
    (as' : List Artifact) (q : String)
    → contains q (map (λ (a : Artifact). a.path) as') ≡ false
    → digests_of as' q ≡ none
absent [] q e = refl
absent (a ∷ as') q e = ground (arith, absent as' q)

within :
    (xs ys : List String) (q : String)
    → all (λ x. contains x ys) xs ≡ true
    → contains q ys ≡ false
    → contains q xs ≡ false
within [] ys q h e = refl
within (x ∷ xs) ys q h e = ground (arith, within xs ys q, eq_iff x q, ap (λ r. contains r ys))

-- the paths that the loop over the live tree deletes
abbrev surplus : List String → Inventory → List String
surplus expected live =
    sort_by le_text (keep (λ p. not (contains p expected)) (unique (artifact_paths live)))

contains-surplus :
    (expected : List String) (live : Inventory) (q : String)
    → contains q (surplus expected live)
      ≡ (contains q (artifact_paths live) && not (contains q expected))
contains-surplus expected live q =
    any-sort_by le_text (λ x. x == q)
      (keep (λ p. not (contains p expected)) (unique (artifact_paths live)))
    ∙ contains-keep (λ p. not (contains p expected)) q (unique (artifact_paths live))
    ∙ ap (λ b. b && not (contains q expected)) (any-unique (λ x. x == q) (artifact_paths live))

plan_operations-reach :
    (expected : List String) (bundle live : Inventory) (os : List Operation) (q : String)
    → all (λ x. contains x expected) (artifact_paths bundle) ≡ true
    → plan_operations expected bundle live ≡ ok os
    → effect os (digests_of live.artifacts) q ≡ digests_of bundle.artifacts q
unfolding plan_operations
plan_operations-reach expected bundle live os q inside e =
    let (ws, written, e1) =
      >>=-eq-ok (writes_of bundle.artifacts live.artifacts (sort_by le_text expected)) _ e in
    let (ds, deleted, done) =
      >>=-eq-ok (each (delete_of live.artifacts) (surplus expected live)) _ e1 in
    let f = digests_of live.artifacts in
    ap (λ r. effect r f q) (sym (ok_injective done))
    ∙ ap (λ g. g q) (effect-append ws ds f)
    ∙ deletes-effect live.artifacts (surplus expected live) ds (effect ws f) q deleted
    ∙ ap (λ (b : Bool). if b then none else effect ws f q) (contains-surplus expected live q)
    ∙ elim (Bool-cases (contains q expected)) [
      | inl wanted ↦
          ap (λ b. if (contains q (artifact_paths live) && not b) then none else effect ws f q)
            wanted
          ∙ ground (
            arith,
            writes_of-set bundle.artifacts live.artifacts (sort_by le_text expected) ws f q written
                (any-sort_by le_text (λ x. x == q) expected ∙ wanted) refl,
          )
      | inr other ↦
          ap (λ b. if (contains q (artifact_paths live) && not b) then none else effect ws f q)
            other
          ∙ ground (
            arith,
            writes_of-kept bundle.artifacts live.artifacts (sort_by le_text expected) ws f q written
                (any-sort_by le_text (λ x. x == q) expected ∙ other),
            absent live.artifacts q,
            absent bundle.artifacts q (within (artifact_paths bundle) expected q inside other),
          )
    ]

-- Where `DeploymentPlan.create` returns a plan, its operations, carried out in order on the digests
-- of the live paths, give every path the digest that it has in the bundle, or none where the bundle
-- has no artifact there.
pub create_plan-reaches :
    (h : Hashing) (spec : Spec) (bundle live : Inventory) (plan : DeploymentPlan) (path : String)
    → create_plan h spec bundle live ≡ ok plan
    → effect plan.operations (digests_of live.artifacts) path ≡ digests_of bundle.artifacts path
unfolding create_plan
create_plan-reaches h spec bundle live plan path e =
    let (_, _, e1) =
      >>=-eq-ok (raise_if (is_blocked bundle.state || is_blocked live.state) _) _ e in
    let (_, same, e2) =
      >>=-eq-ok
        (raise_if (not (same_set (artifact_paths bundle) (expected_paths spec)))
          "bundle must contain exactly the release spec artifacts before planning")
        _ e1 in
    let (os, planned, done) = >>=-eq-ok (plan_operations (expected_paths spec) bundle live) _ e2 in
    ap (λ (p : DeploymentPlan). effect p.operations (digests_of live.artifacts) path)
      (sym (ok_injective done))
    ∙ plan_operations-reach (expected_paths spec) bundle live os path (ground arith) planned
