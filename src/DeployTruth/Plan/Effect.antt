-- ===== src/DeployTruth/Plan/Effect.antt =====
-- transactions.py: what the operations of `DeploymentPlan.create` are for.
use shipcheck.Base.{
  String, ◌==◌, eq_iff, ◌≡◌, refl, ap, sym, subst, ◌∙◌, true, false, not, Bool-cases, Option, none,
  some, List, [], ◌∷◌, ◌++◌, ok, arith, ◌⊎◌, inl, inr, if◌then◌else◌,
}
use shipcheck.Base.Texts.{contains}
use shipcheck.Base.Results.{◌>>=◌, >>=-eq-ok, ok_injective}
use shipcheck.DeployTruth.Models.{Artifact}
use shipcheck.DeployTruth.{find_artifact, sha_of, same_bytes}
use shipcheck.DeployTruth.Plan.{
  OperationKind, write, delete, Operation, create_operation, write_if_changed, writes_of,
}

-- the digest at each path of a folder
abbrev pub Digests : Type 0
Digests = String → Option String

abbrev pub digests_of : List Artifact → Digests
digests_of as' p = sha_of (find_artifact p as')

abbrev target : OperationKind → Option String → Option String
target write sha = sha
target delete sha = none

-- the digests of a folder after operations
abbrev pub effect : List Operation → Digests → Digests
effect [] f = f
effect (o ∷ os) f = effect os (λ q. if o.path == q then target o.kind o.bundle_sha256 else f q)

pub effect-append :
    (xs ys : List Operation) (f : Digests) → effect (xs ++ ys) f ≡ effect ys (effect xs f)
effect-append [] ys f = refl
effect-append (o ∷ xs) ys f = effect-append xs ys _

pub create_operation-fields :
    (k : OperationKind) (p : String) (b l : Option String) (o : Operation)
    → create_operation k p b l ≡ ok o
    → o ≡ record { kind = k; path = p; bundle_sha256 = b; previous_live_sha256 = l }
unfolding create_operation
create_operation-fields k p b l o e = ground arith

-- one expected path: nothing is to be done, or the digest of the bundle is written
write_if_changed-cases :
    (p : String) (x y : Option Artifact) (os : List Operation)
    → write_if_changed p x y ≡ ok os
    → ((os ≡ []) × (sha_of y ≡ sha_of x))
      ⊎ ((f : Digests) → effect os f ≡ (λ q. if p == q then sha_of x else f q))
write_if_changed-cases p none y os e = cc
write_if_changed-cases p (some x) none os e =
    let (o, made, rest) = >>=-eq-ok (create_operation write p (some x.sha256) none) _ e in
    inr (λ f.
      subst (λ os'. effect os' f ≡ (λ q. if p == q then some x.sha256 else f q)) (ok_injective rest)
        (ap (λ (o' : Operation). effect (o' ∷ []) f)
          (create_operation-fields write p (some x.sha256) none o made)))
write_if_changed-cases p (some x) (some y) os e = elim (Bool-cases (same_bytes y x)) [
  | inl same ↦ inl (ground arith, ground (arith, eq_iff y.sha256 x.sha256))
  | inr changed ↦
      let (o, made, rest) =
        >>=-eq-ok (create_operation write p (some x.sha256) (some y.sha256)) (λ o. ok (o ∷ []))
          (subst
            (λ b.
              (if not b
                then (create_operation write p (some x.sha256) (some y.sha256) >>= λ o. ok (o ∷ []))
                else ok [])
              ≡ ok os)
            changed e) in
      inr (λ f.
        subst (λ os'. effect os' f ≡ (λ q. if p == q then some x.sha256 else f q))
          (ok_injective rest)
          (ap (λ (o' : Operation). effect (o' ∷ []) f)
            (create_operation-fields write p (some x.sha256) (some y.sha256) o made)))
]

-- the paths that are written
pub writes_of-kept :
    (b l : List Artifact) (ps : List String) (os : List Operation) (f : Digests) (q : String)
    → writes_of b l ps ≡ ok os
    → contains q ps ≡ false
    → effect os f q ≡ f q
unfolding writes_of
writes_of-kept b l [] os f q e n = ap (λ os'. effect os' f q) (sym (ok_injective e))
writes_of-kept b l (p ∷ ps) os f q e n =
    let (os1, first, e1) =
      >>=-eq-ok (write_if_changed p (find_artifact p b) (find_artifact p l)) _ e in
    let (os2, next, done) = >>=-eq-ok (writes_of b l ps) _ e1 in
    ap (λ os'. effect os' f q) (sym (ok_injective done))
    ∙ ap (λ g. g q) (effect-append os1 os2 f)
    ∙ writes_of-kept b l ps os2 (effect os1 f) q next (ground arith)
    ∙ elim (write_if_changed-cases p (find_artifact p b) (find_artifact p l) os1 first) [
      | inl same ↦ ap (λ os'. effect os' f q) same.0
      | inr sets ↦ ap (λ g. g q) (sets f) ∙ ground arith
    ]

-- a path that has the bundle's digest keeps it
writes_of-stays :
    (b l : List Artifact) (ps : List String) (os : List Operation) (f : Digests) (q : String)
    → writes_of b l ps ≡ ok os
    → f q ≡ digests_of b q
    → effect os f q ≡ digests_of b q
unfolding writes_of
writes_of-stays b l [] os f q e n = ap (λ os'. effect os' f q) (sym (ok_injective e)) ∙ n
writes_of-stays b l (p ∷ ps) os f q e n =
    let (os1, first, e1) =
      >>=-eq-ok (write_if_changed p (find_artifact p b) (find_artifact p l)) _ e in
    let (os2, next, done) = >>=-eq-ok (writes_of b l ps) _ e1 in
    ap (λ os'. effect os' f q) (sym (ok_injective done))
    ∙ ap (λ g. g q) (effect-append os1 os2 f)
    ∙ writes_of-stays b l ps os2 (effect os1 f) q next
        (elim (write_if_changed-cases p (find_artifact p b) (find_artifact p l) os1 first) [
          | inl same ↦ ap (λ os'. effect os' f q) same.0 ∙ n
          | inr sets ↦ ap (λ g. g q) (sets f) ∙ ground (arith, eq_iff p q, ap (digests_of b))
        ])

-- a path that is expected gets the bundle's digest
pub writes_of-set :
    (b l : List Artifact) (ps : List String) (os : List Operation) (f : Digests) (q : String)
    → writes_of b l ps ≡ ok os
    → contains q ps ≡ true
    → f q ≡ digests_of l q
    → effect os f q ≡ digests_of b q
unfolding writes_of
writes_of-set b l [] os f q e c n = cc
writes_of-set b l (p ∷ ps) os f q e c n =
    let (os1, first, e1) =
      >>=-eq-ok (write_if_changed p (find_artifact p b) (find_artifact p l)) _ e in
    let (os2, next, done) = >>=-eq-ok (writes_of b l ps) _ e1 in
    ap (λ os'. effect os' f q) (sym (ok_injective done))
    ∙ ap (λ g. g q) (effect-append os1 os2 f)
    ∙ elim (Bool-cases (p == q)) [
      | inl here ↦
          writes_of-stays b l ps os2 (effect os1 f) q next
            (elim (write_if_changed-cases p (find_artifact p b) (find_artifact p l) os1 first) [
              | inl same ↦
                  ap (λ os'. effect os' f q) same.0
                  ∙ n
                  ∙ ap (digests_of l) (sym ((eq_iff p q).0 here))
                  ∙ same.1
                  ∙ ap (digests_of b) ((eq_iff p q).0 here)
              | inr sets ↦
                  ap (λ g. g q) (sets f) ∙ rw here (ap (digests_of b) ((eq_iff p q).0 here))
            ])
      | inr apart ↦
          writes_of-set b l ps os2 (effect os1 f) q next (ground arith)
            (elim (write_if_changed-cases p (find_artifact p b) (find_artifact p l) os1 first) [
              | inl same ↦ ap (λ os'. effect os' f q) same.0 ∙ n
              | inr sets ↦ ap (λ g. g q) (sets f) ∙ rw apart n
            ])
    ]
