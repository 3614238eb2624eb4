-- ===== src/MergeGate/Gate/Verdict.antt =====
-- What the decision of gate.py means, stated of the snapshot and the policy alone.
use shipcheck.Base.{
  ◌≤◌, String, ◌≡◌, ◌↔◌, refl, Bool, true, false, not, ◌&&◌, ◌||◌, some, List, [], ◌∷◌, map, ◌==◌,
  eq_iff, any, All, any-map, any-append, if◌then◌else◌, arith,
}
use shipcheck.MergeGate.Contract.Fields.{success, is_success, ready, degraded, blocked}
use shipcheck.MergeGate.Contract.Snapshot.{
  MergeSnapshot, state_of, inventory_files, inventory_lines, inventory_binaries,
}
use shipcheck.MergeGate.Contract.Policy.{GatePolicy}
use shipcheck.MergeGate.Contract.Artifact.{Check}
use shipcheck.MergeGate.Gate.{observed_state, decide_checks}
use shipcheck.MergeGate.Gate.Checks.{Shape, shape, ci_shapes, policy_shapes, all_shapes}

-- the check of this name was seen, and succeeded
abbrev pub Succeeded : MergeSnapshot → String → Type 0
Succeeded s name = state_of name s.ci ≡ some success

-- What the policy demands of a snapshot.
pub record MeetsPolicy (s : MergeSnapshot) (p : GatePolicy) : Type 0 where
  pub sha : s.expected_sha ≡ s.observed_sha
  pub ci : All (Succeeded s) s.required_ci
  pub tests : p.require_tests ≡ true → (s.tests_complete ≡ true) × (s.tests_passed ≡ true)
  pub secrets :
      p.require_secret_scan ≡ true → (s.secret_scan_complete ≡ true) × (s.secret_findings ≡ [])
  pub tree : p.require_clean_tree ≡ true → s.clean_tree ≡ true
  pub files : inventory_files s ≤ p.max_changed_files
  pub lines : inventory_lines s ≤ p.max_changed_lines
  pub binaries : inventory_binaries s ≤ p.max_binary_files

-- What holds of a snapshot with no flaw, whatever the policy makes optional.
pub record IsFlawless (s : MergeSnapshot) : Type 0 where
  pub ci : All (Succeeded s) s.optional_ci
  pub tests_complete : s.tests_complete ≡ true
  pub tests_passed : s.tests_passed ≡ true
  pub scan_complete : s.secret_scan_complete ≡ true
  pub no_findings : s.secret_findings ≡ []
  pub clean_tree : s.clean_tree ≡ true

abbrev pub required_bad : Shape → Bool
required_bad (state, required) = required && not (is_success state)

abbrev pub optional_bad : Shape → Bool
optional_bad (state, required) = not required && not (is_success state)

observed_state-success :
    (s : MergeSnapshot) (name : String)
    → (not (is_success (observed_state s name)) ≡ false) ↔ Succeeded s name
observed_state-success s name = ground arith

ci_required :
    (s : MergeSnapshot) (names : List String)
    → (any required_bad (ci_shapes s true names) ≡ false) ↔ All (Succeeded s) names
ci_required s [] = (λ h. tt, λ h. refl)
ci_required s (name ∷ names) = ground (arith, observed_state-success s name, ci_required s names)

ci_not_required :
    (s : MergeSnapshot) (names : List String) → any required_bad (ci_shapes s false names) ≡ false
ci_not_required s [] = refl
ci_not_required s (name ∷ names) = ci_not_required s names

ci_optional :
    (s : MergeSnapshot) (names : List String)
    → (any optional_bad (ci_shapes s false names) ≡ false) ↔ All (Succeeded s) names
ci_optional s [] = (λ h. tt, λ h. refl)
ci_optional s (name ∷ names) = ground (arith, observed_state-success s name, ci_optional s names)

ci_not_optional :
    (s : MergeSnapshot) (names : List String) → any optional_bad (ci_shapes s true names) ≡ false
ci_not_optional s [] = refl
ci_not_optional s (name ∷ names) = ci_not_optional s names

-- what the checks that follow those of the CI names demand
record MeetsLimits (s : MergeSnapshot) (p : GatePolicy) : Type 0 where
  tests : p.require_tests ≡ true → (s.tests_complete ≡ true) × (s.tests_passed ≡ true)
  secrets :
      p.require_secret_scan ≡ true → (s.secret_scan_complete ≡ true) × (s.secret_findings ≡ [])
  tree : p.require_clean_tree ≡ true → s.clean_tree ≡ true
  files : inventory_files s ≤ p.max_changed_files
  lines : inventory_lines s ≤ p.max_changed_lines
  binaries : inventory_binaries s ≤ p.max_binary_files

policy_required :
    (s : MergeSnapshot) (p : GatePolicy)
    → any required_bad (policy_shapes s p) ≡ false
    → MeetsLimits s p
policy_required s p h = ground arith

policy_required_conv :
    (s : MergeSnapshot) (p : GatePolicy)
    → MeetsLimits s p
    → any required_bad (policy_shapes s p) ≡ false
policy_required_conv s p h = ground arith

required_bad-all :
    (s : MergeSnapshot) (p : GatePolicy)
    → any required_bad (all_shapes s p) ≡ (
        not (s.expected_sha == s.observed_sha)
        || (any required_bad (ci_shapes s true s.required_ci)
            || any required_bad (policy_shapes s p)))
required_bad-all s p = rw (any-append, any-append, ci_not_required s s.optional_ci) (ground arith)

optional_bad-all :
    (s : MergeSnapshot) (p : GatePolicy)
    → any optional_bad (all_shapes s p)
      ≡ (any optional_bad (ci_shapes s false s.optional_ci) || any optional_bad (policy_shapes s p))
optional_bad-all s p = rw (any-append, any-append, ci_not_optional s s.required_ci) (ground arith)

same_sha : (a b : String) → not (a == b) ≡ false → a ≡ b
same_sha a b h = ground (arith, eq_iff a b)

or_false : (a b : Bool) → (a || b) ≡ false → (a ≡ false) × (b ≡ false)
or_false a b h = ground arith

-- No required check fails exactly when the snapshot meets the policy.
pub required_bad-MeetsPolicy :
    (s : MergeSnapshot) (p : GatePolicy)
    → (any required_bad (all_shapes s p) ≡ false) ↔ MeetsPolicy s p
required_bad-MeetsPolicy s p = rw required_bad-all (
  λ h.
      let (sha_ok, rest) = or_false _ _ h in
      let (ci_ok, others) = or_false _ _ rest in
      let m = policy_required s p others in
      record {
        sha = same_sha s.expected_sha s.observed_sha sha_ok;
        ci = (ci_required s s.required_ci).0 ci_ok;
        tests = m.tests;
        secrets = m.secrets;
        tree = m.tree;
        files = m.files;
        lines = m.lines;
        binaries = m.binaries;
      },
  λ m.
      rw ((eq_iff s.expected_sha s.observed_sha).1 m.sha, (ci_required s s.required_ci).1 m.ci)
        (policy_required_conv s p (record {
          tests = m.tests;
          secrets = m.secrets;
          tree = m.tree;
          files = m.files;
          lines = m.lines;
          binaries = m.binaries;
        })),
)

policy_optional :
    (s : MergeSnapshot) (p : GatePolicy)
    → any required_bad (policy_shapes s p) ≡ false
    → any optional_bad (policy_shapes s p) ≡ false
    → (s.tests_complete ≡ true)
      × (s.tests_passed ≡ true)
      × (s.secret_scan_complete ≡ true)
      × (s.secret_findings ≡ [])
      × (s.clean_tree ≡ true)
policy_optional s p h k = ground arith

policy_optional_conv :
    (s : MergeSnapshot) (p : GatePolicy)
    → IsFlawless s
    → any optional_bad (policy_shapes s p) ≡ false
policy_optional_conv s p h = ground arith

policy_bad :
    (s : MergeSnapshot) (p : GatePolicy)
    → any required_bad (all_shapes s p) ≡ false
    → any required_bad (policy_shapes s p) ≡ false
policy_bad s p h = (or_false _ _ ((or_false _ _ (rw required_bad-all at h)).1)).1

pub optional_bad-IsFlawless :
    (s : MergeSnapshot) (p : GatePolicy)
    → MeetsPolicy s p
    → (any optional_bad (all_shapes s p) ≡ false) ↔ IsFlawless s
optional_bad-IsFlawless s p m = rw optional_bad-all (
  λ h.
      let (ci_ok, others) = or_false _ _ h in
      let met = (required_bad-MeetsPolicy s p).1 m in
      let (tests, passed, scan, none_found, tree) =
        policy_optional s p (policy_bad s p met) others in
      record {
        ci = (ci_optional s s.optional_ci).0 ci_ok;
        tests_complete = tests;
        tests_passed = passed;
        scan_complete = scan;
        no_findings = none_found;
        clean_tree = tree;
      },
  λ f. rw ((ci_optional s s.optional_ci).1 f.ci) (policy_optional_conv s p f),
)

-- the decision of a list of checks, by their shapes
pub decide_checks-shape :
    (cs : List Check)
    → decide_checks cs ≡ (
        if any required_bad (map shape cs)
        then blocked
        else if any optional_bad (map shape cs)
        then degraded
        else ready)
unfolding decide_checks
decide_checks-shape cs = rw (any-map required_bad shape cs, any-map optional_bad shape cs)
