-- ===== src/MergeGate/Gate/Checks.antt =====
-- The states of the checks that gate.py makes, and which of them are required.
use shipcheck.Base.{
  ℕ, String, ◌≡◌, Bool, true, false, ◌&&◌, List, [], ◌∷◌, ◌++◌, map, ◌==◌, length, leb, eqb,
  if◌then◌else◌, ok, collect, arith, Gives, AllGive, AllGive-append, AllGive-map, collect-AllGive,
}
use shipcheck.Json.{Value}
use shipcheck.MergeGate.Contract.Fields.{CheckState, success, failure}
use shipcheck.MergeGate.Contract.Snapshot.{
  MergeSnapshot, inventory_files, inventory_lines, inventory_binaries,
}
use shipcheck.MergeGate.Contract.Policy.{GatePolicy}
use shipcheck.MergeGate.Contract.Artifact.{Check, create_check}
use shipcheck.MergeGate.Gate.{
  add, sha_check, observed_state, ci_check, limit_check, policy_checks, all_checks,
}

abbrev pub Shape : Type 0
Shape = CheckState × Bool

abbrev pub shape : Check → Shape
shape c = (c.state, c.required)

abbrev pub graded : Bool → CheckState
graded b = if b then success else failure

create_check-shape :
    (name : String) (state : CheckState) (required : Bool) (message : String)
    (evidence : List (String × Value))
    → Gives shape (create_check name state required message evidence) (state, required)
unfolding create_check
create_check-shape name state required message evidence c h = ground arith

add-shape :
    (name : String) (passed required : Bool) (passing failing : String)
    (evidence : List (String × Value))
    → Gives shape (add name passed required passing failing evidence) (graded passed, required)
unfolding add
add-shape name passed required passing failing evidence =
    create_check-shape name (graded passed) required _ evidence

limit_check-shape :
    (name : String) (observed maximum : ℕ) (label : String)
    → Gives shape (limit_check name observed maximum label) (graded (leb observed maximum), true)
unfolding limit_check
limit_check-shape name observed maximum label = add-shape name (leb observed maximum) true _ _ _

ci_check-shape :
    (s : MergeSnapshot) (required : Bool) (label name : String)
    → Gives shape (ci_check s required label name) (observed_state s name, required)
unfolding ci_check
ci_check-shape s required label name = create_check-shape _ (observed_state s name) required _ _

abbrev pub ci_shapes : MergeSnapshot → Bool → List String → List Shape
ci_shapes s required = map (λ name. (observed_state s name, required))

-- What gate.py checks of a snapshot, in its order: the outcome of each check, and whether it is
-- required.
abbrev pub policy_shapes : MergeSnapshot → GatePolicy → List Shape
policy_shapes s p =
    (graded (s.tests_complete && s.tests_passed), p.require_tests)
    ∷ (graded (s.secret_scan_complete && eqb (length s.secret_findings) 0), p.require_secret_scan)
    ∷ (graded s.clean_tree, p.require_clean_tree)
    ∷ (graded (leb (inventory_files s) p.max_changed_files), true)
    ∷ (graded (leb (inventory_lines s) p.max_changed_lines), true)
    ∷ (graded (leb (inventory_binaries s) p.max_binary_files), true)
    ∷ []

policy_checks-shape :
    (s : MergeSnapshot) (p : GatePolicy) → AllGive shape (policy_checks s p) (policy_shapes s p)
unfolding policy_checks
policy_checks-shape s p = (
  add-shape _ _ _ _ _ _,
  (
    add-shape _ _ _ _ _ _,
    (
      add-shape _ _ _ _ _ _,
      (limit_check-shape _ _ _ _, (limit_check-shape _ _ _ _, (limit_check-shape _ _ _ _, tt))),
    ),
  ),
)

abbrev pub all_shapes : MergeSnapshot → GatePolicy → List Shape
all_shapes s p =
    (graded (s.expected_sha == s.observed_sha), true) ∷ ci_shapes s true s.required_ci
    ++ (ci_shapes s false s.optional_ci ++ policy_shapes s p)

-- The checks of a snapshot whose construction returns are these.
pub all_checks-shape :
    (s : MergeSnapshot) (p : GatePolicy) (cs : List Check)
    → collect (all_checks s p) ≡ ok cs
    → map shape cs ≡ all_shapes s p
unfolding all_checks sha_check
all_checks-shape s p cs = collect-AllGive shape (all_checks s p) (all_shapes s p) cs (
  add-shape _ _ _ _ _ _,
  AllGive-append shape (map (ci_check s true "Required") s.required_ci) _ _ _
      (AllGive-map shape _ _ (ci_check-shape s true "Required") s.required_ci)
      (AllGive-append shape (map (ci_check s false "Optional") s.optional_ci) _ _ _
        (AllGive-map shape _ _ (ci_check-shape s false "Optional") s.optional_ci)
        (policy_checks-shape s p)),
)
