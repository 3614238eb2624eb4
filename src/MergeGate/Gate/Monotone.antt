-- ===== src/MergeGate/Gate/Monotone.antt =====
-- A laxer policy never turns a decision of gate.py for the worse.
use shipcheck.Base.{◌≤◌, String, ◌≡◌, true, Option, ok, arith}
use shipcheck.MergeGate.Contract.Fields.{ready, blocked, Datetime}
use shipcheck.MergeGate.Contract.Snapshot.{MergeSnapshot}
use shipcheck.MergeGate.Contract.Policy.{GatePolicy}
use shipcheck.MergeGate.Contract.Artifact.{GateArtifact}
use shipcheck.MergeGate.Gate.{or_default, evaluate}
use shipcheck.MergeGate.Gate.Verdict.{MeetsPolicy}
use shipcheck.MergeGate.Gate.Decides.{evaluate-ready, evaluate-blocked}

-- every limit of `q` is at least that of `p`, and `q` requires nothing that `p` does not
pub record IsLaxer (p q : GatePolicy) : Type 0 where
  pub files : p.max_changed_files ≤ q.max_changed_files
  pub lines : p.max_changed_lines ≤ q.max_changed_lines
  pub binaries : p.max_binary_files ≤ q.max_binary_files
  pub tests : q.require_tests ≡ true → p.require_tests ≡ true
  pub secrets : q.require_secret_scan ≡ true → p.require_secret_scan ≡ true
  pub tree : q.require_clean_tree ≡ true → p.require_clean_tree ≡ true

MeetsPolicy-IsLaxer :
    (s : MergeSnapshot) (p q : GatePolicy) → IsLaxer p q → MeetsPolicy s p → MeetsPolicy s q
MeetsPolicy-IsLaxer s p q l m = record {
  sha = m.sha;
  ci = m.ci;
  tests = λ h. m.tests (l.tests h);
  secrets = λ h. m.secrets (l.secrets h);
  tree = λ h. m.tree (l.tree h);
  files = omega arith;
  lines = omega arith;
  binaries = omega arith;
}

-- READY under a policy stays READY under a laxer one, and what a laxer policy blocks the stricter
-- one blocks too.
pub evaluate-IsLaxer :
    (d : Datetime) (now : String) (s : MergeSnapshot) (p q : Option GatePolicy)
    (generated_at : Option String) {a b : GateArtifact}
    → IsLaxer (or_default p) (or_default q)
    → evaluate d now s p generated_at ≡ ok a
    → evaluate d now s q generated_at ≡ ok b
    → (a.decision ≡ ready → b.decision ≡ ready) × (b.decision ≡ blocked → a.decision ≡ blocked)
evaluate-IsLaxer d now s p q generated_at l ha hb = (
  λ r.
      let (met, flawless) = (evaluate-ready d now s p generated_at ha).0 r in
      (evaluate-ready d now s q generated_at hb).1
        (MeetsPolicy-IsLaxer s (or_default p) (or_default q) l met, flawless),
  λ r. (evaluate-blocked d now s p generated_at ha).0.1 (λ met.
      (evaluate-blocked d now s q generated_at hb).0.0 r
        (MeetsPolicy-IsLaxer s (or_default p) (or_default q) l met)),
)
