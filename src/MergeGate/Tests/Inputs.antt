-- ===== src/MergeGate/Tests/Inputs.antt =====
-- Concrete inputs: a clock, snapshots, artifacts and a disk.
use shipcheck.Base.{
  ◌≡◌, refl, sym, subst, All, String, arith, true, false, Option, none, some, List, [], ◌∷◌, ok,
  ◌==◌, if◌then◌else◌,
}
use shipcheck.Files.{Disk, Answer}
use shipcheck.Base.Texts.{strip, replace_offset, replace_char}
use shipcheck.Json.{str}
use shipcheck.MergeGate.Contract.Fields.{Datetime, success, failure, Decision, timestamp, text}
use shipcheck.MergeGate.Contract.Snapshot.{MergeSnapshot}
use shipcheck.MergeGate.Contract.Policy.{GatePolicy, default_policy}
use shipcheck.MergeGate.Contract.Artifact.{GateArtifact}
use shipcheck.MergeGate.Gate.{evaluate}
use shipcheck.MergeGate.Gate.Monotone.{IsLaxer}
use shipcheck.MergeGate.Gate.Total.{IsCheckName, evaluate-returns}
use shipcheck.MergeGate.Library.{text_dict}
use shipcheck.MergeGate.Sample.{sample}
use shipcheck.MergeGate.Transaction.{json_line}

-- a moment is its own text
abbrev pub clock : Datetime
clock = record {
  Moment = String;
  from_isoformat = λ t. some t;
  has_timezone = λ t. true;
  utc_isoformat = λ t. t;
}

abbrev pub moment : String
moment = "2026-01-01T00:00:00Z"

abbrev pub sha_a : String
sha_a = "aaaaaaaaaaaaaaaaaaaaaaaaaaaaaaaaaaaaaaaa"

abbrev pub sha_b : String
sha_b = "bbbbbbbbbbbbbbbbbbbbbbbbbbbbbbbbbbbbbbbb"

-- a snapshot without a flaw
abbrev pub sound : MergeSnapshot
sound = record {
  repository = "demo";
  expected_sha = sha_a;
  observed_sha = sha_a;
  merge_sha = sha_b;
  captured_at = moment;
  ci = ("lint", success) ∷ ("unit", success) ∷ [];
  required_ci = "unit" ∷ [];
  optional_ci = "lint" ∷ [];
  tests_complete = true;
  tests_passed = true;
  secret_scan_complete = true;
  secret_findings = [];
  clean_tree = true;
  changes = record { path = "a.py"; additions = 3; deletions = 1; binary = false } ∷ [];
}

-- the same with an unclean tree and a failed optional check
abbrev pub dirty : MergeSnapshot
dirty = record sound { ci = ("lint", failure) ∷ ("unit", success) ∷ []; clean_tree = false }

-- the policy that does not require a clean tree
abbrev pub lax : GatePolicy
lax = record default_policy { require_clean_tree = false }

abbrev pub disk : Option String → List (Answer String) → Disk String
disk content answers = record {
  file = λ p. if p == "state" then content else none;
  answers = answers;
}

pub lax-IsLaxer : IsLaxer default_policy lax
lax-IsLaxer = record {
  files = omega arith;
  lines = omega arith;
  binaries = omega arith;
  tests = λ h. h;
  secrets = λ h. h;
  tree = λ h. refl;
}

pub unit-IsCheckName : IsCheckName "unit"
unfolding strip
unit-IsCheckName = record { is_stripped = refl; fits = omega arith }

pub lint-IsCheckName : IsCheckName "lint"
unfolding strip
lint-IsCheckName = record { is_stripped = refl; fits = omega arith }

pub moment-timestamp : timestamp clock (str moment) ≡ ok "2026-01-01T00:00:00Z"
unfolding timestamp text strip replace_offset replace_char
moment-timestamp = refl

-- what the gate makes of the snapshots
pub run :
    (s : MergeSnapshot) (p : Option GatePolicy)
    → s.required_ci ≡ "unit" ∷ []
    → s.optional_ci ≡ "lint" ∷ []
    → (a : GateArtifact) × (evaluate clock moment s p none ≡ ok a)
run s p required optional =
    evaluate-returns clock moment s p none
      (subst (All IsCheckName) (sym required) (unit-IsCheckName, tt))
      (subst (All IsCheckName) (sym optional) (lint-IsCheckName, tt)) moment-timestamp

-- an artifact for the tests of the transaction
abbrev pub artifact : Decision → GateArtifact
artifact d = record {
  decision = d;
  snapshot = sound;
  policy = default_policy;
  checks = [];
  generated_at = moment;
  outputs = [];
}

-- the state before, at the observed SHA
abbrev pub state_before : String
state_before = json_line sample (text_dict (("current_sha", sha_a) ∷ []))
