-- ===== src/MergeGate/Gate/Decides.antt =====
-- The decision of an artifact that gate.py returns.
use shipcheck.Base.{
  String, ◌≡◌, ◌≢◌, ◌↔◌, sym, ap, ◌∙◌, Bool, true, false, Option, any, if◌then◌else◌, ok, collect,
  arith,
}
use shipcheck.MergeGate.Contract.Fields.{Decision, ready, degraded, blocked, Datetime}
use shipcheck.MergeGate.Contract.Snapshot.{MergeSnapshot}
use shipcheck.MergeGate.Contract.Policy.{GatePolicy}
use shipcheck.MergeGate.Contract.Artifact.{GateArtifact, create_artifact}
use shipcheck.MergeGate.Gate.{all_checks, decide_checks, or_default, evaluate}
use shipcheck.MergeGate.Gate.Checks.{all_shapes, all_checks-shape}
use shipcheck.MergeGate.Gate.Verdict.{
  MeetsPolicy, IsFlawless, required_bad, optional_bad, required_bad-MeetsPolicy,
  optional_bad-IsFlawless, decide_checks-shape,
}

-- the three outcomes of two tests
verdict : Bool → Bool → Decision
verdict required optional = if required then blocked else if optional then degraded else ready

verdict_ready : (b c : Bool) → verdict b c ≡ ready → (b ≡ false) × (c ≡ false)
unfolding verdict
verdict_ready b c h = ground arith

verdict_of : (b c : Bool) → b ≡ false → c ≡ false → verdict b c ≡ ready
unfolding verdict
verdict_of b c h k = ground arith

verdict_open : (b c : Bool) → b ≡ false → verdict b c ≢ blocked
unfolding verdict
verdict_open b c h = ground arith

verdict-blocked : (b c : Bool) → b ≢ false → verdict b c ≡ blocked
unfolding verdict
verdict-blocked b c h = ground arith

verdict_degraded : (b c : Bool) → verdict b c ≡ degraded → (b ≡ false) × (c ≡ true)
unfolding verdict
verdict_degraded b c h = ground arith

verdict_degraded_of : (b c : Bool) → b ≡ false → c ≢ false → verdict b c ≡ degraded
unfolding verdict
verdict_degraded_of b c h k = ground arith

module _ (d : Datetime) (now : String) (s : MergeSnapshot) (policy : Option GatePolicy) where
  -- What `evaluate` returns holds the checks that were made, and their decision.
  pub evaluate-checks :
      (generated_at : Option String) {a : GateArtifact}
      → evaluate d now s policy generated_at ≡ ok a
      → (collect (all_checks s (or_default policy)) ≡ ok a.checks)
        × (a.decision ≡ decide_checks a.checks)
        × (a.snapshot ≡ s)
        × (a.policy ≡ or_default policy)
  unfolding evaluate create_artifact
  evaluate-checks generated_at {a} h = ground arith

  evaluate-verdict :
      (generated_at : Option String) {a : GateArtifact}
      → evaluate d now s policy generated_at ≡ ok a
      → a.decision
        ≡ verdict
            (any required_bad (all_shapes s (or_default policy)))
            (any optional_bad (all_shapes s (or_default policy)))
  unfolding verdict
  evaluate-verdict generated_at {a} h =
      let (made, decided, _, _) = evaluate-checks generated_at h in
      decided
      ∙ decide_checks-shape a.checks
      ∙ ap (λ shapes. verdict (any required_bad shapes) (any optional_bad shapes))
          (all_checks-shape s (or_default policy) a.checks made)

  -- An evaluation that returns is READY exactly when the snapshot meets the policy and is flawless:
  -- tests, secret scan, clean tree and optional CI count for READY also where they are not required.
  pub evaluate-ready :
      (generated_at : Option String) {a : GateArtifact}
      → evaluate d now s policy generated_at ≡ ok a
      → (a.decision ≡ ready) ↔ (MeetsPolicy s (or_default policy) × IsFlawless s)
  evaluate-ready generated_at {a} h =
      let p = or_default policy in
      let e = evaluate-verdict generated_at h in
      (
        λ r.
            let (no_required, no_optional) = verdict_ready _ _ (sym e ∙ r) in
            let met = (required_bad-MeetsPolicy s p).0 no_required in
            (met, (optional_bad-IsFlawless s p met).0 no_optional),
        λ r.
            e
            ∙ verdict_of _ _ ((required_bad-MeetsPolicy s p).1 r.0)
                ((optional_bad-IsFlawless s p r.0).1 r.1),
      )

  -- An evaluation that returns is BLOCKED exactly when the snapshot does not meet the policy, and
  -- DEGRADED exactly when it meets the policy and is not flawless.
  pub evaluate-blocked :
      (generated_at : Option String) {a : GateArtifact}
      → evaluate d now s policy generated_at ≡ ok a
      → ((a.decision ≡ blocked) ↔ (¬ MeetsPolicy s (or_default policy)))
        × ((a.decision ≡ degraded) ↔ (MeetsPolicy s (or_default policy) × (¬ IsFlawless s)))
  evaluate-blocked generated_at {a} h =
      let p = or_default policy in
      let e = evaluate-verdict generated_at h in
      (
        (
          λ b met. verdict_open _ _ ((required_bad-MeetsPolicy s p).1 met) (sym e ∙ b),
          λ unmet. e ∙ verdict-blocked _ _ (λ f. unmet ((required_bad-MeetsPolicy s p).0 f)),
        ),
        (
          λ b.
              let (no_required, bad) = verdict_degraded _ _ (sym e ∙ b) in
              let met = (required_bad-MeetsPolicy s p).0 no_required in
              (met, λ f. cc (bad, (optional_bad-IsFlawless s p met).1 f)),
          λ r.
              e
              ∙ verdict_degraded_of _ _ ((required_bad-MeetsPolicy s p).1 r.0)
                  (λ f. r.1 ((optional_bad-IsFlawless s p r.0).0 f)),
        ),
      )
