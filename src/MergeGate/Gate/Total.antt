-- ===== src/MergeGate/Gate/Total.antt =====
-- When gate.py returns an artifact, and when it raises.
use Prim.Native.String.{count}
use shipcheck.Base.{
  ◌≤◌, ◌<◌, String, ◌≡◌, ◌≢◌, refl, subst, Bool, true, false, Option, List, [], ◌∷◌, ◌++◌, map,
  ◌&&◌, any, All, All-append, All-map, All-imp, All-split, All-map_conv, >>=-eq-ok, if◌then◌else◌,
  ok, collect, ◌<>◌, arith,
}
use shipcheck.Base.Texts.{strip}
use shipcheck.Base.Texts.Strip.{append-ci, count-ci, strip-ci}
use shipcheck.Json.{Value, str}
use shipcheck.MergeGate.Errors.{Checked}
use shipcheck.MergeGate.Contract.Fields.{
  CheckState, success, failure, pending, missing, is_success, is_ready, state_value, text, Datetime,
  timestamp,
}
use shipcheck.MergeGate.Contract.Snapshot.{MergeSnapshot}
use shipcheck.MergeGate.Contract.Policy.{GatePolicy}
use shipcheck.MergeGate.Contract.Artifact.{
  Check, create_check, required_failure, GateArtifact, create_artifact,
}
use shipcheck.MergeGate.Gate.{
  add, observed_state, decide_checks, outputs_of, or_now, ci_check, limit_check, sha_check,
  policy_checks, all_checks, or_default, evaluate,
}
use shipcheck.MergeGate.Gate.Decides.{evaluate-checks}

-- the construction of a check returns
abbrev Builds : Checked Check → Type 0
Builds m = (c : Check) × (m ≡ ok c)

create_check-Builds :
    (name : String) (state : CheckState) (required : Bool) (message : String)
    (evidence : List (String × Value)) (n m : String)
    → text (str name) "check.name" ≡ ok n
    → text (str message) "check.message" ≡ ok m
    → Builds (create_check name state required message evidence)
unfolding create_check
create_check-Builds name state required message evidence n m hn hm = (
  record { name = n; state = state; required = required; message = m; evidence = evidence },
  ground arith,
)

-- A name that `_text` returns, and that leaves room for the prefix.
pub record IsCheckName (name : String) : Type 0 where
  pub is_stripped : strip name ≡ name
  pub fits : count name ≤ 4093

text-ci :
    (name : String)
    → IsCheckName name
    → text (str ("ci:" <> name)) "check.name" ≡ ok ("ci:" <> name)
unfolding text
text-ci name h =
    rw (strip-ci name h.is_stripped, append-ci name)
      (rw (← append-ci name) (ground (arith, count-ci name, h.fits)))

add-Builds :
    (name : String) (passed required : Bool) (passing failing : String)
    (evidence : List (String × Value))
    → text (str name) "check.name" ≡ ok name
    → text (str passing) "check.message" ≡ ok passing
    → text (str failing) "check.message" ≡ ok failing
    → Builds (add name passed required passing failing evidence)
unfolding add
add-Builds name true required passing failing evidence hn hp hf =
    create_check-Builds name success required passing evidence name passing hn hp
add-Builds name false required passing failing evidence hn hp hf =
    create_check-Builds name failure required failing evidence name failing hn hf

sha_check-Builds : (s : MergeSnapshot) → Builds (sha_check s)
unfolding sha_check text
sha_check-Builds s = add-Builds _ _ _ _ _ _ refl refl refl

policy_checks-Builds : (s : MergeSnapshot) (p : GatePolicy) → All Builds (policy_checks s p)
unfolding policy_checks limit_check text
policy_checks-Builds s p = (
  add-Builds _ _ _ _ _ _ refl refl refl,
  (
    add-Builds _ _ _ _ _ _ refl refl refl,
    (
      add-Builds _ _ _ _ _ _ refl refl refl,
      (
        add-Builds _ _ _ _ _ _ refl refl refl,
        (add-Builds _ _ _ _ _ _ refl refl refl, (add-Builds _ _ _ _ _ _ refl refl refl, tt)),
      ),
    ),
  ),
)

-- the message of a CI check
abbrev ci_message : String → CheckState → String
ci_message label state =
    if is_success state
    then label <> " CI check succeeded."
    else label <> " CI check is " <> state_value state <> "."

required_message :
    (state : CheckState)
    → text (str (ci_message "Required" state)) "check.message" ≡ ok (ci_message "Required" state)
unfolding text
required_message success = refl
required_message failure = refl
required_message pending = refl
required_message missing = refl

optional_message :
    (state : CheckState)
    → text (str (ci_message "Optional" state)) "check.message" ≡ ok (ci_message "Optional" state)
unfolding text
optional_message success = refl
optional_message failure = refl
optional_message pending = refl
optional_message missing = refl

ci_required-Builds :
    (s : MergeSnapshot) (name : String)
    → IsCheckName name
    → Builds (ci_check s true "Required" name)
unfolding ci_check
ci_required-Builds s name h =
    create_check-Builds _ _ _ _ _ _ _ (text-ci name h) (required_message (observed_state s name))

ci_optional-Builds :
    (s : MergeSnapshot) (name : String)
    → IsCheckName name
    → Builds (ci_check s false "Optional" name)
unfolding ci_check
ci_optional-Builds s name h =
    create_check-Builds _ _ _ _ _ _ _ (text-ci name h) (optional_message (observed_state s name))

all_checks-Builds :
    (s : MergeSnapshot) (p : GatePolicy)
    → All IsCheckName s.required_ci
    → All IsCheckName s.optional_ci
    → All Builds (all_checks s p)
unfolding all_checks
all_checks-Builds s p hr ho = (
  sha_check-Builds s,
  All-append Builds (map (ci_check s true "Required") s.required_ci) _
      (All-map Builds (ci_check s true "Required") s.required_ci
        (All-imp (ci_required-Builds s) s.required_ci hr))
      (All-append Builds (map (ci_check s false "Optional") s.optional_ci) _
        (All-map Builds (ci_check s false "Optional") s.optional_ci
          (All-imp (ci_optional-Builds s) s.optional_ci ho))
        (policy_checks-Builds s p)),
)

collect-Builds :
    (ms : List (Checked Check)) → All Builds ms → (cs : List Check) × (collect ms ≡ ok cs)
collect-Builds [] h = ([], refl)
collect-Builds (m ∷ ms) ((c, hc), rest) =
    let (cs, hcs) = collect-Builds ms rest in (c ∷ cs, rw (hc, hcs))

-- READY is decided only where no required check fails, so the artifact's own test never raises.
ready_guard : (cs : List Check) → (is_ready (decide_checks cs) && any required_failure cs) ≡ false
unfolding decide_checks
ready_guard cs = ground arith

-- `evaluate` returns an artifact whenever the names of the CI checks are stripped and have at most
-- 4093 characters, and the time of generation is accepted.
pub evaluate-returns :
    (d : Datetime) (now : String) (s : MergeSnapshot) (policy : Option GatePolicy)
    (generated_at : Option String) {t : String}
    → All IsCheckName s.required_ci
    → All IsCheckName s.optional_ci
    → timestamp d (str (or_now generated_at now)) ≡ ok t
    → (a : GateArtifact) × (evaluate d now s policy generated_at ≡ ok a)
unfolding evaluate create_artifact
evaluate-returns d now s policy generated_at {t} hr ho ht =
    let (cs, hcs) =
      collect-Builds (all_checks s (or_default policy))
        (all_checks-Builds s (or_default policy) hr ho) in
    (
      record {
        decision = decide_checks cs;
        snapshot = s;
        policy = or_default policy;
        checks = cs;
        generated_at = t;
        outputs = outputs_of cs;
      },
      rw (hcs, ht, ready_guard cs),
    )

Builds-collect : (ms : List (Checked Check)) (cs : List Check) → collect ms ≡ ok cs → All Builds ms
Builds-collect [] cs h = tt
Builds-collect (m ∷ ms) cs h =
    let (c, hc, rest) = >>=-eq-ok m _ h in
    let (ds, hds, done) = >>=-eq-ok (collect ms) _ rest in ((c, hc), Builds-collect ms ds hds)

-- a stripped name that the prefix makes too long
text-ci_long :
    (name : String) {r : String}
    → strip name ≡ name
    → 4093 < count name
    → text (str ("ci:" <> name)) "check.name" ≢ ok r
unfolding text
text-ci_long name h long e = absurd (ground (arith, rw (strip-ci name h) at e, count-ci name, long))

create_check-name :
    (name : String) (state : CheckState) (required : Bool) (message : String)
    (evidence : List (String × Value))
    → Builds (create_check name state required message evidence)
    → (n : String) × (text (str name) "check.name" ≡ ok n)
unfolding create_check
create_check-name name state required message evidence (c, h) =
    let (n, hn, _) = >>=-eq-ok (text (str name) "check.name") _ h in (n, hn)

ci_check-name :
    (s : MergeSnapshot) (name : String)
    → Builds (ci_check s true "Required" name)
    → (n : String) × (text (str ("ci:" <> name)) "check.name" ≡ ok n)
unfolding ci_check
ci_check-name s name b = create_check-name _ _ _ _ _ b

required_built :
    (s : MergeSnapshot) (p : GatePolicy)
    → All Builds (all_checks s p)
    → All (λ n. Builds (ci_check s true "Required" n)) s.required_ci
unfolding all_checks
required_built s p built =
    All-map_conv Builds (ci_check s true "Required") s.required_ci
      (All-split Builds (map (ci_check s true "Required") s.required_ci) _ built.1).0

-- A stripped name of a required CI check that has more than 4093 characters, which a snapshot may
-- hold, makes `evaluate` raise instead of deciding.
pub evaluate-long_name :
    (d : Datetime) (now : String) (s : MergeSnapshot) (policy : Option GatePolicy)
    (generated_at : Option String) (before after : List String) (name : String)
    → s.required_ci ≡ before ++ name ∷ after
    → strip name ≡ name
    → 4093 < count name
    → (a : GateArtifact) → evaluate d now s policy generated_at ≢ ok a
evaluate-long_name d now s policy generated_at before after name e h long a returned =
    let (made, _, _, _) = evaluate-checks d now s policy generated_at returned in
    let built = Builds-collect (all_checks s (or_default policy)) a.checks made in
    let names = required_built s (or_default policy) built in
    let (_, found) =
      All-split (λ n. Builds (ci_check s true "Required" n)) before (name ∷ after)
        (subst (All (λ n. Builds (ci_check s true "Required" n))) e names) in
    text-ci_long name h long (ci_check-name s name found.0).1
