-- ===== src/Evidence.antt =====
-- The eight evidence tools packages/*/src/*/core.py: one rule engine, copied with other settings.
pub mod Packages
pub mod Total
pub mod Tests
use shipcheck.Base.{
  ℕ, String, Bool, true, false, not, ◌&&◌, Option, none, some, List, [], ◌∷◌, keep, map, ◌<>◌, ltb,
  eqb, if◌then◌else◌,
}
use shipcheck.Base.Texts.{strip, is_empty}
use shipcheck.Json.{
  Value, Fields, Items, ℤ, pos, negsuc, str, arr, obj, nil, cons, null, bool, int, float,
  find_field, is_number, dict,
}
use shipcheck.Json.Compare.{
  as_int, is_numeric, at_least_zero, is_at_least_zero, is_at_most, same_value,
}

-- The values of `kind` that the packages set. `_rule` has three more branches, for kinds that no
-- package sets.
pub data Kind : Type 0 where
  flaky tests coverage exit summary matrix readiness rollback : Kind

-- `REQUIRED_FIELDS`, `PROJECT`, `RULE` and `kind` of a package
pub record Package : Type 0 where
  pub required : List String
  pub project : String
  pub rule_text : String
  pub kind : Kind

-- an expression that may raise `KeyError`, which is `none`
infixl 5 ◌>>=◌
abbrev pub ◌>>=◌ : {A B : Type 0} → Option A → (A → Option B) → Option B
none >>= f = none
some a >>= f = f a

-- `test and rest`: the rest is evaluated only where the test holds
abbrev pub and_then : Bool → Option Bool → Option Bool
and_then test rest = if test then rest else some false

abbrev pub key : String → Fields → Option Value
key = find_field

abbrev is_int : Value → Bool
is_int v = elim (as_int v) [ none ↦ false | some z ↦ true ]

-- `v > 0`, `v == 0`, `v >= 0` and `v <= w` of ints
abbrev int_positive : ℤ → Bool
int_positive (pos n) = ltb 0 n
int_positive (negsuc n) = false

abbrev int_le : ℤ → ℤ → Bool
int_le (pos m) (pos n) = not (ltb n m)
int_le (negsuc m) (pos n) = true
int_le (pos m) (negsuc n) = false
int_le (negsuc m) (negsuc n) = not (ltb m n)

abbrev test_int : (ℤ → Bool) → Value → Bool
test_int p v = elim (as_int v) [ none ↦ false | some z ↦ p z ]

abbrev test_ints : (ℤ → ℤ → Bool) → Value → Value → Bool
test_ints p v w = test_int (λ y. test_int (p y) w) v

-- `isinstance(v, str) and bool(v.strip())`
abbrev pub is_filled_text : Value → Bool
is_filled_text (str s) = not (is_empty (strip s))
is_filled_text _ = false

-- `isinstance(v, list) and bool(v)`
abbrev pub is_filled_list : Value → Bool
is_filled_list (arr (cons v vs)) = true
is_filled_list _ = false

-- `all(p(record[k]) for k in ks)`
abbrev pub all_keys : (Value → Bool) → List String → Fields → Option Bool
all_keys p [] r = some true
all_keys p (k ∷ ks) r = let rest = all_keys p ks r in do v ← key k r; and_then (p v) rest

-- `runs > 0 and 0 <= passes <= runs`
abbrev passes_fit : ℤ → ℤ → Bool
passes_fit runs passes = int_positive runs && (at_least_zero passes && int_le passes runs)

-- `total > 0 and tested >= total`
abbrev covers : ℤ → ℤ → Bool
covers tested total = int_positive total && int_le total tested

-- `_rule`, less its constant second result. A key that an earlier test has read is bound once.
unfoldable pub rule : Kind → Fields → Option Bool
rule flaky r = do
  runs ← key "runs" r
  and_then (is_int runs) (do passes ← key "passes" r; some (test_ints passes_fit runs passes))
rule tests r = do
  failed ← key "failed" r
  and_then (is_int failed && is_number failed 0)
      (do passed ← key "passed" r; some (test_int at_least_zero passed))
rule coverage r = do
  tested ← key "tested" r
  and_then (is_int tested) (do total ← key "total" r; some (test_ints covers tested total))
rule exit r = do
  code ← key "exit_code" r
  and_then (is_number code 0)
      (do duration ← key "duration_ms" r; some (is_numeric duration && is_at_least_zero duration))
rule summary r = all_keys is_filled_text ("job" ∷ "failure" ∷ "log_excerpt" ∷ []) r
rule matrix r = all_keys is_filled_list ("python_versions" ∷ "operating_systems" ∷ []) r
rule readiness r = do
  total ← key "checks_total" r
  and_then (test_int int_positive total)
      (do passed ← key "checks_passed" r; some (same_value passed total))
rule rollback r = do
  seconds ← key "recovery_seconds" r
  and_then (is_numeric seconds && (is_at_least_zero seconds && is_at_most seconds 300)) (do
    release ← key "release" r
    target ← key "rollback_target" r
    some (not (same_value release target)))

-- `[field for field in REQUIRED_FIELDS if field not in record]`
abbrev pub has_key : Fields → String → Bool
has_key r k = elim (find_field k r) [ none ↦ false | some v ↦ true ]

abbrev pub missing : List String → Fields → List String
missing ks r = keep (λ k. not (has_key r k)) ks

-- `", ".join(texts)`
abbrev join : List String → String
join [] = ""
join (t ∷ []) = t
join (t ∷ u ∷ ts) = t <> (", " <> join (u ∷ ts))

pub data Status : Type 0 where
  passed failed blocked : Status

abbrev pub status_value : Status → String
status_value passed = "passed"
status_value failed = "failed"
status_value blocked = "blocked"

pub record Evidence : Type 0 where
  pub project : String
  pub status : Status
  pub reason : String
  pub record_of : Fields
  pub evidence_sha256 : String

module _ (sha256_json : Value → String) where
  -- the dict with its digest
  abbrev seal : Package → Fields → Status → String → Evidence
  seal p r status reason = record {
    project = p.project;
    status = status;
    reason = reason;
    record_of = r;
    evidence_sha256 = sha256_json (
        dict (
          ("project", str p.project)
          ∷ ("status", str (status_value status))
          ∷ ("reason", str reason)
          ∷ ("record", obj r)
          ∷ []));
  }

  judge : Package → Fields → List String → Option Evidence
  judge p r [] = do
    fine ← rule p.kind r
    some (seal p r (if fine then passed else failed) p.rule_text)
  judge p r (k ∷ ks) = some (seal p r blocked ("missing required fields: " <> join (k ∷ ks)))

  -- `evaluate`; `none` is a `KeyError`
  unfoldable pub evaluate : Package → Fields → Option Evidence
  unfolding judge
  evaluate p r = judge p r (missing p.required r)

-- what `main` of cli.py returns for the result
unfoldable pub exit_code : Evidence → ℕ
exit_code e = elim e.status [ passed ↦ 0 | failed ↦ 2 | blocked ↦ 2 ]
