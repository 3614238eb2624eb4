-- ===== src/Evidence/Total.antt =====
-- An evidence tool never raises, and is blocked exactly by a missing field.
use shipcheck.Base.{String, ◌≡◌, ◌↔◌, true, Option, none, some, List, All, arith}
use shipcheck.Json.{Value, Fields}
use shipcheck.Evidence.{Package, Evidence, blocked, rule, has_key, evaluate}
use shipcheck.Evidence.Packages.{packages}

-- the result is there, and its status is BLOCKED exactly where a field is missing
abbrev pub Judged : List String → Fields → Option Evidence → Type 0
Judged required r none = ⊥
Judged required r (some e) = (e.status ≡ blocked) ↔ (¬ All (λ k. has_key r k ≡ true) required)

-- For every package and every record, `evaluate` returns without a `KeyError`, and its status is
-- BLOCKED exactly where some required field is missing.
pub evaluate-Judged :
    (sha256_json : Value → String) (r : Fields)
    → All (λ (p : Package). Judged p.required r (evaluate sha256_json p r)) packages
unfolding evaluate rule
evaluate-Judged h r = (
  ground arith,
  (
    ground arith,
    (
      ground arith,
      (ground arith, (ground arith, (ground arith, (ground arith, (ground arith, tt))))),
    ),
  ),
)
