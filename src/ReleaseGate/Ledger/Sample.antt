-- ===== src/ReleaseGate/Ledger/Sample.antt =====
-- Services for the tests: bytes are values, a digest depends on the sequence or on the first letter of
-- an idempotency key, and there is one decision.
use Prim.Native.Nat.{◌%◌}
use Prim.Native.Char.{code}
use Prim.Native.String.count
use Prim.Native.String.{char_at, ◌∷◌}
use shipcheck.Base.{ℕ, String, true, some, ok, eqb, ap}
use shipcheck.Json.{Value, Fields, pos, int, str, obj, find_field}
use shipcheck.ReleaseGate.Services.{Services, IsLawful}

abbrev letter : Fields → ℕ
letter fs = elim (find_field "idempotency_key" fs) [ some (str (c ∷ t)) ↦ code c | _ ↦ 0 ]

abbrev weight : Value → ℕ
weight (obj fs) = elim (find_field "sequence" fs) [ some (int (pos n)) ↦ n | _ ↦ letter fs ]
weight _ = 0

abbrev digest : Value → String
digest v =
    char_at "0123456789abcdef" (weight v % 16)
    ∷ "000000000000000000000000000000000000000000000000000000000000000"

abbrev pub decision_digest : String
decision_digest = "dddddddddddddddddddddddddddddddddddddddddddddddddddddddddddddddd"

abbrev pub candidate : String
candidate = "cccccccccccccccccccccccccccccccccccccccccccccccccccccccccccccccc"

abbrev pub sample : Services
sample = record {
  Bytes = Value;
  byte_count = λ b. 2;
  sha256_hex = digest;
  canonical_json = λ v. ok v;
  loads_strict = λ b. ok b;
  redact = λ v. v;
  Decision = Unit;
  decision_from_dict = λ v. ok tt;
  decision_digest = λ d. ok decision_digest;
  decision_id = λ d. "decision";
  decision_candidate = λ d. candidate;
  decision_policy = λ d. "policy";
  decision_evidence = λ d. "evidence";
  decision_profile = λ d. "PRODUCTION";
  is_production_ready = λ d. true;
}

pub sample-IsLawful : IsLawful sample
sample-IsLawful = record { sha256_hex-count = λ b. ap (λ n. eqb n 64) (count.cons _ _) }
