-- ===== src/ReleaseGate/Services.antt =====
-- What the ledger uses of the modules beside it: canonical.py, limits.py, redaction.py and the
-- decisions of models.py. Decisions are recorded and read back as JSON values.
use shipcheck.Base.{ℕ, String, ◌≡◌, eqb, Bool, true, ok, ◌>>=◌}
use Prim.Native.String.{count}
use shipcheck.Json.{Value}
use shipcheck.ReleaseGate.Errors.{Checked}

pub record Services : Type 1 where
  pub Bytes : Type 0
  -- `len(data)`
  pub byte_count : Bytes → ℕ
  pub sha256_hex : Bytes → String
  pub canonical_json : Value → Checked Bytes
  pub loads_strict : Bytes → Checked Value
  pub redact : Value → Value
  -- `Decision`, with `Decision.from_dict`, its `digest`, `decision_id`, `candidate_digest`,
  -- `policy_digest`, `evidence_digest`, `assurance_profile` and `production_ready`
  pub Decision : Type 0
  pub decision_from_dict : Value → Checked Decision
  pub decision_digest : Decision → Checked String
  pub decision_id : Decision → String
  pub decision_candidate : Decision → String
  pub decision_policy : Decision → String
  pub decision_evidence : Decision → String
  pub decision_profile : Decision → String
  pub is_production_ready : Decision → Bool

-- a digest has 64 characters
pub record IsLawful (S : Services) : Type 0 where
  pub sha256_hex-count : (b : S.Bytes) → eqb (count (S.sha256_hex b)) 64 ≡ true

-- `object_digest(value)`
abbrev pub object_digest : (S : Services) → Value → Checked String
object_digest S v = do b ← S.canonical_json v; ok (S.sha256_hex b)
