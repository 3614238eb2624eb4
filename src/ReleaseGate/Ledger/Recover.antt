-- ===== src/ReleaseGate/Ledger/Recover.antt =====
-- ledger.py: `recover_anchor`, the recovery of the anchor when a ledger is opened.
use shipcheck.Base.{
  ℕ, String, Bool, true, false, not, ◌&&◌, Option, none, some, eqb, ltb, if◌then◌else◌,
}
use shipcheck.Base.Exec.{pure, ◌>>=◌, ◌>>◌, raise_when}
use shipcheck.ReleaseGate.Errors.{ledger}
use shipcheck.ReleaseGate.Services.{Services}
use shipcheck.ReleaseGate.Ledger.State.{Action}
use shipcheck.ReleaseGate.Ledger.Anchor.{update_anchor}
use shipcheck.ReleaseGate.Ledger.Verify.{Verification, verify}

abbrev is_absent : {A : Type 0} → Option A → Bool
is_absent none = true
is_absent (some a) = false

-- an anchor behind the sequence
abbrev is_behind : Option (ℕ × String) → ℕ → Bool
is_behind none n = true
is_behind (some (m, h)) n = ltb m n

module _ (S : Services) where
  -- the repair of `recover_anchor`, for the entries, the tail's hash and the anchor that were verified
  unfoldable pub recover_by : ℕ → String → Option (ℕ × String) → Action S (Unit {0})
  recover_by n hash anchor = do
    raise_when (is_absent anchor && ltb 0 n)
        (ledger "tail anchor is missing for a non-empty ledger")
    if is_behind anchor n then update_anchor S n hash (is_absent anchor && eqb n 0) else pure tt

  abbrev pub recover_verified : Verification → Action S (Unit {0})
  recover_verified v =
      raise_when (not v.is_ok) (ledger "ledger integrity verification failed")
      >> recover_by v.entries v.tail_hash v.anchor

  unfoldable pub recover_anchor : Bool → Bool → Action S (Unit {0})
  recover_anchor integrity foreign = (λ s. (verify S integrity foreign s, s)) >>= recover_verified
