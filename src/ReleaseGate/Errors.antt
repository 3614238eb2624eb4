-- ===== src/ReleaseGate/Errors.antt =====
-- release_gate/errors.py: the exceptions by class, with their messages.
use shipcheck.Base.{String}
use shipcheck.Base.Results.{Result}

pub data Error : Type 0 where
  validation security ledger conflict not_found : String → Error
  -- `ValueError` of `json.dumps`, an `OSError` and a `TypeError`, which the release gate does not raise
  -- itself
  value_error os_error type_error : String → Error

abbrev pub Checked {ℓ} : Type ℓ → Type ℓ
Checked A = Result Error A
