-- ===== src/MergeGate/Errors.antt =====
-- The exceptions of src/safe_merge_gate, with their messages. A message
-- that prints a rejected value stops before it.
use shipcheck.Base.{String}
use shipcheck.Base.Results.{Result}

pub data Error : Type 0 where
  -- `ContractError`
  contract : String → Error
  -- `TypeError` and `AttributeError`, from a value of the wrong type
  type_error : Error
  -- a plain `ValueError`, from `CheckState(...)` or `Decision(...)`
  value_error : Error
  -- `ApplyBlocked`, `TransactionConflict`, `TransactionVerificationError`
  blocked : String → Error
  conflict : String → Error
  unverified : String → Error
  -- `OSError`
  os_error : String → Error

abbrev pub Checked {ℓ} : Type ℓ → Type ℓ
Checked A = Result Error A
