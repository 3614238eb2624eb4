-- ===== src/ReleaseGate/Ledger/Append.antt =====
-- ledger.py: `append` and `_append`, and their transaction, which `_transition` shares.
use shipcheck.Base.{String, Bool, false, not, none, some, List, [], ◌∷◌, ok}
use shipcheck.Base.Exec.{pure, lift, ◌>>=◌, ◌>>◌, raise_when}
use shipcheck.Base.Texts.{contains}
use shipcheck.Json.{Fields}
use shipcheck.ReleaseGate.Errors.{validation, conflict, Checked}
use shipcheck.ReleaseGate.Services.{Services}
use shipcheck.ReleaseGate.Ledger.State.{
  Entry, Promotion, Receipt, find_key, row_receipt, hash_of, commit, Action,
}
use shipcheck.ReleaseGate.Ledger.Anchor.{assert_anchor, sync_anchor}
use shipcheck.ReleaseGate.Ledger.Drafts.{Draft, placed, is_replay, append_draft}

abbrev pub reserved_types : List String
reserved_types =
    "EVALUATED_DECISION" ∷ "PROMOTION_PLANNED" ∷ "PROMOTION_APPLIED" ∷ "PROMOTION_VERIFIED"
    ∷ "PROMOTION_ROLLED_BACK" ∷ []

-- the messages of the two errors of the database
pub record Messages : Type 0 where
  pub used : String
  pub failed : String

abbrev pub append_messages : Messages
append_messages = record {
  used = "idempotency key was already used for another request";
  failed = "SQLite ledger append failed";
}

module _ (S : Services) where
  -- the answer to a key that is in the ledger
  unfoldable pub replay : Messages → Bool → Draft S.Bytes → Entry S.Bytes → Action S Receipt
  replay messages context_idempotent d old = do
    raise_when (not (is_replay context_idempotent d old)) (conflict messages.used)
    sync_anchor S
    pure (row_receipt old)

  -- `promote` is what a transition does to the rows of `promotion_state`, or its refusal.
  abbrev pub Promote : Type 0
  Promote = List (Entry S.Bytes) → List Promotion → Checked (List Promotion)

  -- the entry of a key that is not in the ledger
  unfoldable pub add_entry : Messages → Promote → Draft S.Bytes → Action S Receipt
  add_entry messages promote d = do
    s ← (λ s. (ok s, s))
    promotions ← lift (promote s.entries s.promotions)
    hash ← lift (hash_of S (placed d s.entries ""))
    commit S messages.failed (placed d s.entries hash) promotions
    sync_anchor S
    pure (row_receipt (placed d s.entries hash))

  -- the transaction behind the test of the anchor
  unfoldable pub answer : Messages → Bool → Promote → Draft S.Bytes → Action S Receipt
  answer messages context_idempotent promote d s = elim (find_key d.key_digest s.entries) [
    | some old ↦ replay messages context_idempotent d old s
    | none ↦ add_entry messages promote d s
  ]

  -- the transaction of `_append` and `_transition`
  unfoldable pub submit : Messages → Bool → Promote → Draft S.Bytes → Action S Receipt
  submit messages context_idempotent promote d =
      assert_anchor S >> answer messages context_idempotent promote d

  -- `_append`, at the time `now`
  unfoldable pub append_entry : String → Fields → String → Fields → Bool → String → Action S Receipt
  append_entry entry_type payload key request context_idempotent now = do
    d ← lift (append_draft S entry_type payload key request context_idempotent now)
    submit append_messages context_idempotent (λ es ps. ok ps) d

  -- `append`
  unfoldable pub append : String → Fields → String → Fields → String → Action S Receipt
  append entry_type payload key request now =
      raise_when (contains entry_type reserved_types)
        (validation "reserved ledger entry_type must be produced by its governed operation")
      >> append_entry entry_type payload key request false now
