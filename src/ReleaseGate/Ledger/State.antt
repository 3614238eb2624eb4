-- ===== src/ReleaseGate/Ledger/State.antt =====
-- ledger.py: the tables, the tail anchor beside the database, and SQLite's transactions.
use shipcheck.Base.{
  ℕ, String, ◌==◌, Bool, true, ◌||◌, Option, none, some, List, [], ◌∷◌, any, eqb, if◌then◌else◌, ok,
}
use shipcheck.Base.Exec.{Exec}
use shipcheck.Base.Results.{err}
use shipcheck.Json.{Value, str, number, dict}
use shipcheck.ReleaseGate.Errors.{Error, ledger, Checked}
use shipcheck.ReleaseGate.Services.{Services, object_digest}

-- a row of `ledger_entries`
pub record Entry (Bytes : Type 0) : Type 0 where
  pub sequence : ℕ
  pub key_digest : String
  pub request_digest : String
  pub entry_type : String
  pub payload_json : Bytes
  pub payload_digest : String
  pub previous_hash : String
  pub entry_hash : String
  pub created_at : String

-- a row of `promotion_state`
pub record Promotion : Type 0 where
  pub candidate_digest : String
  pub state : String
  pub fencing_token : ℕ
  pub decision_digest : String
  pub plan_sequence : ℕ
  pub updated_sequence : ℕ

pub record Receipt : Type 0 where
  pub sequence : ℕ
  pub entry_hash : String
  pub previous_hash : String
  pub key_digest : String
  pub request_digest : String
  pub entry_type : String
  pub payload_digest : String
  pub created_at : String

-- The database, the file of the tail anchor, and the answers to the commits and file writes to come:
-- a commit or a replacement that is refused raises and changes nothing, and a run that is cut off behind
-- a commit is one whose next write is refused; the `fsync` behind a replacement has an answer of its own. Behind the last answer everything is done.
-- The entries are in descending order of their sequence. The anchor file is absent, or it holds
-- what `loads_strict` reads from it, if it reads anything.
pub record Store (Bytes : Type 0) : Type 0 where
  pub entries : List (Entry Bytes)
  pub promotions : List Promotion
  pub anchor : Option (Option Value)
  pub answers : List Bool

abbrev pub zero_hash : String
zero_hash = "0000000000000000000000000000000000000000000000000000000000000000"

abbrev pub receipt_to_dict : Receipt → Value
receipt_to_dict r = dict (
    ("sequence", number r.sequence)
    ∷ ("entry_hash", str r.entry_hash)
    ∷ ("previous_hash", str r.previous_hash)
    ∷ ("idempotency_key_digest", str r.key_digest)
    ∷ ("request_digest", str r.request_digest)
    ∷ ("entry_type", str r.entry_type)
    ∷ ("payload_digest", str r.payload_digest)
    ∷ ("created_at", str r.created_at)
    ∷ [])

module _ {Bytes : Type 0} where
  -- `SELECT sequence, entry_hash ... ORDER BY sequence DESC LIMIT 1`, and the values without a tail
  abbrev pub tail_sequence : List (Entry Bytes) → ℕ
  tail_sequence [] = 0
  tail_sequence (e ∷ es) = e.sequence

  abbrev pub tail_hash : List (Entry Bytes) → String
  tail_hash [] = zero_hash
  tail_hash (e ∷ es) = e.entry_hash

  -- `SELECT * ... WHERE idempotency_key_digest=?`
  abbrev pub find_key : String → List (Entry Bytes) → Option (Entry Bytes)
  find_key key [] = none
  find_key key (e ∷ es) = if e.key_digest == key then some e else find_key key es

  -- `SELECT * ... WHERE sequence=?`
  abbrev pub find_sequence : ℕ → List (Entry Bytes) → Option (Entry Bytes)
  find_sequence n [] = none
  find_sequence n (e ∷ es) = if eqb e.sequence n then some e else find_sequence n es

  abbrev pub row_receipt : Entry Bytes → Receipt
  row_receipt e = record {
    sequence = e.sequence;
    entry_hash = e.entry_hash;
    previous_hash = e.previous_hash;
    key_digest = e.key_digest;
    request_digest = e.request_digest;
    entry_type = e.entry_type;
    payload_digest = e.payload_digest;
    created_at = e.created_at;
  }

  -- the answer to the next commit or write
  abbrev pub ask : Exec (Store Bytes) Error Bool
  ask s = elim s.answers [ [] ↦ (ok true, s) | a ∷ rest ↦ (ok a, record s { answers = rest }) ]

  -- a row that the primary key or a unique column of `ledger_entries` does not let in
  abbrev pub is_taken : Entry Bytes → Entry Bytes → Bool
  is_taken e old =
      eqb old.sequence e.sequence
      || (old.key_digest == e.key_digest)
      || (old.entry_hash == e.entry_hash)

-- `SELECT * FROM promotion_state WHERE candidate_digest=?`
abbrev pub find_promotion : String → List Promotion → Option Promotion
find_promotion c [] = none
find_promotion c (p ∷ ps) = if p.candidate_digest == c then some p else find_promotion c ps

-- `INSERT INTO promotion_state ... ON CONFLICT(candidate_digest) DO UPDATE`
abbrev pub put_promotion : Promotion → List Promotion → List Promotion
put_promotion p [] = p ∷ []
put_promotion p (q ∷ ps) =
    let rest = put_promotion p ps in
    if q.candidate_digest == p.candidate_digest then p ∷ ps else q ∷ rest

module _ (S : Services) where
  abbrev pub Action : Type 0 → Type 0
  Action = Exec (Store S.Bytes) Error

  -- `_entry_hash` of the body of an entry
  abbrev pub hash_of : Entry S.Bytes → Checked String
  hash_of e = object_digest S (
      dict (
        ("sequence", number e.sequence)
        ∷ ("idempotency_key_digest", str e.key_digest)
        ∷ ("request_digest", str e.request_digest)
        ∷ ("entry_type", str e.entry_type)
        ∷ ("payload_digest", str e.payload_digest)
        ∷ ("previous_hash", str e.previous_hash)
        ∷ ("created_at", str e.created_at)
        ∷ []))

  -- `INSERT INTO ledger_entries`, the new rows of `promotion_state`, and `commit`, with the message
  -- of the `LedgerError` that a `sqlite3.Error` becomes. The foreign keys of a row of
  -- `promotion_state` name the new entry and the entry of an older row.
  unfoldable pub commit : String → Entry S.Bytes → List Promotion → Action (Unit {0})
  commit message e promotions s =
      if any (is_taken e) s.entries
      then (err (ledger message), s)
      else let (done, t) = ask s in
        elim done [
          | ok true ↦ (ok tt, record t { entries = e ∷ t.entries; promotions = promotions })
          | _ ↦ (err (ledger message), t)
        ]
