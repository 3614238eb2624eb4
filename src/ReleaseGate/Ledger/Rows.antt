-- ===== src/ReleaseGate/Ledger/Rows.antt =====
-- ledger.py: the loop of `verify` over the rows of `ledger_entries`.
use shipcheck.Base.{
  ℕ, suc, String, ◌==◌, not, none, some, List, [], ◌∷◌, ◌++◌, eqb, leb, if◌then◌else◌, ok, err,
}
use shipcheck.ReleaseGate.Errors.{Checked}
use shipcheck.ReleaseGate.Services.{Services}
use shipcheck.ReleaseGate.Ledger.State.{Entry, zero_hash, hash_of}
use shipcheck.ReleaseGate.Ledger.Faults.{
  Fault, invalid_sequence, sequence_gap, previous_hash, payload_digest, invalid_payload, unhashable,
  entry_hash, invalid_column, fault_if, is_bad_column, clean,
}
use shipcheck.ReleaseGate.Ledger.Derive.{Run, parsed, read_entry}

module _ (S : Services) where
  abbrev pub column_faults : ℕ → Entry S.Bytes → List Fault
  column_faults n e =
      fault_if (is_bad_column e.key_digest) (invalid_column "idempotency_key_digest" n)
      ++ (fault_if (is_bad_column e.request_digest) (invalid_column "request_digest" n)
          ++ (fault_if (is_bad_column e.entry_type) (invalid_column "entry_type" n)
              ++ (fault_if (is_bad_column e.payload_digest) (invalid_column "payload_digest" n)
                  ++ (fault_if (is_bad_column e.previous_hash) (invalid_column "previous_hash" n)
                      ++ (fault_if (is_bad_column e.entry_hash) (invalid_column "entry_hash" n)
                          ++ fault_if (is_bad_column e.created_at)
                              (invalid_column "created_at" n))))))

  -- the values that the checks behind go on with
  abbrev pub cleaned : ℕ → Entry S.Bytes → Entry S.Bytes
  cleaned n e = record {
    sequence = n;
    key_digest = clean e.key_digest;
    request_digest = clean e.request_digest;
    entry_type = clean e.entry_type;
    payload_json = e.payload_json;
    payload_digest = clean e.payload_digest;
    previous_hash = clean e.previous_hash;
    entry_hash = clean e.entry_hash;
    created_at = clean e.created_at;
  }

  abbrev pub payload_faults : Entry S.Bytes → List Fault
  payload_faults e =
      fault_if (not (S.sha256_hex e.payload_json == e.payload_digest)) (payload_digest e.sequence)
      ++ elim (parsed S e) [ some v ↦ [] | none ↦ invalid_payload e.sequence ∷ [] ]

  -- the stored hash against the one of the body, which is the empty text where it has none
  abbrev pub hash_check : Entry S.Bytes → Checked String → List Fault
  hash_check e (ok h) = fault_if (not (e.entry_hash == h)) (entry_hash e.sequence)
  hash_check e (err x) =
      unhashable e.sequence ∷ fault_if (not (e.entry_hash == "")) (entry_hash e.sequence)

  abbrev pub hash_faults : Entry S.Bytes → List Fault
  hash_faults e = hash_check e (hash_of S e)

  -- the sequence that the messages name
  abbrev pub named_sequence : Run S → Entry S.Bytes → ℕ
  named_sequence p e = if leb 1 e.sequence then e.sequence else p.expected

  -- the faults of the chain in one row
  abbrev pub chain_faults : Run S → Entry S.Bytes → List Fault
  chain_faults p e =
      let n = named_sequence p e in
      fault_if (not (leb 1 e.sequence)) invalid_sequence
      ++ (column_faults n e
          ++ (fault_if (not (eqb n p.expected)) (sequence_gap p.expected)
              ++ (fault_if (not (clean e.previous_hash == p.previous)) (previous_hash n)
                  ++ (payload_faults (cleaned n e) ++ hash_faults (cleaned n e)))))

  -- one turn of the loop
  unfoldable pub check_row : Run S → Entry S.Bytes → Run S
  check_row p e =
      let (found, q) = read_entry S p (cleaned (named_sequence p e) e) in
      record {
        faults = p.faults ++ (chain_faults p e ++ found);
        previous = clean e.entry_hash;
        expected = suc p.expected;
        derived = q.derived;
        evaluated = q.evaluated;
      }

  abbrev pub no_rows : Run S
  no_rows = record { faults = []; previous = zero_hash; expected = 1; derived = []; evaluated = [] }

  -- the loop; the entries come in descending order, and the loop ends with the last one
  unfoldable pub check_rows : List (Entry S.Bytes) → Run S
  check_rows [] = no_rows
  check_rows (e ∷ es) = check_row (check_rows es) e
