-- ===== src/ReleaseGate/Ledger/Verify.antt =====
-- ledger.py: `verify`.
use shipcheck.Base.{
  ℕ, String, ◌==◌, Bool, false, not, ◌&&◌, Option, none, some, List, [], ◌∷◌, ◌++◌, all, any,
  length, eqb, ltb, if◌then◌else◌, ok, err,
}
use shipcheck.ReleaseGate.Errors.{Checked, type_error}
use shipcheck.ReleaseGate.Services.{Services}
use shipcheck.ReleaseGate.Ledger.State.{
  Entry, Promotion, Store, zero_hash, tail_sequence, find_promotion, find_sequence,
}
use shipcheck.ReleaseGate.Ledger.AnchorFile.{anchor_of}
use shipcheck.ReleaseGate.Ledger.Faults.{
  Fault, has_escaped, fault_if, database, foreign_keys, states, anchor_invalid, anchor_missing,
  truncated, anchor_hash, anchor_absent, anchor_history,
}
use shipcheck.ReleaseGate.Ledger.Rows.{check_rows}

pub record Verification : Type 0 where
  pub is_ok : Bool
  pub entries : ℕ
  pub tail_hash : String
  pub anchor : Option (ℕ × String)
  pub errors : List Fault

abbrev same_row : Promotion → Promotion → Bool
same_row p q =
    (p.candidate_digest == q.candidate_digest)
    && (p.state == q.state)
    && eqb p.fencing_token q.fencing_token
    && (p.decision_digest == q.decision_digest)
    && eqb p.plan_sequence q.plan_sequence
    && eqb p.updated_sequence q.updated_sequence

abbrev is_derived : List Promotion → Promotion → Bool
is_derived derived p = elim (find_promotion p.candidate_digest derived) [
  | none ↦ false
  | some q ↦ same_row p q
]

-- `actual_states == derived_states`; the candidates of the rows are texts and differ, since the
-- candidate is the primary key
abbrev pub same_states : List Promotion → List Promotion → Bool
same_states actual derived = eqb (length actual) (length derived) && all (is_derived derived) actual

-- the faults of an anchor behind the tail, for the entry with its sequence
abbrev pub older_faults : {Bytes : Type 0} → Option (Entry Bytes) → String → List Fault
older_faults none h = anchor_absent ∷ []
older_faults (some e) h = fault_if (not (h == e.entry_hash)) anchor_history

-- the faults of an anchor that is there, behind entries whose last checked hash is `last`
unfoldable pub anchor_faults :
    {Bytes : Type 0} → List (Entry Bytes) → String → ℕ → String → List Fault
anchor_faults es last n h =
    if ltb (tail_sequence es) n
    then truncated ∷ []
    else if eqb n (tail_sequence es)
    then fault_if (not (h == last)) anchor_hash
    else if eqb n 0
    then fault_if (not (h == zero_hash)) anchor_history
    else older_faults (find_sequence n es) h

module _ (S : Services) where
  -- the faults of the anchor, for what `_read_anchor` returned or raised
  unfoldable pub anchor_check :
      List (Entry S.Bytes) → String → Checked (Option (ℕ × String)) → List Fault
  anchor_check es last (err x) = anchor_invalid ∷ fault_if (ltb 0 (tail_sequence es)) anchor_missing
  anchor_check es last (ok none) = fault_if (ltb 0 (tail_sequence es)) anchor_missing
  anchor_check es last (ok (some (n, h))) = anchor_faults es last n h

  abbrev pub anchor_read : Store S.Bytes → Option (ℕ × String)
  anchor_read s = elim (anchor_of s.anchor) [ err x ↦ none | ok a ↦ a ]

  -- the faults, for the answers of SQLite's own two checks
  unfoldable pub errors_of : Bool → Bool → Store S.Bytes → List Fault
  errors_of integrity foreign s =
      let run = check_rows S s.entries in
      fault_if (not integrity) database
      ++ (fault_if (not foreign) foreign_keys
          ++ (run.faults
              ++ (fault_if (not (same_states s.promotions run.derived)) states
                  ++ anchor_check s.entries run.previous (anchor_of s.anchor))))

  abbrev pub verification : Bool → Bool → Store S.Bytes → Verification
  verification integrity foreign s =
      let errors = errors_of integrity foreign s in
      record {
        is_ok = eqb (length errors) 0;
        entries = tail_sequence s.entries;
        tail_hash = (check_rows S s.entries).previous;
        anchor = anchor_read s;
        errors = errors;
      }

  -- `verify`, which changes nothing: a `TypeError` while the rows are read ends it
  unfoldable pub verify : Bool → Bool → Store S.Bytes → Checked Verification
  verify integrity foreign s =
      if any has_escaped (check_rows S s.entries).faults
      then err (type_error "unhashable type")
      else ok (verification integrity foreign s)
