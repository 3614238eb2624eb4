-- ===== src/ReleaseGate/Ledger/Listing.antt =====
-- ledger.py: the reading of entries and of their summaries.
use shipcheck.Base.{
  ℕ, suc, zero, String, Bool, true, false, not, ◌||◌, none, some, List, [], ◌∷◌, ◌++◌, keep, leb,
  ltb, if◌then◌else◌, ok, err, each, ◌>>=◌, ◌>>◌, raise_if,
}
use shipcheck.Json.{Value, Fields, bool, int, str, obj, dict, end, find_field, get}
use shipcheck.ReleaseGate.Errors.{validation, not_found, Checked}
use shipcheck.ReleaseGate.Services.{Services}
use shipcheck.ReleaseGate.Ledger.State.{Entry, find_sequence, row_receipt, receipt_to_dict}

abbrev take {ℓ} : {A : Type ℓ} → ℕ → List A → List A
take zero xs = []
take (suc n) [] = []
take (suc n) (x ∷ xs) = x ∷ take n xs

abbrev ascending {ℓ} : {A : Type ℓ} → List A → List A
ascending [] = []
ascending (x ∷ xs) = ascending xs ++ (x ∷ [])

-- `isinstance(v, (str, int, bool))`
abbrev is_scalar : Value → Bool
is_scalar (str t) = true
is_scalar (int z) = true
is_scalar (bool b) = true
is_scalar _ = false

-- `isinstance(v, (str, bool))`
abbrev is_label : Value → Bool
is_label (str t) = true
is_label (bool b) = true
is_label _ = false

-- `{key: payload[key] for key in keys if key in payload and test(payload[key])}`
abbrev pick : (Value → Bool) → List String → Fields → List (String × Value)
pick test [] fs = []
pick test (k ∷ ks) fs =
    let rest = pick test ks fs in
    elim (find_field k fs) [ none ↦ rest | some v ↦ if test v then (k, v) ∷ rest else rest ]

-- the decision of a payload that holds one, and else the payload
abbrev summarized : Value → Fields
summarized (obj fs) = elim (get "decision" fs) [ obj ds ↦ ds | _ ↦ fs ]
summarized _ = end

abbrev outcome_keys : List String
outcome_keys = "outcome" ∷ "state" ∷ "release_id" ∷ "decision_id" ∷ "candidate_digest" ∷ []

abbrev profile_keys : List String
profile_keys = "assurance_profile" ∷ "production_ready" ∷ []

module _ (S : Services) where
  abbrev entry_dict : Entry S.Bytes → Value → Value
  entry_dict e payload =
      dict (("receipt", receipt_to_dict (row_receipt e)) ∷ ("payload", payload) ∷ [])

  -- an entry with its payload
  unfoldable pub read_row : Entry S.Bytes → Checked Value
  read_row e = do payload ← S.loads_strict e.payload_json; ok (entry_dict e payload)

  unfoldable pub get_entry : ℕ → List (Entry S.Bytes) → Checked Value
  get_entry n es = elim (find_sequence n es) [
    | none ↦ err (not_found "ledger sequence not found")
    | some e ↦ read_row e
  ]

  -- the rows behind a sequence, in ascending order; the entries come in descending order
  abbrev page : ℕ → ℕ → List (Entry S.Bytes) → List (Entry S.Bytes)
  page limit after es = take limit (keep (λ e. ltb after e.sequence) (ascending es))

  abbrev check_page : ℕ → Checked (Unit {0})
  check_page limit =
      raise_if (not (leb 1 limit) || ltb 500 limit) (validation "ledger pagination is invalid")

  unfoldable pub list_entries : ℕ → ℕ → List (Entry S.Bytes) → Checked (List Value)
  list_entries limit after es = do check_page limit; each read_row (page limit after es)

  -- the summary of a payload, whose profile and readiness are texts or Booleans
  abbrev summary : Value → Value
  summary payload =
      let fs = summarized payload in
      dict (pick is_scalar outcome_keys fs ++ pick is_label profile_keys fs)

  unfoldable pub summary_row : (Value → Value) → Entry S.Bytes → Checked Value
  summary_row shorten e = do
    payload ← S.loads_strict e.payload_json
    ok (entry_dict e (shorten payload))

  unfoldable pub list_summaries : ℕ → ℕ → List (Entry S.Bytes) → Checked (List Value)
  list_summaries limit after es = do
    check_page limit
    each (summary_row summary) (page limit after es)

  abbrev recent_summary : Value → Value
  recent_summary payload = dict (pick is_scalar (outcome_keys ++ profile_keys) (summarized payload))

  unfoldable pub list_recent_summaries : ℕ → List (Entry S.Bytes) → Checked (List Value)
  list_recent_summaries limit es = do
    raise_if (not (leb 1 limit) || ltb 100 limit)
        (validation "recent summary limit must be in [1, 100]")
    each (summary_row recent_summary) (take limit es)
