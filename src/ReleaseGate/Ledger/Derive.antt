-- ===== src/ReleaseGate/Ledger/Derive.antt =====
-- ledger.py: what `verify` reads in an entry, and the promotions that it derives.
use shipcheck.Base.{
  ℕ, suc, String, ◌==◌, Bool, false, not, ◌&&◌, ◌||◌, Option, none, some, List, [], ◌∷◌, ◌++◌, leb,
  if◌then◌else◌, ok, err, ◌>>=◌, ◌>>◌, raise_if, true,
}
use shipcheck.Base.Texts.{contains}
use shipcheck.Json.{Value, Fields, str, arr, obj, dict, get, is_text, is_number, find_field}
use shipcheck.ReleaseGate.Errors.{validation, Checked}
use shipcheck.ReleaseGate.Services.{Services, object_digest}
use shipcheck.ReleaseGate.Ledger.State.{Entry, Promotion, find_promotion, put_promotion}
use shipcheck.ReleaseGate.Ledger.AnchorFile.{has_keys}
use shipcheck.ReleaseGate.Ledger.Faults.{
  Fault, envelope, binding, request, payload_shape, transition, type_state, plan_fault, order,
  decision, escaped, fault_if, Progress, find_evaluated, envelope_keys, are_kinds, is_summary,
}

-- the state that an entry type promises
abbrev promised : String → Option String
promised t =
    if t == "PROMOTION_PLANNED"
    then some "PLANNED"
    else if t == "PROMOTION_APPLIED"
    then some "APPLIED"
    else if t == "PROMOTION_VERIFIED"
    then some "VERIFIED"
    else if t == "PROMOTION_ROLLED_BACK"
    then some "ROLLED_BACK"
    else none

-- the states that may stand before a state
abbrev before : String → List String
before t =
    if t == "APPLIED"
    then "PLANNED" ∷ []
    else if t == "VERIFIED"
    then "APPLIED" ∷ []
    else "APPLIED" ∷ "VERIFIED" ∷ []

module _ (S : Services) where
  abbrev pub Run : Type 0
  Run = Progress S.Decision

  -- `loads_strict(payload)`, or `None`
  abbrev pub parsed : Entry S.Bytes → Option Value
  parsed e = elim (S.loads_strict e.payload_json) [ ok v ↦ some v | err x ↦ none ]

  -- the checks under `try` of an envelope; a `ValidationError`, `TypeError` or `KeyError` is `err`
  unfoldable pub check_envelope : Fields → Entry S.Bytes → Checked (String × S.Decision)
  check_envelope fs e = do
    raise_if (not (are_kinds (get "source_kinds" fs)))
        (validation "assessment source kinds are invalid")
    raise_if (not (is_summary (get "policy_summary" fs)))
        (validation "assessment policy summary is invalid")
    d ← S.decision_from_dict (get "decision" fs)
    raise_if
        (not (is_text (get "candidate_digest" fs) (S.decision_candidate d))
          || not (is_text (get "evidence_digest" fs) (S.decision_evidence d))
          || not (is_text (get "policy_digest" fs) (S.decision_policy d))
          || not (is_text (get "assurance_profile" fs) (S.decision_profile d)))
        (validation "assessment binding mismatch")
    digest ← object_digest S (
        dict (
          ("entry_type", str "EVALUATED_DECISION")
          ∷ (
            "context",
            dict (
                ("operation", str "evaluate_and_record")
                ∷ ("candidate_digest", get "candidate_digest" fs)
                ∷ ("evidence_digest", get "evidence_digest" fs)
                ∷ ("policy_digest", get "policy_digest" fs)
                ∷ ("trust_digest", get "trust_digest" fs)
                ∷ ("assurance_profile", get "assurance_profile" fs)
                ∷ ("waiver_digests", get "waiver_digests" fs)
                ∷ ("engine_version", str "0.1.0")
                ∷ []),
          )
          ∷ []))
    raise_if (not (digest == e.request_digest)) (validation "assessment request digest mismatch")
    t ← S.decision_digest d
    ok (t, d)

  abbrev is_envelope : Fields → Bool
  is_envelope fs =
      has_keys envelope_keys fs
      && is_text (get "schema_version" fs) "shipcheck/assessment-v1"
      && is_text (get "engine_version" fs) "0.1.0"

  -- an entry of an evaluation, with the decision that it adds
  unfoldable pub evaluated_row :
      Entry S.Bytes → Option Value → List Fault × List (String × ℕ × S.Decision)
  evaluated_row e (some (obj fs)) =
      if not (is_envelope fs) then (envelope e.sequence ∷ [], []) else elim (check_envelope fs e) [
        | ok (t, d) ↦ ([], (t, e.sequence, d) ∷ [])
        | err x ↦ (binding e.sequence ∷ [], [])
      ]
  evaluated_row e _ = (envelope e.sequence ∷ [], [])

  -- the plan of a promotion; `some` is the row that it derives
  unfoldable pub planned_by : Run → Entry S.Bytes → String → Value → Option Promotion
  planned_by p e c (str d) = elim (find_promotion c p.derived) [
    | some row ↦ none
    | none ↦ elim (find_evaluated d p.evaluated) [
      | none ↦ none
      | some (n, x) ↦
          if leb e.sequence n || not (S.is_production_ready x) || not (S.decision_candidate x == c)
          then none
          else some (record {
            candidate_digest = c;
            state = "PLANNED";
            fencing_token = 1;
            decision_digest = d;
            plan_sequence = e.sequence;
            updated_sequence = e.sequence;
          })
    ]
  ]
  planned_by p e c v = none

  -- another move of a promotion, with its fault
  unfoldable pub moved_by :
      Run → Entry S.Bytes → String → String → Fields → List Fault × Option Promotion
  moved_by p e c target fs = elim (find_promotion c p.derived) [
    | none ↦ (order e.sequence ∷ [], none)
    | some row ↦
        if not (contains row.state (before target))
          || not (is_number (get "expected_fencing_token" fs) row.fencing_token)
        then (order e.sequence ∷ [], none)
        else elim (find_field "decision_digest" fs) [
          | some v ↦
              if is_text v row.decision_digest
              then ([], some (advanced row))
              else (decision e.sequence ∷ [], none)
          | none ↦ ([], some (advanced row))
        ]
  ]
    where
      advanced : Promotion → Promotion
      advanced row = record row {
        state = target;
        fencing_token = suc row.fencing_token;
        updated_sequence = e.sequence;
      }

  abbrev is_state : Value → Bool
  is_state (str t) = contains t ("PLANNED" ∷ "APPLIED" ∷ "VERIFIED" ∷ "ROLLED_BACK" ∷ [])
  is_state _ = false

  -- a value that is no element of a set: a list or a dict
  abbrev is_unhashable : Value → Bool
  is_unhashable (arr vs) = true
  is_unhashable (obj fs) = true
  is_unhashable _ = false

  -- the payload of a promotion entry whose type promises `target`
  unfoldable pub promoted_payload :
      Run → Entry S.Bytes → String → Option Value → List Fault × Option Promotion
  promoted_payload p e target (some (obj fs)) = elim (get "candidate_digest" fs) [
    | str c ↦
        if is_unhashable (get "state" fs)
        then (escaped e.sequence ∷ [], none)
        else if not (is_state (get "state" fs))
        then (transition e.sequence ∷ [], none)
        else if not (is_text (get "state" fs) target)
        then (type_state e.sequence ∷ [], none)
        else if target == "PLANNED"
        then elim (planned_by p e c (get "decision_digest" fs)) [
          | some row ↦ ([], some row)
          | none ↦ (plan_fault e.sequence ∷ [], none)
        ]
        else moved_by p e c target fs
    | _ ↦ (transition e.sequence ∷ [], none)
  ]
  promoted_payload p e target _ = (payload_shape e.sequence ∷ [], none)

  -- `promotion request digest mismatch`
  unfoldable pub request_faults : Entry S.Bytes → List Fault
  request_faults e =
      elim (object_digest S (
        dict (
          ("entry_type", str e.entry_type)
          ∷ ("payload_digest", str e.payload_digest)
          ∷ ("context", dict [])
          ∷ []))) [
            | ok h ↦ fault_if (not (h == e.request_digest)) (request e.sequence)
            | err x ↦ request e.sequence ∷ []
          ]

  abbrev with_row : Option Promotion → List Promotion → List Promotion
  with_row none rows = rows
  with_row (some row) rows = put_promotion row rows

  -- the faults that the meaning of an entry has, and what it derives
  unfoldable pub read_entry : Run → Entry S.Bytes → List Fault × Run
  read_entry p e = elim (promised e.entry_type) [
    | some target ↦
        let (found, row) = promoted_payload p e target (parsed e) in
        (request_faults e ++ found, record p { derived = with_row row p.derived })
    | none ↦
        if e.entry_type == "EVALUATED_DECISION"
        then (let (found, added) = evaluated_row e (parsed e) in
            (found, record p { evaluated = added ++ p.evaluated }))
        else ([], p)
  ]
