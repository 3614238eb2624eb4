-- ===== src/ReleaseGate/Ledger/Promote.antt =====
-- ledger.py: the promotion of a decision, `_transition` and its four callers.
use Prim.Native.String.{count}
use shipcheck.Base.{ℕ, String, false, Option, none, some, [], ◌∷◌, ◌||◌, not, ltb, ok}
use shipcheck.Base.Exec.{lift, ◌>>=◌, ◌>>◌, raise_when}
use shipcheck.Base.Texts.{is_empty}
use shipcheck.Json.{str, Fields, number, dict_fields}
use shipcheck.ReleaseGate.Errors.{validation}
use shipcheck.ReleaseGate.Services.{Services}
use shipcheck.ReleaseGate.Ledger.State.{Promotion, Receipt, find_promotion, Action}
use shipcheck.ReleaseGate.Ledger.Append.{Messages, submit, append_entry}
use shipcheck.ReleaseGate.Ledger.Drafts.{transition_draft}
use shipcheck.ReleaseGate.Ledger.Moves.{
  Request, Move, plan, apply, verify, rollback, move_target, promote,
}

abbrev pub transition_messages : Messages
transition_messages = record {
  used = "idempotency key was already used for another transition";
  failed = "SQLite promotion transition failed";
}

-- the payload of a move of a promotion that is planned
abbrev pub move_payload : Move → String → String → String → ℕ → Fields
move_payload move candidate name value token = dict_fields (
    ("candidate_digest", str candidate)
    ∷ (name, str value)
    ∷ ("effect", str "local-ledger-only")
    ∷ ("state", str (move_target move))
    ∷ ("expected_fencing_token", number token)
    ∷ [])

-- the calls of `_transition` by `apply_promotion`, `verify_promotion` and `rollback_promotion`
abbrev pub move_request : Move → String → String → String → String → String → ℕ → Request
move_request move candidate decision name value key token = record {
  move = move;
  candidate = candidate;
  decision = decision;
  token = token;
  payload = move_payload move candidate name value token;
  key = key;
}

-- `str(state["decision_digest"]) if state else ""`
abbrev pub planned_decision : Option Promotion → String
planned_decision none = ""
planned_decision (some p) = p.decision_digest

module _ (S : Services) where
  -- `_transition`, at the time `now`
  unfoldable pub transition : Request → String → Action S Receipt
  transition r now = do
    d ← lift (transition_draft S r now)
    submit S transition_messages false (promote S r) d

  abbrev pub plan_request : S.Decision → String → String → Request
  plan_request d digest key = record {
    move = plan;
    candidate = S.decision_candidate d;
    decision = digest;
    token = 1;
    payload = dict_fields (
        ("decision_id", str (S.decision_id d))
        ∷ ("decision_digest", str digest)
        ∷ ("candidate_digest", str (S.decision_candidate d))
        ∷ ("policy_digest", str (S.decision_policy d))
        ∷ ("effect", str "local-ledger-only")
        ∷ ("state", str "PLANNED")
        ∷ []);
    key = key;
  }

  unfoldable pub plan_promotion : S.Decision → String → String → Action S Receipt
  plan_promotion d key now = do
    raise_when (not (S.is_production_ready d))
        (validation "only a PRODUCTION/READY decision can produce a local promotion plan")
    digest ← lift (S.decision_digest d)
    transition (plan_request d digest key) now

  unfoldable pub apply_promotion : String → String → String → ℕ → String → Action S Receipt
  apply_promotion candidate decision key token now =
      transition (move_request apply candidate decision "decision_digest" decision key token) now

  unfoldable pub verify_promotion : String → String → String → ℕ → String → Action S Receipt
  verify_promotion candidate decision key token now =
      transition (move_request verify candidate decision "decision_digest" decision key token) now

  unfoldable pub rollback_promotion : String → String → String → ℕ → String → Action S Receipt
  rollback_promotion candidate reason key token now = do
    raise_when (is_empty reason || ltb 2000 (count reason))
        (validation "rollback reason must be 1 to 2,000 characters")
    row ← (λ s. (ok (find_promotion candidate s.promotions), s))
    transition (move_request rollback candidate (planned_decision row) "reason" reason key token)
        now

  -- `append_decision`, for the dictionary of the decision
  unfoldable pub append_decision : S.Decision → Fields → String → String → Action S Receipt
  append_decision d decision key now = do
    digest ← lift (S.decision_digest d)
    append_entry S "IMPORTED_DECISION" decision key
        (dict_fields (
          ("operation", str "import_decision")
          ∷ ("decision_digest", str digest)
          ∷ ("candidate_digest", str (S.decision_candidate d))
          ∷ ("policy_digest", str (S.decision_policy d))
          ∷ []))
        false now
