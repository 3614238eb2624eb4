-- ===== src/ReleaseGate/Ledger/Moves.antt =====
-- ledger.py: what `_transition` does to the rows of `promotion_state`.
use Prim.Native.String.{count}
use shipcheck.Base.{
  ℕ, suc, String, ◌==◌, Bool, false, not, ◌&&◌, ◌||◌, Option, none, some, List, [], ◌∷◌, eqb,
  if◌then◌else◌, ok, err, ◌>>=◌, ◌>>◌, raise_if,
}
use shipcheck.Base.Texts.{contains, all_chars, is_hex}
use shipcheck.Json.{Value, Fields, obj, find_field}
use shipcheck.ReleaseGate.Errors.{validation, conflict, Checked}
use shipcheck.ReleaseGate.Services.{Services}
use shipcheck.ReleaseGate.Ledger.State.{
  Entry, Promotion, tail_sequence, find_promotion, put_promotion,
}

-- The four calls of `_transition`: the entry type, the target state, and the states that the
-- candidate may be in; `none` is a candidate without a promotion.
pub data Move : Type 0 where
  plan apply verify rollback : Move

abbrev pub move_type : Move → String
move_type plan = "PROMOTION_PLANNED"
move_type apply = "PROMOTION_APPLIED"
move_type verify = "PROMOTION_VERIFIED"
move_type rollback = "PROMOTION_ROLLED_BACK"

abbrev pub move_target : Move → String
move_target plan = "PLANNED"
move_target apply = "APPLIED"
move_target verify = "VERIFIED"
move_target rollback = "ROLLED_BACK"

abbrev pub expected_states : Move → Option (List String)
expected_states plan = none
expected_states apply = some ("PLANNED" ∷ [])
expected_states verify = some ("APPLIED" ∷ [])
expected_states rollback = some ("APPLIED" ∷ "VERIFIED" ∷ [])

-- a digest in lower case
abbrev pub is_sha256 : String → Bool
is_sha256 t = eqb (count t) 64 && all_chars is_hex t

-- The arguments of `_transition`. Where the move is a plan, the expected token is `None` in the
-- source and 1 here: it passes the test of the token and is not read.
pub record Request : Type 0 where
  pub move : Move
  pub candidate : String
  pub decision : String
  pub token : ℕ
  pub payload : Fields
  pub key : String

-- the row of a candidate that is planned, and the row behind another move
abbrev pub planned_row : Request → ℕ → Promotion
planned_row r n = record {
  candidate_digest = r.candidate;
  state = move_target r.move;
  fencing_token = 1;
  decision_digest = r.decision;
  plan_sequence = n;
  updated_sequence = n;
}

abbrev pub moved_row : Request → Promotion → ℕ → Promotion
moved_row r p n = record {
  candidate_digest = r.candidate;
  state = move_target r.move;
  fencing_token = suc r.token;
  decision_digest = r.decision;
  plan_sequence = p.plan_sequence;
  updated_sequence = n;
}

-- the tests of a move of a candidate that has a promotion
unfoldable pub move_row : Request → List String → Option Promotion → ℕ → Checked Promotion
move_row r states none n = err (conflict "promotion state or fencing token changed")
move_row r states (some p) n = do
  raise_if (not (contains p.state states) || not (eqb p.fencing_token r.token))
      (conflict "promotion state or fencing token changed")
  raise_if (not (p.decision_digest == r.decision))
      (conflict "promotion decision digest does not match the plan")
  ok (moved_row r p n)

module _ (S : Services) where
  -- the decision of an envelope; what is no object, and a decision that `from_dict` does not take,
  -- are passed over
  unfoldable pub envelope_decision : Value → Checked (Option S.Decision)
  envelope_decision (obj fs) = elim (find_field "decision" fs) [
    | some (obj ds) ↦ elim (S.decision_from_dict (obj ds)) [
      | ok d ↦ ok (some d)
      | err (validation m) ↦ ok none
      | err e ↦ err e
    ]
    | _ ↦ ok none
  ]
  envelope_decision _ = ok none

  -- whether a decision is there and has the digest
  unfoldable pub has_digest : String → Option S.Decision → Checked Bool
  has_digest digest none = ok false
  has_digest digest (some d) = do t ← S.decision_digest d; ok (t == digest)

  -- The last recorded decision with the digest. The source reads the entry that it finds again, with
  -- the same result.
  unfoldable pub find_registered : String → List (Entry S.Bytes) → Checked (Option S.Decision)
  find_registered digest [] = ok none
  find_registered digest (e ∷ es) =
      let rest = find_registered digest es in
      if not (e.entry_type == "EVALUATED_DECISION") then rest else do
        payload ← S.loads_strict e.payload_json
        d ← envelope_decision payload
        found ← has_digest digest d
        if found then ok d else rest

  unfoldable pub check_registered : Request → Option S.Decision → Checked (Unit {0})
  check_registered r none =
      err (conflict "promotion decision must be recorded in this ledger first")
  check_registered r (some d) =
      raise_if (not (S.is_production_ready d) || not (S.decision_candidate d == r.candidate))
        (conflict "recorded promotion decision is not READY for this candidate")

  -- the plan of a candidate without a promotion
  unfoldable pub plan_row :
      Request → List (Entry S.Bytes) → Option Promotion → ℕ → Checked Promotion
  plan_row r es (some p) n = err (conflict "candidate already has a promotion state")
  plan_row r es none n = do
    d ← find_registered r.decision es
    check_registered r d
    ok (planned_row r n)

  -- the row that a move writes, by the states that it expects
  abbrev pub row_by :
      Request
      → List (Entry S.Bytes)
      → Option Promotion
      → ℕ
      → Option (List String)
      → Checked Promotion
  row_by r es old n none = plan_row r es old n
  row_by r es old n (some states) = move_row r states old n

  unfoldable pub next_row : Request → List (Entry S.Bytes) → List Promotion → Checked Promotion
  next_row r es ps =
      row_by r es (find_promotion r.candidate ps) (suc (tail_sequence es)) (expected_states r.move)

  unfoldable pub promote :
      Request → List (Entry S.Bytes) → List Promotion → Checked (List Promotion)
  promote r es ps = do row ← next_row r es ps; ok (put_promotion row ps)
