-- ===== src/ReleaseGate/Ledger/Tests.antt =====
-- Ledgers with a recorded decision and its promotion.
use shipcheck.Base.{String, ◌≡◌, refl, true, false, none, Option, [], ◌∷◌, ok, err}
use shipcheck.Base.Results.{Result}
use shipcheck.Json.{Value, Fields, str, dict, dict_fields, end}
use shipcheck.ReleaseGate.Errors.{Error}
use shipcheck.ReleaseGate.Ledger.State.{Store, Receipt}
use shipcheck.ReleaseGate.Ledger.Sample.{sample, sample-IsLawful, candidate, decision_digest}
use shipcheck.ReleaseGate.Ledger.Runs.{
  Reachable-IsChained, Reachable-IsCounted, Call, evaluated, planned, run, new_ledger, Reachable,
  opened, called,
}
use shipcheck.ReleaseGate.Ledger.State.{find_promotion, zero_hash}
use shipcheck.ReleaseGate.Ledger.Recovery.{Reachable-IsAnchored}
use shipcheck.ReleaseGate.Ledger.Synced.{IsAnchored}
use shipcheck.ReleaseGate.Ledger.Chain.{IsChained}
use shipcheck.ReleaseGate.Ledger.Machine.{Held, Stands, IsCounted}
use shipcheck.ReleaseGate.Ledger.AnchorFile.{check_anchor, anchor_of, parse_anchor}
use shipcheck.ReleaseGate.Ledger.Anchor.{
  assert_anchor, sync_anchor, update_anchor, advance, write_anchor,
}
use shipcheck.ReleaseGate.Ledger.State.{commit}
use shipcheck.ReleaseGate.Ledger.Drafts.{append_draft, transition_draft}
use shipcheck.ReleaseGate.Ledger.Append.{append_entry, submit, answer, add_entry}
use shipcheck.Json.Compare.{same_value}
use shipcheck.Base.{◌≢◌, ap, arith}
use shipcheck.Base.Texts.{is_hex}
use shipcheck.ReleaseGate.Ledger.Recover.{recover_anchor}
use shipcheck.ReleaseGate.Ledger.Recovered.{Recovered, recover_anchor-Recovered}
use shipcheck.ReleaseGate.Ledger.Rows.{check_rows, check_row}
use shipcheck.ReleaseGate.Ledger.Derive.{read_entry}
use shipcheck.ReleaseGate.Ledger.Verify.{
  verify, verification, errors_of, anchor_check, anchor_faults,
}
use shipcheck.ReleaseGate.Errors.{security}
use shipcheck.ReleaseGate.Ledger.State.{tail_sequence}
use shipcheck.ReleaseGate.Ledger.Promote.{transition, plan_request, move_request, plan_promotion}
use shipcheck.ReleaseGate.Ledger.Moves.{
  Request, apply, promote, next_row, plan_row, move_row, find_registered, envelope_decision,
  has_digest, check_registered,
}
use shipcheck.ReleaseGate.Ledger.Effects.{SameTables}
use shipcheck.ReleaseGate.Ledger.Idempotent.{append_entry-again, transition-again}
use shipcheck.ReleaseGate.Ledger.Fencing.{transition-fenced}
use shipcheck.ReleaseGate.Ledger.Runs.{Follows, run-Step}
use shipcheck.ReleaseGate.Ledger.Recovery.{
  run-not_anchored, append_entry-resumes, Resumed, repaired,
}

abbrev envelope : Fields
envelope = dict_fields (("decision", dict (("outcome", str "READY") ∷ [])) ∷ [])

abbrev now : String
now = "2026-01-01T00:00:00Z"

abbrev later : String
later = "2026-01-02T00:00:00Z"

abbrev record_call : Call sample
record_call = evaluated envelope "e" end

-- the ledger with an evaluation, and with its plan
abbrev recorded : Store Value
recorded = (run sample record_call now (new_ledger sample [])).1

abbrev plan_call : Call sample
plan_call = planned tt "p"

abbrev promotable : Store Value
promotable = (run sample plan_call now recorded).1

recorded-Reachable : Reachable sample recorded
recorded-Reachable = called (new_ledger sample []) record_call now (opened [])

Reachable-IsChained_example : IsChained sample promotable.entries
Reachable-IsChained_example =
    Reachable-IsChained sample promotable (called recorded plan_call now recorded-Reachable)

Reachable-IsAnchored_example : IsAnchored sample promotable
Reachable-IsAnchored_example =
    Reachable-IsAnchored sample sample-IsLawful promotable
      (called recorded plan_call now recorded-Reachable)

Reachable-IsCounted_example :
    (a : Option Held) × Stands (find_promotion candidate promotable.promotions) a × IsCounted a
Reachable-IsCounted_example =
    Reachable-IsCounted sample promotable (called recorded plan_call now recorded-Reachable)
      candidate

-- the call, what it returns, and the ledger that it leaves
abbrev first : Result Error Receipt × Store Value
first = append_entry sample "NOTE" envelope "n" end false now (new_ledger sample [])

abbrev receipt : Receipt
receipt = record {
  sequence = 1;
  entry_hash = "1000000000000000000000000000000000000000000000000000000000000000";
  previous_hash = zero_hash;
  key_digest = "e000000000000000000000000000000000000000000000000000000000000000";
  request_digest = zero_hash;
  entry_type = "NOTE";
  payload_digest = zero_hash;
  created_at = now;
}

first-returns : first.0 ≡ ok receipt
unfolding append_entry append_draft submit assert_anchor check_anchor anchor_of parse_anchor answer
    add_entry commit sync_anchor update_anchor advance write_anchor same_value
first-returns = refl

append_entry-again_example :
    append_entry sample "NOTE" envelope "n" end false later first.1 ≡ (ok receipt, first.1)
append_entry-again_example =
    append_entry-again sample "NOTE" envelope "n" end false now later (new_ledger sample []) first.1
      receipt sample-IsLawful tt (λ i. (first-returns i, first.1))

abbrev plan_of : Request
plan_of = plan_request sample tt decision_digest "p"

abbrev plan_out : Result Error Receipt × Store Value
plan_out = transition sample plan_of now recorded

abbrev plan_receipt : Receipt
plan_receipt = record {
  sequence = 2;
  entry_hash = "2000000000000000000000000000000000000000000000000000000000000000";
  previous_hash = "1000000000000000000000000000000000000000000000000000000000000000";
  key_digest = zero_hash;
  request_digest = zero_hash;
  entry_type = "PROMOTION_PLANNED";
  payload_digest = zero_hash;
  created_at = now;
}

plan-returns : plan_out.0 ≡ ok plan_receipt
unfolding append_entry append_draft submit assert_anchor check_anchor anchor_of parse_anchor answer
    add_entry commit sync_anchor update_anchor advance write_anchor same_value run transition
    transition_draft plan_promotion promote next_row plan_row find_registered envelope_decision
    has_digest check_registered is_hex move_row
plan-returns = refl

transition-again_example :
    transition sample plan_of later plan_out.1 ≡ (ok plan_receipt, plan_out.1)
transition-again_example =
    transition-again sample plan_of now later recorded plan_out.1 plan_receipt sample-IsLawful
      (Reachable-IsChained sample recorded recorded-Reachable) (λ i. (plan-returns i, plan_out.1))

-- two applications with the token of the plan
abbrev application : String → Request
application key =
    move_request apply candidate decision_digest "decision_digest" decision_digest key 1

application-grows :
    (transition sample (application "3") now promotable).1.entries ≢ promotable.entries
unfolding append_entry append_draft submit assert_anchor check_anchor anchor_of parse_anchor answer
    add_entry commit sync_anchor update_anchor advance write_anchor same_value run transition
    transition_draft plan_promotion promote next_row plan_row find_registered envelope_decision
    has_digest check_registered is_hex move_row
application-grows h = omega (arith, ap tail_sequence h)

transition-fenced_example :
    let u = (transition sample (application "3") now promotable).1 in
    SameTables u (transition sample (application "b") later u).1
transition-fenced_example =
    transition-fenced sample (application "3") (application "b") now later promotable
      ("PLANNED" ∷ []) refl refl refl application-grows

run-Step_example : Follows sample candidate none recorded
run-Step_example = run-Step sample record_call now (new_ledger sample []) candidate none tt

-- a ledger whose anchor file was deleted
abbrev unanchored : Store Value
unanchored = record (new_ledger sample []) { anchor = none }

unanchored-loose : ¬ IsAnchored sample unanchored
unfolding anchor_of
unanchored-loose (n, h, read, le, fits) = absurd cc

run-not_anchored_example :
    (e : Error) × (run sample record_call now unanchored ≡ (err e, unanchored))
run-not_anchored_example = run-not_anchored sample record_call now unanchored unanchored-loose

-- a call whose commit is done and whose write of the anchor is refused
abbrev cut : Result Error Receipt × Store Value
cut = append_entry sample "NOTE" envelope "n" end false now (new_ledger sample (true ∷ false ∷ []))

cut-raises : cut.0 ≡ err (security "atomic output path is unsafe or inaccessible")
unfolding append_entry append_draft submit assert_anchor check_anchor anchor_of parse_anchor answer
    add_entry commit sync_anchor update_anchor advance write_anchor same_value run transition
    transition_draft plan_promotion promote next_row plan_row find_registered envelope_decision
    has_digest check_registered is_hex move_row
cut-raises = refl

cut-grows : cut.1.entries ≢ []
unfolding append_entry append_draft submit assert_anchor check_anchor anchor_of parse_anchor answer
    add_entry commit sync_anchor update_anchor advance write_anchor same_value run transition
    transition_draft plan_promotion promote next_row plan_row find_registered envelope_decision
    has_digest check_registered is_hex move_row
cut-grows h = omega (arith, ap tail_sequence h)

append_entry-resumes_example :
    (r : Receipt) × (r.sequence ≡ 1)
    × Resumed sample cut.1 r
        (append_entry sample "NOTE" envelope "n" end false later (repaired sample cut.1))
append_entry-resumes_example =
    append_entry-resumes sample sample-IsLawful "NOTE" envelope "n" end false now later
      (new_ledger sample (true ∷ false ∷ [])) cut.1
      (security "atomic output path is unsafe or inaccessible") (opened (true ∷ false ∷ []))
      (λ i. (cut-raises i, cut.1)) cut-grows

first-verified : verify sample true true first.1 ≡ ok (verification sample true true first.1)
unfolding append_entry append_draft submit assert_anchor check_anchor anchor_of parse_anchor answer
    add_entry commit sync_anchor update_anchor advance write_anchor same_value verify errors_of
    check_rows check_row read_entry anchor_check anchor_faults
first-verified = refl

first-accepted : (verification sample true true first.1).is_ok ≡ true
unfolding append_entry append_draft submit assert_anchor check_anchor anchor_of parse_anchor answer
    add_entry commit sync_anchor update_anchor advance write_anchor same_value verify errors_of
    check_rows check_row read_entry anchor_check anchor_faults
first-accepted = refl

first-quiet : first.1.answers ≡ []
unfolding append_entry append_draft submit assert_anchor check_anchor anchor_of parse_anchor answer
    add_entry commit sync_anchor update_anchor advance write_anchor same_value verify errors_of
    check_rows check_row read_entry anchor_check anchor_faults
first-quiet = refl

recover_anchor-Recovered_example :
    Recovered sample first.1 (recover_anchor sample true true first.1)
recover_anchor-Recovered_example =
    recover_anchor-Recovered sample sample-IsLawful true true first.1
      (verification sample true true first.1) first-verified first-accepted first-quiet
