-- ===== src/ReleaseGate/Engine.antt =====
-- release_gate/engine.py: the waivers of gates and the outcome.
pub mod Waived
pub mod Tests
use shipcheck.Base.{
  ℕ, String, ◌==◌, Bool, true, false, not, ◌&&◌, ◌||◌, Option, none, some, List, [], ◌∷◌, ◌++◌, any,
  map, keep, leb, if◌then◌else◌, ◌<>◌,
}
use shipcheck.Base.Sort.{sort_by}
use shipcheck.Base.Texts.{contains, is_empty, same, le_text}
use shipcheck.Json.{Value, str, dict, array}

-- `GateResult`; its constructor's tests hold of a gate that is waived, since they hold of the gate and
-- of the waiver
pub record GateResult : Type 0 where
  pub gate : String
  pub status : String
  pub reason_code : String
  pub message : String
  pub evidence_ids : List String
  pub waived_by : Option String
  pub original_status : Option String
  pub details : Value

-- `Waiver`, with the authority of its attestation; a time is a number of microseconds
pub record Waiver : Type 0 where
  pub waiver_id : String
  pub reason_code : String
  pub candidate_digest : String
  pub policy_digest : String
  pub gate : String
  pub expires_at : ℕ
  pub approver : String
  pub authority : Option String

-- What the evaluation compares waivers with: the evidence, the policy and the time, and
-- `trust_store.verify_waiver`, which returns a reason where it does not accept a waiver.
pub record Context : Type 0 where
  pub candidate_digest : String
  pub policy_digest : String
  pub allowed_waiver_authorities : List String
  pub waivable_reason_codes : List String
  pub now : ℕ
  pub verify_waiver : Waiver → Option String

abbrev pub unwaivable : List String
unwaivable =
    "SUBJECT_MISMATCH" ∷ "EVIDENCE_UNAUTHENTICATED" ∷ "ATTESTATION_POLICY_MISMATCH"
    ∷ "REPRODUCIBILITY_MISMATCH" ∷ "ARTIFACT_BINDING_MISMATCH" ∷ "WAIVER_INVALID"
    ∷ "LEDGER_INTEGRITY_FAILED" ∷ []

abbrev pub has_status : List String → GateResult → Bool
has_status statuses g = contains g.status statuses

-- the outcome that `evaluate` gives the gates
unfoldable pub outcome : List GateResult → String
outcome gates =
    if any (λ g. g.status == "fail") gates
    then "BLOCKED"
    else if any (has_status ("unknown" ∷ "pending" ∷ "cancelled" ∷ "skipped" ∷ [])) gates
    then "UNKNOWN"
    else "READY"

-- `_gate("waivers", "fail", "WAIVER_INVALID", message, key=texts)`
abbrev pub waivers_gate : String → String → List String → GateResult
waivers_gate message key texts = record {
  gate = "waivers";
  status = "fail";
  reason_code = "WAIVER_INVALID";
  message = message;
  evidence_ids = [];
  waived_by = none;
  original_status = none;
  details = dict ((key, array (map str texts)) ∷ []);
}

-- `valid.get((gate, reason_code))`
unfoldable pub find_waiver : String → String → List Waiver → Option Waiver
find_waiver gate code [] = none
find_waiver gate code (w ∷ ws) =
    if w.gate == gate && w.reason_code == code then some w else find_waiver gate code ws

abbrev is_allowed : Context → Waiver → Bool
is_allowed c w = elim w.authority [
  | none ↦ false
  | some a ↦ w.approver == a && contains a c.allowed_waiver_authorities
]

-- the reason why a waiver is invalid, beside the waivers that were valid before it
unfoldable pub objection : Context → List Waiver → Waiver → Option String
objection c valid w = elim (c.verify_waiver w) [
  | some reason ↦ some reason
  | none ↦
      if not (w.candidate_digest == c.candidate_digest) || not (w.policy_digest == c.policy_digest)
      then some "subject or policy mismatch"
      else if not (is_allowed c w)
      then some "approver is not an allowed waiver authority"
      else if leb w.expires_at c.now
      then some "expired"
      else if contains w.reason_code unwaivable
          || not (contains w.reason_code c.waivable_reason_codes)
      then some "reason is not waivable"
      else elim (find_waiver w.gate w.reason_code valid) [
        | some v ↦ some "duplicate waiver target"
        | none ↦ none
      ]
]

-- one turn of the loop: a waiver without an objection is valid, and another one has a message
abbrev pub place_waiver :
    Waiver → List Waiver → List String → Option String → List Waiver × List String
place_waiver w valid messages none = (valid ++ (w ∷ []), messages)
place_waiver w valid messages (some reason) =
    (valid, messages ++ ((w.waiver_id <> (": " <> reason)) ∷ []))

-- the loop over the waivers: the valid ones, and the messages of the others
unfoldable pub sort_out :
    Context → List Waiver → List Waiver → List String → List Waiver × List String
sort_out c [] valid messages = (valid, messages)
sort_out c (w ∷ ws) valid messages =
    let next = place_waiver w valid messages (objection c valid w) in sort_out c ws next.0 next.1

-- a gate under the waiver that was found for it
abbrev pub waive_by : GateResult → Option Waiver → GateResult
waive_by g none = g
waive_by g (some w) =
    if has_status ("fail" ∷ "unknown" ∷ []) g
    then record g { status = "warn"; waived_by = some w.waiver_id; original_status = some g.status }
    else g

unfoldable pub waive : List Waiver → GateResult → GateResult
waive valid g = waive_by g (find_waiver g.gate g.reason_code valid)

-- the waiver that was applied to a gate
unfoldable pub applied_to : List Waiver → GateResult → List String
applied_to valid g = elim (find_waiver g.gate g.reason_code valid) [
  | none ↦ []
  | some w ↦ if has_status ("fail" ∷ "unknown" ∷ []) g then w.waiver_id ∷ [] else []
]

abbrev pub all_applied : List Waiver → List GateResult → List String
all_applied valid [] = []
all_applied valid (g ∷ gs) = applied_to valid g ++ all_applied valid gs

abbrev distinct : List String → List String
distinct [] = []
distinct (x ∷ xs) = let rest = distinct xs in if contains x xs then rest else x ∷ rest

-- `sorted(set(ids of the valid waivers) - set(applied))`
unfoldable pub unused_ids : List Waiver → List String → List String
unused_ids valid applied =
    sort_by le_text
      (distinct (keep (λ t. not (contains t applied)) (map (λ (w : Waiver). w.waiver_id) valid)))

-- the gate of the waivers that were not used, if there are any
abbrev pub unused_gate : List String → List GateResult
unused_gate [] = []
unused_gate (t ∷ ts) = waivers_gate "waivers did not match an active gate" "unused" (t ∷ ts) ∷ []

-- `_apply_waivers` behind its loop over the waivers
unfoldable pub waive_all :
    List Waiver → List String → List GateResult → List GateResult × List String
waive_all valid [] gates =
    let applied = all_applied valid gates in
    (map (waive valid) gates ++ unused_gate (unused_ids valid applied), applied)
waive_all valid (m ∷ ms) gates =
    (gates ++ (waivers_gate "one or more waivers are invalid" "messages" (m ∷ ms) ∷ []), [])

unfoldable pub apply_waivers :
    Context → List GateResult → List Waiver → List GateResult × List String
apply_waivers c gates [] = (gates, [])
apply_waivers c gates (w ∷ ws) =
    let (valid, messages) = sort_out c (w ∷ ws) [] [] in waive_all valid messages gates
