-- ===== src/ReleaseGate/Ledger/Changes.antt =====
-- Each operation of the ledger leaves its tables, notes an entry, or moves a promotion.
use shipcheck.Base.{
  String, ◌≡◌, refl, sym, subst, ap, Bool, false, ok, err, arith, inl, inr, ◌⊎◌, ℕ, ltb, ◌||◌,
  Bool-cases,
}
use shipcheck.Base.Results.{Result, Result-cases, Returns}
use shipcheck.Base.Texts.{contains, is_empty}
use Prim.Native.String.{count}
use shipcheck.Json.{Fields}
use shipcheck.ReleaseGate.Errors.{Error}
use shipcheck.ReleaseGate.Services.{Services}
use shipcheck.ReleaseGate.Ledger.State.{Store, Receipt}
use shipcheck.ReleaseGate.Ledger.Drafts.{Draft, append_draft, transition_draft}
use shipcheck.ReleaseGate.Ledger.Append.{
  Messages, Promote, submit, append_messages, reserved_types, append_entry, append,
}
use shipcheck.ReleaseGate.Ledger.Moves.{Request, move_type, promote}
use shipcheck.ReleaseGate.Ledger.Promote.{
  transition_messages, append_decision, plan_request, transition, plan_promotion, apply_promotion,
  verify_promotion, rollback_promotion,
}
use shipcheck.ReleaseGate.Ledger.Effects.{
  Submitted, Added, SameTables, submit-Submitted, Submitted-tables,
}

module _ (S : Services) where
  -- the rows of the promotions stay
  abbrev pub keep_rows : Promote S
  keep_rows es ps = ok ps

  -- the payload of a draft has its digest
  abbrev pub IsDigested : Draft S.Bytes → Type 0
  IsDigested d = S.sha256_hex d.payload_json ≡ d.payload_digest

  pub data Change (s u : Store S.Bytes) : Type 0 where
    none : SameTables s u → Change s u
    noted : (d : Draft S.Bytes) → IsDigested d → Added S keep_rows d s u → Change s u
    moved :
        (r : Request) (d : Draft S.Bytes)
        → IsDigested d
        → d.entry_type ≡ move_type r.move
        → Added S (promote S r) d s u
        → Change s u

  pub append_draft-IsDigested :
      (t : String) (payload : Fields) (key : String) (request : Fields) (lax : Bool) (now : String)
      → Returns IsDigested (append_draft S t payload key request lax now)
  unfolding append_draft
  append_draft-IsDigested t payload key request lax now = ground arith

  pub transition_draft-IsDigested :
      (r : Request) (now : String)
      → Returns (λ d. IsDigested d × (d.entry_type ≡ move_type r.move)) (transition_draft S r now)
  unfolding transition_draft
  transition_draft-IsDigested r now = ground arith

  -- A call is refused without an effect, or it submits a draft.
  pub data Ran (s : Store S.Bytes) (out : Result Error Receipt × Store S.Bytes) : Type 0 where
    refused : (e : Error) → out ≡ (err e, s) → Ran s out
    noting :
        (m : Messages) (lax : Bool) (d : Draft S.Bytes)
        → IsDigested d
        → out ≡ submit S m lax keep_rows d s
        → Ran s out
    moving :
        (m : Messages) (r : Request) (d : Draft S.Bytes)
        → IsDigested d
        → d.entry_type ≡ move_type r.move
        → out ≡ submit S m false (promote S r) d s
        → Ran s out

  submit-Change :
      (m : Messages) (lax : Bool) (rows : Promote S) (d : Draft S.Bytes) (s : Store S.Bytes)
      (out : Result Error Receipt × Store S.Bytes)
      → out ≡ submit S m lax rows d s
      → Added S rows d s out.1 ⊎ SameTables s out.1
  submit-Change m lax rows d s out h =
      Submitted-tables S lax rows d s out
        (subst (Submitted S lax rows d s) (sym h) (submit-Submitted S m lax rows d s))

  pub Ran-Change :
      (s : Store S.Bytes) (out : Result Error Receipt × Store S.Bytes) → Ran s out → Change s out.1
  Ran-Change s out (refused e h) = none (ap (λ p. p.1.entries) h, ap (λ p. p.1.promotions) h)
  Ran-Change s out (noting m lax d sound h) = elim (submit-Change m lax keep_rows d s out h) [
    | inl a ↦ noted d sound a
    | inr same ↦ none same
  ]
  Ran-Change s out (moving m r d sound type h) =
      elim (submit-Change m false (promote S r) d s out h) [
        | inl a ↦ moved r d sound type a
        | inr same ↦ none same
      ]

  pub append_entry-Ran :
      (t : String) (payload : Fields) (key : String) (request : Fields) (lax : Bool) (now : String)
      (s : Store S.Bytes)
      → Ran s (append_entry S t payload key request lax now s)
  unfolding append_entry
  append_entry-Ran t payload key request lax now s =
      elim (Result-cases (append_draft S t payload key request lax now)) [
        | inl (e, h) ↦ rw h (refused e refl)
        | inr (d, h) ↦ rw h (
            noting append_messages lax d
              (subst (Returns IsDigested) h (append_draft-IsDigested t payload key request lax now))
              refl)
      ]

  pub append-Ran :
      (t : String) (payload : Fields) (key : String) (request : Fields) (now : String)
      (s : Store S.Bytes)
      → Ran s (append S t payload key request now s)
  unfolding append
  append-Ran t payload key request now s = elim (Bool-cases (contains t reserved_types)) [
    | inl h ↦ rw h (refused _ refl)
    | inr h ↦ rw h (append_entry-Ran t payload key request false now s)
  ]

  pub transition-Ran :
      (r : Request) (now : String) (s : Store S.Bytes) → Ran s (transition S r now s)
  unfolding transition
  transition-Ran r now s = elim (Result-cases (transition_draft S r now)) [
    | inl (e, h) ↦ rw h (refused e refl)
    | inr (d, h) ↦
        let sound =
          subst (Returns (λ d. IsDigested d × (d.entry_type ≡ move_type r.move))) h
            (transition_draft-IsDigested r now) in
        rw h (moving transition_messages r d sound.0 sound.1 refl)
  ]

  pub append_decision-Ran :
      (d : S.Decision) (decision : Fields) (key now : String) (s : Store S.Bytes)
      → Ran s (append_decision S d decision key now s)
  unfolding append_decision
  append_decision-Ran d decision key now s = elim (Result-cases (S.decision_digest d)) [
    | inl (e, h) ↦ rw h (refused _ refl)
    | inr (digest, h) ↦ rw h (append_entry-Ran "IMPORTED_DECISION" decision key _ false now s)
  ]

  pub plan_promotion-Ran :
      (d : S.Decision) (key now : String) (s : Store S.Bytes) → Ran s (plan_promotion S d key now s)
  unfolding plan_promotion
  plan_promotion-Ran d key now s = elim (Bool-cases (S.is_production_ready d)) [
    | inr h ↦ rw h (refused _ refl)
    | inl h ↦ rw h (elim (Result-cases (S.decision_digest d)) [
      | inl (e, k) ↦ rw k (refused _ refl)
      | inr (digest, k) ↦ rw k (transition-Ran (plan_request S d digest key) now s)
    ])
  ]

  pub apply_promotion-Ran :
      (c d key : String) (token : ℕ) (now : String) (s : Store S.Bytes)
      → Ran s (apply_promotion S c d key token now s)
  unfolding apply_promotion
  apply_promotion-Ran c d key token now s = transition-Ran _ now s

  pub verify_promotion-Ran :
      (c d key : String) (token : ℕ) (now : String) (s : Store S.Bytes)
      → Ran s (verify_promotion S c d key token now s)
  unfolding verify_promotion
  verify_promotion-Ran c d key token now s = transition-Ran _ now s

  pub rollback_promotion-Ran :
      (c reason key : String) (token : ℕ) (now : String) (s : Store S.Bytes)
      → Ran s (rollback_promotion S c reason key token now s)
  unfolding rollback_promotion
  rollback_promotion-Ran c reason key token now s =
      elim (Bool-cases (is_empty reason || ltb 2000 (count reason))) [
        | inl h ↦ rw h (refused _ refl)
        | inr h ↦ rw h (transition-Ran _ now s)
      ]
