-- ===== src/ReleaseGate/Ledger/Machine.antt =====
-- The promotion of one candidate as a state machine, and the rows of `promotion_state` that stand for
-- its states.
use shipcheck.Base.{ℕ, suc, String, ◌≡◌, refl, ap, ◌⊎◌, inl, inr, Option, none, some}
use shipcheck.ReleaseGate.Ledger.State.{Promotion}
use shipcheck.ReleaseGate.Ledger.Moves.{Move, plan, apply, verify, rollback}

pub data Phase : Type 0 where
  planned applied verified rolled_back : Phase

abbrev pub phase_value : Phase → String
phase_value planned = "PLANNED"
phase_value applied = "APPLIED"
phase_value verified = "VERIFIED"
phase_value rolled_back = "ROLLED_BACK"

-- a phase, its fencing token, and the digest of the decision that was planned
pub record Held : Type 0 where
  pub phase : Phase
  pub token : ℕ
  pub decision : String

-- A plan is the first move of a candidate. Every later move raises the token by one and keeps the
-- decision, and nothing follows a rollback.
pub data Step : Move → Option Held → Option Held → Type 0 where
  to_planned :
      {d : String} → Step plan none (some (record { phase = planned; token = 1; decision = d }))
  to_applied :
      {n : ℕ} {d : String}
      → Step apply
          (some (record { phase = planned; token = n; decision = d }))
          (some (record { phase = applied; token = suc n; decision = d }))
  to_verified :
      {n : ℕ} {d : String}
      → Step verify
          (some (record { phase = applied; token = n; decision = d }))
          (some (record { phase = verified; token = suc n; decision = d }))
  undo_applied :
      {n : ℕ} {d : String}
      → Step rollback
          (some (record { phase = applied; token = n; decision = d }))
          (some (record { phase = rolled_back; token = suc n; decision = d }))
  undo_verified :
      {n : ℕ} {d : String}
      → Step rollback
          (some (record { phase = verified; token = n; decision = d }))
          (some (record { phase = rolled_back; token = suc n; decision = d }))

-- the row of a candidate stands for a state
abbrev pub Stands : Option Promotion → Option Held → Type 0
Stands none none = Unit
Stands (some p) (some h) =
    (p.state ≡ phase_value h.phase) × (p.fencing_token ≡ h.token) × (p.decision_digest ≡ h.decision)
Stands _ _ = ⊥

abbrev Counts : Phase → ℕ → Type 0
Counts planned n = n ≡ 1
Counts applied n = n ≡ 2
Counts verified n = n ≡ 3
Counts rolled_back n = (n ≡ 3) ⊎ (n ≡ 4)

-- The token tells how many moves were made.
abbrev pub IsCounted : Option Held → Type 0
IsCounted none = Unit
IsCounted (some h) = Counts h.phase h.token

pub Step-IsCounted : (m : Move) (a b : Option Held) → Step m a b → IsCounted a → IsCounted b
Step-IsCounted m a b to_planned h = refl
Step-IsCounted m a b to_applied h = ap suc h
Step-IsCounted m a b to_verified h = ap suc h
Step-IsCounted m a b undo_applied h = inl (ap suc h)
Step-IsCounted m a b undo_verified h = inr (ap suc h)
