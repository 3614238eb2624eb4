-- ===== src/ReleaseGate/Ledger/Runs.antt =====
-- The calls of the ledger in any order, and what holds of every ledger that they reach.
use shipcheck.Base.{
  ℕ, String, ◌==◌, ◌≡◌, refl, sym, ap, subst, ◌⊎◌, inl, inr, Bool, true, Option, none, some, List,
  [], Bool-cases, eq_iff, arith,
}
use shipcheck.Base.Results.{ok_injective}
use shipcheck.Json.{Fields}
use shipcheck.ReleaseGate.Services.{Services}
use shipcheck.ReleaseGate.Ledger.State.{Store, Receipt, Action, find_promotion, zero_hash}
use shipcheck.ReleaseGate.Ledger.AnchorFile.{anchor_dict}
use shipcheck.ReleaseGate.Ledger.Append.{append_entry, append}
use shipcheck.ReleaseGate.Ledger.Moves.{Move}
use shipcheck.ReleaseGate.Ledger.Promote.{
  plan_promotion, apply_promotion, verify_promotion, rollback_promotion, append_decision,
}
use shipcheck.ReleaseGate.Ledger.Changes.{
  Ran, Ran-Change, Change, none, noted, moved, append_entry-Ran, append-Ran, append_decision-Ran,
  plan_promotion-Ran, apply_promotion-Ran, verify_promotion-Ran, rollback_promotion-Ran,
}
use shipcheck.ReleaseGate.Ledger.Chain.{IsChained, Change-IsChained}
use shipcheck.ReleaseGate.Ledger.Machine.{Held, Step, Stands, IsCounted, Step-IsCounted}
use shipcheck.ReleaseGate.Ledger.Refines.{promote-Step, promote-others}

module _ (S : Services) where
  -- A call with its arguments. `evaluated` is the recording of an evaluation, whose envelope and
  -- request are those of its evidence.
  pub data Call : Type 0 where
    appended : String → Fields → String → Fields → Call
    evaluated : Fields → String → Fields → Call
    imported : S.Decision → Fields → String → Call
    planned : S.Decision → String → Call
    applied verified : String → String → String → ℕ → Call
    rolled_back : String → String → String → ℕ → Call

  unfoldable pub run : Call → String → Action S Receipt
  run (appended t payload key request) now = append S t payload key request now
  run (evaluated payload key request) now =
      append_entry S "EVALUATED_DECISION" payload key request true now
  run (imported d decision key) now = append_decision S d decision key now
  run (planned d key) now = plan_promotion S d key now
  run (applied c d key token) now = apply_promotion S c d key token now
  run (verified c d key token) now = verify_promotion S c d key token now
  run (rolled_back c reason key token) now = rollback_promotion S c reason key token now

  pub run-Ran : (call : Call) (now : String) (s : Store S.Bytes) → Ran S s (run call now s)
  unfolding run
  run-Ran (appended t payload key request) now s = append-Ran S t payload key request now s
  run-Ran (evaluated payload key request) now s =
      append_entry-Ran S "EVALUATED_DECISION" payload key request true now s
  run-Ran (imported d decision key) now s = append_decision-Ran S d decision key now s
  run-Ran (planned d key) now s = plan_promotion-Ran S d key now s
  run-Ran (applied c d key token) now s = apply_promotion-Ran S c d key token now s
  run-Ran (verified c d key token) now s = verify_promotion-Ran S c d key token now s
  run-Ran (rolled_back c reason key token) now s = rollback_promotion-Ran S c reason key token now s

  run-Change : (call : Call) (now : String) (s : Store S.Bytes) → Change S s (run call now s).1
  run-Change call now s = Ran-Change S s (run call now s) (run-Ran call now s)

  -- a ledger that `_initialize` has made
  abbrev pub new_ledger : List Bool → Store S.Bytes
  new_ledger answers = record {
    entries = [];
    promotions = [];
    anchor = some (some (anchor_dict 0 zero_hash));
    answers = answers;
  }

  -- the ledgers that calls reach, also calls that raise, whatever commits and writes were refused
  pub data Reachable : Store S.Bytes → Type 0 where
    opened : (answers : List Bool) → Reachable (new_ledger answers)
    called :
        (s : Store S.Bytes) (call : Call) (now : String)
        → Reachable s
        → Reachable (run call now s).1

  -- Every ledger that calls reach is chained: the sequences count the entries from 1, each entry names
  -- the hash of the one before, and has the hash of its body and the digest of its payload.
  pub Reachable-IsChained : (s : Store S.Bytes) → Reachable s → IsChained S s.entries
  Reachable-IsChained s (opened answers) = tt
  Reachable-IsChained s (called t call now h) =
      Change-IsChained S t _ (run-Change call now t) (Reachable-IsChained t h)

  -- a row behind a change stands for the same state, or for the one behind a step
  abbrev pub Follows : String → Option Held → Store S.Bytes → Type 0
  Follows c a u =
      (b : Option Held) × ((b ≡ a) ⊎ ((m : Move) × Step m a b))
      × Stands (find_promotion c u.promotions) b

  stays :
      (c : String) (a : Option Held) (s u : Store S.Bytes)
      → Stands (find_promotion c s.promotions) a
      → find_promotion c u.promotions ≡ find_promotion c s.promotions
      → Follows c a u
  stays c a s u st same = (a, inl refl, subst (λ o. Stands o a) (sym same) st)

  Change-Follows :
      (s u : Store S.Bytes)
      → Change S s u
      → (c : String) (a : Option Held) → Stands (find_promotion c s.promotions) a
      → Follows c a u
  Change-Follows s u (none same) c a st = stays c a s u st (ap (find_promotion c) same.1)
  Change-Follows s u (noted d sound added) c a st =
      stays c a s u st (ap (find_promotion c) (sym (ok_injective added.promoted)))
  Change-Follows s u (moved r d sound type added) c a st = elim (Bool-cases (c == r.candidate)) [
    | inl h ↦
        let same : c ≡ r.candidate = ground (arith, eq_iff c r.candidate) in
        let (b, step, after) =
          promote-Step S r s.entries s.promotions a
            (subst (λ x. Stands (find_promotion x s.promotions) a) same st) u.promotions
            added.promoted in
        (
          b,
          inr (r.move, step),
          subst (λ x. Stands (find_promotion x u.promotions) b) (sym same) after,
        )
    | inr h ↦ stays c a s u st (
        promote-others S r s.entries s.promotions u.promotions added.promoted c
          (λ e. ground (arith, eq_iff c r.candidate)))
  ]

  -- A call leaves the promotion of every candidate in its state, or takes it one step of the machine:
  -- a plan where there was none, or a move that the phase allows, with the next token.
  pub run-Step :
      (call : Call) (now : String) (s : Store S.Bytes) (c : String) (a : Option Held)
      → Stands (find_promotion c s.promotions) a
      → Follows c a (run call now s).1
  run-Step call now s c a st = Change-Follows s _ (run-Change call now s) c a st

  -- Every row of a ledger that calls reach stands for a state of the machine whose token counts the
  -- moves: 1 behind a plan, 2 behind an application, 3 behind a verification, and 3 or 4 behind a
  -- rollback.
  pub Reachable-IsCounted :
      (s : Store S.Bytes)
      → Reachable s
      → (c : String) → (a : Option Held) × Stands (find_promotion c s.promotions) a × IsCounted a
  Reachable-IsCounted s (opened answers) c = (none, tt, tt)
  Reachable-IsCounted s (called t call now h) c =
      let (a, st, counted) = Reachable-IsCounted t h c in
      let (b, follows, after) = run-Step call now t c a st in
      (
        b,
        after,
        elim follows [
          | inl same ↦ subst IsCounted (sym same) counted
          | inr (m, step) ↦ Step-IsCounted m a b step counted
        ],
      )
