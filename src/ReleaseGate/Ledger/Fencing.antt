-- ===== src/ReleaseGate/Ledger/Fencing.antt =====
-- The fencing token of a promotion.
use shipcheck.Base.{
  ℕ, suc, String, false, ◌≡◌, ◌≢◌, refl, sym, ap, subst, ◌∙◌, Option, none, some, List, ok, arith,
  inl, inr, ◌⊎◌,
}
use shipcheck.Base.Results.{Result-cases, >>=-eq-ok, ok_injective}
use shipcheck.ReleaseGate.Services.{Services}
use shipcheck.ReleaseGate.Ledger.State.{
  Entry, Promotion, Store, find_promotion, put_promotion, tail_sequence,
}
use shipcheck.ReleaseGate.Ledger.Drafts.{Draft, transition_draft}
use shipcheck.ReleaseGate.Ledger.Append.{submit}
use shipcheck.ReleaseGate.Ledger.Moves.{
  Request, expected_states, row_by, next_row, plan_row, move_row, promote,
}
use shipcheck.ReleaseGate.Ledger.Promote.{transition_messages, transition}
use shipcheck.ReleaseGate.Ledger.Effects.{Added, SameTables, Submitted-tables, submit-Submitted}
use shipcheck.ReleaseGate.Ledger.Refines.{move_row-tests, row_by-candidate, find-put_promotion}

module _ (S : Services) where
  -- a transition leaves the tables, or it adds an entry with the row of its move
  transition-tables :
      (r : Request) (now : String) (s : Store S.Bytes)
      → ((d : Draft S.Bytes) × Added S (promote S r) d s (transition S r now s).1)
        ⊎ SameTables s (transition S r now s).1
  unfolding transition
  transition-tables r now s = elim (Result-cases (transition_draft S r now)) [
    | inl (e, h) ↦ rw h (inr (refl, refl))
    | inr (d, h) ↦
        rw h
          (elim (Submitted-tables S false (promote S r) d s
            (submit S transition_messages false (promote S r) d s)
            (submit-Submitted S transition_messages false (promote S r) d s)) [
              | inl a ↦ inl (d, a)
              | inr same ↦ inr same
            ])
  ]

  -- the row of a candidate that has a promotion is written only with its token
  row_by-token :
      (r : Request) (es : List (Entry S.Bytes)) (p : Promotion) (n : ℕ)
      (states : Option (List String)) (row : Promotion)
      → row_by S r es (some p) n states ≡ ok row
      → p.fencing_token ≡ r.token
  unfolding plan_row
  row_by-token r es p n none row e = absurd cc
  row_by-token r es p n (some states) row e = (move_row-tests r states p n row e).1

  promote-token :
      (r : Request) (es : List (Entry S.Bytes)) (ps qs : List Promotion) (p : Promotion)
      → find_promotion r.candidate ps ≡ some p
      → promote S r es ps ≡ ok qs
      → p.fencing_token ≡ r.token
  unfolding promote next_row
  promote-token r es ps qs p found e =
      let (row, hrow, _) = >>=-eq-ok (next_row S r es ps) _ e in
      row_by-token r es p _ _ row (
        subst (λ o. row_by S r es o (suc (tail_sequence es)) (expected_states r.move) ≡ ok row)
          found hrow)

  -- A move with a token that is not the one of the candidate's row changes no table.
  transition-stale :
      (r : Request) (now : String) (s : Store S.Bytes) (p : Promotion)
      → find_promotion r.candidate s.promotions ≡ some p
      → p.fencing_token ≢ r.token
      → SameTables s (transition S r now s).1
  transition-stale r now s p found other = elim (transition-tables r now s) [
    | inl (d, a) ↦ absurd (other (promote-token r s.entries s.promotions _ p found a.promoted))
    | inr same ↦ same
  ]

  row_by-next :
      (r : Request) (es : List (Entry S.Bytes)) (old : Option Promotion) (n : ℕ)
      (states : List String) (row : Promotion)
      → row_by S r es old n (some states) ≡ ok row
      → row.fencing_token ≡ suc r.token
  unfolding move_row
  row_by-next r es none n states row e = absurd cc
  row_by-next r es (some p) n states row e =
      ap (λ (x : Promotion). x.fencing_token) (move_row-tests r states p n row e).3

  promote-next :
      (r : Request) (es : List (Entry S.Bytes)) (ps qs : List Promotion) (states : List String)
      → expected_states r.move ≡ some states
      → promote S r es ps ≡ ok qs
      → (p : Promotion) × (find_promotion r.candidate qs ≡ some p) × (p.fencing_token ≡ suc r.token)
  unfolding promote next_row
  promote-next r es ps qs states he e =
      let (row, hrow, done) = >>=-eq-ok (next_row S r es ps) _ e in
      let same = row_by-candidate S r es _ _ _ row hrow in
      (
        row,
        ap (find_promotion r.candidate) (sym (ok_injective done))
            ∙ ap (λ c. find_promotion c (put_promotion row ps)) (sym same)
            ∙ find-put_promotion row ps,
        row_by-next r es _ _ states row (
            subst
              (λ o.
                row_by S r es (find_promotion r.candidate ps) (suc (tail_sequence es)) o ≡ ok row)
              he hrow),
      )

  -- Of two moves of a candidate with one token, where the first is no plan, at most one is recorded:
  -- if the first adds an entry, the second changes no table.
  pub transition-fenced :
      (q r : Request) (now later : String) (s : Store S.Bytes) (states : List String)
      → expected_states q.move ≡ some states
      → r.candidate ≡ q.candidate
      → r.token ≡ q.token
      → (transition S q now s).1.entries ≢ s.entries
      → let u = (transition S q now s).1 in SameTables u (transition S r later u).1
  transition-fenced q r now later s states he hc ht grown = elim (transition-tables q now s) [
    | inr same ↦ absurd (grown same.0)
    | inl (d, a) ↦
        let (p, found, next) = promote-next q s.entries s.promotions _ states he a.promoted in
        transition-stale r later (transition S q now s).1 p
          (subst (λ c. find_promotion c (transition S q now s).1.promotions ≡ some p) (sym hc)
            found)
          (λ e. omega (arith, next, e, ht))
  ]
