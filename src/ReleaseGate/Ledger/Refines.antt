-- ===== src/ReleaseGate/Ledger/Refines.antt =====
-- The rows of `promotion_state` follow the machine.
use shipcheck.Base.{
  ℕ, suc, String, ◌≡◌, refl, sym, ap, subst, ◌∙◌, ◌≢◌, Bool, true, false, Option, none, some, List,
  [], ◌∷◌, ok, arith, eq_iff, eq_refl,
}
use shipcheck.Base.Results.{>>=-eq-ok, ok_injective}
use shipcheck.Base.Texts.{contains}
use shipcheck.ReleaseGate.Services.{Services}
use shipcheck.ReleaseGate.Ledger.State.{
  Entry, Promotion, find_promotion, put_promotion, tail_sequence,
}
use shipcheck.ReleaseGate.Ledger.Moves.{
  expected_states, planned_row, moved_row, move_target, find_registered, check_registered, Move,
  Request, plan, apply, verify, rollback, move_row, plan_row, next_row, row_by, promote,
}
use shipcheck.ReleaseGate.Ledger.Machine.{
  Held, Step, Stands, Phase, planned, applied, verified, rolled_back, phase_value, to_planned,
  to_applied, to_verified, undo_applied, undo_verified,
}

pub find-put_promotion :
    (p : Promotion) (ps : List Promotion)
    → find_promotion p.candidate_digest (put_promotion p ps) ≡ some p
find-put_promotion p [] = ground (arith, eq_refl p.candidate_digest)
find-put_promotion p (q ∷ ps) = ground (arith, eq_refl p.candidate_digest, find-put_promotion p ps)

find-put_other :
    (c : String) (p : Promotion) (ps : List Promotion)
    → c ≢ p.candidate_digest
    → find_promotion c (put_promotion p ps) ≡ find_promotion c ps
find-put_other c p [] h = ground (arith, eq_iff p.candidate_digest c)
find-put_other c p (q ∷ ps) h = ground (
  arith,
  eq_iff p.candidate_digest c,
  eq_iff q.candidate_digest c,
  eq_iff q.candidate_digest p.candidate_digest,
  find-put_other c p ps h,
)

-- a row that a move returned stands for the state behind its step
abbrev Moved : Request → Move → Option Held → Promotion → Type 0
Moved r m a row =
    (row.candidate_digest ≡ r.candidate) × ((b : Option Held) × Step m a b × Stands (some row) b)

planned_row-Moved : (r : Request) (n : ℕ) → r.move ≡ plan → Moved r plan none (planned_row r n)
planned_row-Moved r n h = (
  refl,
  (
    some (record { phase = planned; token = 1; decision = r.decision }),
    to_planned,
    (ap move_target h, refl, refl),
  ),
)

plan_row-Moved :
    (S : Services) (r : Request) (n : ℕ) (es : List (Entry S.Bytes)) (old : Option Promotion)
    (a : Option Held)
    → r.move ≡ plan
    → Stands old a
    → (row : Promotion) → plan_row S r es old n ≡ ok row
    → Moved r plan a row
unfolding plan_row
plan_row-Moved S r n es none none hm h row e =
    let (d, _, rest) = >>=-eq-ok (find_registered S r.decision es) _ e in
    let (_, _, done) = >>=-eq-ok (check_registered S r d) _ rest in
    subst (Moved r plan none) (ok_injective done) (planned_row-Moved r n hm)
plan_row-Moved S r n es (some p) a hm h row e = absurd cc
plan_row-Moved S r n es none (some a) hm h row e = absurd h

pub move_row-tests :
    (r : Request) (states : List String) (p : Promotion) (n : ℕ) (row : Promotion)
    → move_row r states (some p) n ≡ ok row
    → (contains p.state states ≡ true)
      × (p.fencing_token ≡ r.token)
      × (p.decision_digest ≡ r.decision)
      × (row ≡ moved_row r p n)
unfolding move_row
move_row-tests r states p n row e = ground (arith, eq_iff p.decision_digest r.decision)

-- whether a move may follow a phase
abbrev allows : Move → Phase → Bool
allows m q = elim (expected_states m) [
  | none ↦ false
  | some states ↦ contains (phase_value q) states
]

-- the step of a move that may follow a phase
allows-Step :
    (m : Move) (q : Phase) (t : ℕ) (d : String)
    → allows m q ≡ true
    → (b : Phase) × (move_target m ≡ phase_value b)
      × Step m
          (some (record { phase = q; token = t; decision = d }))
          (some (record { phase = b; token = suc t; decision = d }))
allows-Step apply planned t d h = (applied, refl, to_applied)
allows-Step verify applied t d h = (verified, refl, to_verified)
allows-Step rollback applied t d h = (rolled_back, refl, undo_applied)
allows-Step rollback verified t d h = (rolled_back, refl, undo_verified)
allows-Step apply applied t d h = absurd cc
allows-Step apply verified t d h = absurd cc
allows-Step apply rolled_back t d h = absurd cc
allows-Step verify planned t d h = absurd cc
allows-Step verify verified t d h = absurd cc
allows-Step verify rolled_back t d h = absurd cc
allows-Step rollback planned t d h = absurd cc
allows-Step rollback rolled_back t d h = absurd cc
allows-Step plan q t d h = absurd cc

move_row-Moved :
    (m : Move) (r : Request) (states : List String) (old : Option Promotion) (n : ℕ)
    (a : Option Held) (row : Promotion)
    → r.move ≡ m
    → expected_states m ≡ some states
    → Stands old a
    → move_row r states old n ≡ ok row
    → Moved r m a row
unfolding move_row
move_row-Moved m r states none n a row hm he stands e = absurd cc
move_row-Moved m r states (some p) n none row hm he stands e = absurd stands
move_row-Moved m r states (some p) n (some h) row hm he stands e =
    let (listed, same_token, same_decision, is_row) = move_row-tests r states p n row e in
    let (b, target, step) = allows-Step m h.phase h.token h.decision (
      ap (λ o. elim o [ none ↦ false | some l ↦ contains (phase_value h.phase) l ]) he
      ∙ subst (λ t. contains t states ≡ true) stands.0 listed) in
    subst (Moved r m (some h)) (sym is_row) (
      refl,
      (
        some (record { phase = b; token = suc h.token; decision = h.decision }),
        step,
        (
          ap move_target hm ∙ target,
          ap suc (sym same_token ∙ stands.1),
          sym same_decision ∙ stands.2,
        ),
      ),
    )

-- A move leaves the rows of the other candidates.
pub row_by-candidate :
    (S : Services) (r : Request) (es : List (Entry S.Bytes)) (old : Option Promotion) (n : ℕ)
    (states : Option (List String)) (row : Promotion)
    → row_by S r es old n states ≡ ok row
    → row.candidate_digest ≡ r.candidate
unfolding plan_row move_row
row_by-candidate S r es (some p) n none row e = absurd cc
row_by-candidate S r es none n none row e =
    let (d, _, rest) = >>=-eq-ok (find_registered S r.decision es) _ e in
    let (_, _, done) = >>=-eq-ok (check_registered S r d) _ rest in
    sym (ap (λ (p : Promotion). p.candidate_digest) (ok_injective done))
row_by-candidate S r es none n (some states) row e = absurd cc
row_by-candidate S r es (some p) n (some states) row e =
    ap (λ (p : Promotion). p.candidate_digest) (move_row-tests r states p n row e).3

pub promote-others :
    (S : Services) (r : Request) (es : List (Entry S.Bytes)) (ps qs : List Promotion)
    → promote S r es ps ≡ ok qs
    → (c : String) → c ≢ r.candidate
    → find_promotion c qs ≡ find_promotion c ps
unfolding promote next_row
promote-others S r es ps qs e c other =
    let (row, hrow, done) = >>=-eq-ok (next_row S r es ps) _ e in
    let same = row_by-candidate S r es _ _ _ row hrow in
    ap (find_promotion c) (sym (ok_injective done))
    ∙ find-put_other c row ps (subst (λ x. c ≢ x) (sym same) other)

module _ (S : Services) (r : Request) (es : List (Entry S.Bytes)) (ps : List Promotion)
    (a : Option Held) (stands : Stands (find_promotion r.candidate ps) a) where
  -- the row as the move decides it
  row_by-next_row :
      (m : Move) (row : Promotion)
      → r.move ≡ m
      → next_row S r es ps ≡ ok row
      → row_by S r es (find_promotion r.candidate ps) (suc (tail_sequence es)) (expected_states m)
        ≡ ok row
  unfolding next_row
  row_by-next_row m row hm e =
      subst
        (λ k.
          row_by S r es (find_promotion r.candidate ps) (suc (tail_sequence es)) (expected_states k)
          ≡ ok row)
        hm e

  next_row-Moved :
      (m : Move) (row : Promotion) → r.move ≡ m → next_row S r es ps ≡ ok row → Moved r m a row
  next_row-Moved plan row hm e =
      plan_row-Moved S r _ es _ a hm stands row (row_by-next_row plan row hm e)
  next_row-Moved apply row hm e =
      move_row-Moved apply r _ _ _ a row hm refl stands (row_by-next_row apply row hm e)
  next_row-Moved verify row hm e =
      move_row-Moved verify r _ _ _ a row hm refl stands (row_by-next_row verify row hm e)
  next_row-Moved rollback row hm e =
      move_row-Moved rollback r _ _ _ a row hm refl stands (row_by-next_row rollback row hm e)

  -- A move takes the step of its candidate.
  pub promote-Step :
      (qs : List Promotion)
      → promote S r es ps ≡ ok qs
      → (b : Option Held) × Step r.move a b × Stands (find_promotion r.candidate qs) b
  unfolding promote
  promote-Step qs e =
      let (row, hrow, done) = >>=-eq-ok (next_row S r es ps) _ e in
      let (same, (b, step, st)) = next_row-Moved r.move row refl hrow in
      let found =
        ap (λ c. find_promotion c (put_promotion row ps)) (sym same) ∙ find-put_promotion row ps in
      (
        b,
        step,
        subst (λ l. Stands (find_promotion r.candidate l) b) (ok_injective done)
            (subst (λ o. Stands o b) (sym found) st),
      )
