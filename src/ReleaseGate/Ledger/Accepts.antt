-- ===== src/ReleaseGate/Ledger/Accepts.antt =====
-- What a ledger that `verify` accepts is like.
use shipcheck.Base.{
  ℕ, ◌≤◌, String, ◌≡◌, refl, sym, ap, ◌∙◌, any, Bool-cases, Bool, true, false, not, Option, none,
  some, List, [], ◌∷◌, length, ok, err, arith, eq_iff, ◌⊎◌, inl, inr, eqb, ltb,
}
use shipcheck.ReleaseGate.Errors.{Error, type_error, Checked}
use shipcheck.Base.Results.{ok_injective}
use shipcheck.ReleaseGate.Services.{Services}
use shipcheck.ReleaseGate.Ledger.State.{
  Entry, Store, tail_sequence, tail_hash, zero_hash, find_sequence,
}
use shipcheck.ReleaseGate.Ledger.AnchorFile.{anchor_of, anchored_hash}
use shipcheck.ReleaseGate.Ledger.Faults.{
  Fault, has_escaped, fault_if, database, foreign_keys, states,
}
use shipcheck.ReleaseGate.Ledger.Rows.{check_rows}
use shipcheck.ReleaseGate.Ledger.Verify.{
  same_states, older_faults, anchor_faults, anchor_check, errors_of, verify, verification,
  Verification,
}
use shipcheck.ReleaseGate.Ledger.Chain.{IsChained}
use shipcheck.ReleaseGate.Ledger.Synced.{IsAnchored}
use shipcheck.ReleaseGate.Ledger.Sound.{IsClean, append-eq-nil, fault_if-eq-nil, check_rows-IsClean}

-- an anchor behind the tail that has no fault
older_faults-eq-nil :
    {B : Type 0} (o : Option (Entry B)) (h : String)
    → older_faults o h ≡ []
    → h ≡ elim o [ none ↦ "" | some e ↦ e.entry_hash ]
older_faults-eq-nil none h e = absurd cc
older_faults-eq-nil (some x) h e = ground (arith, e, eq_iff h x.entry_hash)

anchor_faults-eq-nil :
    {B : Type 0} (es : List (Entry B)) (last : String) (n : ℕ) (h : String)
    → last ≡ tail_hash es
    → anchor_faults es last n h ≡ []
    → (n ≤ tail_sequence es) × (h ≡ anchored_hash n es)
unfolding anchor_faults
anchor_faults-eq-nil es last n h same e = (
  ground arith,
  ground (arith, eq_iff h last, eq_iff h zero_hash, older_faults-eq-nil (find_sequence n es) h),
)

module _ (S : Services) where
  -- no anchor and no entry, or an anchor that names an entry or the start
  abbrev pub IsHeld : Store S.Bytes → Type 0
  IsHeld s = IsAnchored S s ⊎ ((anchor_of s.anchor ≡ ok none) × (s.entries ≡ []))

  anchor_check-eq-nil :
      (s : Store S.Bytes) (last : String) (r : Checked (Option (ℕ × String)))
      → IsChained S s.entries
      → last ≡ tail_hash s.entries
      → anchor_of s.anchor ≡ r
      → anchor_check S s.entries last r ≡ []
      → IsHeld s
  unfolding anchor_check
  anchor_check-eq-nil s last (err x) chained same read h = absurd cc
  anchor_check-eq-nil s last (ok none) chained same read h =
      inr (read, empty s.entries chained (fault_if-eq-nil _ _ h))
    where
      empty :
          (es : List (Entry S.Bytes)) → IsChained S es → ltb 0 (tail_sequence es) ≡ false → es ≡ []
      empty [] c e = refl
      empty (x ∷ es) c e = absurd (ground (arith, c.0))
  anchor_check-eq-nil s last (ok (some (n, g))) chained same read h =
      let (le, fits) = anchor_faults-eq-nil s.entries last n g same h in inl (n, g, read, le, fits)

  no_errors : (fs : List Fault) → eqb (length fs) 0 ≡ true → fs ≡ []
  no_errors [] e = refl
  no_errors (f ∷ fs) e = absurd (ground arith)

  negated : (b : Bool) → not b ≡ false → b ≡ true
  negated b e = ground arith

  -- the loop found nothing where `verify` accepts
  verified-IsClean :
      (integrity foreign : Bool) (s : Store S.Bytes)
      → errors_of S integrity foreign s ≡ []
      → IsClean S s.entries (check_rows S s.entries)
  unfolding errors_of
  verified-IsClean integrity foreign s h =
      let (h0, r0) = append-eq-nil (fault_if (not integrity) database) _ h in
      let (h1, r1) = append-eq-nil (fault_if (not foreign) foreign_keys) _ r0 in
      check_rows-IsClean S s.entries (append-eq-nil (check_rows S s.entries).faults _ r1).0

  pub verified-tail_hash :
      (integrity foreign : Bool) (s : Store S.Bytes)
      → (verification S integrity foreign s).is_ok ≡ true
      → (verification S integrity foreign s).tail_hash ≡ tail_hash s.entries
  verified-tail_hash integrity foreign s h =
      (verified-IsClean integrity foreign s (no_errors (errors_of S integrity foreign s) h)).at_tail

  -- what `verify` returns
  verify-returns :
      (integrity foreign : Bool) (s : Store S.Bytes)
      → any has_escaped (check_rows S s.entries).faults ≡ false
      → verify S integrity foreign s ≡ ok (verification S integrity foreign s)
  unfolding verify
  verify-returns integrity foreign s b = rw b refl

  verify-raises :
      (integrity foreign : Bool) (s : Store S.Bytes)
      → any has_escaped (check_rows S s.entries).faults ≡ true
      → (e : Error) × (verify S integrity foreign s ≡ err e)
  unfolding verify
  verify-raises integrity foreign s b = (type_error "unhashable type", rw b refl)

  pub verify-verification :
      (integrity foreign : Bool) (s : Store S.Bytes) (v : Verification)
      → verify S integrity foreign s ≡ ok v
      → verification S integrity foreign s ≡ v
  verify-verification integrity foreign s v e =
      elim (Bool-cases (any has_escaped (check_rows S s.entries).faults)) [
        | inl b ↦
            let (x, raised) = verify-raises integrity foreign s b in
            let clash : ◌≡◌ {A = Checked Verification} (err x) (ok v) = sym raised ∙ e in absurd cc
        | inr b ↦ ok_injective (sym (verify-returns integrity foreign s b) ∙ e)
      ]

  pub verify-IsChained :
      (integrity foreign : Bool) (s : Store S.Bytes) (v : Verification)
      → verify S integrity foreign s ≡ ok v
      → v.is_ok ≡ true
      → IsChained S s.entries
        × IsHeld s
        × (same_states s.promotions (check_rows S s.entries).derived ≡ true)
  unfolding errors_of
  verify-IsChained integrity foreign s v returned accepted =
      let h =
        ap (λ (x : Verification). x.is_ok) (verify-verification integrity foreign s v returned)
        ∙ accepted in
      let none_found = no_errors (errors_of S integrity foreign s) h in
      let (h0, r0) = append-eq-nil (fault_if (not integrity) database) _ none_found in
      let (h1, r1) = append-eq-nil (fault_if (not foreign) foreign_keys) _ r0 in
      let (h2, r2) = append-eq-nil (check_rows S s.entries).faults _ r1 in
      let (h3, h4) =
        append-eq-nil
          (fault_if (not (same_states s.promotions (check_rows S s.entries).derived)) states) _
          r2 in
      let c = check_rows-IsClean S s.entries h2 in
      (
        c.chained,
        anchor_check-eq-nil s _ (anchor_of s.anchor) c.chained c.at_tail refl h4,
        negated (same_states s.promotions (check_rows S s.entries).derived)
            (fault_if-eq-nil _ _ h3),
      )
