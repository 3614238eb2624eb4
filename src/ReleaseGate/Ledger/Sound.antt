-- ===== src/ReleaseGate/Ledger/Sound.antt =====
-- What `verify` accepts.
use shipcheck.Base.{
  ℕ, suc, ◌<◌, String, ◌==◌, ◌≡◌, refl, sym, ap, subst, ◌∙◌, Bool, true, false, not, List, [], ◌∷◌,
  ◌++◌, length, leb, eqb, ok, err, arith, eq_iff, inl, inr,
}
use shipcheck.Base.Results.{Result-cases}
use shipcheck.ReleaseGate.Errors.{Error}
use shipcheck.ReleaseGate.Services.{Services}
use shipcheck.ReleaseGate.Ledger.State.{Entry, tail_hash, hash_of}
use shipcheck.ReleaseGate.Ledger.Faults.{
  previous_hash, sequence_gap, invalid_sequence, Fault, fault_if, is_bad_column, clean,
}
use shipcheck.ReleaseGate.Ledger.Rows.{
  check_row, check_rows, chain_faults, column_faults, payload_faults, hash_faults, hash_check,
  cleaned, named_sequence,
}
use shipcheck.ReleaseGate.Ledger.Derive.{Run}
use shipcheck.ReleaseGate.Ledger.Chain.{IsChained}

pub append-eq-nil : (xs ys : List Fault) → xs ++ ys ≡ [] → (xs ≡ []) × (ys ≡ [])
append-eq-nil [] ys h = (refl, h)
append-eq-nil (x ∷ xs) ys h = absurd cc

pub fault_if-eq-nil : (b : Bool) (f : Fault) → fault_if b f ≡ [] → b ≡ false
fault_if-eq-nil false f h = refl
fault_if-eq-nil true f h = absurd cc

clean-eq : (t : String) → is_bad_column t ≡ false → clean t ≡ t
clean-eq t h = rw h refl

faults_of-eq-nil :
    (a b c d e f g : Bool) (u v w x y z t : Fault)
    → fault_if a u
        ++ (fault_if b v
            ++ (fault_if c w ++ (fault_if d x ++ (fault_if e y ++ (fault_if f z ++ fault_if g t)))))
      ≡ []
    → (a ≡ false)
      × (b ≡ false)
      × (c ≡ false)
      × (d ≡ false)
      × (e ≡ false)
      × (f ≡ false)
      × (g ≡ false)
faults_of-eq-nil a b c d e f g u v w x y z t h = ground arith

module _ (S : Services) where
  -- the columns of a row without a fault are taken as they are
  cleaned-eq :
      (n : ℕ) (e : Entry S.Bytes) → column_faults S n e ≡ [] → e.sequence ≡ n → cleaned S n e ≡ e
  cleaned-eq n e h same =
      let (k, r, t, p, q, x, c) =
        faults_of-eq-nil (is_bad_column e.key_digest) (is_bad_column e.request_digest)
          (is_bad_column e.entry_type) (is_bad_column e.payload_digest)
          (is_bad_column e.previous_hash) (is_bad_column e.entry_hash) (is_bad_column e.created_at)
          _ _ _ _ _ _ _ h in
      λ i. record {
        sequence = sym same i;
        key_digest = clean-eq e.key_digest k i;
        request_digest = clean-eq e.request_digest r i;
        entry_type = clean-eq e.entry_type t i;
        payload_json = e.payload_json;
        payload_digest = clean-eq e.payload_digest p i;
        previous_hash = clean-eq e.previous_hash q i;
        entry_hash = clean-eq e.entry_hash x i;
        created_at = clean-eq e.created_at c i;
      }

  text-eq : (t u : String) → not (u == t) ≡ false → t ≡ u
  text-eq t u h = ground (arith, h, eq_iff u t)

  number-eq : (m n : ℕ) → not (eqb m n) ≡ false → m ≡ n
  number-eq m n h = ground arith

  named-eq :
      (p : Run S) (e : Entry S.Bytes)
      → not (leb 1 e.sequence) ≡ false
      → e.sequence ≡ named_sequence S p e
  named-eq p e h = ground arith

  hash_check-err : (e : Entry S.Bytes) (x : Error) → ¬ (hash_check S e (err x) ≡ [])
  hash_check-err e x h = cc

  -- what a row without a fault of the chain has
  record IsLinked (p : Run S) (e : Entry S.Bytes) : Type 0 where
    numbered : e.sequence ≡ p.expected
    linked : e.previous_hash ≡ p.previous
    digested : S.sha256_hex e.payload_json ≡ e.payload_digest
    hashed : hash_of S e ≡ ok e.entry_hash
    kept : clean e.entry_hash ≡ e.entry_hash

  payload_faults-eq-nil :
      (e : Entry S.Bytes) → payload_faults S e ≡ [] → S.sha256_hex e.payload_json ≡ e.payload_digest
  payload_faults-eq-nil e h =
      let same =
        fault_if-eq-nil _ _
          (append-eq-nil (fault_if (not (S.sha256_hex e.payload_json == e.payload_digest)) _) _
            h).0 in
      ground (arith, same, eq_iff (S.sha256_hex e.payload_json) e.payload_digest)

  hash_faults-eq-nil : (e : Entry S.Bytes) → hash_faults S e ≡ [] → hash_of S e ≡ ok e.entry_hash
  hash_faults-eq-nil e h = elim (Result-cases (hash_of S e)) [
    | inl (x, k) ↦ absurd (hash_check-err e x (subst (λ r. hash_check S e r ≡ []) k h))
    | inr (t, k) ↦
        let good = fault_if-eq-nil _ _ (subst (λ r. hash_check S e r ≡ []) k h) in
        k ∙ ap ok (text-eq t e.entry_hash good)
  ]

  -- a row of a run without a fault
  checked-IsLinked :
      (p : Run S) (e : Entry S.Bytes) → 0 < p.expected → chain_faults S p e ≡ [] → IsLinked p e
  checked-IsLinked p e start h =
      let n = named_sequence S p e in
      let (h0, r0) = append-eq-nil (fault_if (not (leb 1 e.sequence)) invalid_sequence) _ h in
      let (h1, r1) = append-eq-nil (column_faults S n e) _ r0 in
      let (h2, r2) =
        append-eq-nil (fault_if (not (eqb n p.expected)) (sequence_gap p.expected)) _ r1 in
      let (h3, r3) =
        append-eq-nil (fault_if (not (clean e.previous_hash == p.previous)) (previous_hash n)) _
          r2 in
      let (h4, h5) =
        append-eq-nil (payload_faults S (cleaned S n e)) (hash_faults S (cleaned S n e)) r3 in
      let named : e.sequence ≡ n = named-eq p e (fault_if-eq-nil _ _ h0) in
      let same = cleaned-eq n e h1 named in
      record {
        numbered = named ∙ number-eq n p.expected (fault_if-eq-nil _ _ h2);
        linked =
            ap (λ (x : Entry S.Bytes). x.previous_hash) (sym same)
            ∙ sym (text-eq p.previous (clean e.previous_hash) (fault_if-eq-nil _ _ h3));
        digested = payload_faults-eq-nil e (subst (λ x. payload_faults S x ≡ []) same h4);
        hashed = hash_faults-eq-nil e (subst (λ x. hash_faults S x ≡ []) same h5);
        kept = ap (λ (x : Entry S.Bytes). x.entry_hash) same;
      }

  -- what the loop has established where it found nothing
  pub record IsClean (es : List (Entry S.Bytes)) (p : Run S) : Type 0 where
    pub chained : IsChained S es
    pub at_tail : p.previous ≡ tail_hash es
    pub counted : p.expected ≡ suc (length es)

  pub check_rows-IsClean :
      (es : List (Entry S.Bytes)) → (check_rows S es).faults ≡ [] → IsClean es (check_rows S es)
  unfolding check_rows check_row
  check_rows-IsClean [] h = record { chained = tt; at_tail = refl; counted = refl }
  check_rows-IsClean (e ∷ es) h =
      let (older, newer) = append-eq-nil (check_rows S es).faults _ h in
      let c = check_rows-IsClean es older in
      let found = (append-eq-nil (chain_faults S (check_rows S es) e) _ newer).0 in
      let l = checked-IsLinked (check_rows S es) e (omega (arith, c.counted)) found in
      record {
        chained = (l.numbered ∙ c.counted, l.linked ∙ c.at_tail, l.hashed, l.digested, c.chained);
        at_tail = l.kept;
        counted = ap suc c.counted;
      }
