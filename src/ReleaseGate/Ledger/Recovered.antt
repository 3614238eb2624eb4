-- ===== src/ReleaseGate/Ledger/Recovered.antt =====
-- `recover_anchor` on a ledger that `verify` accepts.
use shipcheck.Base.{
  ◌≡◌, refl, sym, ap, subst, ◌∙◌, Bool, true, false, none, some, [], ok, err, arith, inl, inr, ltb,
  Bool-cases,
}
use shipcheck.Base.Results.{Result}
use shipcheck.Base.Exec.{>>=-ok}
use shipcheck.ReleaseGate.Errors.{Error}
use shipcheck.ReleaseGate.Services.{Services, IsLawful}
use shipcheck.ReleaseGate.Ledger.State.{Store, tail_sequence, tail_hash, zero_hash}
use shipcheck.ReleaseGate.Ledger.AnchorFile.{anchor_of, anchor_dict}
use shipcheck.ReleaseGate.Ledger.Anchor.{
  read_anchor, advance, update_anchor, write_anchor, sync_anchor,
}
use shipcheck.ReleaseGate.Ledger.Verify.{Verification, verify, anchor_read}
use shipcheck.ReleaseGate.Ledger.Recover.{recover_anchor, recover_verified, recover_by}
use shipcheck.ReleaseGate.Ledger.Effects.{SameTables, sync_anchor-SameTables}
use shipcheck.ReleaseGate.Ledger.Chain.{IsChained}
use shipcheck.ReleaseGate.Ledger.Synced.{
  IsAnchored, IsSynced, IsAnchored-IsSynced, sync_anchor-run, sync_anchor-kept, sync_anchor-returns,
  sync_anchor-IsSynced, write_anchor-read,
}
use shipcheck.ReleaseGate.Ledger.Accepts.{
  verified-tail_hash, verify-verification, verify-IsChained, IsHeld,
}

module _ (S : Services) where
  -- what a recovery that returned leaves
  abbrev pub Recovered : Store S.Bytes → Result Error (Unit {0}) × Store S.Bytes → Type 0
  Recovered s out = (out.0 ≡ ok tt) × IsSynced S out.1 × SameTables s out.1

  -- with an anchor that fits, the recovery is the one of a mutation
  recover_by-sync :
      (s : Store S.Bytes) (a : IsAnchored S s)
      → recover_by S (tail_sequence s.entries) (tail_hash s.entries) (some (a.0, a.1)) s
        ≡ sync_anchor S s
  unfolding recover_by update_anchor
  recover_by-sync s a = elim (Bool-cases (ltb a.0 (tail_sequence s.entries))) [
    | inl h ↦ rw h (
        >>=-ok (read_anchor S)
          (λ c. advance S c (tail_sequence s.entries) (tail_hash s.entries) false) (λ i. (a.2 i, s))
        ∙ sym (sync_anchor-run S s a))
    | inr h ↦ rw h (sym (sync_anchor-kept S s (IsAnchored-IsSynced S s a (ground (arith, h, a.3)))))
  ]

  anchored-Recovered :
      (law : IsLawful S) (s : Store S.Bytes) (a : IsAnchored S s)
      → IsChained S s.entries
      → s.answers ≡ []
      → Recovered s
          (recover_by S (tail_sequence s.entries) (tail_hash s.entries) (some (a.0, a.1)) s)
  anchored-Recovered law s a chained quiet =
      let h = sync_anchor-returns S s a quiet in
      subst (Recovered s) (sym (recover_by-sync s a))
        (h, sync_anchor-IsSynced S law s chained a h, sync_anchor-SameTables S s)

  -- the ledger with the anchor of a ledger without entries
  abbrev anchored_new : Store S.Bytes → Store S.Bytes
  anchored_new s = record s { anchor = some (some (anchor_dict 0 zero_hash)) }

  write_anchor-run :
      (s : Store S.Bytes) → s.answers ≡ [] → write_anchor S 0 zero_hash s ≡ (ok tt, anchored_new s)
  unfolding write_anchor
  write_anchor-run s quiet = ground (arith, quiet)

  new-run :
      (s : Store S.Bytes)
      → anchor_of s.anchor ≡ ok none
      → s.answers ≡ []
      → recover_by S 0 zero_hash none s ≡ (ok tt, anchored_new s)
  unfolding recover_by update_anchor advance
  new-run s read quiet =
      >>=-ok (read_anchor S) (λ c. advance S c 0 zero_hash true) (λ i. (read i, s))
      ∙ write_anchor-run s quiet

  new-Recovered :
      (s : Store S.Bytes)
      → anchor_of s.anchor ≡ ok none
      → s.entries ≡ []
      → s.answers ≡ []
      → Recovered s (recover_by S 0 zero_hash none s)
  new-Recovered s read bare quiet = subst (Recovered s) (sym (new-run s read quiet)) (
    refl,
    write_anchor-read S s (anchored_new s) 0 zero_hash refl refl
        ∙ ap (λ es. ok (some (tail_sequence es, tail_hash es))) (sym bare),
    (refl, refl),
  )

  held-Recovered :
      (law : IsLawful S) (s : Store S.Bytes)
      → IsChained S s.entries
      → s.answers ≡ []
      → IsHeld S s
      → Recovered s
          (recover_by S (tail_sequence s.entries) (tail_hash s.entries) (anchor_read S s) s)
  held-Recovered law s chained quiet (inl a) =
      subst (λ r. Recovered s (recover_by S (tail_sequence s.entries) (tail_hash s.entries) r s))
        (sym (ap (λ r. elim r [ err x ↦ none | ok o ↦ o ]) a.2))
        (anchored-Recovered law s a chained quiet)
  held-Recovered law s chained quiet (inr (read, bare)) =
      subst (λ es. Recovered s (recover_by S (tail_sequence es) (tail_hash es) (anchor_read S s) s))
        (sym bare)
        (subst (λ r. Recovered s (recover_by S 0 zero_hash r s))
          (sym (ap (λ r. elim r [ err x ↦ none | ok o ↦ o ]) read))
          (new-Recovered s read bare quiet))

  -- Where `verify` accepts a ledger and writes succeed, `recover_anchor` returns, the anchor names the
  -- tail, and the tables are the same.
  pub recover_anchor-Recovered :
      (law : IsLawful S) (integrity foreign : Bool) (s : Store S.Bytes) (v : Verification)
      → verify S integrity foreign s ≡ ok v
      → v.is_ok ≡ true
      → s.answers ≡ []
      → Recovered s (recover_anchor S integrity foreign s)
  unfolding recover_anchor
  recover_anchor-Recovered law integrity foreign s v returned accepted quiet =
      let (chained, held, _) = verify-IsChained S integrity foreign s v returned accepted in
      let same = verify-verification S integrity foreign s v returned in
      let fits = ap (λ (x : Verification). x.is_ok) same ∙ accepted in
      let done = held-Recovered law s chained quiet held in
      let at_tail = verified-tail_hash S integrity foreign s fits in
      let checked = returned ∙ ap ok (sym same) in
      subst (Recovered s)
        (sym (
          >>=-ok (λ u. (verify S integrity foreign u, u)) (recover_verified S)
            (λ i. (checked i, s))))
        (rw (fits, at_tail) done)
