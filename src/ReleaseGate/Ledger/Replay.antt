-- ===== src/ReleaseGate/Ledger/Replay.antt =====
-- A submission that is repeated: behind one that returned, and behind one that was cut off.
use shipcheck.Base.{
  ℕ, suc, ◌≤◌, ◌≡◌, refl, sym, ap, subst, ◌∙◌, Bool, List, [], ◌∷◌, ok, err, arith, inl, inr,
  Option-cases, Bool-cases,
}
use shipcheck.Base.Results.{Result, Result-cases}
use shipcheck.Base.Exec.{◌>>◌, pure, >>=-ok, >>=-err}
use shipcheck.ReleaseGate.Errors.{Error}
use shipcheck.ReleaseGate.Services.{Services, IsLawful}
use shipcheck.ReleaseGate.Ledger.State.{
  Entry, Promotion, Receipt, Store, tail_sequence, find_key, row_receipt, commit, hash_of,
}
use shipcheck.ReleaseGate.Ledger.AnchorFile.{anchor_of, anchored_hash}
use shipcheck.ReleaseGate.Ledger.Anchor.{assert_anchor, sync_anchor}
use shipcheck.ReleaseGate.Ledger.Drafts.{Draft, placed, is_replay}
use shipcheck.ReleaseGate.Ledger.Append.{Messages, Promote, submit, replay, add_entry}
use shipcheck.ReleaseGate.Ledger.Effects.{
  sync_anchor-SameTables, Committed, commit-Committed, submit-refused, submit-found, submit-new,
  finish,
}
use shipcheck.ReleaseGate.Ledger.Chain.{IsChained, tail_sequence-length}
use shipcheck.ReleaseGate.Ledger.Changes.{IsDigested}
use shipcheck.ReleaseGate.Ledger.Synced.{
  IsSynced, IsAnchored, assert_anchor-IsAnchored, sync_anchor-IsSynced, sync_anchor-Advanced,
  Advanced, broken-IsAnchored,
}

module _ (S : Services) where
  -- A new entry leaves the hash that an older anchor names.
  anchored_hash-cons :
      (n : ℕ) (e : Entry S.Bytes) (es : List (Entry S.Bytes))
      → IsChained S (e ∷ es)
      → n ≤ tail_sequence es
      → anchored_hash n (e ∷ es) ≡ anchored_hash n es
  anchored_hash-cons n e [] h le = ground (arith, h.0)
  anchored_hash-cons n e (f ∷ es) h le = ground (arith, h.0, h.4.0)

  IsAnchored-added :
      (s t : Store S.Bytes) (e : Entry S.Bytes)
      → IsChained S (e ∷ s.entries)
      → t.anchor ≡ s.anchor
      → t.entries ≡ e ∷ s.entries
      → IsAnchored S s
      → IsAnchored S t
  IsAnchored-added s t e chained kept grown (n, g, read, le, same) = (
    n,
    g,
    ap anchor_of kept ∙ read,
    subst (λ es. n ≤ tail_sequence es) (sym grown)
        (omega (arith, le, chained.0, tail_sequence-length S s.entries chained.4)),
    same ∙ sym (anchored_hash-cons n e s.entries chained le) ∙ ap (anchored_hash n) (sym grown),
  )

  -- the anchor names the tail where a receipt was returned, and an older entry else
  abbrev SyncedOr : Result Error Receipt × Store S.Bytes → Type 0
  SyncedOr (ok _, u) = IsSynced S u
  SyncedOr (err _, u) = IsAnchored S u

  abbrev pub SyncedAfter : Store S.Bytes → Result Error Receipt × Store S.Bytes → Type 0
  SyncedAfter s (ok _, u) = IsSynced S u
  SyncedAfter s (err _, u) = IsAnchored S s → IsAnchored S u

  weaken :
      (s : Store S.Bytes) (out : Result Error Receipt × Store S.Bytes)
      → SyncedOr out
      → SyncedAfter s out
  weaken s (ok r, u) h = h
  weaken s (err e, u) h = λ _. h

  -- the anchor of a store with the same entries and anchor
  IsAnchored-same :
      (s u : Store S.Bytes)
      → u.anchor ≡ s.anchor
      → u.entries ≡ s.entries
      → IsAnchored S s
      → IsAnchored S u
  IsAnchored-same s u kept same (n, g, read, le, fits) = (
    n,
    g,
    ap anchor_of kept ∙ read,
    subst (λ es. n ≤ tail_sequence es) (sym same) le,
    fits ∙ ap (anchored_hash n) (sym same),
  )

  module _ (law : IsLawful S) where
    synced-receipt :
        (r : Receipt) (s : Store S.Bytes)
        → IsChained S s.entries
        → IsAnchored S s
        → SyncedOr (◌>>◌ (sync_anchor S) (pure r) s)
    synced-receipt r s chained a = elim (Result-cases (sync_anchor S s).0) [
      | inl (e, h) ↦
          subst SyncedOr
            (sym (>>=-err (sync_anchor S) (λ _. pure r) (λ i. (h i, (sync_anchor S s).1))))
            (broken-IsAnchored S law s (sync_anchor S s).1 e chained a
              (subst (Advanced S s a.0) (λ i. (h i, (sync_anchor S s).1))
                (sync_anchor-Advanced S s a))
              (sync_anchor-SameTables S s).0)
      | inr (v, h) ↦
          subst SyncedOr
            (sym (>>=-ok (sync_anchor S) (λ _. pure r) (λ i. (h i, (sync_anchor S s).1))))
            (sync_anchor-IsSynced S law s chained a h)
    ]

    -- a commit, with what it leaves
    Committed-synced :
        (m : Messages) (e : Entry S.Bytes) (ps : List Promotion) (s : Store S.Bytes)
        → IsChained S (e ∷ s.entries)
        → IsAnchored S s
        → (out : Result Error (Unit {0}) × Store S.Bytes) → commit S m.failed e ps s ≡ out
        → Committed S e ps s out
        → SyncedOr (finish S m e ps s)
    Committed-synced m e ps s chained a (err x, t) run c =
        subst SyncedOr
          (sym (>>=-err (commit S m.failed e ps) (λ _. sync_anchor S >> pure (row_receipt e)) run))
          (IsAnchored-same s t c.1 c.0.0 a)
    Committed-synced m e ps s chained a (ok v, t) run (grown, rows, kept) =
        subst SyncedOr
          (sym (>>=-ok (commit S m.failed e ps) (λ _. sync_anchor S >> pure (row_receipt e)) run))
          (synced-receipt (row_receipt e) t (subst (IsChained S) (sym grown) chained)
            (IsAnchored-added s t e chained kept grown a))

    add_entry-synced :
        (m : Messages) (promote : Promote S) (d : Draft S.Bytes) (s : Store S.Bytes)
        → IsDigested S d
        → IsChained S s.entries
        → IsAnchored S s
        → SyncedOr (add_entry S m promote d s)
    unfolding add_entry
    add_entry-synced m promote d s sound chained a =
        elim (Result-cases (promote s.entries s.promotions)) [
          | inl (e, hp) ↦ rw hp a
          | inr (ps, hp) ↦ elim (Result-cases (hash_of S (placed d s.entries ""))) [
            | inl (e, hh) ↦ rw hp (rw hh a)
            | inr (hash, hh) ↦ rw hp (
                rw hh (
                  Committed-synced m (placed d s.entries hash) ps s
                    (ap suc (tail_sequence-length S s.entries chained), refl, hh, sound, chained) a
                    _ refl (commit-Committed S m.failed (placed d s.entries hash) ps s)))
          ]
        ]

    replay-synced :
        (m : Messages) (lax : Bool) (d : Draft S.Bytes) (old : Entry S.Bytes) (s : Store S.Bytes)
        → IsChained S s.entries
        → IsAnchored S s
        → SyncedOr (replay S m lax d old s)
    unfolding replay
    replay-synced m lax d old s chained a = elim (Bool-cases (is_replay lax d old)) [
      | inl h ↦ rw h (synced-receipt (row_receipt old) s chained a)
      | inr h ↦ rw h a
    ]

    pub submit-synced :
        (m : Messages) (lax : Bool) (promote : Promote S) (d : Draft S.Bytes) (s : Store S.Bytes)
        → IsDigested S d
        → IsChained S s.entries
        → SyncedAfter s (submit S m lax promote d s)
    submit-synced m lax promote d s sound chained = elim (Result-cases (assert_anchor S s).0) [
      | inl (e, h) ↦ subst (SyncedAfter s) (sym (submit-refused S m lax promote d s h)) (λ a. a)
      | inr (v, h) ↦
          let a = assert_anchor-IsAnchored S s h in
          elim (Option-cases (find_key d.key_digest s.entries)) [
            | inl absent ↦
                subst (SyncedAfter s) (sym (submit-new S m lax promote d s h absent))
                  (weaken s _ (add_entry-synced m promote d s sound chained a))
            | inr (old, found) ↦
                subst (SyncedAfter s) (sym (submit-found S m lax promote d s h old found))
                  (weaken s _ (replay-synced m lax d old s chained a))
          ]
    ]
