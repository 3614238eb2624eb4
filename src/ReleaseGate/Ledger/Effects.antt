-- ===== src/ReleaseGate/Ledger/Effects.antt =====
-- What the transactions of the ledger change.
use shipcheck.Base.{
  subst, Option-cases, String, ◌≡◌, refl, sym, ap, ◌∙◌, Bool, true, none, some, List, ◌∷◌, ok, err,
  arith, ◌⊎◌, inl, inr,
}
use shipcheck.Base.Results.{Result, Result-cases}
use shipcheck.Base.Exec.{◌>>◌, pure, >>=-ok, >>=-err}
use shipcheck.ReleaseGate.Errors.{Error}
use shipcheck.ReleaseGate.Services.{Services}
use shipcheck.ReleaseGate.Ledger.State.{
  Entry, Promotion, Receipt, Store, row_receipt, hash_of, commit, Action, find_key,
}
use shipcheck.ReleaseGate.Ledger.Anchor.{
  write_anchor, advance, update_anchor, assert_anchor, sync_anchor,
}
use shipcheck.ReleaseGate.Ledger.Drafts.{Draft, placed, is_replay}
use shipcheck.ReleaseGate.Ledger.Append.{Messages, Promote, replay, add_entry, answer, submit}

-- the tables are the same
abbrev pub SameTables : {Bytes : Type 0} → Store Bytes → Store Bytes → Type 0
SameTables s u = (u.entries ≡ s.entries) × (u.promotions ≡ s.promotions)

module _ (S : Services) where
  pub assert_anchor-same : (s : Store S.Bytes) → (assert_anchor S s).1 ≡ s
  unfolding assert_anchor
  assert_anchor-same s = ground arith

  pub sync_anchor-SameTables : (s : Store S.Bytes) → SameTables s (sync_anchor S s).1
  unfolding sync_anchor update_anchor advance write_anchor
  sync_anchor-SameTables s = ground (arith, assert_anchor-same s)

  -- the entry of a draft was added, with the rows that the promotion demands
  pub record Added (promote : Promote S) (d : Draft S.Bytes) (s u : Store S.Bytes) : Type 0 where
    pub hash : String
    pub hashed : hash_of S (placed d s.entries "") ≡ ok hash
    pub entry_added : u.entries ≡ placed d s.entries hash ∷ s.entries
    pub promoted : promote s.entries s.promotions ≡ ok u.promotions

  -- a commit is done, or it raises and changes no table
  abbrev pub Committed :
      Entry S.Bytes
      → List Promotion
      → Store S.Bytes
      → Result Error (Unit {0}) × Store S.Bytes
      → Type 0
  Committed e ps s (ok _, u) =
      (u.entries ≡ e ∷ s.entries) × (u.promotions ≡ ps) × (u.anchor ≡ s.anchor)
  Committed e ps s (err _, u) = SameTables s u × (u.anchor ≡ s.anchor)

  pub commit-Committed :
      (m : String) (e : Entry S.Bytes) (ps : List Promotion) (s : Store S.Bytes)
      → Committed e ps s (commit S m e ps s)
  unfolding commit
  commit-Committed m e ps s = ground arith

  -- What a submission leaves: a receipt of the entry that was added or of the one with its key, and
  -- no entry behind the added one.
  abbrev pub Submitted :
      Bool
      → Promote S
      → Draft S.Bytes
      → Store S.Bytes
      → Result Error Receipt × Store S.Bytes
      → Type 0
  Submitted lax promote d s (ok r, u) =
      ((a : Added promote d s u) × (r ≡ row_receipt (placed d s.entries a.hash)))
      ⊎ ((old : Entry S.Bytes) × (find_key d.key_digest s.entries ≡ some old)
          × (is_replay lax d old ≡ true)
          × (r ≡ row_receipt old)
          × SameTables s u)
  Submitted lax promote d s (err _, u) = Added promote d s u ⊎ SameTables s u

  abbrev AddedOr :
      Promote S → Draft S.Bytes → Store S.Bytes → Result Error Receipt × Store S.Bytes → Type 0
  AddedOr promote d s (ok r, u) =
      (a : Added promote d s u) × (r ≡ row_receipt (placed d s.entries a.hash))
  AddedOr promote d s (err _, u) = Added promote d s u ⊎ SameTables s u

  abbrev pub finish : Messages → Entry S.Bytes → List Promotion → Action S Receipt
  finish m e ps = commit S m.failed e ps >> (sync_anchor S >> pure (row_receipt e))

  abbrev Finished :
      Entry S.Bytes → List Promotion → Store S.Bytes → Result Error Receipt × Store S.Bytes → Type 0
  Finished e ps s (ok r, u) =
      (u.entries ≡ e ∷ s.entries) × (u.promotions ≡ ps) × (r ≡ row_receipt e)
  Finished e ps s (err _, u) = SameTables s u ⊎ ((u.entries ≡ e ∷ s.entries) × (u.promotions ≡ ps))

  finish-Finished :
      (m : Messages) (e : Entry S.Bytes) (ps : List Promotion) (s : Store S.Bytes)
      → Finished e ps s (finish m e ps s)
  finish-Finished m e ps s =
      ground (
        arith,
        commit-Committed m.failed e ps s,
        sync_anchor-SameTables (commit S m.failed e ps s).1,
      )

  Finished-AddedOr :
      (promote : Promote S) (d : Draft S.Bytes) (s : Store S.Bytes) (ps : List Promotion)
      (hash : String)
      → promote s.entries s.promotions ≡ ok ps
      → hash_of S (placed d s.entries "") ≡ ok hash
      → (out : Result Error Receipt × Store S.Bytes) → Finished (placed d s.entries hash) ps s out
      → AddedOr promote d s out
  Finished-AddedOr promote d s ps hash hp hh (ok r, u) (fe, fp, fr) =
      (record { hash = hash; hashed = hh; entry_added = fe; promoted = hp ∙ sym (ap ok fp) }, fr)
  Finished-AddedOr promote d s ps hash hp hh (err e, u) (inl same) = inr same
  Finished-AddedOr promote d s ps hash hp hh (err e, u) (inr f) =
      inl (record { hash = hash; hashed = hh; entry_added = f.0; promoted = hp ∙ sym (ap ok f.1) })

  add_entry-AddedOr :
      (m : Messages) (promote : Promote S) (d : Draft S.Bytes) (s : Store S.Bytes)
      → AddedOr promote d s (add_entry S m promote d s)
  unfolding add_entry
  add_entry-AddedOr m promote d s = elim (Result-cases (promote s.entries s.promotions)) [
    | inl (e, hp) ↦ rw hp (inr (refl, refl))
    | inr (ps, hp) ↦ elim (Result-cases (hash_of S (placed d s.entries ""))) [
      | inl (e, hh) ↦ rw hp (rw hh (inr (refl, refl)))
      | inr (hash, hh) ↦
          Finished-AddedOr promote d s ps hash hp hh _
            (rw hp (rw hh (finish-Finished m (placed d s.entries hash) ps s)))
    ]
  ]

  Replayed :
      Bool
      → Draft S.Bytes
      → Entry S.Bytes
      → Store S.Bytes
      → Result Error Receipt × Store S.Bytes
      → Type 0
  Replayed lax d old s (ok r, u) =
      (is_replay lax d old ≡ true) × (r ≡ row_receipt old) × SameTables s u
  Replayed lax d old s (err _, u) = SameTables s u

  replay-Replayed :
      (m : Messages) (lax : Bool) (d : Draft S.Bytes) (old : Entry S.Bytes) (s : Store S.Bytes)
      → Replayed lax d old s (replay S m lax d old s)
  unfolding replay Replayed
  replay-Replayed m lax d old s = ground (arith, sync_anchor-SameTables s)

  pub Submitted-tables :
      (lax : Bool) (promote : Promote S) (d : Draft S.Bytes) (s : Store S.Bytes)
      → (out : Result Error Receipt × Store S.Bytes) → Submitted lax promote d s out
      → Added promote d s out.1 ⊎ SameTables s out.1
  Submitted-tables lax promote d s (ok r, u) (inl (a, hr)) = inl a
  Submitted-tables lax promote d s (ok r, u) (inr (old, found, fits, hr, same)) = inr same
  Submitted-tables lax promote d s (err e, u) h = h

  Replayed-Submitted :
      (lax : Bool) (promote : Promote S) (d : Draft S.Bytes) (old : Entry S.Bytes)
      (s : Store S.Bytes)
      → find_key d.key_digest s.entries ≡ some old
      → (out : Result Error Receipt × Store S.Bytes) → Replayed lax d old s out
      → Submitted lax promote d s out
  unfolding Replayed
  Replayed-Submitted lax promote d old s found (ok r, u) (fits, hr, same) =
      inr (old, found, fits, hr, same)
  Replayed-Submitted lax promote d old s found (err e, u) same = inr same

  AddedOr-Submitted :
      (lax : Bool) (promote : Promote S) (d : Draft S.Bytes) (s : Store S.Bytes)
      → (out : Result Error Receipt × Store S.Bytes) → AddedOr promote d s out
      → Submitted lax promote d s out
  AddedOr-Submitted lax promote d s (ok r, u) a = inl a
  AddedOr-Submitted lax promote d s (err e, u) a = a

  assert_anchor-run :
      (s : Store S.Bytes) {r : Result Error (Unit {0})}
      → (assert_anchor S s).0 ≡ r
      → assert_anchor S s ≡ (r, s)
  assert_anchor-run s h = λ i. (h i, assert_anchor-same s i)

  pub submit-refused :
      (m : Messages) (lax : Bool) (promote : Promote S) (d : Draft S.Bytes) (s : Store S.Bytes)
      {e : Error}
      → (assert_anchor S s).0 ≡ err e
      → submit S m lax promote d s ≡ (err e, s)
  unfolding submit
  submit-refused m lax promote d s h =
      >>=-err (assert_anchor S) (λ _. answer S m lax promote d) (assert_anchor-run s h)

  module _ (m : Messages) (lax : Bool) (promote : Promote S) (d : Draft S.Bytes) (s : Store S.Bytes)
      (checked : (assert_anchor S s).0 ≡ ok tt) where
    submit-answer : submit S m lax promote d s ≡ answer S m lax promote d s
    unfolding submit
    submit-answer =
        >>=-ok (assert_anchor S) (λ _. answer S m lax promote d) (assert_anchor-run s checked)

    pub submit-found :
        (old : Entry S.Bytes)
        → find_key d.key_digest s.entries ≡ some old
        → submit S m lax promote d s ≡ replay S m lax d old s
    unfolding answer
    submit-found old h =
        submit-answer
        ∙ ap (λ o. elim o [ some old ↦ replay S m lax d old s | none ↦ add_entry S m promote d s ])
            h

    pub submit-new :
        find_key d.key_digest s.entries ≡ none
        → submit S m lax promote d s ≡ add_entry S m promote d s
    unfolding answer
    submit-new h =
        submit-answer
        ∙ ap (λ o. elim o [ some old ↦ replay S m lax d old s | none ↦ add_entry S m promote d s ])
            h

  pub submit-Submitted :
      (m : Messages) (lax : Bool) (promote : Promote S) (d : Draft S.Bytes) (s : Store S.Bytes)
      → Submitted lax promote d s (submit S m lax promote d s)
  submit-Submitted m lax promote d s = elim (Result-cases (assert_anchor S s).0) [
    | inl (e, h) ↦
        subst (Submitted lax promote d s) (sym (submit-refused m lax promote d s h))
          (inr (refl, refl))
    | inr (v, h) ↦ elim (Option-cases (find_key d.key_digest s.entries)) [
      | inl absent ↦
          subst (Submitted lax promote d s) (sym (submit-new m lax promote d s h absent))
            (AddedOr-Submitted lax promote d s _ (add_entry-AddedOr m promote d s))
      | inr (old, found) ↦
          subst (Submitted lax promote d s) (sym (submit-found m lax promote d s h old found))
            (Replayed-Submitted lax promote d old s found _ (replay-Replayed m lax d old s))
    ]
  ]
