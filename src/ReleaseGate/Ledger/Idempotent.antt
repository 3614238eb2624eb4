-- ===== src/ReleaseGate/Ledger/Idempotent.antt =====
-- A call that is repeated returns the first receipt.
use shipcheck.Base.{
  String, ◌≡◌, refl, sym, ap, subst, ◌∙◌, Bool, true, false, some, ok, err, arith, eq_refl, inl,
  inr,
}
use shipcheck.Base.Results.{Returns, Returns-imp, ◌>>=◌}
use shipcheck.Base.Exec.{>>=-ok, pure, lift}
use shipcheck.Base.Exec
use shipcheck.Json.{Fields}
use shipcheck.ReleaseGate.Errors.{Checked}
use shipcheck.ReleaseGate.Services.{Services, IsLawful}
use shipcheck.ReleaseGate.Ledger.State.{Entry, Receipt, Store, Action, find_key, row_receipt}
use shipcheck.ReleaseGate.Ledger.Anchor.{sync_anchor}
use shipcheck.ReleaseGate.Ledger.Drafts.{Draft, placed, is_replay, append_draft, transition_draft}
use shipcheck.ReleaseGate.Ledger.Moves.{Request, promote}
use shipcheck.ReleaseGate.Ledger.Promote.{transition_messages, transition}
use shipcheck.ReleaseGate.Ledger.Append.{
  append_messages, Messages, Promote, submit, replay, append_entry,
}
use shipcheck.ReleaseGate.Ledger.Effects.{Added, Submitted, submit-Submitted, submit-found}
use shipcheck.ReleaseGate.Ledger.Chain.{IsChained}
use shipcheck.ReleaseGate.Ledger.Changes.{
  IsDigested, keep_rows, append_draft-IsDigested, transition_draft-IsDigested,
}
use shipcheck.ReleaseGate.Ledger.Synced.{
  IsSynced, IsSynced-IsAnchored, IsAnchored-assert_anchor, sync_anchor-kept,
}
use shipcheck.ReleaseGate.Ledger.Replay.{submit-synced, SyncedAfter}

module _ (S : Services) where
  pub append_draft-later :
      (t : String) (payload : Fields) (key : String) (request : Fields) (lax : Bool)
      (now later : String)
      → append_draft S t payload key request lax later ≡ (
          append_draft S t payload key request lax now >>= λ d.
          ok (record d { created_at = later }))
  unfolding append_draft
  append_draft-later t payload key request lax now later = ground arith

  transition_draft-later :
      (r : Request) (now later : String)
      → transition_draft S r later
        ≡ (transition_draft S r now >>= λ d. ok (record d { created_at = later }))
  unfolding transition_draft
  transition_draft-later r now later = ground arith

  -- the entry that answers a key, and its receipt
  abbrev pub IsAnswered : Bool → Draft S.Bytes → Receipt → Store S.Bytes → Type 0
  IsAnswered lax d r u =
      (old : Entry S.Bytes) × (find_key d.key_digest u.entries ≡ some old)
      × (is_replay lax d old ≡ true)
      × (row_receipt old ≡ r)

  pub Added-IsAnswered :
      (lax : Bool) (rows : Promote S) (d : Draft S.Bytes) (s u : Store S.Bytes)
      (a : Added S rows d s u)
      → IsAnswered lax d (row_receipt (placed d s.entries a.hash)) u
  Added-IsAnswered lax rows d s u a = (
    placed d s.entries a.hash,
    ap (find_key d.key_digest) a.entry_added ∙ ground (arith, eq_refl d.key_digest),
    ground (arith, eq_refl d.request_digest, eq_refl d.entry_type, eq_refl d.payload_digest),
    refl,
  )

  Submitted-IsAnswered :
      (lax : Bool) (rows : Promote S) (d : Draft S.Bytes) (s u : Store S.Bytes) (r : Receipt)
      → Submitted S lax rows d s (ok r, u)
      → IsAnswered lax d r u
  Submitted-IsAnswered lax rows d s u r (inl (a, hr)) =
      subst (λ x. IsAnswered lax d x u) (sym hr) (Added-IsAnswered lax rows d s u a)
  Submitted-IsAnswered lax rows d s u r (inr (old, found, fits, hr, same)) =
      (old, ap (find_key d.key_digest) same.0 ∙ found, fits, sym hr)

  answered-replay :
      (m : Messages) (lax : Bool) (d : Draft S.Bytes) (r : Receipt) (u : Store S.Bytes)
      → IsSynced S u
      → (a : IsAnswered lax d r u) → replay S m lax d a.0 u ≡ (ok r, u)
  unfolding replay
  answered-replay m lax d r u synced (old, found, fits, hr) = rw fits (
      >>=-ok (sync_anchor S) (λ _. pure (row_receipt old)) (sync_anchor-kept S u synced)
      ∙ ap (λ x. (ok x, u)) hr)

  -- a draft that is submitted again, behind a submission of it that returned
  answered-submit :
      (m : Messages) (lax : Bool) (rows : Promote S) (d : Draft S.Bytes) (r : Receipt)
      (u : Store S.Bytes)
      → IsSynced S u
      → IsAnswered lax d r u
      → submit S m lax rows d u ≡ (ok r, u)
  answered-submit m lax rows d r u synced a =
      submit-found S m lax rows d u (IsAnchored-assert_anchor S u (IsSynced-IsAnchored S u synced))
        a.0 a.1
      ∙ answered-replay m lax d r u synced a

  drafted : Messages → Bool → Promote S → Checked (Draft S.Bytes) → Action S Receipt
  drafted m lax rows draft = Exec.◌>>=◌ (lift draft) (submit S m lax rows)

  drafted-again :
      (m : Messages) (lax : Bool) (rows : Promote S) (first second : Checked (Draft S.Bytes))
      (later : String) (s u : Store S.Bytes) (r : Receipt)
      → IsLawful S
      → IsChained S s.entries
      → Returns (IsDigested S) first
      → second ≡ (first >>= λ d. ok (record d { created_at = later }))
      → drafted m lax rows first s ≡ (ok r, u)
      → drafted m lax rows second u ≡ (ok r, u)
  unfolding drafted
  drafted-again m lax rows (err e) second later s u r law chained sound same run = absurd cc
  drafted-again m lax rows (ok d) second later s u r law chained sound same run =
      ap (λ x. drafted m lax rows x u) same
      ∙ answered-submit m lax rows (record d { created_at = later }) r u
          (subst (SyncedAfter S s) run (submit-synced S law m lax rows d s sound chained))
          (Submitted-IsAnswered lax rows d s u r
            (subst (Submitted S lax rows d s) run (submit-Submitted S m lax rows d s)))

  -- A call of `_append` that returned a receipt, on a chained ledger, returns the same receipt when it
  -- is repeated at a later time, and the repetition changes nothing.
  pub append_entry-again :
      (t : String) (payload : Fields) (key : String) (request : Fields) (lax : Bool)
      (now later : String) (s u : Store S.Bytes) (r : Receipt)
      → IsLawful S
      → IsChained S s.entries
      → append_entry S t payload key request lax now s ≡ (ok r, u)
      → append_entry S t payload key request lax later u ≡ (ok r, u)
  unfolding append_entry drafted
  append_entry-again t payload key request lax now later s u r law chained run =
      drafted-again append_messages lax (keep_rows S) (append_draft S t payload key request lax now)
        (append_draft S t payload key request lax later) later s u r law chained
        (append_draft-IsDigested S t payload key request lax now)
        (append_draft-later t payload key request lax now later) run

  -- A move of a promotion that returned a receipt, on a chained ledger, returns the same receipt
  -- when it is repeated at a later time, although the state and the fencing token have changed,
  -- and the repetition changes nothing.
  pub transition-again :
      (q : Request) (now later : String) (s u : Store S.Bytes) (r : Receipt)
      → IsLawful S
      → IsChained S s.entries
      → transition S q now s ≡ (ok r, u)
      → transition S q later u ≡ (ok r, u)
  unfolding transition drafted
  transition-again q now later s u r law chained run =
      drafted-again transition_messages false (promote S q) (transition_draft S q now)
        (transition_draft S q later) later s u r law chained
        (Returns-imp (λ d h. h.0) (transition_draft S q now) (transition_draft-IsDigested S q now))
        (transition_draft-later q now later) run
