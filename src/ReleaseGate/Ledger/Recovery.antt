-- ===== src/ReleaseGate/Ledger/Recovery.antt =====
-- The tail anchor of every ledger that calls reach, and the recovery of a call that was cut off.
use shipcheck.Base.{
  suc, String, ◌≡◌, ◌≢◌, refl, sym, ap, subst, ◌∙◌, Bool, true, [], ok, err, arith, inl, inr, ◌⊎◌,
}
use shipcheck.Base.Results.{Result, Result-cases, ◌>>=◌}
use shipcheck.Base.Exec.{pure, >>=-ok}
use shipcheck.Json.{Fields}
use shipcheck.ReleaseGate.Errors.{Error, Checked}
use shipcheck.ReleaseGate.Services.{Services, IsLawful}
use shipcheck.ReleaseGate.Ledger.State.{
  Entry, Receipt, Store, tail_sequence, row_receipt, zero_hash,
}
use shipcheck.ReleaseGate.Ledger.Anchor.{assert_anchor, sync_anchor}
use shipcheck.ReleaseGate.Ledger.Drafts.{Draft, placed, is_replay, append_draft}
use shipcheck.ReleaseGate.Ledger.Append.{
  Messages, Promote, append_messages, submit, replay, append_entry,
}
use shipcheck.ReleaseGate.Ledger.Effects.{
  Submitted-tables, Added, SameTables, submit-Submitted, submit-refused, submit-found,
  sync_anchor-SameTables,
}
use shipcheck.ReleaseGate.Ledger.Changes.{
  append_entry-Ran, Ran-Change, Ran, refused, noting, moving, keep_rows, IsDigested,
}
use shipcheck.ReleaseGate.Ledger.Chain.{IsChained, Change-IsChained}
use shipcheck.ReleaseGate.Ledger.Synced.{
  IsSynced, IsAnchored, IsSynced-IsAnchored, assert_anchor-IsAnchored, IsAnchored-assert_anchor,
  write_anchor-read, sync_anchor-returns, sync_anchor-IsSynced,
}
use shipcheck.ReleaseGate.Ledger.Replay.{SyncedAfter, submit-synced}
use shipcheck.ReleaseGate.Ledger.Idempotent.{IsAnswered, Added-IsAnswered, append_draft-later}
use shipcheck.ReleaseGate.Ledger.Runs.{
  Call, run, run-Ran, Reachable, opened, called, Reachable-IsChained,
}

module _ (S : Services) where
  after-IsAnchored :
      (s : Store S.Bytes) (out : Result Error Receipt × Store S.Bytes)
      → SyncedAfter S s out
      → IsAnchored S s
      → IsAnchored S out.1
  after-IsAnchored s (ok r, u) h a = IsSynced-IsAnchored S u h
  after-IsAnchored s (err e, u) h a = h a

  submitted-IsAnchored :
      (law : IsLawful S) (m : Messages) (lax : Bool) (rows : Promote S) (d : Draft S.Bytes)
      (s : Store S.Bytes) (out : Result Error Receipt × Store S.Bytes)
      → IsDigested S d
      → out ≡ submit S m lax rows d s
      → IsChained S s.entries
      → IsAnchored S s
      → IsAnchored S out.1
  submitted-IsAnchored law m lax rows d s out sound h chained a =
      subst (λ o. IsAnchored S o.1) (sym h)
        (after-IsAnchored s (submit S m lax rows d s)
          (submit-synced S law m lax rows d s sound chained) a)

  Ran-IsAnchored :
      (law : IsLawful S) (s : Store S.Bytes) (out : Result Error Receipt × Store S.Bytes)
      → Ran S s out
      → IsChained S s.entries
      → IsAnchored S s
      → IsAnchored S out.1
  Ran-IsAnchored law s out (refused e h) chained a = subst (λ o. IsAnchored S o.1) (sym h) a
  Ran-IsAnchored law s out (noting m lax d sound h) chained a =
      submitted-IsAnchored law m lax _ d s out sound h chained a
  Ran-IsAnchored law s out (moving m r d sound type h) chained a =
      submitted-IsAnchored law m _ _ d s out sound h chained a

  -- The anchor of every ledger that calls reach names an entry of it or its start, with the right hash,
  -- whatever commits and writes were refused.
  pub Reachable-IsAnchored : IsLawful S → (s : Store S.Bytes) → Reachable S s → IsAnchored S s
  Reachable-IsAnchored law s (opened answers) =
      (0, zero_hash, write_anchor-read S s s 0 zero_hash refl refl, omega arith, refl)
  Reachable-IsAnchored law s (called t call now h) =
      Ran-IsAnchored law t (run S call now t) (run-Ran S call now t) (Reachable-IsChained S t h)
        (Reachable-IsAnchored law t h)

  not_anchored :
      (m : Messages) (lax : Bool) (rows : Promote S) (d : Draft S.Bytes) (s : Store S.Bytes)
      (out : Result Error Receipt × Store S.Bytes)
      → ¬ IsAnchored S s
      → out ≡ submit S m lax rows d s
      → (e : Error) × (out ≡ (err e, s))
  not_anchored m lax rows d s out loose h = elim (Result-cases (assert_anchor S s).0) [
    | inl (e, k) ↦ (e, h ∙ submit-refused S m lax rows d s k)
    | inr (v, k) ↦ absurd (loose (assert_anchor-IsAnchored S s k))
  ]

  Ran-not_anchored :
      (s : Store S.Bytes) (out : Result Error Receipt × Store S.Bytes)
      → ¬ IsAnchored S s
      → Ran S s out
      → (e : Error) × (out ≡ (err e, s))
  Ran-not_anchored s out loose (refused e h) = (e, h)
  Ran-not_anchored s out loose (noting m lax d sound h) = not_anchored m lax _ d s out loose h
  Ran-not_anchored s out loose (moving m r d sound type h) = not_anchored m _ _ d s out loose h

  -- On a ledger whose anchor is missing, ahead of the entries, unreadable, or names another hash than
  -- the entries have, every call raises and changes nothing.
  pub run-not_anchored :
      (call : Call S) (now : String) (s : Store S.Bytes)
      → ¬ IsAnchored S s
      → (e : Error) × (run S call now s ≡ (err e, s))
  run-not_anchored call now s loose =
      Ran-not_anchored s (run S call now s) loose (run-Ran S call now s)

  -- the store with every write to come done
  abbrev pub repaired : Store S.Bytes → Store S.Bytes
  repaired u = record u { answers = [] }

  -- a receipt, with the anchor at the tail of the same entries
  abbrev pub Resumed : Store S.Bytes → Receipt → Result Error Receipt × Store S.Bytes → Type 0
  Resumed u r out = (out.0 ≡ ok r) × (out.1.entries ≡ u.entries) × IsSynced S out.1

  replay-Resumed :
      (law : IsLawful S) (m : Messages) (lax : Bool) (d : Draft S.Bytes) (old : Entry S.Bytes)
      (u : Store S.Bytes)
      → IsChained S u.entries
      → IsAnchored S u
      → u.answers ≡ []
      → is_replay lax d old ≡ true
      → Resumed u (row_receipt old) (replay S m lax d old u)
  unfolding replay
  replay-Resumed law m lax d old u chained a quiet fits =
      let h = sync_anchor-returns S u a quiet in
      rw fits (
        subst (Resumed u (row_receipt old))
          (sym (
            >>=-ok (sync_anchor S) (λ _. pure (row_receipt old)) (λ i. (h i, (sync_anchor S u).1))))
          (refl, (sync_anchor-SameTables S u).0, sync_anchor-IsSynced S law u chained a h))

  submit-Resumed :
      (law : IsLawful S) (m : Messages) (lax : Bool) (rows : Promote S) (d : Draft S.Bytes)
      (r : Receipt) (u : Store S.Bytes)
      → IsChained S u.entries
      → IsAnchored S u
      → u.answers ≡ []
      → IsAnswered S lax d r u
      → Resumed u r (submit S m lax rows d u)
  submit-Resumed law m lax rows d r u chained a quiet (old, found, fits, hr) =
      subst (Resumed u r)
        (sym (submit-found S m lax rows d u (IsAnchored-assert_anchor S u a) old found))
        (subst (λ x. Resumed u x (replay S m lax d old u)) hr
          (replay-Resumed law m lax d old u chained a quiet fits))

  stamp : String → Checked (Draft S.Bytes) → Checked (Draft S.Bytes)
  stamp later m = m >>= λ d. ok (record d { created_at = later })

  -- a call of `_append` leaves the tables, or it adds the entry of its draft
  append_entry-tables :
      (t : String) (payload : Fields) (key : String) (request : Fields) (lax : Bool) (now : String)
      (s : Store S.Bytes)
      → let u = (append_entry S t payload key request lax now s).1 in
        ((d : Draft S.Bytes) × (append_draft S t payload key request lax now ≡ ok d)
          × Added S (keep_rows S) d s u)
        ⊎ SameTables s u
  unfolding append_entry
  append_entry-tables t payload key request lax now s =
      elim (Result-cases (append_draft S t payload key request lax now)) [
        | inl (e, h) ↦ rw h (inr (refl, refl))
        | inr (d, h) ↦
            rw h
              (elim (Submitted-tables S lax (keep_rows S) d s
                (submit S append_messages lax (keep_rows S) d s)
                (submit-Submitted S append_messages lax (keep_rows S) d s)) [
                  | inl a ↦ inl (d, refl, a)
                  | inr same ↦ inr same
                ])
      ]

  -- what a call of `_append` that raised and yet added an entry has left to do
  cut_off :
      (law : IsLawful S) (t : String) (payload : Fields) (key : String) (request : Fields)
      (lax : Bool) (now later : String) (d : Draft S.Bytes) (s u : Store S.Bytes)
      → append_draft S t payload key request lax now ≡ ok d
      → Added S (keep_rows S) d s u
      → IsChained S u.entries
      → IsAnchored S u
      → (r : Receipt) × (r.sequence ≡ suc (tail_sequence s.entries))
        × Resumed u r (append_entry S t payload key request lax later (repaired u))
  unfolding append_entry stamp
  cut_off law t payload key request lax now later d s u h added chained a =
      let moved = append_draft-later S t payload key request lax now later ∙ ap (stamp later) h in
      (
        row_receipt (placed d s.entries added.hash),
        refl,
        rw moved (
            submit-Resumed law append_messages lax (keep_rows S) (record d { created_at = later }) _
              (repaired u) chained a refl (Added-IsAnswered S lax (keep_rows S) d s u added)),
      )

  -- A call of `_append` on a ledger that calls reach, which raised although its entry was added, as one
  -- that is cut off between the commit and the write of the anchor, is completed by repeating it when
  -- writes succeed: the repetition returns the receipt of that entry, adds nothing, and the anchor
  -- names the tail.
  pub append_entry-resumes :
      (law : IsLawful S) (t : String) (payload : Fields) (key : String) (request : Fields)
      (lax : Bool) (now later : String) (s u : Store S.Bytes) (e : Error)
      → Reachable S s
      → append_entry S t payload key request lax now s ≡ (err e, u)
      → u.entries ≢ s.entries
      → (r : Receipt) × (r.sequence ≡ suc (tail_sequence s.entries))
        × Resumed u r (append_entry S t payload key request lax later (repaired u))
  append_entry-resumes law t payload key request lax now later s u e reach run grown =
      let out = append_entry S t payload key request lax now s in
      let ran = append_entry-Ran S t payload key request lax now s in
      let chained = Reachable-IsChained S s reach in
      elim (append_entry-tables t payload key request lax now s) [
        | inl (d, h, a) ↦
            cut_off law t payload key request lax now later d s u h
              (subst (λ o. Added S (keep_rows S) d s o.1) run a)
              (subst (λ o. IsChained S o.1.entries) run
                (Change-IsChained S s out.1 (Ran-Change S s out ran) chained))
              (subst (λ o. IsAnchored S o.1) run
                (Ran-IsAnchored law s out ran chained (Reachable-IsAnchored law s reach)))
        | inr same ↦ absurd (grown (ap (λ o. o.1.entries) (sym run) ∙ same.0))
      ]
