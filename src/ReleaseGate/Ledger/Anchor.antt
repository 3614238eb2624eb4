-- ===== src/ReleaseGate/Ledger/Anchor.antt =====
-- ledger.py: the tail anchor, a file beside the database that names an entry.
use shipcheck.Base.{
  ℕ, String, ◌==◌, Bool, false, not, Option, none, some, eqb, ltb, if◌then◌else◌, ok,
}
use shipcheck.Base.Exec.{pure, raise, lift, ◌>>=◌, ◌>>◌, raise_when}
use shipcheck.ReleaseGate.Errors.{Error, ledger, security}
use shipcheck.ReleaseGate.Services.{Services}
use shipcheck.ReleaseGate.Ledger.State.{tail_sequence, tail_hash, ask, Action}
use shipcheck.ReleaseGate.Ledger.AnchorFile.{anchor_of, anchor_dict, check_anchor}

module _ (S : Services) where
  abbrev pub read_anchor : Action S (Option (ℕ × String))
  read_anchor s = (anchor_of s.anchor, s)

  abbrev unsafe_output : Error
  unsafe_output = security "atomic output path is unsafe or inaccessible"

  -- `atomic_write` of the anchor: the temporary file and its replacement, and the `fsync` of the
  -- folder, which raises behind the replacement
  unfoldable pub write_anchor : ℕ → String → Action S (Unit {0})
  write_anchor n h = do
    replaced ← ask
    raise_when (not replaced) unsafe_output
    (λ s. (ok tt, record s { anchor = some (some (anchor_dict n h)) }))
    synced ← ask
    raise_when (not synced) unsafe_output

  -- `_update_anchor`, for the anchor that is there
  unfoldable pub advance : Option (ℕ × String) → ℕ → String → Bool → Action S (Unit {0})
  advance none n h allow_create =
      if allow_create
      then write_anchor n h
      else raise (ledger "tail anchor disappeared; refusing to recreate it")
  advance (some (m, g)) n h allow_create =
      if ltb n m
      then pure tt
      else if eqb m n
      then raise_when (not (g == h)) (ledger "tail anchor conflict at same sequence")
      else write_anchor n h

  unfoldable pub update_anchor : ℕ → String → Bool → Action S (Unit {0})
  update_anchor n h allow_create = do current ← read_anchor; advance current n h allow_create

  -- `_assert_anchor_matches_tail`
  unfoldable pub assert_anchor : Action S (Unit {0})
  assert_anchor s = (read_anchor >>= λ current. lift (check_anchor s.entries current)) s

  -- `_sync_anchor_to_tail`
  unfoldable pub sync_anchor : Action S (Unit {0})
  sync_anchor s =
      (assert_anchor >> update_anchor (tail_sequence s.entries) (tail_hash s.entries) false) s
