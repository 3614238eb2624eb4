-- ===== src/ReleaseGate/Ledger/Chain.antt =====
-- The entries of a ledger form a hash chain.
use shipcheck.Base.{suc, ◌≡◌, refl, subst, sym, ap, List, [], ◌∷◌, length, ok, arith}
use shipcheck.ReleaseGate.Services.{Services}
use shipcheck.ReleaseGate.Ledger.State.{Entry, Store, tail_sequence, tail_hash, hash_of}
use shipcheck.ReleaseGate.Ledger.Drafts.{Draft}
use shipcheck.ReleaseGate.Ledger.Append.{Promote}
use shipcheck.ReleaseGate.Ledger.Effects.{Added}
use shipcheck.ReleaseGate.Ledger.Changes.{Change, none, noted, moved, IsDigested}

module _ (S : Services) where
  -- The entries are numbered from 1 without a gap, each names the hash of the one before, and each
  -- has the hash of its body and the digest of its payload.
  abbrev pub IsChained : List (Entry S.Bytes) → Type 0
  IsChained [] = Unit
  IsChained (e ∷ es) =
      (e.sequence ≡ suc (length es))
      × (e.previous_hash ≡ tail_hash es)
      × (hash_of S e ≡ ok e.entry_hash)
      × (S.sha256_hex e.payload_json ≡ e.payload_digest)
      × IsChained es

  pub tail_sequence-length :
      (es : List (Entry S.Bytes)) → IsChained es → tail_sequence es ≡ length es
  tail_sequence-length [] h = omega arith
  tail_sequence-length (e ∷ es) h = h.0

  Added-IsChained :
      (rows : Promote S) (d : Draft S.Bytes) (s u : Store S.Bytes)
      → IsDigested S d
      → Added S rows d s u
      → IsChained s.entries
      → IsChained u.entries
  Added-IsChained rows d s u sound a h =
      subst IsChained (sym a.entry_added)
        (ap suc (tail_sequence-length s.entries h), refl, a.hashed, sound, h)

  pub Change-IsChained :
      (s u : Store S.Bytes) → Change S s u → IsChained s.entries → IsChained u.entries
  Change-IsChained s u (none same) h = subst IsChained (sym same.0) h
  Change-IsChained s u (noted d sound a) h = Added-IsChained _ d s u sound a h
  Change-IsChained s u (moved r d sound type a) h = Added-IsChained _ d s u sound a h
