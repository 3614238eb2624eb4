-- ===== src/MergeGate/Transaction/Parts.antt =====
-- The parts of the transaction: what they read, write and check.
use shipcheck.Base.{String, eq_refl, ◌≡◌, refl, true, Option, some, ok, err, arith, ◌<>◌}
use shipcheck.Base.Texts.{all_chars, is_hex}
use shipcheck.Base.Texts.Strip.{lower-hex}
use shipcheck.Files.{Disk}
use shipcheck.MergeGate.Contract.Fields.{is_sha}
use shipcheck.MergeGate.Contract.Artifact.{GateArtifact}
use shipcheck.MergeGate.Errors.{Checked}
use shipcheck.MergeGate.Library.{Library, IsLawful, text_dict}
use shipcheck.MergeGate.Receipt.{Receipt, create_receipt}
use shipcheck.MergeGate.Transaction.{
  parse_state, read_current, verify, after_fields, after_bytes, receipt_of,
}

module _ (L : Library) where
  -- Reading the state changes nothing.
  pub read_current-state : (path : String) (w : Disk L.Bytes) → (read_current L path w).1 ≡ w
  unfolding read_current
  read_current-state path w = refl

-- A receipt that is accepted is the one that was given, and its merge SHA is in order.
abbrev pub Accepted : Receipt → Checked Receipt → Type 0
Accepted r (ok q) = (q ≡ r) × (is_sha r.merge_sha ≡ true)
Accepted r (err _) = Unit

pub create_receipt-Accepted : (r : Receipt) → Accepted r (create_receipt r)
unfolding create_receipt
create_receipt-Accepted r = ground arith

module _ (L : Library) (law : IsLawful L) where
  -- The bytes that `apply` writes are read back as the merge SHA.
  pub parse-after :
      (a : GateArtifact)
      → all_chars is_hex a.snapshot.merge_sha ≡ true
      → parse_state L (after_bytes L a) ≡ ok (some a.snapshot.merge_sha)
  unfolding parse_state
  parse-after a h =
      let (fs, read, entry) = law.loads-dumps (after_fields L a) refl in
      ground (
        arith,
        law.decode-encode (L.dumps (text_dict (after_fields L a)) <> "\n"),
        entry "current_sha",
        lower-hex a.snapshot.merge_sha,
      )

  -- A state file that holds what `apply` writes passes `verify`, which changes nothing.
  pub verify-after :
      (a : GateArtifact) (path now : String) (before : Option L.Bytes) (w : Disk L.Bytes)
      → is_sha a.snapshot.merge_sha ≡ true
      → w.file path ≡ some (after_bytes L a)
      → verify L (receipt_of L a path before now) path w ≡ (
        ok (record {
          current_sha = some a.snapshot.merge_sha;
          bytes_sha256 = L.sha256 (after_bytes L a);
        }),
        w,
      )
  unfolding verify read_current
  verify-after a path now before w h e = ground (
    arith,
    eq_refl path,
    eq_refl (L.sha256 (after_bytes L a)),
    eq_refl a.snapshot.merge_sha,
    parse-after a,
  )
