-- ===== src/MergeGate/Transaction/Atomic.antt =====
-- `apply` happens as a whole or leaves the state file alone, whatever the operating system answers.
use shipcheck.Base.{
  String, eq_iff, eq_refl, ◌≡◌, ◌≢◌, refl, sym, ap, subst, ◌∙◌, true, false, Option, some, List, [],
  ◌∷◌, ok, err, arith,
}
use shipcheck.Base.Results.{Result}
use shipcheck.Files.{Disk, Answer, done, refused, torn, cut, update, is_file, next_answer}
use shipcheck.MergeGate.Errors.{Error, os_error}
use shipcheck.MergeGate.Contract.Fields.{is_sha, is_ready}
use shipcheck.MergeGate.Contract.Artifact.{GateArtifact}
use shipcheck.MergeGate.Library.{Library, IsLawful}
use shipcheck.MergeGate.Receipt.{Receipt}
use shipcheck.MergeGate.Transaction.{
  dry_run, prepare, perform, restore, commit, apply, after_bytes, receipt_of, receipt_line,
  bytes_or_empty, read_current,
}
use shipcheck.MergeGate.Transaction.Parts.{verify-after, create_receipt-Accepted}

-- the call raised
abbrev pub Raises : {A : Type 0} → Result Error A → Type 0
Raises (ok a) = ⊥
Raises (err e) = Unit

-- An artifact that is not READY is never applied: `apply` raises, and no file changes.
pub apply-not_ready :
    (L : Library) (a : GateArtifact) (path receipt_file now : String) (w : Disk L.Bytes)
    → is_ready a.decision ≡ false
    → Raises (apply L a path receipt_file now w).0 × ((apply L a path receipt_file now w).1 ≡ w)
unfolding apply dry_run read_current
apply-not_ready L a path receipt_file now w h = ground arith

module _ (L : Library) (law : IsLawful L) where
  -- what `commit` leaves, by the operating system's answer to the first write
  abbrev Committed :
      GateArtifact
      → String
      → (String → Option L.Bytes)
      → Result Error (Unit {0}) × Disk L.Bytes
      → Type 0
  Committed a path f (ok _, u) = u.file ≡ update f path (some (after_bytes L a))
  Committed a path f (err _, u) = (p : String) → u.file p ≡ f p

  commit-done :
      (a : GateArtifact) (path now : String) (before : Option L.Bytes) (f : String → Option L.Bytes)
      (rest : List (Answer L.Bytes))
      → is_sha a.snapshot.merge_sha ≡ true
      → commit L
          (receipt_of L a path before now)
          path
          (after_bytes L a)
          (record { file = f; answers = done ∷ rest })
        ≡ (ok tt, record { file = update f path (some (after_bytes L a)); answers = rest })
  unfolding commit
  commit-done a path now before f rest h = ground (
    arith,
    verify-after L law a path now before
        (record { file = update f path (some (after_bytes L a)); answers = rest }) h
        (ground (arith, eq_refl path)),
  )

  commit-nil :
      (a : GateArtifact) (path now : String) (before : Option L.Bytes) (f : String → Option L.Bytes)
      → is_sha a.snapshot.merge_sha ≡ true
      → commit L
          (receipt_of L a path before now)
          path
          (after_bytes L a)
          (record { file = f; answers = [] })
        ≡ (ok tt, record { file = update f path (some (after_bytes L a)); answers = [] })
  unfolding commit
  commit-nil a path now before f h = commit-done a path now before f [] h

  -- the handler after a replacement that was refused: the state file still holds what it held
  restore-same :
      (a : GateArtifact) (path now : String) (f : String → Option L.Bytes)
      (answers : List (Answer L.Bytes)) (p : String)
      → (restore L
            (receipt_of L a path (f path) now)
            path
            (record { file = f; answers = answers })).1.file
          p
        ≡ f p
  unfolding restore
  restore-same a path now f answers p =
      ground (arith, law.b64decode_lax-b64encode (bytes_or_empty L (f path)), eq_iff path p)

  commit-Committed :
      (a : GateArtifact) (path now : String) (f : String → Option L.Bytes)
      (answers : List (Answer L.Bytes))
      → is_sha a.snapshot.merge_sha ≡ true
      → Committed a path f (
          commit L
            (receipt_of L a path (f path) now)
            path
            (after_bytes L a)
            (record { file = f; answers = answers }))
  unfolding commit
  commit-Committed a path now f [] h = rw (commit-nil a path now (f path) f h) refl
  commit-Committed a path now f (done ∷ rest) h =
      ground (arith, commit-done a path now (f path) f rest h)
  commit-Committed a path now f (refused ∷ rest) h = ground (arith, restore-same a path now f rest)
  commit-Committed a path now f (torn b ∷ rest) h = ground (arith, restore-same a path now f rest)
  commit-Committed a path now f (cut b ∷ rest) h =
      ground (arith, commit-done a path now (f path) f rest h)

  -- the receipt file and the state file are two files
  written :
      (path receipt_file : String) (f : String → Option L.Bytes) (b : L.Bytes)
      → is_file (f receipt_file) ≡ false
      → is_file (f path) ≡ true
      → update f receipt_file (some b) path ≡ f path
  written path receipt_file f b free there = ground (arith, eq_iff receipt_file path)

  -- What `apply` has checked before it writes.
  record IsPrepared (a : GateArtifact) (path receipt_file now : String) (w : Disk L.Bytes)
      (r : Receipt) : Type 0 where
    made : r ≡ receipt_of L a path (w.file path) now
    ready : is_ready a.decision ≡ true
    merge_sha : is_sha a.snapshot.merge_sha ≡ true
    free : is_file (w.file receipt_file) ≡ false
    there : is_file (w.file path) ≡ true

  abbrev Prepared :
      GateArtifact → (path receipt_file now : String) → Disk L.Bytes → Result Error Receipt → Type 0
  Prepared a path receipt_file now w (ok r) = IsPrepared a path receipt_file now w r
  Prepared a path receipt_file now w (err _) = Unit

  prepare-state :
      (a : GateArtifact) (path receipt_file now : String) (w : Disk L.Bytes)
      → (prepare L a path receipt_file now w).1 ≡ w
  unfolding prepare dry_run read_current
  prepare-state a path receipt_file now w = ground arith

  prepare-Prepared :
      (a : GateArtifact) (path receipt_file now : String) (w : Disk L.Bytes)
      → Prepared a path receipt_file now w (prepare L a path receipt_file now w).0
  unfolding prepare dry_run read_current
  prepare-Prepared a path receipt_file now w =
      ground (arith, create_receipt-Accepted (receipt_of L a path (w.file path) now))

  -- what the receipt file holds: the line, or what `os.write` has written of it
  abbrev pub recorded : Answer L.Bytes → L.Bytes → L.Bytes
  recorded (cut part) line = part
  recorded _ line = line

  -- what `apply` has done
  abbrev pub Applied :
      GateArtifact
      → (path receipt_file now : String) → (before : Disk L.Bytes)
      → Result Error Receipt × Disk L.Bytes
      → Type 0
  Applied a path receipt_file now w (ok r, u) =
      (r ≡ receipt_of L a path (w.file path) now)
      × (is_ready a.decision ≡ true)
      × (u.file
          ≡ update
              (update w.file receipt_file
                (some (recorded (next_answer w.answers).0 (receipt_line L r))))
              path (some (after_bytes L a)))
  Applied a path receipt_file now w (err _, u) =
      (p : String) → p ≢ receipt_file → u.file p ≡ w.file p

  -- the end of `perform`, by what `commit` has done
  finish :
      (a : GateArtifact) (path receipt_file now : String) (w : Disk L.Bytes) (r : Receipt)
      (res : Result Error (Unit {0}) × Disk L.Bytes)
      → r ≡ receipt_of L a path (w.file path) now
      → is_ready a.decision ≡ true
      → Committed a path
          (update w.file receipt_file
            (some (recorded (next_answer w.answers).0 (receipt_line L r))))
          res
      → Applied a path receipt_file now w
          (elim res.0 [ ok _ ↦ (ok r, res.1) | err e ↦ (err e, res.1) ])
  finish a path receipt_file now w r (ok _, u) made rd h = (made, rd, h)
  finish a path receipt_file now w r (err e, u) made rd h =
      λ p other. h p ∙ ground (arith, eq_iff receipt_file p)

  perform_created :
      (a : GateArtifact) (path receipt_file now : String) (f : String → Option L.Bytes)
      (answers rest : List (Answer L.Bytes)) (r : Receipt) (line : L.Bytes)
      → IsPrepared a path receipt_file now (record { file = f; answers = answers }) r
      → Committed a path (update f receipt_file (some line)) (
          commit L r path
            (after_bytes L a)
            (record { file = update f receipt_file (some line); answers = rest }))
  perform_created a path receipt_file now f answers rest r line h =
      let g = update f receipt_file (some line) in
      let same_state = written path receipt_file f line h.free h.there in
      let receipt_same : receipt_of L a path (g path) now ≡ r =
        ap (λ before. receipt_of L a path before now) same_state ∙ sym h.made in
      subst
        (λ q.
          Committed a path g
            (commit L q path (after_bytes L a) (record { file = g; answers = rest })))
        receipt_same (commit-Committed a path now g rest h.merge_sha)

  -- the receipt file is created: `commit` decides the rest
  perform-free :
      (a : GateArtifact) (path receipt_file : String) (f : String → Option L.Bytes)
      (rest : List (Answer L.Bytes)) (r : Receipt)
      → is_file (f receipt_file) ≡ false
      → let res =
          commit L r path
            (after_bytes L a)
            (record { file = update f receipt_file (some (receipt_line L r)); answers = rest }) in
        let end : Result Error Receipt × Disk L.Bytes = elim res.0 [
          | ok _ ↦ (ok r, res.1)
          | err e ↦ (err e, res.1)
        ] in
        (perform L a path receipt_file r (record { file = f; answers = done ∷ rest }) ≡ end)
        × (rest ≡ [] → perform L a path receipt_file r (record { file = f; answers = [] }) ≡ end)
  unfolding perform
  perform-free a path receipt_file f rest r free = (ground arith, λ e. rw e (ground arith))

  perform-cut :
      (a : GateArtifact) (path receipt_file : String) (f : String → Option L.Bytes) (b : L.Bytes)
      (rest : List (Answer L.Bytes)) (r : Receipt)
      → is_file (f receipt_file) ≡ false
      → let res =
          commit L r path
            (after_bytes L a)
            (record { file = update f receipt_file (some b); answers = rest }) in
        let end : Result Error Receipt × Disk L.Bytes = elim res.0 [
          | ok _ ↦ (ok r, res.1)
          | err e ↦ (err e, res.1)
        ] in
        perform L a path receipt_file r (record { file = f; answers = cut b ∷ rest }) ≡ end
  unfolding perform
  perform-cut a path receipt_file f b rest r free = ground arith

  perform-torn :
      (a : GateArtifact) (path receipt_file : String) (f : String → Option L.Bytes) (b : L.Bytes)
      (rest : List (Answer L.Bytes)) (r : Receipt)
      → is_file (f receipt_file) ≡ false
      → perform L a path receipt_file r (record { file = f; answers = torn b ∷ rest }) ≡ (
        err (os_error "OSError"),
        record { file = update f receipt_file (some b); answers = rest },
      )
  unfolding perform
  perform-torn a path receipt_file f b rest r free = ground arith

  -- the first write and those after it, where the receipt file is free
  perform-Applied :
      (a : GateArtifact) (path receipt_file now : String) (f : String → Option L.Bytes)
      (answers : List (Answer L.Bytes)) (r : Receipt)
      → IsPrepared a path receipt_file now (record { file = f; answers = answers }) r
      → Applied a path receipt_file now
          (record { file = f; answers = answers })
          (perform L a path receipt_file r (record { file = f; answers = answers }))
  perform-Applied a path receipt_file now f [] r h =
      subst (Applied a path receipt_file now (record { file = f; answers = [] }))
        (sym ((perform-free a path receipt_file f [] r h.free).1 refl))
        (finish a path receipt_file now (record { file = f; answers = [] }) r _ h.made h.ready
          (perform_created a path receipt_file now f [] [] r (receipt_line L r) h))
  perform-Applied a path receipt_file now f (done ∷ rest) r h =
      subst (Applied a path receipt_file now (record { file = f; answers = done ∷ rest }))
        (sym (perform-free a path receipt_file f rest r h.free).0)
        (finish a path receipt_file now (record { file = f; answers = done ∷ rest }) r _ h.made
          h.ready
          (perform_created a path receipt_file now f (done ∷ rest) rest r (receipt_line L r) h))
  perform-Applied a path receipt_file now f (cut b ∷ rest) r h =
      subst (Applied a path receipt_file now (record { file = f; answers = cut b ∷ rest }))
        (sym (perform-cut a path receipt_file f b rest r h.free))
        (finish a path receipt_file now (record { file = f; answers = cut b ∷ rest }) r _ h.made
          h.ready (perform_created a path receipt_file now f (cut b ∷ rest) rest r b h))
  perform-Applied a path receipt_file now f (refused ∷ rest) r h = unfold perform in ground arith
  perform-Applied a path receipt_file now f (torn b ∷ rest) r h =
      unfold perform in
      (let e = perform-torn a path receipt_file f b rest r h.free in
        subst (Applied a path receipt_file now (record { file = f; answers = torn b ∷ rest }))
          (sym e) (λ p other. ground (arith, eq_iff receipt_file p)))

  -- Whatever the operating system answers, `apply` either returns the receipt of the state file as
  -- it was, with the artifact READY and the new state written, and the receipt file holds the receipt,
  -- or only what `os.write` has written of it where that returned early; or it raises and no file but
  -- the receipt file has changed. A temporary file that a failed write leaves is not counted.
  pub apply-Applied :
      (a : GateArtifact) (path receipt_file now : String) (w : Disk L.Bytes)
      → Applied a path receipt_file now w (apply L a path receipt_file now w)
  unfolding apply dry_run read_current
  apply-Applied a path receipt_file now w =
      started (prepare L a path receipt_file now w) (prepare-state a path receipt_file now w)
        (prepare-Prepared a path receipt_file now w)
    where
      started :
          (res : Result Error Receipt × Disk L.Bytes)
          → res.1 ≡ w
          → Prepared a path receipt_file now w res.0
          → Applied a path receipt_file now w
              (elim res.0 [ ok r ↦ perform L a path receipt_file r res.1 | err e ↦ (err e, res.1) ])
      started (ok r, u) e h = rw e (perform-Applied a path receipt_file now w.file w.answers r h)
      started (err x, u) e h = λ p _. ap (λ (v : Disk L.Bytes). v.file p) e
