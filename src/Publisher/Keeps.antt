-- ===== src/Publisher/Keeps.antt =====
-- `apply` of a report never loses the old report.
use shipcheck.Base.{
  String, eq_iff, eq_refl, ◌≡◌, ◌≢◌, refl, sym, ap, subst, ◌∙◌, Bool, true, false, Option, none,
  some, List, [], ◌∷◌, ok, err, arith, ◌⊎◌, inl, inr,
}
use mathlib.Core.Path.{fun_ext}
use shipcheck.Base.Results.{Result}
use shipcheck.Files.{Disk, Answer, done, refused, torn, cut, update, is_file, next_answer}
use shipcheck.MergeGate.Library.{Library}
use shipcheck.Publisher.{
  Error, Plan, Receipt, check_plan, put_aside, put_back, place_report, conclude, apply, receipt_of,
  Action,
}
use shipcheck.Base.Exec.{on_error}
use shipcheck.Files
use shipcheck.Publisher.{os_error}

module _ (L : Library) where
  -- what the tests at the start have established
  record IsCurrent (p : Plan) (payload : L.Bytes) (f : String → Option L.Bytes) : Type 0 where
    same_report : L.sha256 payload ≡ p.payload_sha
    free : f p.backup_path ≡ none

  abbrev Checked : Plan → L.Bytes → Disk L.Bytes → Result Error (Unit {0}) × Disk L.Bytes → Type 0
  Checked p payload w (ok _, u) = (u ≡ w) × IsCurrent p payload w.file
  Checked p payload w (err _, u) = u ≡ w

  check_plan-Checked :
      (p : Plan) (payload : L.Bytes) (w : Disk L.Bytes)
      → Checked p payload w (check_plan L p payload w)
  unfolding check_plan
  check_plan-Checked p payload w = ground (arith, eq_iff (L.sha256 payload) p.payload_sha)

  -- the files after the old output was moved
  abbrev moved_files : Plan → (String → Option L.Bytes) → String → Option L.Bytes
  moved_files p f = update (update f p.output_path none) p.backup_path (f p.output_path)

  abbrev Aside : Plan → (String → Option L.Bytes) → Result Error Bool × Disk L.Bytes → Type 0
  Aside p f (ok true, u) = (is_file (f p.output_path) ≡ true) × (u.file ≡ moved_files p f)
  Aside p f (ok false, u) = (is_file (f p.output_path) ≡ false) × (u.file ≡ f)
  Aside p f (err _, u) = u.file ≡ f

  put_aside-Aside :
      (p : Plan) (f : String → Option L.Bytes) (answers : List (Answer L.Bytes))
      → Aside p f (put_aside L p (record { file = f; answers = answers }))
  unfolding put_aside
  put_aside-Aside p f [] = ground arith
  put_aside-Aside p f (done ∷ rest) = ground arith
  put_aside-Aside p f (refused ∷ rest) = ground arith
  put_aside-Aside p f (torn b ∷ rest) = ground arith
  put_aside-Aside p f (cut b ∷ rest) = ground arith

  -- The name of the staged file is free, as `tempfile` promises, and with its random end none of the
  -- plan's two paths.
  pub record IsFree (p : Plan) (staged : String) (f : String → Option L.Bytes) : Type 0 where
    pub unused : f staged ≡ none
    pub not_output : staged ≢ p.output_path
    pub not_backup : staged ≢ p.backup_path

  -- a file is moved, or every file is as it was
  abbrev Moved :
      (from to : String)
      → L.Bytes
      → (String → Option L.Bytes)
      → Result Error (Unit {0}) × Disk L.Bytes
      → Type 0
  Moved from to b f (ok _, u) = u.file ≡ update (update f from none) to (some b)
  Moved from to b f (err _, u) = u.file ≡ f

  move_file-Moved :
      (from to : String) (b : L.Bytes) (f : String → Option L.Bytes)
      (answers : List (Answer L.Bytes))
      → f from ≡ some b
      → Moved from to b f
          (Files.move_file (os_error "OSError") from to (record { file = f; answers = answers }))
  move_file-Moved from to b f [] h = ground arith
  move_file-Moved from to b f (done ∷ rest) h = ground arith
  move_file-Moved from to b f (cut x ∷ rest) h = ground arith
  move_file-Moved from to b f (refused ∷ rest) h = ground arith
  move_file-Moved from to b f (torn x ∷ rest) h = ground arith

  -- a free name that was taken and is free again
  unstaged :
      (staged : String) (b : Option L.Bytes) (f : String → Option L.Bytes)
      → f staged ≡ none
      → update (update f staged b) staged none ≡ f
  unstaged staged b f h = fun_ext λ q. ground (arith, eq_iff staged q, ap f)

  unchanged :
      (staged : String) (f : String → Option L.Bytes) → f staged ≡ none → f ≡ update f staged none
  unchanged staged f h = fun_ext λ q. ground (arith, eq_iff staged q, ap f)

  -- the report is at the output path, or something may be left under the name of the staged file
  abbrev Reported :
      Plan
      → L.Bytes
      → String
      → (String → Option L.Bytes)
      → Result Error (Unit {0}) × Disk L.Bytes
      → Type 0
  Reported p payload staged g (ok _, u) = u.file ≡ update g p.output_path (some payload)
  Reported p payload staged g (err _, u) = (left : Option L.Bytes) × (u.file ≡ update g staged left)

  Reported-move :
      (p : Plan) (payload : L.Bytes) (staged : String) (g : String → Option L.Bytes)
      (res : Result Error (Unit {0}) × Disk L.Bytes)
      → g staged ≡ none
      → Moved staged p.output_path payload (update g staged (some payload)) res
      → Reported p payload staged g res
  Reported-move p payload staged g (ok x, u) h e =
      e ∙ ap (λ f. update f p.output_path (some payload)) (unstaged staged (some payload) g h)
  Reported-move p payload staged g (err x, u) h e = (some payload, e)

  -- a staged file that was written, and its move
  place_report-staged :
      (p : Plan) (payload : L.Bytes) (staged : String) (g : String → Option L.Bytes)
      (rest : List (Answer L.Bytes))
      → g staged ≡ none
      → Reported p payload staged g (
          Files.move_file
            (os_error "OSError")
            staged
            p.output_path
            (record { file = update g staged (some payload); answers = rest }))
  place_report-staged p payload staged g rest h = Reported-move p payload staged g _ h (
      move_file-Moved staged p.output_path payload (update g staged (some payload)) rest
        (ground (arith, eq_refl staged)))

  place_report-Reported :
      (p : Plan) (payload : L.Bytes) (staged : String) (g : String → Option L.Bytes)
      (answers : List (Answer L.Bytes))
      → g staged ≡ none
      → Reported p payload staged g
          (place_report L p payload staged (record { file = g; answers = answers }))
  unfolding place_report
  place_report-Reported p payload staged g [] h = place_report-staged p payload staged g [] h
  place_report-Reported p payload staged g (done ∷ rest) h =
      place_report-staged p payload staged g rest h
  place_report-Reported p payload staged g (cut b ∷ rest) h =
      place_report-staged p payload staged g rest h
  place_report-Reported p payload staged g (refused ∷ rest) h = (none, unchanged staged g h)
  place_report-Reported p payload staged g (torn b ∷ rest) h = (some b, refl)

  -- the part of `apply` under `try` behind the move
  abbrev place : Plan → L.Bytes → String → Bool → Action L (Unit {0})
  place p payload staged moved_old =
      on_error (place_report L p payload staged) (put_back L p moved_old)

  abbrev back_files : Plan → (String → Option L.Bytes) → String → Option L.Bytes
  back_files p g = update (update g p.backup_path none) p.output_path (g p.backup_path)

  -- what the handler leaves
  abbrev PutBack : Plan → Bool → (String → Option L.Bytes) → (String → Option L.Bytes) → Type 0
  PutBack p moved g u =
      (u ≡ g) ⊎ ((moved ≡ true) × (is_file (g p.backup_path) ≡ true) × (u ≡ back_files p g))

  abbrev Placed :
      Plan
      → L.Bytes
      → String
      → Bool
      → (String → Option L.Bytes)
      → Result Error (Unit {0}) × Disk L.Bytes
      → Type 0
  Placed p payload staged moved g (ok _, u) = u.file ≡ update g p.output_path (some payload)
  Placed p payload staged moved g (err _, u) =
      (left : Option L.Bytes) × PutBack p moved (update g staged left) u.file

  put_back-files :
      (p : Plan) (moved : Bool) (g : String → Option L.Bytes) (answers : List (Answer L.Bytes))
      → PutBack p moved g (put_back L p moved (record { file = g; answers = answers })).1.file
  unfolding put_back
  put_back-files p moved g [] = ground arith
  put_back-files p moved g (done ∷ rest) = ground arith
  put_back-files p moved g (refused ∷ rest) = ground arith
  put_back-files p moved g (torn b ∷ rest) = ground arith
  put_back-files p moved g (cut b ∷ rest) = ground arith

  -- the handler, by what it returned
  handled :
      (p : Plan) (payload : L.Bytes) (staged : String) (moved : Bool) (g : String → Option L.Bytes)
      (left : Option L.Bytes) (e : Error) (res : Result Error (Unit {0}) × Disk L.Bytes)
      → PutBack p moved (update g staged left) res.1.file
      → Placed p payload staged moved g
          (elim res.0 [ ok _ ↦ (err e, res.1) | err x ↦ (err x, res.1) ])
  handled p payload staged moved g left e (ok x, u) h = (left, h)
  handled p payload staged moved g left e (err x, u) h = (left, h)

  place-Placed :
      (p : Plan) (payload : L.Bytes) (staged : String) (moved : Bool) (g : String → Option L.Bytes)
      (answers : List (Answer L.Bytes))
      → g staged ≡ none
      → Placed p payload staged moved g
          (place p payload staged moved (record { file = g; answers = answers }))
  place-Placed p payload staged moved g answers h =
      caught (place_report L p payload staged (record { file = g; answers = answers }))
        (place_report-Reported p payload staged g answers h)
    where
      caught :
          (res : Result Error (Unit {0}) × Disk L.Bytes)
          → Reported p payload staged g res
          → Placed p payload staged moved g (
              on_error {A = Unit {0}}
                (λ _. res)
                (put_back L p moved)
                (record { file = g; answers = answers }))
      caught (ok x, u) e = e
      caught (err x, u) (left, e) = handled p payload staged moved g left x (put_back L p moved u) (
          subst (λ f. PutBack p moved f (put_back L p moved u).1.file) e
            (put_back-files p moved u.file u.answers))

  conclude-returns :
      (p : Plan) (payload : L.Bytes) (moved : Bool) (g : String → Option L.Bytes) (u : Disk L.Bytes)
      → L.sha256 payload ≡ p.payload_sha
      → u.file ≡ update g p.output_path (some payload)
      → conclude L p moved u ≡ (ok (receipt_of L p moved true), u)
  unfolding conclude
  conclude-returns p payload moved g u h e =
      ground (arith, ap (λ f. f p.output_path) e, eq_refl p.output_path, eq_refl p.payload_sha)

  -- The outcome of `apply` over the files `f`.
  abbrev pub Kept :
      Plan
      → L.Bytes
      → String
      → (String → Option L.Bytes)
      → Result Error Receipt × Disk L.Bytes
      → Type 0
  Kept p payload staged f (ok r, u) =
      (r ≡ receipt_of L p (is_file (f p.output_path)) true)
      × (L.sha256 payload ≡ p.payload_sha)
      × (u.file p.output_path ≡ some payload)
      × (is_file (f p.output_path) ≡ true → u.file p.backup_path ≡ f p.output_path)
      × ((q : String) → q ≢ p.output_path → q ≢ p.backup_path → u.file q ≡ f q)
  Kept p payload staged f (err _, u) =
      ((u.file p.output_path ≡ f p.output_path)
        ⊎ ((is_file (f p.output_path) ≡ true) × (u.file p.backup_path ≡ f p.output_path)))
      × ((q : String) → q ≢ p.output_path → q ≢ p.backup_path → q ≢ staged → u.file q ≡ f q)

  -- the files that `apply` moves are two files
  moved_apart :
      (p : Plan) (f : String → Option L.Bytes)
      → is_file (f p.output_path) ≡ true
      → f p.backup_path ≡ none
      → p.output_path ≢ p.backup_path
  moved_apart p f there free e = ground (arith, ap f e)

  abbrev Leaves : Plan → (String → Option L.Bytes) → (String → Option L.Bytes) → Type 0
  Leaves p f g = (q : String) → q ≢ p.output_path → q ≢ p.backup_path → g q ≡ f q

  moved-Leaves : (p : Plan) (f : String → Option L.Bytes) → Leaves p f (moved_files p f)
  moved-Leaves p f q a b = ground (arith, eq_iff p.output_path q, eq_iff p.backup_path q)

  back-Leaves : (p : Plan) (f : String → Option L.Bytes) → Leaves p f (back_files p f)
  back-Leaves p f q a b = ground (arith, eq_iff p.output_path q, eq_iff p.backup_path q)

  update-Leaves :
      (p : Plan) (f : String → Option L.Bytes) (b : Option L.Bytes)
      → Leaves p f (update f p.output_path b)
  update-Leaves p f b q a c = ground (arith, eq_iff p.output_path q)

  moved-backup :
      (p : Plan) (f : String → Option L.Bytes) → moved_files p f p.backup_path ≡ f p.output_path
  moved-backup p f = ground (arith, eq_refl p.backup_path)

  back-output :
      (p : Plan) (f : String → Option L.Bytes) → back_files p f p.output_path ≡ f p.backup_path
  back-output p f = ground (arith, eq_refl p.output_path)

  update-output :
      (p : Plan) (f : String → Option L.Bytes) (b : Option L.Bytes)
      → update f p.output_path b p.output_path ≡ b
  update-output p f b = ground (arith, eq_refl p.output_path)

  update-backup :
      (p : Plan) (f : String → Option L.Bytes) (b : Option L.Bytes)
      → p.output_path ≢ p.backup_path
      → update f p.output_path b p.backup_path ≡ f p.backup_path
  update-backup p f b apart = ground (arith, eq_iff p.output_path p.backup_path)

  -- a file other than the staged one
  beside :
      (staged q : String) (g : String → Option L.Bytes) (left : Option L.Bytes)
      → q ≢ staged
      → update g staged left q ≡ g q
  beside staged q g left n = ground (arith, eq_iff staged q)

  -- `apply` behind the move, by what `place` has done
  abbrev rest_of :
      Plan → Bool → Result Error (Unit {0}) × Disk L.Bytes → Result Error Receipt × Disk L.Bytes
  rest_of p moved res = elim res.0 [ ok _ ↦ conclude L p moved res.1 | err e ↦ (err e, res.1) ]

  rest_of-moved :
      (p : Plan) (payload : L.Bytes) (staged : String) (f : String → Option L.Bytes)
      (res : Result Error (Unit {0}) × Disk L.Bytes)
      → IsCurrent p payload f
      → IsFree p staged f
      → is_file (f p.output_path) ≡ true
      → Placed p payload staged true (moved_files p f) res
      → Kept p payload staged f (rest_of p true res)
  rest_of-moved p payload staged f (ok x, u) c s there e =
      let apart = moved_apart p f there c.free in
      subst (Kept p payload staged f)
        (sym (conclude-returns p payload true (moved_files p f) u c.same_report e))
        (
          ap (λ b. receipt_of L p b true) (sym there),
          c.same_report,
          ap (λ h. h p.output_path) e ∙ update-output p (moved_files p f) (some payload),
          λ _.
              ap (λ h. h p.backup_path) e
              ∙ update-backup p (moved_files p f) (some payload) apart
              ∙ moved-backup p f,
          λ q a b.
              ap (λ h. h q) e
              ∙ update-Leaves p (moved_files p f) (some payload) q a b
              ∙ moved-Leaves p f q a b,
        )
  rest_of-moved p payload staged f (err x, u) c s there (left, inl e) = (
    inr (
      there,
      ap (λ h. h p.backup_path) e
          ∙ beside staged p.backup_path (moved_files p f) left (λ i. s.not_backup (sym i))
          ∙ moved-backup p f,
    ),
    λ q a b n. ap (λ h. h q) e ∙ beside staged q (moved_files p f) left n ∙ moved-Leaves p f q a b,
  )
  rest_of-moved p payload staged f (err x, u) c s there (left, inr (_, _, e)) = (
    inl (
        ap (λ h. h p.output_path) e
        ∙ back-output p (update (moved_files p f) staged left)
        ∙ beside staged p.backup_path (moved_files p f) left (λ i. s.not_backup (sym i))
        ∙ moved-backup p f),
    λ q a b n.
        ap (λ h. h q) e
        ∙ back-Leaves p (update (moved_files p f) staged left) q a b
        ∙ beside staged q (moved_files p f) left n
        ∙ moved-Leaves p f q a b,
  )

  rest_of-new :
      (p : Plan) (payload : L.Bytes) (staged : String) (f : String → Option L.Bytes)
      (res : Result Error (Unit {0}) × Disk L.Bytes)
      → IsCurrent p payload f
      → IsFree p staged f
      → is_file (f p.output_path) ≡ false
      → Placed p payload staged false f res
      → Kept p payload staged f (rest_of p false res)
  rest_of-new p payload staged f (ok x, u) c s there e =
      subst (Kept p payload staged f) (sym (conclude-returns p payload false f u c.same_report e)) (
        ap (λ b. receipt_of L p b true) (sym there),
        c.same_report,
        ap (λ h. h p.output_path) e ∙ update-output p f (some payload),
        λ h. ground arith,
        λ q a b. ap (λ h. h q) e ∙ update-Leaves p f (some payload) q a b,
      )
  rest_of-new p payload staged f (err x, u) c s there (left, inl e) = (
    inl (
        ap (λ h. h p.output_path) e
        ∙ beside staged p.output_path f left (λ i. s.not_output (sym i))),
    λ q a b n. ap (λ h. h q) e ∙ beside staged q f left n,
  )
  rest_of-new p payload staged f (err x, u) c s there (left, inr (m, _, e)) = ground arith

  -- the staged name is free behind the move of the old output
  moved-unused :
      (p : Plan) (staged : String) (f : String → Option L.Bytes)
      → IsFree p staged f
      → moved_files p f staged ≡ none
  moved-unused p staged f s = moved-Leaves p f staged s.not_output s.not_backup ∙ s.unused

  placed :
      (p : Plan) (payload : L.Bytes) (staged : String) (f : String → Option L.Bytes)
      (res : Result Error Bool × Disk L.Bytes)
      → IsCurrent p payload f
      → IsFree p staged f
      → Aside p f res
      → Kept p payload staged f (elim res.0 [
        | ok moved ↦ rest_of p moved (place p payload staged moved res.1)
        | err e ↦ (err e, res.1)
      ])
  placed p payload staged f (ok true, u) c s (there, e) =
      rest_of-moved p payload staged f _ c s there (
        subst (λ g. Placed p payload staged true g (place p payload staged true u)) e
          (place-Placed p payload staged true u.file u.answers
            (ap (λ g. g staged) e ∙ moved-unused p staged f s)))
  placed p payload staged f (ok false, u) c s (there, e) =
      rest_of-new p payload staged f _ c s there (
        subst (λ g. Placed p payload staged false g (place p payload staged false u)) e
          (place-Placed p payload staged false u.file u.answers (ap (λ g. g staged) e ∙ s.unused)))
  placed p payload staged f (err x, u) c s e =
      (inl (ap (λ h. h p.output_path) e), λ q a b n. ap (λ h. h q) e)

  -- `apply` behind its tests
  abbrev moved_and_placed :
      Plan → L.Bytes → String → Disk L.Bytes → Result Error Receipt × Disk L.Bytes
  moved_and_placed p payload staged w =
      let next = put_aside L p w in
      elim next.0 [
        | ok moved ↦ rest_of p moved (place p payload staged moved next.1)
        | err e ↦ (err e, next.1)
      ]

  checked :
      (p : Plan) (payload : L.Bytes) (staged : String) (w : Disk L.Bytes)
      (res : Result Error (Unit {0}) × Disk L.Bytes)
      → IsFree p staged w.file
      → Checked p payload w res
      → Kept p payload staged w.file
          (elim res.0 [ ok _ ↦ moved_and_placed p payload staged res.1 | err e ↦ (err e, res.1) ])
  checked p payload staged w (ok x, u) s (e, c) =
      subst (λ v. Kept p payload staged w.file (moved_and_placed p payload staged v)) (sym e)
        (placed p payload staged w.file (put_aside L p w) c s (put_aside-Aside p w.file w.answers))
  checked p payload staged w (err x, u) s e = (
    inl (ap (λ (v : Disk L.Bytes). v.file p.output_path) e),
    λ q a b n. ap (λ (v : Disk L.Bytes). v.file q) e,
  )

  -- Whatever the plan, the disk and the operating system's answers, and where the name of the staged
  -- file is free and none of the plan's paths: `apply` either returns the receipt with the new report,
  -- whose digest is the planned one, at the output path, and the old report, if there was one, at the
  -- backup path, and no third file changes; or it raises, and the old report is at the output path or
  -- at the backup path, and no third file changes but the staged one, which may be left behind.
  pub apply-Kept :
      (p : Plan) (payload : L.Bytes) (staged : String) (w : Disk L.Bytes)
      → IsFree p staged w.file
      → Kept p payload staged w.file (apply L p payload staged w)
  unfolding apply
  apply-Kept p payload staged w s =
      checked p payload staged w (check_plan L p payload w) s (check_plan-Checked p payload w)
