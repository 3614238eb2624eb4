-- ===== src/DeployTruth/Transaction/Restore.antt =====
-- transactions.py: `_restore_snapshot` rebuilds a tree exactly.
use shipcheck.Base.{
  String, ◌≡◌, refl, ap, sym, subst, ◌∙◌, Bool, true, false, none, some, List, [], ◌∷◌, ◌++◌, All,
  ok, err, arith,
}
use shipcheck.Base.Exec.{Ends, >>=-Ends, ◌>>=◌, ◌>>◌}
use shipcheck.Base.Results.{Result}
use mathlib.Core.List.{append-nil}
use shipcheck.DeployTruth.Capture.{Hashing}
use shipcheck.DeployTruth.Trees.{
  Node, file, folder, link, Tree, World, find_node, put_node, folders_of,
}
use shipcheck.DeployTruth.Transaction.{
  Raised, Action, take_answer, answered, enter, make_folders, replace, atomic_copy, clear_entries,
  restore_entry, restore_entries, restore_snapshot,
}

-- no write is refused
abbrev pub Calm : List Bool → Type 0
Calm answers = All (λ a. a ≡ true) answers

module _ {Bytes : Type 0} where
  -- `t` continues the tree `before`: paths are new, and a folder is listed before what is in it.
  abbrev pub Grows : Tree Bytes → Tree Bytes → Type 0
  Grows before [] = Unit
  Grows before ((p, n) ∷ t) =
      All (λ q. find_node q before ≡ some folder) (folders_of p)
      × (find_node p before ≡ none)
      × Grows (before ++ ((p, n) ∷ [])) t

  abbrev pub IsTree : Tree Bytes → Type 0
  IsTree t = Grows [] t

  abbrev pub IsPlain : String × Node Bytes → Type 0
  IsPlain (p, link b) = ⊥
  IsPlain _ = Unit

  pub put_node-new :
      (p : String) (n : Node Bytes) (t : Tree Bytes)
      → find_node p t ≡ none
      → put_node p n t ≡ t ++ ((p, n) ∷ [])
  unfolding find_node put_node
  put_node-new p n [] e = refl
  put_node-new p n ((q, m) ∷ t) e = ground (arith, put_node-new p n t)

  append_one :
      (xs : Tree Bytes) (x : String × Node Bytes) (ys : Tree Bytes)
      → (xs ++ (x ∷ [])) ++ ys ≡ xs ++ (x ∷ ys)
  append_one [] x ys = refl
  append_one (y ∷ xs) x ys = ap (λ r. y ∷ r) (append_one xs x ys)

  -- what the writes to the live tree keep
  abbrev pub Beside : World Bytes → World Bytes → Type 0
  Beside w t =
      (t.evidence ≡ w.evidence) × (t.outputs ≡ w.outputs) × (Calm w.answers → Calm t.answers)

  abbrev pub Refused : World Bytes → Raised → World Bytes → Type 0
  Refused w e t = Calm w.answers → ⊥

module _ (h : Hashing) where
  open h use {Bytes}

  pub answered-Beside :
      (w : World Bytes) → Ends (Refused w) (λ _ t. (t.live ≡ w.live) × Beside w t) (answered h w)
  unfolding answered
  answered-Beside w = go w.answers refl
    where
      go :
          (answers : List Bool)
          → w.answers ≡ answers
          → Ends (Refused w) (λ _ t. (t.live ≡ w.live) × Beside w t) (take_answer h answers w)
      go [] e = (refl, (refl, refl, λ c. c))
      go (true ∷ rest) e = (refl, (refl, refl, λ c. (subst Calm e c).1))
      go (false ∷ rest) e = λ c. ground (arith, (subst Calm e c).0)

  -- an action that leaves the live tree as `R` says, and the rest as `Beside` says
  abbrev pub Leaves :
      {A : Type 0} → World Bytes → (Tree Bytes → Type 0) → Result Raised A × World Bytes → Type 0
  Leaves w R r = Ends (Refused w) (λ _ t. R t.live × Beside w t) r

  pub Leaves-from :
      {A : Type 0} (w v : World Bytes) (R : Tree Bytes → Type 0) (r : Result Raised A × World Bytes)
      → Beside w v
      → Leaves v R r
      → Leaves w R r
  Leaves-from w v R (ok a, u) b h = (h.0, (h.1.0 ∙ b.0, h.1.1 ∙ b.1, λ c. h.1.2 (b.2 c)))
  Leaves-from w v R (err e, u) b h = λ c. h (b.2 c)

  -- two actions in a row
  pub >>=-Leaves :
      {A B : Type 0} (w : World Bytes) (Q R : Tree Bytes → Type 0) (m : Action h A)
      (k : A → Action h B)
      → Leaves w Q (m w)
      → ((a : A) (v : World Bytes) → Q v.live → Leaves v R (k a v))
      → Leaves w R ((m >>= k) w)
  >>=-Leaves w Q R m k first next =
      >>=-Ends (Refused w) (λ _ t. Q t.live × Beside w t) (λ _ t. R t.live × Beside w t) m k w first
        λ a v q. Leaves-from w v R (k a v) q.1 (next a v q.0)

  pub clear-empties :
      (t : Tree Bytes) (w : World Bytes) → w.live ≡ t → Leaves w (λ l. l ≡ []) (clear_entries h t w)
  unfolding clear_entries
  clear-empties [] w e = (e, (refl, refl, λ c. c))
  clear-empties (x ∷ t) w e =
      >>=-Leaves w (λ l. l ≡ w.live) (λ l. l ≡ []) (answered h) _ (answered-Beside w)
        λ a v q. clear-empties t (record v { live = t }) refl

  -- folders that are there
  make_folders-there :
      (ps : List String) (w : World Bytes)
      → All (λ q. find_node q w.live ≡ some folder) ps
      → make_folders h ps w ≡ (ok tt, w)
  unfolding make_folders
  make_folders-there [] w a = refl
  make_folders-there (p ∷ ps) w a =
      subst (λ o. (enter h p o >> make_folders h ps) w ≡ (ok tt, w)) (sym a.0)
        (make_folders-there ps w a.1)

  make_folders-last :
      (ps : List String) (p : String) (w : World Bytes)
      → All (λ q. find_node q w.live ≡ some folder) ps
      → find_node p w.live ≡ none
      → make_folders h (ps ++ (p ∷ [])) w ≡ (ok tt, record w { live = put_node p folder w.live })
  unfolding make_folders
  make_folders-last [] p w a e =
      subst
        (λ o.
          (enter h p o >> make_folders h []) w
          ≡ (ok tt, record w { live = put_node p folder w.live }))
        (sym e) refl
  make_folders-last (q ∷ ps) p w a e =
      subst
        (λ o.
          (enter h q o >> make_folders h (ps ++ (p ∷ []))) w
          ≡ (ok tt, record w { live = put_node p folder w.live }))
        (sym a.0) (make_folders-last ps p w a.1 e)

  -- a plain entry whose folders are there, at a new path
  restore_entry-adds :
      (p : String) (n : Node Bytes) (w : World Bytes)
      → IsPlain (p, n)
      → All (λ q. find_node q w.live ≡ some folder) (folders_of p)
      → find_node p w.live ≡ none
      → Leaves w (λ l. l ≡ w.live ++ ((p, n) ∷ [])) (restore_entry h p n w)
  unfolding atomic_copy
  restore_entry-adds p (link b) w i a e = absurd i
  restore_entry-adds p folder w i a e =
      subst (Leaves w (λ l. l ≡ w.live ++ ((p, folder) ∷ [])))
        (sym (make_folders-last (folders_of p) p w a e))
        (put_node-new p folder w.live e, (refl, refl, λ c. c))
  restore_entry-adds p (file b) w i a e =
      >>=-Leaves w (λ l. l ≡ w.live) (λ l. l ≡ w.live ++ ((p, file b) ∷ []))
        (make_folders h (folders_of p)) _
        (subst (Leaves w (λ l. l ≡ w.live)) (sym (make_folders-there (folders_of p) w a))
          (refl, (refl, refl, λ c. c)))
        λ _ v q.
          >>=-Leaves v (λ l. l ≡ v.live) (λ l. l ≡ w.live ++ ((p, file b) ∷ [])) (answered h) _
            (answered-Beside v)
            λ _ u r.
              subst (λ o. Leaves u (λ l. l ≡ w.live ++ ((p, file b) ∷ [])) (replace h p b o u))
                (sym (ap (find_node p) (r ∙ q) ∙ e))
                (
                  put_node-new p (file b) u.live (ap (find_node p) (r ∙ q) ∙ e)
                      ∙ ap (λ l. l ++ ((p, file b) ∷ [])) (r ∙ q),
                  (refl, refl, λ c. c),
                )

  restore_entries-adds :
      (t : Tree Bytes) (w : World Bytes) (before : Tree Bytes)
      → w.live ≡ before
      → All IsPlain t
      → Grows before t
      → Leaves w (λ l. l ≡ before ++ t) (restore_entries h t w)
  unfolding restore_entries
  restore_entries-adds [] w before e i g = (e ∙ sym (append-nil before), (refl, refl, λ c. c))
  restore_entries-adds ((p, n) ∷ t) w before e i g =
      >>=-Leaves w (λ l. l ≡ w.live ++ ((p, n) ∷ [])) (λ l. l ≡ before ++ ((p, n) ∷ t))
        (restore_entry h p n) _
        (restore_entry-adds p n w i.0
          (subst (λ l. All (λ q. find_node q l ≡ some folder) (folders_of p)) (sym e) g.0)
          (ap (find_node p) e ∙ g.1))
        λ _ v q.
          subst (λ l'. Leaves v (λ l. l ≡ l') (restore_entries h t v)) (append_one before (p, n) t)
            (restore_entries-adds t v (before ++ ((p, n) ∷ [])) (q ∙ ap (λ l. l ++ ((p, n) ∷ [])) e)
              i.1 g.2)

  -- `_restore_snapshot` puts the tree of the snapshot in the place of any tree.
  pub restore_snapshot-exact :
      (t : Tree Bytes) (w : World Bytes)
      → All IsPlain t
      → IsTree t
      → Leaves w (λ l. l ≡ t) (restore_snapshot h t w)
  unfolding restore_snapshot
  restore_snapshot-exact t w i g =
      >>=-Leaves w (λ l. l ≡ []) (λ l. l ≡ t) (λ u. clear_entries h u.live u) _
        (clear-empties w.live w refl) λ _ v q. restore_entries-adds t v [] q i g
