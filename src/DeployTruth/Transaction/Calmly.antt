-- ===== src/DeployTruth/Transaction/Calmly.antt =====
-- transactions.py: what the writes of `apply_plan` keep, also where they raise.
use shipcheck.Base.{
  String, eq_refl, ◌≡◌, refl, ap, subst, ◌∙◌, Bool, true, false, Option, none, some, List, [], ◌∷◌,
  ◌<>◌,
}
use shipcheck.Base.Exec.{Ends, >>=-Ends, Ends-imp, ◌>>◌}
use shipcheck.Json.{Value}
use shipcheck.DeployTruth.Capture.{Hashing}
use shipcheck.DeployTruth.Plan.{OperationKind, write, delete, Operation}
use shipcheck.DeployTruth.Trees.{Node, file, folder, link, Tree, World, find_node, folders_of}
use shipcheck.DeployTruth.Transaction.{
  Action, take_answer, answered, enter, make_folders, replace, atomic_copy, log, write_file,
  drop_file, delete_file, run_operation, run_operations, marker_of, snapshot_of, marker_value,
  place_marker, write_marker,
}
use shipcheck.DeployTruth.Transaction.Restore.{Calm, Beside, Refused, answered-Beside}

module _ {Bytes : Type 0} where
  abbrev pub Steady : World Bytes → World Bytes → Type 0
  Steady w t = (t.evidence ≡ w.evidence) × (Calm w.answers → Calm t.answers)

module _ (h : Hashing) where
  open h use {Bytes}

  -- An action that leaves the evidence, whether it returns or raises.
  abbrev pub IsSteady : {A : Type 0} → Action h A → Type 0
  IsSteady m = (w : World Bytes) → Ends (λ e t. Steady w t) (λ a t. Steady w t) (m w)

  >>-IsSteady :
      {A : Type 0} (m : Action h (Unit {0})) (k : Action h A)
      → IsSteady m
      → IsSteady k
      → IsSteady (m >> k)
  >>-IsSteady m k first next w =
      >>=-Ends (λ e t. Steady w t) (λ a t. Steady w t) (λ a t. Steady w t) m _ w (first w)
        λ a v q.
          Ends-imp (λ e t. Steady v t) (λ e t. Steady w t) (λ a t. Steady v t) (λ a t. Steady w t)
            (λ e t r. (r.0 ∙ q.0, λ c. r.1 (q.1 c))) (λ a t r. (r.0 ∙ q.0, λ c. r.1 (q.1 c))) (k v)
            (next v)

  answered-IsSteady : IsSteady (answered h)
  unfolding answered
  answered-IsSteady w = go w.answers refl
    where
      go :
          (answers : List Bool)
          → w.answers ≡ answers
          → Ends (λ e t. Steady w t) (λ a t. Steady w t) (take_answer h answers w)
      go [] e = (refl, λ c. c)
      go (true ∷ rest) e = (refl, λ c. (subst Calm e c).1)
      go (false ∷ rest) e = (refl, λ c. (subst Calm e c).1)

  pub answered-keeps :
      (w : World Bytes)
      → Ends
          (λ e t. t.live ≡ w.live)
          (λ a t. (t.live ≡ w.live) × (Calm w.answers → Calm t.answers))
          (answered h w)
  unfolding answered
  answered-keeps w = go w.answers refl
    where
      go :
          (answers : List Bool)
          → w.answers ≡ answers
          → Ends
              (λ e t. t.live ≡ w.live)
              (λ a t. (t.live ≡ w.live) × (Calm w.answers → Calm t.answers))
              (take_answer h answers w)
      go [] e = (refl, λ c. c)
      go (true ∷ rest) e = (refl, λ c. (subst Calm e c).1)
      go (false ∷ rest) e = refl

  enter-IsSteady : (p : String) (o : Option (Node Bytes)) → IsSteady (enter h p o)
  enter-IsSteady p none w = (refl, λ c. c)
  enter-IsSteady p (some folder) w = (refl, λ c. c)
  enter-IsSteady p (some (link true)) w = (refl, λ c. c)
  enter-IsSteady p (some (link false)) w = (refl, λ c. c)
  enter-IsSteady p (some (file b)) w = (refl, λ c. c)

  make_folders-IsSteady : (ps : List String) → IsSteady (make_folders h ps)
  unfolding make_folders
  make_folders-IsSteady [] = λ w. (refl, λ c. c)
  make_folders-IsSteady (p ∷ ps) =
      >>-IsSteady (λ w. enter h p (find_node p w.live) w) (make_folders h ps)
        (λ w. enter-IsSteady p (find_node p w.live) w) (make_folders-IsSteady ps)

  replace-IsSteady : (p : String) (b : Bytes) (o : Option (Node Bytes)) → IsSteady (replace h p b o)
  replace-IsSteady p b none w = (refl, λ c. c)
  replace-IsSteady p b (some folder) w = (refl, λ c. c)
  replace-IsSteady p b (some (link x)) w = (refl, λ c. c)
  replace-IsSteady p b (some (file x)) w = (refl, λ c. c)

  atomic_copy-IsSteady : (b : Bytes) (p : String) → IsSteady (atomic_copy h b p)
  unfolding atomic_copy
  atomic_copy-IsSteady b p =
      >>-IsSteady (make_folders h (folders_of p)) _ (make_folders-IsSteady (folders_of p)) (
        >>-IsSteady (answered h) _ answered-IsSteady
          (λ w. replace-IsSteady p b (find_node p w.live) w))

  write_file-IsSteady : (p : String) (o : Option (Node Bytes)) → IsSteady (write_file h p o)
  write_file-IsSteady p none = λ w. (refl, λ c. c)
  write_file-IsSteady p (some folder) = λ w. (refl, λ c. c)
  write_file-IsSteady p (some (link x)) = λ w. (refl, λ c. c)
  write_file-IsSteady p (some (file b)) =
      >>-IsSteady (atomic_copy h b p) (log h ("write " <> p)) (atomic_copy-IsSteady b p)
        (λ w. (refl, λ c. c))

  delete_file-IsSteady : (p : String) (o : Option (Node Bytes)) → IsSteady (delete_file h p o)
  delete_file-IsSteady p none = λ w. (refl, λ c. c)
  delete_file-IsSteady p (some folder) = λ w. (refl, λ c. c)
  delete_file-IsSteady p (some (link x)) =
      >>-IsSteady (answered h) (drop_file h p) answered-IsSteady (λ w. (refl, λ c. c))
  delete_file-IsSteady p (some (file b)) =
      >>-IsSteady (answered h) (drop_file h p) answered-IsSteady (λ w. (refl, λ c. c))

  run_operation-IsSteady :
      (b : Tree Bytes) (k : OperationKind) (p : String) → IsSteady (run_operation h b k p)
  run_operation-IsSteady b write p = write_file-IsSteady p (find_node p b)
  run_operation-IsSteady b delete p = λ w. delete_file-IsSteady p (find_node p w.live) w

  pub run_operations-IsSteady :
      (b : Tree Bytes) (os : List Operation) → IsSteady (run_operations h b os)
  unfolding run_operations
  run_operations-IsSteady b [] = λ w. (refl, λ c. c)
  run_operations-IsSteady b (o ∷ os) =
      >>-IsSteady (run_operation h b o.kind o.path) (run_operations h b os)
        (run_operation-IsSteady b o.kind o.path) (run_operations-IsSteady b os)

  -- the marker is written beside the snapshot, or nothing is
  pub write_marker-marks :
      (id status : String) (more : List (String × Value)) (w : World Bytes)
      → Ends
          (λ e t. (Calm w.answers → ⊥) × (Calm w.answers → Calm t.answers))
          (λ a t.
            (t.live ≡ w.live)
            × (Calm w.answers → Calm t.answers)
            × (marker_of h (t.evidence id) ≡ some (marker_value h id status more))
            × (snapshot_of h (t.evidence id) ≡ snapshot_of h (w.evidence id)))
          (write_marker h id status more w)
  unfolding write_marker
  write_marker-marks id status more w =
      >>=-Ends (λ e t. (Calm w.answers → ⊥) × (Calm w.answers → Calm t.answers))
        (λ _ t. (t.live ≡ w.live) × Beside w t)
        (λ a t.
          (t.live ≡ w.live)
          × (Calm w.answers → Calm t.answers)
          × (marker_of h (t.evidence id) ≡ some (marker_value h id status more))
          × (snapshot_of h (t.evidence id) ≡ snapshot_of h (w.evidence id)))
        (answered h) (λ _. place_marker h id (marker_value h id status more)) w
        (Ends-imp (Refused w) (λ e t. (Calm w.answers → ⊥) × (Calm w.answers → Calm t.answers))
          (λ _ t. (t.live ≡ w.live) × Beside w t) (λ _ t. (t.live ≡ w.live) × Beside w t)
          (λ e t r. (r, λ c. absurd (r c))) (λ _ t r. r) (answered h w) (answered-Beside h w))
        λ _ v q.
          (q.0, q.1.2, rw (eq_refl id) refl, rw (eq_refl id) (ap (λ f. snapshot_of h (f id)) q.1.0))
