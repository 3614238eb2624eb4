-- ===== src/Council/Decides.antt =====
-- What the decision of council.py means, and that no reviewer and no finding is lost.
use Prim.Native.Nat.{◌-◌}
use shipcheck.Base.{
  ℕ, ◌≤◌, ◌<◌, String, ◌≡◌, ◌↔◌, ◌⊎◌, refl, ap, ◌∙◌, Bool, true, false, List, [], ◌∷◌, map, any,
  All, any-eq-false, length, length-append, count_if, sum_by, Result, ok, err, arith,
}
use shipcheck.Base.Sort.{sort_by, any-sort_by, length-sort_by}
use shipcheck.Json.{Value}
use shipcheck.Council.Models.{approved, blocked, is_success, Finding, Outcome, Snapshot}
use shipcheck.Council.{
  Config, Reviewer, Council, findings_of, outcome_of, all_findings, le_finding, is_blocking,
  is_high_or_medium, decide, review,
}

-- the reviewer returned its findings
abbrev pub Succeeds : Snapshot → Reviewer → Type 0
Succeeds s r = (found : List Finding) × (r.review_of s ≡ ok found)

abbrev succeeded : Outcome → Bool
succeeded o = is_success o.status

outcome_of-Succeeds :
    (s : Snapshot) (r : Reviewer) → (is_success ((outcome_of s r).status) ≡ true) ↔ Succeeds s r
outcome_of-Succeeds s r = of_result (r.review_of s) refl
  where
    of_result :
        (m : Result String (List Finding))
        → r.review_of s ≡ m
        → (is_success ((outcome_of s r).status) ≡ true) ↔ Succeeds s r
    of_result (ok found) e = (λ h. (found, e), λ h. ground arith)
    of_result (err x) e = (λ h. ground arith, λ h. ground (arith, h.1))

-- how many of the reviewers succeed
abbrev pub successes : Snapshot → List Reviewer → ℕ
successes s rs = count_if succeeded (map (outcome_of s) rs)

successes-le : (s : Snapshot) (rs : List Reviewer) → successes s rs ≤ length rs
successes-le s [] = omega arith
successes-le s (r ∷ rs) = ground (arith, successes-le s rs)

length-outcomes : (s : Snapshot) (rs : List Reviewer) → length (map (outcome_of s) rs) ≡ length rs
length-outcomes s [] = refl
length-outcomes s (r ∷ rs) = ground (arith, length-outcomes s rs)

successes-All :
    (s : Snapshot) (rs : List Reviewer) → (successes s rs ≡ length rs) ↔ All (Succeeds s) rs
successes-All s [] = (λ h. tt, λ h. refl)
successes-All s (r ∷ rs) =
    let (to, from) = outcome_of-Succeeds s r in
    let (all_to, all_from) = successes-All s rs in
    (
      λ h. (to (ground (arith, successes-le s rs)), all_to (ground (arith, successes-le s rs))),
      λ h. ground (arith, from h.0, all_from h.1),
    )

decide-approved :
    (c : Config) (n k : ℕ) (fs : List Finding)
    → (decide c n k fs ≡ approved) ↔ (
        (c.minimum_successful_reviewers ≤ n)
        × (k ≡ 0)
        × (any (is_blocking c) fs ≡ false)
        × (any is_high_or_medium fs ≡ false))
unfolding decide
decide-approved c n k fs = ground arith

decide-blocked :
    (c : Config) (n k : ℕ) (fs : List Finding)
    → (decide c n k fs ≡ blocked)
      ↔ ((n < c.minimum_successful_reviewers) ⊎ (any (is_blocking c) fs ≡ true))
unfolding decide
decide-blocked c n k fs = ground arith

names-outcomes :
    (s : Snapshot) (rs : List Reviewer)
    → map (λ (o : Outcome). o.reviewer) (map (outcome_of s) rs) ≡ map (λ (r : Reviewer). r.name) rs
names-outcomes s [] = refl
names-outcomes s (r ∷ rs) =
    ap (λ n. n ∷ map (λ (o : Outcome). o.reviewer) (map (outcome_of s) rs))
      (named (r.review_of s) refl)
    ∙ ap (λ ns. r.name ∷ ns) (names-outcomes s rs)
  where
    named :
        (m : Result String (List Finding)) → r.review_of s ≡ m → (outcome_of s r).reviewer ≡ r.name
    named (ok found) e = ground arith
    named (err x) e = ground arith

count_findings :
    (s : Snapshot) (rs : List Reviewer)
    → length (all_findings s rs) ≡ sum_by (λ (o : Outcome). o.finding_count) (map (outcome_of s) rs)
count_findings s [] = refl
count_findings s (r ∷ rs) =
    ground (arith, length-append (findings_of s r) (all_findings s rs), count_findings s rs)

module _ (tool_version : String) (digest : Value → String) (c : Council) (s : Snapshot) where
  -- A review approves exactly where every reviewer succeeds, there are as many as the configuration
  -- demands, and no finding is blocking, high or medium.
  pub review-approved : ((review tool_version digest c s).decision ≡ approved) ↔ (
      (c.config.minimum_successful_reviewers ≤ length c.reviewers)
      × All (Succeeds s) c.reviewers
      × All (λ f. is_blocking c.config f ≡ false) (all_findings s c.reviewers)
      × All (λ f. is_high_or_medium f ≡ false) (all_findings s c.reviewers))
  unfolding review
  review-approved = ground (
    arith,
    decide-approved c.config (successes s c.reviewers)
        (length (map (outcome_of s) c.reviewers) - successes s c.reviewers)
        (sort_by le_finding (all_findings s c.reviewers)),
    any-sort_by le_finding (is_blocking c.config) (all_findings s c.reviewers),
    any-sort_by le_finding is_high_or_medium (all_findings s c.reviewers),
    any-eq-false (is_blocking c.config) (all_findings s c.reviewers),
    any-eq-false is_high_or_medium (all_findings s c.reviewers),
    successes-le s c.reviewers,
    length-outcomes s c.reviewers,
    successes-All s c.reviewers,
  )

  -- A review blocks exactly where fewer reviewers succeed than the configuration demands, or some
  -- finding of a reviewer that succeeded is blocking.
  pub review-blocked : ((review tool_version digest c s).decision ≡ blocked) ↔ (
      (successes s c.reviewers < c.config.minimum_successful_reviewers)
      ⊎ (any (is_blocking c.config) (all_findings s c.reviewers) ≡ true))
  unfolding review
  review-blocked = ground (
    arith,
    decide-blocked c.config (successes s c.reviewers)
        (length (map (outcome_of s) c.reviewers) - successes s c.reviewers)
        (sort_by le_finding (all_findings s c.reviewers)),
    any-sort_by le_finding (is_blocking c.config) (all_findings s c.reviewers),
  )

  -- A report has one outcome for each reviewer, in their order, and as many findings as the outcomes
  -- count.
  pub review-accounts :
      (map (λ (o : Outcome). o.reviewer) (review tool_version digest c s).outcomes
        ≡ map (λ (r : Reviewer). r.name) c.reviewers)
      × (length (review tool_version digest c s).findings
          ≡ sum_by (λ (o : Outcome). o.finding_count) (review tool_version digest c s).outcomes)
  unfolding review
  review-accounts = (
    names-outcomes s c.reviewers,
    length-sort_by le_finding (all_findings s c.reviewers) ∙ count_findings s c.reviewers,
  )
