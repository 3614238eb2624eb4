-- ===== src/Council/Tests.antt =====
-- The council with two reviewers, one of which raises.
use shipcheck.Base.{
  ◌≤◌, ◌<◌, String, ◌≡◌, ◌↔◌, ◌⊎◌, true, false, none, [], ◌∷◌, map, any, All, length, sum_by, ok,
  err,
}
use shipcheck.Json.{Value}
use shipcheck.Council.Models.{approved, blocked, low, critical, Finding, Outcome, Snapshot}
use shipcheck.Council.{Reviewer, Council, all_findings, is_blocking, is_high_or_medium, review}
use shipcheck.Council.Decides.{
  Succeeds, successes, review-approved, review-blocked, review-accounts,
}

abbrev digest : Value → String
digest v = "d"

abbrev snapshot : Snapshot
snapshot = record { pr_id = "1"; commit_sha = "c"; title = "t"; body = ""; files = [] }

abbrev nit : Finding
nit = record {
  rule_id = "r";
  reviewer = "style";
  severity = low;
  title = "t";
  message = "m";
  path = none;
  line = none;
  fingerprint = "f";
}

abbrev council : Council
council = record {
  config = record {
    enabled_reviewers = "style" ∷ "crash" ∷ [];
    minimum_successful_reviewers = 2;
    blocking_severities = critical ∷ [];
  };
  reviewers =
      record { name = "style"; review_of = λ s. ok (nit ∷ []) }
      ∷ record { name = "crash"; review_of = λ s. err "TypeError: x" }
      ∷ [];
}

review-approved_example : ((review "1" digest council snapshot).decision ≡ approved) ↔ (
    (2 ≤ length council.reviewers)
    × All (Succeeds snapshot) council.reviewers
    × All (λ f. is_blocking council.config f ≡ false) (all_findings snapshot council.reviewers)
    × All (λ f. is_high_or_medium f ≡ false) (all_findings snapshot council.reviewers))
review-approved_example = review-approved "1" digest council snapshot

review-blocked_example : ((review "1" digest council snapshot).decision ≡ blocked) ↔ (
    (successes snapshot council.reviewers < 2)
    ⊎ (any (is_blocking council.config) (all_findings snapshot council.reviewers) ≡ true))
review-blocked_example = review-blocked "1" digest council snapshot

review-accounts_example :
    (map (λ (o : Outcome). o.reviewer) (review "1" digest council snapshot).outcomes
      ≡ map (λ (r : Reviewer). r.name) council.reviewers)
    × (length (review "1" digest council snapshot).findings
        ≡ sum_by (λ (o : Outcome). o.finding_count) (review "1" digest council snapshot).outcomes)
review-accounts_example = review-accounts "1" digest council snapshot
