-- ===== src/Council.antt =====
-- packages/pr-review-council/src/pr_review_council: council.py and config.py.
pub mod Models
pub mod Decides
pub mod Tests
use Prim.Native.Nat.{◌-◌}
use shipcheck.Base.{
  ℕ, ◌+◌, String, Bool, true, false, not, ◌&&◌, ◌||◌, Option, none, some, List, [], ◌∷◌, ◌++◌, map,
  ◌==◌, ◌<>◌, ltb, leb, eqb, if◌then◌else◌, any, keep, length, count_if, Result, ok, err, ◌>>=◌,
  ◌>>◌, raise_if, each,
}
use shipcheck.Base.Sort.{sort_by}
use shipcheck.Base.Texts.{first_chars, has_duplicate, le_text}
use shipcheck.Json.{Value, ℤ, pos, negsuc}
use shipcheck.Council.Models.{
  Severity, info, low, medium, high, critical, same_severity, Decision, approved, changes_requested,
  degraded, blocked, Status, success, failed, is_success, Finding, Outcome, Snapshot, Report,
  unsigned_dict, severity_counts, Checked,
}

pub record Config : Type 0 where
  pub enabled_reviewers : List String
  pub minimum_successful_reviewers : ℕ
  pub blocking_severities : List Severity

-- `CouncilConfig.__post_init__`
unfoldable pub create_config : List String → ℕ → List Severity → Checked Config
create_config enabled minimum blocking = do
  raise_if (eqb (length enabled) 0) "at least one reviewer must be enabled"
  raise_if (has_duplicate enabled) "enabled reviewer names must be unique"
  raise_if (not (leb 1 minimum && leb minimum (length enabled)))
      "minimum_successful_reviewers is outside the enabled reviewer range"
  raise_if (eqb (length blocking) 0) "at least one blocking severity is required"
  ok (record {
    enabled_reviewers = enabled;
    minimum_successful_reviewers = minimum;
    blocking_severities = blocking;
  })

-- A reviewer: its name, and its findings or the text of the exception it raised. A result that is
-- no tuple of findings counts as an exception.
pub record Reviewer : Type 0 where
  pub name : String
  pub review_of : Snapshot → Result String (List Finding)

pub record Council : Type 0 where
  pub config : Config
  pub reviewers : List Reviewer

-- `by_name[name]`
abbrev reviewer_named : List Reviewer → String → Checked Reviewer
reviewer_named [] name = err "enabled reviewers are unavailable"
reviewer_named (r ∷ rs) name = if r.name == name then ok r else reviewer_named rs name

-- `ReviewCouncil.__init__`, less the names that the message lists
unfoldable pub create_council : Config → List Reviewer → Checked Council
create_council config candidates = do
  raise_if (has_duplicate (map (λ (r : Reviewer). r.name) candidates))
      "reviewer names must be unique"
  reviewers ← each (reviewer_named candidates) config.enabled_reviewers
  ok (record { config = config; reviewers = reviewers })

-- the body of the loop over the reviewers
abbrev pub findings_of : Snapshot → Reviewer → List Finding
findings_of s r = elim (r.review_of s) [ ok found ↦ found | err e ↦ [] ]

abbrev pub outcome_of : Snapshot → Reviewer → Outcome
outcome_of s r = elim (r.review_of s) [
  | ok found ↦ record {
    reviewer = r.name;
    status = success;
    finding_count = length found;
    error = none;
  }
  | err e ↦ record {
    reviewer = r.name;
    status = failed;
    finding_count = 0;
    error = some (first_chars 500 e);
  }
]

abbrev pub all_findings : Snapshot → List Reviewer → List Finding
all_findings s [] = []
all_findings s (r ∷ rs) = findings_of s r ++ all_findings s rs

-- `SEVERITY_ORDER`
abbrev order : Severity → ℕ
order critical = 0
order high = 1
order medium = 2
order low = 3
order info = 4

abbrev text_or_empty : Option String → String
text_or_empty none = ""
text_or_empty (some s) = s

abbrev line_or_zero : Option ℕ → ℕ
line_or_zero none = 0
line_or_zero (some n) = n

abbrev then_by : {A : Type 0} → (A → A → Bool) → A → A → Bool → Bool
then_by le a b rest = if le a b then (if le b a then rest else true) else false

-- the order of the sort keys
abbrev pub le_finding : Finding → Finding → Bool
le_finding a b = then_by leb (order a.severity) (order b.severity) (
    then_by le_text a.reviewer b.reviewer (
      then_by le_text (text_or_empty a.path) (text_or_empty b.path)
        (then_by leb (line_or_zero a.line) (line_or_zero b.line) (le_text a.rule_id b.rule_id))))

abbrev pub is_blocking : Config → Finding → Bool
is_blocking c f = any (λ s. same_severity s f.severity) c.blocking_severities

abbrev pub is_high_or_medium : Finding → Bool
is_high_or_medium f = same_severity high f.severity || same_severity medium f.severity

-- the decision of `review`
unfoldable pub decide : Config → (successful failed_count : ℕ) → List Finding → Decision
decide c successful failed_count findings =
    if ltb successful c.minimum_successful_reviewers
    then blocked
    else if any (is_blocking c) findings
    then blocked
    else if ltb 0 failed_count
    then degraded
    else if any is_high_or_medium findings
    then changes_requested
    else approved

module _ (tool_version : String) (digest : Value → String) where
  -- `ReviewCouncil.review`
  unfoldable pub review : Council → Snapshot → Report
  review c s =
      let found = sort_by le_finding (all_findings s c.reviewers) in
      let outcomes = map (outcome_of s) c.reviewers in
      let successful = count_if (λ (o : Outcome). is_success o.status) outcomes in
      let failed_count = length outcomes - successful in
      let report : Report = record {
        tool_version = tool_version;
        pr_id = s.pr_id;
        commit_sha = s.commit_sha;
        decision = decide c.config successful failed_count found;
        degraded = ltb 0 failed_count;
        outcomes = outcomes;
        findings = found;
        summary =
            severity_counts found
            ++ ("successful_reviewers", successful)
              ∷ ("failed_reviewers", failed_count)
              ∷ ("total_findings", length found)
              ∷ [];
        report_sha = "";
      } in
      record report { report_sha = digest (unsigned_dict report) }
