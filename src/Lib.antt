-- ===== src/Lib.antt =====
-- Shipcheck decides whether a change may be merged, applies that decision to a local state file, and
-- publishes and records evidence about it. This library models the parts below and proves what the
-- list at the end states.
--
-- MergeGate: src/safe_merge_gate. Contract.antt and the files below it are contract.py: the checks
--   that a snapshot, a policy, a check and an artifact pass when they are constructed, their canonical
--   dictionaries and their reading from JSON. Gate.antt is `evaluate` of gate.py. Receipt.antt and
--   Transaction.antt are transaction.py: `dry_run`, `apply`, `verify` and `rollback`.
-- Evidence: packages/*/src/*/core.py of the eight evidence tools, which are one rule engine with
--   eight settings.
-- Publisher: packages/pr-review-council/src/pr_review_council/publisher.py, the publication of a
--   report with its backup.
-- Council: council.py, config.py and models.py of the same package: the review by several reviewers,
--   which are parameters, and its decision.
-- DeployTruth: packages/deploy-truth/src/deploy_truth: verification.py and the report of models.py, the
--   comparison of a release in its source, bundle and live layers, and `inventory_from_bytes` of
--   inventory.py (DeployTruth/Capture.antt). transactions.py: Plan.antt has the plans and results,
--   Trees.antt the trees with `capture_directory`, Transaction.antt the writes, the body of `try`
--   and its handler, and Transaction/Apply.antt `apply_plan`, `verify_applied`, `rollback_plan`
--   and `build_plan`. A tree is a list of files, folders and links by path; a list of answers says
--   which writes raise `OSError`; what the path checks of the roots find is given.
-- ReleaseGate: src/shipcheck/release_gate/ledger.py, the decision ledger. Ledger/State.antt has
--   its tables, Anchor.antt and AnchorFile.antt the tail anchor, Drafts.antt and Append.antt
--   `_append` with the transaction that `_transition` shares, Moves.antt and Promote.antt the
--   promotion of a decision, Faults.antt, Derive.antt, Rows.antt and Verify.antt `verify`,
--   Recover.antt `recover_anchor`, and Listing.antt the reading of entries. Machine.antt is the
--   promotion as a state machine, which the ledger refines; Runs.antt has the calls in any order.
--   Services.antt is the interface to the modules beside the ledger: canonical JSON, strict parsing,
--   redaction and the decisions. Engine.antt is `_apply_waivers` of engine.py and the outcome of a
--   release. Risk.antt is risk.py, the score of a diff, over a library that normalises texts.
-- Base, Json and Files are shared: texts, results and lists; the values of `json.loads`; and the disk.
--
-- A Python exception is an error value. A method that changes files is a function from a disk to a
-- result and a disk, so that what was written before an exception stays written. The disk is a map
-- from paths to contents with a list of the operating system's answers to the writes to come: each
-- write is done or refused; a file that is written in place may also be torn, which raises, or cut,
-- which raises nothing: `os.write` returned early and its count is ignored. The publisher's staged
-- file, which no handler removes, is a file of the disk under a name that is given; the temporary files
-- of the other replacements are not files of the disk. No other process interferes.
-- The ledger's database changes by whole transactions, as SQLite promises; each commit is done or
-- refused, and so are the two steps of a write of the anchor, the replacement and the `fsync` of the
-- folder, so that a run that is cut off behind a commit is one whose next write is refused.
--
-- `hashlib`, `base64`, `json`, the UTF-8 codec, `datetime` and `pathlib` are parameters, with the laws
-- that the proofs use as named hypotheses (MergeGate/Library.antt); MergeGate/Sample.antt has them all.
-- Every recursion is structural; no definition uses fuel.
--
-- Not modelled: the command lines, which parse arguments and print; the reading of artifacts back from
-- JSON; the gates of the release gate's engine with their evidence, policies and reports, and the
-- opening of the ledger's database file; deployment plans read from JSON; and the reviewers, which
-- need regular expressions.
pub mod Base
pub mod Json
pub mod Files
pub mod MergeGate
pub mod Evidence
pub mod Publisher
pub mod Council
pub mod DeployTruth
pub mod ReleaseGate
