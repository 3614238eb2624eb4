-- ===== src/Publisher/Tests.antt =====
-- The publisher at concrete reports.
use shipcheck.Base.{
  String, ◌≡◌, refl, true, false, Option, none, some, List, [], ◌∷◌, ok, ◌==◌, if◌then◌else◌, inl,
}
use shipcheck.Files.{Disk, Answer, done, refused, is_file}
use shipcheck.Publisher.{Plan, Paths, plan, apply, receipt_of, rollback}
use shipcheck.Publisher.Keeps.{IsFree, Kept, apply-Kept}
use shipcheck.Publisher.Undo.{Raises, Restored, apply-stale, plan-apply, rollback-Restored_output}
use shipcheck.MergeGate.Sample.{sample, text_differs}

-- the paths of one folder
abbrev folder : Paths
folder = record { name_of = λ p. p; with_name = λ p n. n }

abbrev backup : String
backup = ".report.bbbbbbbbbbbb.bak"

abbrev files : String → Option String
files p = if p == "report" then some "..s old" else none

abbrev disk : List (Answer String) → Disk String
disk answers = record { file = files; answers = answers }

abbrev planned : Plan
planned = record {
  output_path = "report";
  backup_path = backup;
  payload_sha = "bbbbbbbbbbbbbbbbbbbbbbbbbbbbbbbbbbbbbbbbbbbbbbbbbbbbbbbbbbbbbbbb";
  previous_sha = some "aaaaaaaaaaaaaaaaaaaaaaaaaaaaaaaaaaaaaaaaaaaaaaaaaaaaaaaaaaaaaaaa";
  creates_new = false;
}

plan-planned : (plan sample folder "..c new" "report" (disk [])).0 ≡ ok planned
unfolding plan
plan-planned = refl

abbrev staged : String
staged = ".report.x1y2z3"

staged-IsFree : IsFree sample planned staged files
staged-IsFree = record {
  unused = refl;
  not_output = text_differs staged "report" refl;
  not_backup = text_differs staged backup refl;
}

apply-Kept_example :
    Kept sample planned "..c new" staged files
      (apply sample planned "..c new" staged (disk (done ∷ done ∷ refused ∷ [])))
apply-Kept_example =
    apply-Kept sample planned "..c new" staged (disk (done ∷ done ∷ refused ∷ [])) staged-IsFree

apply-stale_example :
    Raises (apply sample planned "..s new" staged (disk [])).0
    × ((apply sample planned "..s new" staged (disk [])).1 ≡ disk [])
apply-stale_example =
    apply-stale sample planned "..s new" staged (disk [])
      (inl (text_differs (sample.sha256 "..s new") planned.payload_sha refl))

plan-apply_example :
    (apply sample planned "..c new" staged (disk [])).0
    ≡ ok (receipt_of sample planned (is_file (files "report")) true)
plan-apply_example =
    plan-apply sample folder "..c new" "report" staged files planned plan-planned staged-IsFree refl

applied :
    (apply sample planned "..c new" staged (disk [])).0 ≡ ok (receipt_of sample planned true true)
applied =
    plan-apply sample folder "..c new" "report" staged files planned plan-planned staged-IsFree refl

-- the disk after the publication
abbrev published : Disk String
published = record { file = (apply sample planned "..c new" staged (disk [])).1.file; answers = [] }

rollback-Restored_output_example :
    Restored sample planned files (rollback sample (receipt_of sample planned true true) published)
rollback-Restored_output_example =
    rollback-Restored_output sample planned "..c new" staged (disk []) published
      (receipt_of sample planned true true) staged-IsFree applied refl refl refl refl
