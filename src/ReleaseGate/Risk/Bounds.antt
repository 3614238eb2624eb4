-- ===== src/ReleaseGate/Risk/Bounds.antt =====
-- risk.py: the bounds of a score, and what it adds up.
use shipcheck.Base.{
  ℕ, suc, ◌+◌, ◌*◌, ◌/◌, ◌≤◌, min, max, String, ◌≡◌, ◌↔◌, refl, subst, Bool, true, false, not, List,
  [], ◌∷◌, map, length, ltb, Bool-cases, All, All-append, ok, arith, sum_by, inl, inr, raise_if,
}
use shipcheck.Base.Results.{>>=-eq-ok, ok_injective}
use shipcheck.Json.{Value, null, bool, int, float, str, obj, arr, Fields, get, is_text}
use shipcheck.ReleaseGate.Errors.{validation}
use shipcheck.ReleaseGate.Risk.Paths.{Texts}
use shipcheck.ReleaseGate.Risk.Values.{require_keys}
use shipcheck.ReleaseGate.Risk.{
  Reason, RiskAssessment, Category, categories, Totals, check_file, check_files, risk_version,
  add_if, category_reason, category_reasons, reasons_of, score_of, check_claim, files_of,
  score_diff,
}

-- a reason weighs from 1 to 20 points
abbrev pub Weighs : Reason → Type 0
Weighs r = (1 ≤ r.points) × (r.points ≤ 20)

add_if-Weighs :
    (T : Texts) (b : Bool) (code : String) (points : ℕ) (detail : String)
    → 1 ≤ points
    → points ≤ 20
    → All Weighs (add_if T b code points detail)
add_if-Weighs T true code points detail low high = ((low, high), tt)
add_if-Weighs T false code points detail low high = tt

category_reasons-Weigh :
    (T : Texts) (lowered : List String) (cs : List Category)
    → All (λ (c : Category). (1 ≤ c.points) × (c.points ≤ 20)) cs
    → All Weighs (category_reasons T lowered cs)
category_reasons-Weigh T lowered [] h = tt
category_reasons-Weigh T lowered (c ∷ cs) h =
    All-append Weighs (category_reason T lowered c) (category_reasons T lowered cs)
      (add_if-Weighs T _ c.code c.points _ h.0.0 h.0.1) (category_reasons-Weigh T lowered cs h.1)

categories-Weigh : All (λ (c : Category). (1 ≤ c.points) × (c.points ≤ 20)) categories
categories-Weigh = (
  (omega arith, omega arith),
  (
    (omega arith, omega arith),
    (
      (omega arith, omega arith),
      ((omega arith, omega arith), ((omega arith, omega arith), ((omega arith, omega arith), tt))),
    ),
  ),
)

binary-Weighs :
    (T : Texts) (n : ℕ) (detail : String)
    → All Weighs (add_if T (ltb 0 n) "BINARY_CHANGE" (min 10 (n * 2)) detail)
binary-Weighs T n detail = elim (Bool-cases (ltb 0 n)) [
  | inl some_binary ↦ rw some_binary ((ground arith, ground arith), tt)
  | inr none_binary ↦ rw none_binary tt
]

reasons_of-Weigh : (T : Texts) (files : ℕ) (t : Totals) → All Weighs (reasons_of T files t)
unfolding reasons_of
reasons_of-Weigh T files t =
    All-append Weighs (add_if T (ltb 0 files) _ _ _) _
      (add_if-Weighs T (ltb 0 files) _ (min 20 (max 1 (files / 5 + 1))) _ (omega arith)
        (omega arith))
      (All-append Weighs (add_if T (ltb 0 t.changed_lines) _ _ _) _
        (add_if-Weighs T (ltb 0 t.changed_lines) _ (min 20 (max 1 (t.changed_lines / 250 + 1))) _
          (omega arith) (omega arith))
        (All-append Weighs (category_reasons T (map T.casefold t.paths) categories) _
          (category_reasons-Weigh T (map T.casefold t.paths) categories categories-Weigh)
          (binary-Weighs T t.binary_count _)))

-- no score without a file, and at least a point with one
reasons_of-points :
    (T : Texts) (n : ℕ) (t : Totals)
    → 1 ≤ sum_by (λ (r : Reason). r.points) (reasons_of T (suc n) t)
unfolding reasons_of
reasons_of-points T n t = ground arith

check_file-lines :
    (T : Texts) (i : ℕ) (seen : List String) (t : Totals) (v : Value) (key : String) (u : Totals)
    → check_file T i seen t v ≡ ok (key, u)
    → u.changed_lines ≤ 100_000_000
unfolding check_file
check_file-lines T i seen t (obj fs) key u e = ground arith
check_file-lines T i seen t null key u e = cc
check_file-lines T i seen t (bool b) key u e = cc
check_file-lines T i seen t (int z) key u e = cc
check_file-lines T i seen t (float x) key u e = cc
check_file-lines T i seen t (str s) key u e = cc
check_file-lines T i seen t (arr vs) key u e = cc

check_files-lines :
    (T : Texts) (i : ℕ) (seen : List String) (t : Totals) (vs : List Value) (u : Totals)
    → t.changed_lines ≤ 100_000_000
    → check_files T i seen t vs ≡ ok u
    → u.changed_lines ≤ 100_000_000
unfolding check_files
check_files-lines T i seen t [] u h e = ground arith
check_files-lines T i seen t (v ∷ vs) u h e =
    let (r, first, rest) = >>=-eq-ok (check_file T i seen t v) _ e in
    check_files-lines T (suc i) (r.0 ∷ seen) r.1 vs u (check_file-lines T i seen t v r.0 r.1 first)
      rest

-- the entries of the diff
files_of-length :
    (T : Texts) (v : Value) (files : List Value) → files_of T v ≡ ok files → length files ≤ 2000
files_of-length T (arr vs) files e = ground arith
files_of-length T (obj fs) files e = cc
files_of-length T null files e = cc
files_of-length T (bool b) files e = cc
files_of-length T (int z) files e = cc
files_of-length T (float x) files e = cc
files_of-length T (str s) files e = cc

reasons_of-none :
    (T : Texts) (t : Totals) (files : List Value)
    → check_files T 0 [] (record { paths = []; changed_lines = 0; binary_count = 0 }) files ≡ ok t
    → (score_of T (reasons_of T (length files) t) ≡ 0) ↔ (length files ≡ 0)
unfolding reasons_of check_files
reasons_of-none T t [] e =
    subst (λ u. (score_of T (reasons_of T 0 u) ≡ 0) ↔ (◌≡◌ {A = ℕ} 0 0)) (ok_injective e)
      ((λ h. refl), (λ h. refl))
reasons_of-none T t (f ∷ fs) e =
    let some_points = reasons_of-points T (length fs) t in
    ((λ h. absurd (omega (arith, h, some_points))), (λ h. absurd (omega (arith, h))))

-- Where `score_diff` returns, the score is the sum of the points of the reasons, at most 100; each
-- reason has from 1 to 20 points; the score is 0 exactly where the diff has no file; and there are
-- at most 2,000 files and 100,000,000 changed lines.
pub score_diff-Weighs :
    (T : Texts) (payload : Fields) (a : RiskAssessment)
    → score_diff T payload ≡ ok a
    → (a.score ≡ min 100 (sum_by (λ (r : Reason). r.points) a.reasons))
      × All Weighs a.reasons
      × ((a.score ≡ 0) ↔ (a.file_count ≡ 0))
      × (a.file_count ≤ 2000)
      × (a.changed_lines ≤ 100_000_000)
unfolding score_diff
score_diff-Weighs T payload a e =
    let (_, _, e1) = >>=-eq-ok (require_keys payload "diff payload" _ _) _ e in
    let (_, _, e2) =
      >>=-eq-ok
        (raise_if (not (is_text (get "version" payload) risk_version))
          (validation "unsupported diff risk version"))
        _ e1 in
    let (files, listed, e3) = >>=-eq-ok (files_of T (get "files" payload)) _ e2 in
    let (t, counted, e4) =
      >>=-eq-ok
        (check_files T 0 [] (record { paths = []; changed_lines = 0; binary_count = 0 }) files) _
        e3 in
    let (_, _, done) = >>=-eq-ok (check_claim T (get "claimed_score" payload) _) _ e4 in
    subst
      (λ (x : RiskAssessment).
        (x.score ≡ min 100 (sum_by (λ (r : Reason). r.points) x.reasons))
        × All Weighs x.reasons
        × ((x.score ≡ 0) ↔ (x.file_count ≡ 0))
        × (x.file_count ≤ 2000)
        × (x.changed_lines ≤ 100_000_000))
      (ok_injective done)
      (
        refl,
        reasons_of-Weigh T (length files) t,
        reasons_of-none T t files counted,
        files_of-length T (get "files" payload) files listed,
        check_files-lines T 0 [] _ files t (omega arith) counted,
      )
