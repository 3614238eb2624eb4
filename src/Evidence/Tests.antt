-- ===== src/Evidence/Tests.antt =====
-- The evidence tools at concrete records.
use shipcheck.Base.{String, [], ◌∷◌, All}
use shipcheck.Json.{Value, Fields, str, number, dict_fields}
use shipcheck.Evidence.{Package, evaluate}
use shipcheck.Evidence.Packages.{packages}
use shipcheck.Evidence.Total.{Judged, evaluate-Judged}

-- a digest that is constant
abbrev digest : Value → String
digest v = "d"

abbrev flaky_record : Fields
flaky_record = dict_fields (("test_name", str "t") ∷ ("passes", number 3) ∷ ("runs", number 4) ∷ [])

evaluate-Judged_example :
    All (λ (p : Package). Judged p.required flaky_record (evaluate digest p flaky_record)) packages
evaluate-Judged_example = evaluate-Judged digest flaky_record
