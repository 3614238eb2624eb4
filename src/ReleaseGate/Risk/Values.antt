-- ===== src/ReleaseGate/Risk/Values.antt =====
-- src/shipcheck/release_gate/models.py: the checks of single values that risk.py uses.
use Prim.Native.String.{count}
use shipcheck.Base.{
  ℕ, String, Bool, true, false, not, ◌||◌, List, [], ◌∷◌, ◌++◌, map, keep, ◌<>◌, ltb, ok, err, ◌>>◌,
  raise_if,
}
use shipcheck.Base.Sort.{sort_by}
use shipcheck.Base.Texts.{is_empty, le_text, contains}
use shipcheck.Json.{Value, bool, int, pos, str, Fields, entries}
use shipcheck.ReleaseGate.Errors.{validation, Checked}

abbrev join : List String → String
join [] = ""
join (t ∷ []) = t
join (t ∷ u ∷ ts) = t <> (", " <> join (u ∷ ts))

abbrev has_some : List String → Bool
has_some [] = false
has_some (x ∷ xs) = true

-- `require_keys`
unfoldable pub require_keys :
    Fields → String → (required optional : List String) → Checked (Unit {0})
require_keys fs name required optional =
    let names = map (λ (e : String × Value). e.0) (entries fs) in
    let missing = keep (λ k. not (contains k names)) required in
    let unknown = keep (λ k. not (contains k (required ++ optional))) names in
    raise_if (has_some missing)
      (validation (name <> (" missing keys: " <> join (sort_by le_text missing))))
    >> raise_if (has_some unknown)
        (validation (name <> (" unknown keys: " <> join (sort_by le_text unknown))))

module _ (decimal : ℕ → String) where
  -- `require_string` with no pattern
  unfoldable pub require_string : Value → String → (limit : ℕ) → Checked String
  require_string (str s) name limit =
      raise_if (is_empty s || ltb limit (count s)) (
        validation
          (name <> (" must be a non-empty string of at most " <> (decimal limit <> " characters"))))
      >> ok s
  require_string _ name limit = err (
      validation
        (name <> (" must be a non-empty string of at most " <> (decimal limit <> " characters"))))

  -- `require_int` from 0
  unfoldable pub require_int : Value → String → (maximum : ℕ) → Checked ℕ
  require_int (int (pos n)) name maximum =
      raise_if (ltb maximum n)
        (validation (name <> (" must be an integer in [0, " <> (decimal maximum <> "]"))))
      >> ok n
  require_int _ name maximum =
      err (validation (name <> (" must be an integer in [0, " <> (decimal maximum <> "]"))))

-- `require_bool`
unfoldable pub require_bool : Value → String → Checked Bool
require_bool (bool b) name = ok b
require_bool _ name = err (validation (name <> " must be a boolean"))
