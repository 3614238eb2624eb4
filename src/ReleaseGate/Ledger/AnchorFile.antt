-- ===== src/ReleaseGate/Ledger/AnchorFile.antt =====
-- ledger.py: the file of the tail anchor.
use Prim.Native.String.{count}
use shipcheck.Base.{
  Option, ℕ, String, Bool, true, false, not, none, some, List, [], ◌∷◌, all, length, eqb, ◌&&◌, ltb,
  ◌==◌, if◌then◌else◌, ok, err, ◌>>=◌, ◌>>◌, raise_if,
}
use shipcheck.Json.{
  Value, Fields, pos, int, obj, str, number, dict, find_field, get, is_text, entries,
}
use shipcheck.ReleaseGate.Ledger.State.{Entry, tail_sequence, tail_hash, zero_hash, find_sequence}
use shipcheck.ReleaseGate.Errors.{ledger, Checked}

abbrev has_field : Fields → String → Bool
has_field fs key = elim (find_field key fs) [ none ↦ false | some v ↦ true ]

-- `set(raw) == set(names)` for different names
abbrev pub has_keys : List String → Fields → Bool
has_keys names fs = eqb (length (entries fs)) (length names) && all (has_field fs) names

-- `raw["sequence"]`, where `type(raw["sequence"]) is int and raw["sequence"] >= 0`
abbrev natural : Value → Checked ℕ
natural (int (pos n)) = ok n
natural _ = err (ledger "tail anchor values are invalid")

-- `raw["entry_hash"]`, where it is a text of 64 characters
abbrev hash_text : Value → Checked String
hash_text (str t) = if eqb (count t) 64 then ok t else err (ledger "tail anchor hash is invalid")
hash_text _ = err (ledger "tail anchor hash is invalid")

-- the checks of `_read_anchor` on the parsed file
unfoldable pub parse_anchor : Value → Checked (ℕ × String)
parse_anchor (obj fs) = do
  raise_if (not (has_keys ("schema_version" ∷ "sequence" ∷ "entry_hash" ∷ []) fs))
      (ledger "tail anchor shape is invalid")
  raise_if (not (is_text (get "schema_version" fs) "shipcheck/anchor-v1"))
      (ledger "tail anchor values are invalid")
  n ← natural (get "sequence" fs)
  h ← hash_text (get "entry_hash" fs)
  ok (n, h)
parse_anchor _ = err (ledger "tail anchor shape is invalid")

-- `_read_anchor`
unfoldable pub anchor_of : Option (Option Value) → Checked (Option (ℕ × String))
anchor_of none = ok none
anchor_of (some none) = err (ledger "tail anchor is unreadable or invalid")
anchor_of (some (some raw)) = do a ← parse_anchor raw; ok (some a)

abbrev pub anchor_dict : ℕ → String → Value
anchor_dict n h = dict (
    ("schema_version", str "shipcheck/anchor-v1")
    ∷ ("sequence", number n)
    ∷ ("entry_hash", str h)
    ∷ [])

-- the hash that an anchor at a sequence that is not ahead of the tail has to name
abbrev pub anchored_hash : {Bytes : Type 0} → ℕ → List (Entry Bytes) → String
anchored_hash n es =
    if eqb n (tail_sequence es)
    then tail_hash es
    else if eqb n 0
    then zero_hash
    else elim (find_sequence n es) [ none ↦ "" | some e ↦ e.entry_hash ]

-- the test of the anchor against the entries
unfoldable pub check_anchor :
    {Bytes : Type 0} → List (Entry Bytes) → Option (ℕ × String) → Checked (Unit {0})
check_anchor es none = err (ledger "tail anchor is missing; mutation is fail-closed")
check_anchor es (some (n, h)) = do
  raise_if (ltb (tail_sequence es) n)
      (ledger "tail anchor is ahead of database; mutation is fail-closed")
  raise_if (not (h == anchored_hash n es))
      (ledger "tail anchor does not match database history; mutation is fail-closed")
