-- ===== src/MergeGate/Contract/Fields.antt =====
-- contract.py: the enums, and the checks of single fields.
use Prim.Native.String.{count}
use shipcheck.Base.{
  ℕ, String, Bool, true, false, not, ◌&&◌, ◌||◌, Option, none, some, ltb, eqb, ok, err, ◌>>=◌, ◌>>◌,
  raise_if, ◌<>◌,
}
use shipcheck.Base.Texts.{strip, lower, is_empty, all_chars, is_hex, replace_char, replace_offset}
use shipcheck.Json.{Value, pos, str, int, bool}
use shipcheck.MergeGate.Errors.{Checked, contract}

pub data CheckState : Type 0 where
  success failure pending missing : CheckState

pub data Decision : Type 0 where
  ready degraded blocked : Decision

abbrev pub is_success : CheckState → Bool
is_success success = true
is_success _ = false

abbrev pub is_ready : Decision → Bool
is_ready ready = true
is_ready _ = false

abbrev pub state_value : CheckState → String
state_value success = "success"
state_value failure = "failure"
state_value pending = "pending"
state_value missing = "missing"

abbrev pub decision_value : Decision → String
decision_value ready = "ready"
decision_value degraded = "degraded"
decision_value blocked = "blocked"

abbrev pub max_text : ℕ
max_text = 4096

-- the tests of `_text` on a text
stripped : String → String → Checked String
stripped value name = do
  raise_if (is_empty value) (contract (name <> " must not be empty"))
  raise_if (ltb max_text (count value)) (contract (name <> " exceeds 4096 characters"))
  ok value

-- `_text`; no caller allows an empty text
unfoldable pub text : Value → String → Checked String
unfolding stripped strip
text (str value) name = stripped (strip value) name
text _ name = err (contract (name <> " must be a string"))

-- the test of `_sha` on the text in lower case
abbrev pub is_sha : String → Bool
is_sha s = (eqb (count s) 40 || eqb (count s) 64) && all_chars is_hex s

hex_digest : String → String → Checked String
hex_digest value name = do
  raise_if (not (is_sha value))
      (contract (name <> " must be a 40- or 64-character hexadecimal SHA"))
  ok value

-- `_sha`
unfoldable pub sha : Value → String → Checked String
unfolding hex_digest
sha v name = do value ← text v name; hex_digest (lower value) name

-- The library `datetime`: parsing, whether a moment has a timezone, and printing in UTC.
pub record Datetime : Type 1 where
  pub Moment : Type 0
  pub from_isoformat : String → Option Moment
  pub has_timezone : Moment → Bool
  pub utc_isoformat : Moment → String

module _ (d : Datetime) where
  open d use {Moment, from_isoformat, has_timezone, utc_isoformat}

  moment : Option Moment → Checked String
  moment none = err (contract "captured_at must be ISO-8601")
  moment (some m) = do
    raise_if (not (has_timezone m)) (contract "captured_at must include a timezone")
    ok (replace_offset (utc_isoformat m))

  -- `_timestamp`
  unfoldable pub timestamp : Value → Checked String
  unfolding moment
  timestamp v = do
    value ← text v "captured_at"
    moment (from_isoformat (replace_char b'Z' "+00:00" value))

-- `if not isinstance(value, int) or isinstance(value, bool) or value < 0: raise`
unfoldable pub non_negative : Value → String → Checked ℕ
non_negative (int (pos n)) name = ok n
non_negative _ name = err (contract (name <> " must be a non-negative integer"))

-- `if not isinstance(value, bool): raise`
unfoldable pub boolean : Value → String → Checked Bool
boolean (bool b) name = ok b
boolean _ name = err (contract (name <> " must be boolean"))
