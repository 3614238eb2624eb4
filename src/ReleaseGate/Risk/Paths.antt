-- ===== src/ReleaseGate/Risk/Paths.antt =====
-- src/shipcheck/release_gate/risk.py: texts, and `normalize_repo_path`.
use Prim.Native.Char.{code}
use Prim.Native.String.{[], ◌∷◌}
use shipcheck.Base.{
  ℕ, String, Bool, false, not, ◌||◌, ◌==◌, ◌<>◌, List, [], ◌∷◌, any, keep, ltb, eqb, if◌then◌else◌,
  ok, ◌>>=◌, ◌>>◌, raise_if,
}
use shipcheck.Base.Texts.{is_empty, split_slash, contains}
use text.Mathlib.Text.{starts_with}
use shipcheck.Json.{Value}
use shipcheck.ReleaseGate.Errors.{validation, Checked}
use shipcheck.ReleaseGate.Risk.Values.{require_string}

-- the library: `unicodedata.normalize("NFC", s)`, `s.casefold()`, `s.upper()` and `str(n)`
pub record Texts : Type 0 where
  pub nfc : String → String
  pub casefold : String → String
  pub upper : String → String
  pub decimal : ℕ → String

-- `w in s`
unfoldable pub is_in : String → String → Bool
is_in w [] = is_empty w
is_in w (c ∷ s) = starts_with (c ∷ s) w || is_in w s

-- `s.endswith(w)`
unfoldable pub ends_with : String → String → Bool
ends_with w [] = is_empty w
ends_with w (c ∷ s) = (c ∷ s) == w || ends_with w s

-- `ord(c) < 32 or ord(c) == 127`, or `:`, `\` or NUL
unfoldable pub has_forbidden : String → Bool
has_forbidden [] = false
has_forbidden (c ∷ s) =
    ltb (code c) 32
    || (eqb (code c) 127 || (eqb (code c) 58 || (eqb (code c) 92 || has_forbidden s)))

-- `s.split(".", 1)[0]`
unfoldable pub before_dot : String → String
before_dot [] = ""
before_dot (c ∷ s) = if eqb (code c) 46 then "" else c ∷ before_dot s

-- the parts of a relative `PurePosixPath`
abbrev parts_of : String → List String
parts_of s = keep (λ p. not (is_empty p || p == ".")) (split_slash s)

abbrev as_posix : List String → String
as_posix [] = "."
as_posix (p ∷ []) = p
as_posix (p ∷ q ∷ ps) = p <> ("/" <> as_posix (q ∷ ps))

abbrev reserved : List String
reserved =
    "CON" ∷ "PRN" ∷ "AUX" ∷ "NUL" ∷ "COM1" ∷ "COM2" ∷ "COM3" ∷ "COM4" ∷ "COM5" ∷ "COM6" ∷ "COM7"
    ∷ "COM8" ∷ "COM9" ∷ "LPT1" ∷ "LPT2" ∷ "LPT3" ∷ "LPT4" ∷ "LPT5" ∷ "LPT6" ∷ "LPT7" ∷ "LPT8"
    ∷ "LPT9" ∷ []

module _ (T : Texts) where
  open T use {nfc, upper, decimal}

  abbrev ambiguous : String → Bool
  ambiguous part =
      ends_with "." part || (ends_with " " part || contains (upper (before_dot part)) reserved)

  -- `normalize_repo_path`
  unfoldable pub normalize_repo_path : Value → Checked String
  normalize_repo_path raw = do
    value ← require_string decimal raw "diff.files[].path" 512
    raise_if (not (nfc value == value)) (validation "paths must already be NFC-normalized")
    raise_if (has_forbidden value || starts_with value "/")
        (validation "diff paths must be relative portable POSIX paths")
    raise_if (value == "." || (value == ".." || any (λ p. p == "..") (parts_of value)))
        (validation "diff paths must not contain empty, dot, or parent segments")
    raise_if (any ambiguous (parts_of value))
        (validation "path contains a Windows-reserved or ambiguous segment")
    ok (as_posix (parts_of value))
