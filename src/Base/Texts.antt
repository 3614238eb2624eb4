-- ===== src/Base/Texts.antt =====
-- The operations of Python's `str` that the code uses, on texts of Unicode scalar values.
pub mod Strip
use Prim.Native.Nat
use Prim.Native.Nat.{ℕ, ◌-◌, ◌+◌}
use Prim.Native.Char.{Char, code}
use Prim.Native.String
use Prim.Native.String.{String, [], ◌∷◌, char_at, compare}
use Prim.Native.Nat.{Ordering}
use mathlib.Core.Bool.{Bool, true, false, not, ◌&&◌, ◌||◌}
use mathlib.Core.List.{List, [], ◌∷◌}
use mathlib.Core.Option.{Option, none, some}
use text.Mathlib.Text.{◌==◌}
use shipcheck.Base.Lists.{any}
use shipcheck.Base.Tests.{leb, eqb, if◌then◌else◌}

infixr 65 ◌<>◌
-- `s + t`
abbrev pub ◌<>◌ : String → String → String
s <> t = String.◌++◌ s t

-- `c.isspace()`
unfoldable pub is_space : Char → Bool
is_space c =
    let n = code c in
    (leb 9 n && leb n 13)
    || (leb 28 n && leb n 32)
    || eqb n 133
    || eqb n 160
    || eqb n 5760
    || (leb 8192 n && leb n 8202)
    || eqb n 8232
    || eqb n 8233
    || eqb n 8239
    || eqb n 8287
    || eqb n 12288

abbrev pub is_empty : String → Bool
is_empty [] = true
is_empty (c ∷ s) = false

-- `s.lstrip()`
unfoldable pub lstrip : String → String
lstrip [] = []
lstrip (c ∷ s) = if is_space c then lstrip s else c ∷ s

-- `s.rstrip()`
unfoldable pub rstrip : String → String
rstrip [] = []
rstrip (c ∷ s) = let r = rstrip s in if is_space c && is_empty r then [] else c ∷ r

-- `s.strip()`
unfoldable pub strip : String → String
unfolding lstrip rstrip is_space
strip s = rstrip (lstrip s)

-- `all(p(c) for c in s)`
abbrev pub all_chars : (Char → Bool) → String → Bool
all_chars p [] = true
all_chars p (c ∷ s) = p c && all_chars p s

-- `c in "0123456789abcdef"`
unfoldable pub is_hex : Char → Bool
is_hex c = (leb 48 (code c) && leb (code c) 57) || (leb 97 (code c) && leb (code c) 102)

-- `c.lower()` of an ASCII letter. The other characters stay: none of them has a lower-case form
-- that is made of hexadecimal digits.
unfoldable pub lower_char : Char → Char
lower_char c =
    if leb 65 (code c) && leb (code c) 90
    then char_at "abcdefghijklmnopqrstuvwxyz" (code c - 65)
    else c

-- `s.lower()`
unfoldable pub lower : String → String
unfolding lower_char
lower [] = []
lower (c ∷ s) = lower_char c ∷ lower s

-- `c in s`
abbrev pub has_char : ℕ → String → Bool
has_char n [] = false
has_char n (c ∷ s) = eqb (code c) n || has_char n s

-- `s <= t`
abbrev pub le_text : String → String → Bool
le_text s t = elim (compare s t) [ Ordering.gt ↦ false | _ ↦ true ]

-- `s.replace(c, t)` of one character
unfoldable pub replace_char : ℕ → String → String → String
replace_char n t [] = ""
replace_char n t (c ∷ s) =
    let rest = replace_char n t s in if eqb (code c) n then t <> rest else c ∷ rest

-- `s.replace("+00:00", "Z")`: each occurrence, from the left
unfoldable pub replace_offset : String → String
replace_offset (a ∷ b ∷ c ∷ d ∷ e ∷ f ∷ s) =
    let rest = replace_offset s in
    let next = replace_offset (b ∷ c ∷ d ∷ e ∷ f ∷ s) in
    if (a ∷ b ∷ c ∷ d ∷ e ∷ f ∷ "") == "+00:00" then "Z" <> rest else a ∷ next
replace_offset s = s

abbrev push : Char → List String → List String
push c [] = (c ∷ "") ∷ []
push c (t ∷ ts) = (c ∷ t) ∷ ts

-- `s.split("/")`
unfoldable pub split_slash : String → List String
split_slash [] = "" ∷ []
split_slash (c ∷ s) = if eqb (code c) b'/' then "" ∷ split_slash s else push c (split_slash s)

-- `s in xs`
abbrev pub contains : String → List String → Bool
contains s xs = any (λ x. x == s) xs

-- `len(set(xs)) != len(xs)`
abbrev pub has_duplicate : List String → Bool
has_duplicate [] = false
has_duplicate (x ∷ xs) = contains x xs || has_duplicate xs

-- `a == b` of texts that may be `None`
abbrev pub same : Option String → Option String → Bool
same none none = true
same (some a) (some b) = a == b
same _ _ = false

-- `s[:n]`
abbrev pub first_chars : ℕ → String → String
first_chars Nat.zero s = []
first_chars (Nat.suc n) [] = []
first_chars (Nat.suc n) (c ∷ s) = c ∷ first_chars n s
