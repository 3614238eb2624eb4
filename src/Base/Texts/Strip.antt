-- ===== src/Base/Texts/Strip.antt =====
-- Laws of `str.strip`.
use Prim.Native.Nat.{◌≤◌, ◌+◌}
use Prim.Native.Char.{Char}
use Prim.Native.String.{String, [], ◌∷◌, count}
use mathlib.Core.Path.{◌≡◌, refl, ap, ◌∙◌}
use mathlib.Core.Bool.{true, false}
use native.Mathlib.Omega.{arith}
use text.Mathlib.TextLemmas.{length-nil, length-cons, cons-append, nil-append}
use shipcheck.Base.Texts.{
  ◌<>◌, is_space, lstrip, rstrip, strip, all_chars, is_hex, lower_char, lower,
}

pub count-lstrip : (s : String) → count (lstrip s) ≤ count s
unfolding lstrip
count-lstrip [] = omega arith
count-lstrip (c ∷ s) = ground (arith, count-lstrip s, length-cons c s)

pub count-rstrip : (s : String) → count (rstrip s) ≤ count s
unfolding rstrip
count-rstrip [] = omega arith
count-rstrip (c ∷ s) =
    ground (arith, count-rstrip s, length-cons c s, length-cons c (rstrip s), length-nil)

-- A text that `strip` leaves alone has no space at its end either.
pub rstrip_of_strip : (s : String) → strip s ≡ s → rstrip s ≡ s
unfolding strip lstrip
rstrip_of_strip [] h = h
rstrip_of_strip (c ∷ s) h =
    ground (arith, ap count h, count-rstrip (lstrip s), count-lstrip s, length-cons c s)

-- Text that follows a character that is no space is stripped at its end alone.
pub rstrip-cons : (c : Char) (s : String) → is_space c ≡ false → rstrip (c ∷ s) ≡ c ∷ rstrip s
unfolding rstrip
rstrip-cons c s h = ground arith

pub lstrip-cons : (c : Char) (s : String) → is_space c ≡ false → lstrip (c ∷ s) ≡ c ∷ s
unfolding lstrip
lstrip-cons c s h = ground arith

-- the prefix of the names of CI checks
pub append-ci : (s : String) → "ci:" <> s ≡ "c" ∷ "i" ∷ ":" ∷ s
append-ci s =
    cons-append "c" "i:" s
    ∙ ap (λ t. "c" ∷ t)
        (cons-append "i" ":" s
          ∙ ap (λ t. "i" ∷ t) (cons-append ":" "" s ∙ ap (λ t. ":" ∷ t) (nil-append s)))

pub count-ci : (s : String) → count ("ci:" <> s) ≡ count s + 3
count-ci s =
    ap count (append-ci s)
    ∙ omega (arith, length-cons "c" ("i" ∷ ":" ∷ s), length-cons "i" (":" ∷ s), length-cons ":" s)

-- The name of a CI check is stripped already if the name in the snapshot is.
pub strip-ci : (s : String) → strip s ≡ s → strip ("ci:" <> s) ≡ "ci:" <> s
unfolding strip is_space
strip-ci s h = rw append-ci (
    ap rstrip (lstrip-cons "c" ("i" ∷ ":" ∷ s) refl)
    ∙ rstrip-cons "c" ("i" ∷ ":" ∷ s) refl
    ∙ ap (λ t. "c" ∷ t)
        (rstrip-cons "i" (":" ∷ s) refl
          ∙ ap (λ t. "i" ∷ t) (rstrip-cons ":" s refl ∙ ap (λ t. ":" ∷ t) (rstrip_of_strip s h))))

-- A hexadecimal text in lower case stays.
lower_char-hex : (c : Char) → is_hex c ≡ true → lower_char c ≡ c
unfolding lower_char is_hex
lower_char-hex c h = ground arith

pub lower-hex : (s : String) → all_chars is_hex s ≡ true → lower s ≡ s
unfolding lower
lower-hex [] h = refl
lower-hex (c ∷ s) h = ground (arith, lower_char-hex c, lower-hex s)
