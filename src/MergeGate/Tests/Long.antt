-- ===== src/MergeGate/Tests/Long.antt =====
-- A name that is too long for the gate.
use Prim.Native.Nat
use Prim.Native.Nat.{suc, ◌<◌}
use Prim.Native.Char.{Char}
use Prim.Native.String.{[], ◌∷◌, count, char_at}
use text.Mathlib.TextLemmas.{length-cons}
use shipcheck.Base.{ℕ, String, ◌≡◌, refl, ap, arith}
use shipcheck.Base.Texts.{strip, rstrip, is_space}

abbrev pub letter_x : Char
letter_x = char_at "x" 0

-- `"x" * n`
unfoldable pub times : ℕ → String
times Nat.zero = []
times (suc n) = letter_x ∷ times n

count-times : (n : ℕ) → count (times n) ≡ n
unfolding times
count-times Nat.zero = refl
count-times (suc n) = omega (arith, length-cons letter_x (times n), count-times n)

rstrip-times : (n : ℕ) → rstrip (times n) ≡ times n
unfolding times rstrip is_space
rstrip-times Nat.zero = refl
rstrip-times (suc n) = ap (λ t. letter_x ∷ t) (rstrip-times n)

strip-times : (n : ℕ) → strip (times n) ≡ times n
unfolding times strip
strip-times Nat.zero = refl
strip-times (suc n) = rstrip-times (suc n)

abbrev pub long_name : String
long_name = times 4094

pub strip-long_name : strip long_name ≡ long_name
strip-long_name = strip-times 4094

pub count-long_name : 4093 < count long_name
count-long_name = rw (count-times 4094) (omega arith)
