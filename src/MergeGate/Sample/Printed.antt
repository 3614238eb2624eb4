-- ===== src/MergeGate/Sample/Printed.antt =====
-- A printed form of texts and of objects of texts, for the tests.
use Prim.Native.Nat
use Prim.Native.Nat.{suc, ◌≤◌}
use Prim.Native.Char.{Char, code}
use Prim.Native.String.{[], ◌∷◌, char_at, count}
use text.Mathlib.TextLemmas.{cons-append, length-cons}
use shipcheck.Base.{ℕ, String, ◌≡◌, refl, ap, ◌∙◌, ◌<>◌, if◌then◌else◌, eqb, arith}
use shipcheck.Json.{Fields, str, end, field}

abbrev pub more : Char
more = char_at "+" 0

abbrev pub stop : Char
stop = char_at "." 0

-- a text before another, a mark before each character and two at the end
unfoldable pub print_text : String → String → String
print_text [] rest = stop ∷ stop ∷ rest
print_text (c ∷ t) rest = more ∷ c ∷ print_text t rest

unfoldable pub read_text : String → String × String
read_text [] = ([], [])
read_text (m ∷ []) = ([], [])
read_text (m ∷ c ∷ t) = let r = read_text t in if eqb (code m) 43 then (c ∷ r.0, r.1) else ([], t)

pub read_text-print_text : (t rest : String) → read_text (print_text t rest) ≡ (t, rest)
unfolding read_text print_text
read_text-print_text [] rest = refl
read_text-print_text (c ∷ t) rest = ground (arith, read_text-print_text t rest)

append-print_text : (t rest : String) → print_text t rest <> "\n" ≡ print_text t (rest <> "\n")
unfolding print_text
append-print_text [] rest =
    cons-append stop (stop ∷ rest) "\n" ∙ ap (λ s. stop ∷ s) (cons-append stop rest "\n")
append-print_text (c ∷ t) rest =
    cons-append more (c ∷ print_text t rest) "\n"
    ∙ ap (λ s. more ∷ s) (cons-append c (print_text t rest) "\n")
    ∙ ap (λ s. more ∷ c ∷ s) (append-print_text t rest)

-- an entry before another text
abbrev pub print_entry : String → String → String → String
print_entry k v rest = more ∷ print_text k (print_text v rest)

pub append-print_entry :
    (k v rest : String) → print_entry k v rest <> "\n" ≡ print_entry k v (rest <> "\n")
append-print_entry k v rest =
    cons-append more (print_text k (print_text v rest)) "\n"
    ∙ ap (λ s. more ∷ s) (append-print_text k (print_text v rest))
    ∙ ap (λ s. more ∷ print_text k s) (append-print_text v rest)

-- the entries whose values are texts, each behind a mark
unfoldable pub print_fields : Fields → String
unfolding print_text
print_fields end = []
print_fields (field k (str s) fs) = print_entry k s (print_fields fs)
print_fields (field k _ fs) = print_fields fs

-- at most `n` entries
unfoldable pub read_fields : ℕ → String → Fields
unfolding read_text
read_fields Nat.zero t = end
read_fields (suc n) [] = end
read_fields (suc n) (m ∷ t) =
    let k = read_text t in
    let v = read_text k.1 in
    let fs = read_fields n v.1 in if eqb (code m) 43 then field k.0 (str v.0) fs else end

count-print_text : (t rest : String) → count rest ≤ count (print_text t rest)
unfolding print_text
count-print_text [] rest = omega (arith, length-cons stop (stop ∷ rest), length-cons stop rest)
count-print_text (c ∷ t) rest = omega (
  arith,
  count-print_text t rest,
  length-cons more (c ∷ print_text t rest),
  length-cons c (print_text t rest),
)

pub count-print_entry : (k v rest : String) → suc (count rest) ≤ count (print_entry k v rest)
count-print_entry k v rest = omega (
  arith,
  length-cons more (print_text k (print_text v rest)),
  count-print_text k (print_text v rest),
  count-print_text v rest,
)

pub read_fields-print_entry :
    (n : ℕ) (k v rest : String)
    → read_fields (suc n) (print_entry k v rest) ≡ field k (str v) (read_fields n rest)
unfolding read_fields
read_fields-print_entry n k v rest =
    ground (arith, read_text-print_text k (print_text v rest), read_text-print_text v rest)

-- the third character, as a number
abbrev pub third : String → ℕ
third [] = 0
third (a ∷ []) = 0
third (a ∷ b ∷ []) = 0
third (a ∷ b ∷ c ∷ t) = code c
