-- ===== src/Base/Lists.antt =====
-- Lists measured by native numbers, Boolean quantifiers, and predicates by recursion.
use Prim.Native.Nat.{ℕ, suc, ◌+◌}
use mathlib.Core.Path.{◌≡◌, refl, ap}
use mathlib.Core.Bool.{Bool, true, false, ◌&&◌, ◌||◌}
use mathlib.Core.List.{List, [], ◌∷◌, ◌++◌, map}
use mathlib.Core.Logic.{◌↔◌}
use native.Mathlib.Omega.{arith}
use shipcheck.Base.Tests.{if◌then◌else◌}

module _ {ℓ} {A : Type ℓ} where
  abbrev pub length : List A → ℕ
  length [] = 0
  length (x ∷ xs) = suc (length xs)

  abbrev pub any : (A → Bool) → List A → Bool
  any p [] = false
  any p (x ∷ xs) = p x || any p xs

  abbrev pub all : (A → Bool) → List A → Bool
  all p [] = true
  all p (x ∷ xs) = p x && all p xs

  -- how many items pass the test: `sum(p(x) for x in xs)`
  abbrev pub count_if : (A → Bool) → List A → ℕ
  count_if p [] = 0
  count_if p (x ∷ xs) = (if p x then 1 else 0) + count_if p xs

  -- `sum(f(x) for x in xs)`
  abbrev pub sum_by : (A → ℕ) → List A → ℕ
  sum_by f [] = 0
  sum_by f (x ∷ xs) = f x + sum_by f xs

  -- `[x for x in xs if p(x)]`
  abbrev pub keep : (A → Bool) → List A → List A
  keep p [] = []
  keep p (x ∷ xs) = if p x then x ∷ keep p xs else keep p xs

  pub length-append : (xs ys : List A) → length (xs ++ ys) ≡ length xs + length ys
  length-append [] ys = omega arith
  length-append (x ∷ xs) ys = omega (arith, length-append xs ys)

module _ {ℓ} {A : Type ℓ} (p : A → Bool) where
  pub any-append : (xs ys : List A) → any p (xs ++ ys) ≡ (any p xs || any p ys)
  any-append [] ys = refl
  any-append (x ∷ xs) ys = ground (arith, any-append xs ys)

  pub count_if-append : (xs ys : List A) → count_if p (xs ++ ys) ≡ count_if p xs + count_if p ys
  count_if-append [] ys = omega arith
  count_if-append (x ∷ xs) ys = omega (arith, count_if-append xs ys)

module _ {ℓ κ} {A : Type ℓ} (P : A → Type κ) where
  -- every item has the property
  abbrev pub All : List A → Type κ
  All [] = Unit
  All (x ∷ xs) = P x × All xs

  pub All-append : (xs ys : List A) → All xs → All ys → All (xs ++ ys)
  All-append [] ys hx hy = hy
  All-append (x ∷ xs) ys hx hy = (hx.0, All-append xs ys hx.1 hy)

module _ {ℓ} {A : Type ℓ} (p : A → Bool) where
  pub any-map {κ} :
      {B : Type κ} (f : B → A) (xs : List B) → any p (map f xs) ≡ any (λ x. p (f x)) xs
  any-map f [] = refl
  any-map f (x ∷ xs) = ap (λ r. p (f x) || r) (any-map f xs)

  pub count_if-map {κ} :
      {B : Type κ} (f : B → A) (xs : List B) → count_if p (map f xs) ≡ count_if (λ x. p (f x)) xs
  count_if-map f [] = refl
  count_if-map f (x ∷ xs) = ap (λ r. (if p (f x) then 1 else 0) + r) (count_if-map f xs)

  -- No item passes the test.
  pub any-eq-false : (xs : List A) → (any p xs ≡ false) ↔ All (λ x. p x ≡ false) xs
  any-eq-false [] = (λ h. tt, λ h. refl)
  any-eq-false (x ∷ xs) = (
    λ h. (ground arith, (any-eq-false xs).0 (ground arith)),
    λ h. ground (arith, (any-eq-false xs).1 h.1),
  )

module _ {ℓ κ μ} {A : Type ℓ} {P : A → Type κ} {Q : A → Type μ} (step : (x : A) → P x → Q x) where
  pub All-imp : (xs : List A) → All P xs → All Q xs
  All-imp [] h = tt
  All-imp (x ∷ xs) h = (step x h.0, All-imp xs h.1)

module _ {ℓ κ μ} {A : Type ℓ} {B : Type κ} (P : A → Type μ) (f : B → A) where
  pub All-map : (xs : List B) → All (λ x. P (f x)) xs → All P (map f xs)
  All-map [] h = tt
  All-map (x ∷ xs) h = (h.0, All-map xs h.1)

module _ {ℓ κ} {A : Type ℓ} (P : A → Type κ) where
  pub All-split : (xs ys : List A) → All P (xs ++ ys) → All P xs × All P ys
  All-split [] ys h = (tt, h)
  All-split (x ∷ xs) ys h = let (hx, hy) = All-split xs ys h.1 in ((h.0, hx), hy)

  pub All-map_conv {μ} :
      {B : Type μ} (f : B → A) (xs : List B) → All P (map f xs) → All (λ x. P (f x)) xs
  All-map_conv f [] h = tt
  All-map_conv f (x ∷ xs) h = (h.0, All-map_conv f xs h.1)
