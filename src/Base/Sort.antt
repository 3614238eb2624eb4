-- ===== src/Base/Sort.antt =====
-- `sorted(xs, key=...)`: a stable insertion sort by a Boolean order.
use native.Mathlib.Omega.{arith}
use Prim.Native.Nat.{◌+◌}
use mathlib.Core.Path.{◌≡◌, refl}
use shipcheck.Base.Tests.{if◌then◌else◌}
use shipcheck.Base.Lists.{any, length}
use mathlib.Core.Bool.{Bool, ◌||◌}
use mathlib.Core.List.{List, [], ◌∷◌}

module _ {ℓ} {A : Type ℓ} where
  unfoldable pub insert_by : (A → A → Bool) → A → List A → List A
  insert_by le x [] = x ∷ []
  insert_by le x (y ∷ ys) = if le x y then x ∷ y ∷ ys else y ∷ insert_by le x ys

  unfoldable pub sort_by : (A → A → Bool) → List A → List A
  unfolding insert_by
  sort_by le [] = []
  sort_by le (x ∷ xs) = insert_by le x (sort_by le xs)

module _ {A : Type 0} (le : A → A → Bool) (p : A → Bool) where
  any-insert_by : (x : A) (xs : List A) → any p (insert_by le x xs) ≡ (p x || any p xs)
  unfolding insert_by
  any-insert_by x [] = refl
  any-insert_by x (y ∷ ys) = ground (arith, any-insert_by x ys)

  pub any-sort_by : (xs : List A) → any p (sort_by le xs) ≡ any p xs
  unfolding sort_by
  any-sort_by [] = refl
  any-sort_by (x ∷ xs) = ground (arith, any-insert_by x (sort_by le xs), any-sort_by xs)

module _ {A : Type 0} (le : A → A → Bool) where
  length-insert_by : (x : A) (xs : List A) → length (insert_by le x xs) ≡ 1 + length xs
  unfolding insert_by
  length-insert_by x [] = refl
  length-insert_by x (y ∷ ys) = ground (arith, length-insert_by x ys)

  pub length-sort_by : (xs : List A) → length (sort_by le xs) ≡ length xs
  unfolding sort_by
  length-sort_by [] = refl
  length-sort_by (x ∷ xs) = ground (arith, length-insert_by x (sort_by le xs), length-sort_by xs)
