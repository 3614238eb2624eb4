-- ===== src/Base/Results.antt =====
-- Calls that may raise: the value, or the exception, for any type of exceptions.
use mathlib.Core.Path.{◌≡◌, refl, sym, ap, ap₂, ◌∙◌}
use mathlib.Core.Logic.{◌⊎◌, inl, inr}
use mathlib.Core.Bool.{Bool, true, false}
use mathlib.Core.List.{List, [], ◌∷◌, ◌++◌, map}

pub data Result {ℓ} (E : Type 0) (A : Type ℓ) : Type ℓ where
  ok : A → Result E A
  err : E → Result E A

infixl 5 ◌>>=◌ ◌>>◌
abbrev pub ◌>>=◌ {ℓ κ} :
    {E : Type 0} {A : Type ℓ} {B : Type κ} → Result E A → (A → Result E B) → Result E B
err e >>= k = err e
ok a >>= k = k a

abbrev pub ◌>>◌ {ℓ} : {E : Type 0} {B : Type ℓ} → Result E (Unit {0}) → Result E B → Result E B
m >> k = m >>= λ _. k

-- `if test: raise e`
abbrev pub raise_if : {E : Type 0} → Bool → E → Result E (Unit {0})
raise_if true e = err e
raise_if false e = ok tt

-- `[f(x) for x in xs]`, up to the first exception
abbrev pub each {ℓ κ} :
    {E : Type 0} {A : Type ℓ} {B : Type κ} → (A → Result E B) → List A → Result E (List B)
each f [] = ok []
each f (x ∷ xs) = do y ← f x; ys ← each f xs; ok (y ∷ ys)

-- What a call that returned has computed; a call that raised satisfies it.
abbrev pub Returns {ℓ κ} : {E : Type 0} {A : Type ℓ} → (A → Type κ) → Result E A → Type κ
Returns P (ok a) = P a
Returns P (err e) = Unit

pub Result-cases {ℓ} :
    {E : Type 0} {A : Type ℓ} (m : Result E A) → ((e : E) × (m ≡ err e)) ⊎ ((a : A) × (m ≡ ok a))
Result-cases (err e) = inl (e, refl)
Result-cases (ok a) = inr (a, refl)

pub Returns-imp {ℓ κ μ} :
    {E : Type 0} {A : Type ℓ} {P : A → Type κ} {Q : A → Type μ} (step : (a : A) → P a → Q a)
    (m : Result E A)
    → Returns P m
    → Returns Q m
Returns-imp step (ok a) h = step a h
Returns-imp step (err e) h = tt

-- A bind that returned: both parts returned.
pub >>=-eq-ok {ℓ κ} :
    {E : Type 0} {A : Type ℓ} {B : Type κ} {b : B} (m : Result E A) (k : A → Result E B)
    → (m >>= k) ≡ ok b
    → (a : A) × (m ≡ ok a) × (k a ≡ ok b)
>>=-eq-ok (err e) k h = cc
>>=-eq-ok (ok a) k h = (a, refl, h)

pub ok_injective {ℓ} :
    {E : Type 0} {A : Type ℓ} {a b : A} → ◌≡◌ {A = Result E A} (ok a) (ok b) → a ≡ b
ok_injective h = cc

module _ {ℓ κ} {E : Type 0} {A : Type ℓ} {B : Type κ} (f : A → Result E B) where
  -- A comprehension over a non-empty list that returned.
  pub each-cons :
      (x : A) (xs : List A) {ys : List B}
      → each f (x ∷ xs) ≡ ok ys
      → (y : B) × (zs : List B) × (f x ≡ ok y) × (each f xs ≡ ok zs) × (ys ≡ y ∷ zs)
  each-cons x xs h =
      let (y, fx, rest) = >>=-eq-ok (f x) _ h in
      let (zs, fxs, done) = >>=-eq-ok (each f xs) _ rest in
      (y, zs, fx, fxs, sym (ok_injective done))

-- calls in a row, up to the first exception
abbrev pub collect {ℓ} : {E : Type 0} {A : Type ℓ} → List (Result E A) → Result E (List A)
collect [] = ok []
collect (m ∷ ms) = do x ← m; xs ← collect ms; ok (x ∷ xs)

module _ {E A B : Type 0} (g : A → B) where
  -- if the call returns, `g` of its result is `b`
  abbrev pub Gives : Result E A → B → Type 0
  Gives m b = (a : A) → m ≡ ok a → g a ≡ b

  abbrev pub AllGive : List (Result E A) → List B → Type 0
  AllGive [] [] = Unit
  AllGive (m ∷ ms) (b ∷ bs) = Gives m b × AllGive ms bs
  AllGive _ _ = ⊥

  pub AllGive-append :
      (ms ns : List (Result E A)) (bs cs : List B)
      → AllGive ms bs
      → AllGive ns cs
      → AllGive (ms ++ ns) (bs ++ cs)
  AllGive-append [] ns [] cs h k = k
  AllGive-append [] ns (b ∷ bs) cs h k = absurd h
  AllGive-append (m ∷ ms) ns [] cs h k = absurd h
  AllGive-append (m ∷ ms) ns (b ∷ bs) cs h k = (h.0, AllGive-append ms ns bs cs h.1 k)

  pub AllGive-map {ℓ} :
      {C : Type ℓ} (f : C → Result E A) (k : C → B)
      → ((x : C) → Gives (f x) (k x))
      → (xs : List C) → AllGive (map f xs) (map k xs)
  AllGive-map f k step [] = tt
  AllGive-map f k step (x ∷ xs) = (step x, AllGive-map f k step xs)

  -- What each of the calls gives, their results give in order.
  pub collect-AllGive :
      (ms : List (Result E A)) (bs : List B) (xs : List A)
      → AllGive ms bs
      → collect ms ≡ ok xs
      → map g xs ≡ bs
  collect-AllGive [] [] xs h e = ap (map g) (sym (ok_injective e))
  collect-AllGive [] (b ∷ bs) xs h e = absurd h
  collect-AllGive (m ∷ ms) [] xs h e = absurd h
  collect-AllGive (m ∷ ms) (b ∷ bs) xs h e =
      let (a, ha, rest) = >>=-eq-ok m _ e in
      let (as', hs, done) = >>=-eq-ok (collect ms) _ rest in
      ap (map g) (sym (ok_injective done)) ∙ ap₂ ◌∷◌ (h.0 a ha) (collect-AllGive ms bs as' h.1 hs)
