-- ===== src/Base/Exec.antt =====
-- Methods that change a state and may raise. What was written before a raise stays written, so the
-- state comes back beside the exception too.
use mathlib.Core.Bool.{Bool, true, false}
use mathlib.Core.Path.{◌≡◌, ap}
use shipcheck.Base.Results.{Result, ok, err}

abbrev pub Exec : Type 0 → Type 0 → Type 0 → Type 0
Exec S E A = S → Result E A × S

module _ {S E : Type 0} where
  abbrev pub pure : {A : Type 0} → A → Exec S E A
  pure a s = (ok a, s)

  abbrev pub raise : {A : Type 0} → E → Exec S E A
  raise e s = (err e, s)

  abbrev pub lift : {A : Type 0} → Result E A → Exec S E A
  lift r s = (r, s)

  infixl 5 ◌>>=◌ ◌>>◌
  abbrev pub ◌>>=◌ : {A B : Type 0} → Exec S E A → (A → Exec S E B) → Exec S E B
  ◌>>=◌ m f s = let (r, s') = m s in elim r [ ok a ↦ f a s' | err e ↦ (err e, s') ]

  abbrev pub ◌>>◌ : {B : Type 0} → Exec S E (Unit {0}) → Exec S E B → Exec S E B
  m >> k = m >>= λ _. k

  -- `if test: raise e`
  abbrev pub raise_when : Bool → E → Exec S E (Unit {0})
  raise_when true e = raise e
  raise_when false e = pure tt

  -- `try: m except Exception: handler; raise`. What the handler raises replaces the exception.
  abbrev pub on_error : {A : Type 0} → Exec S E A → Exec S E (Unit {0}) → Exec S E A
  on_error m handler s =
      let (r, s') = m s in elim r [ ok a ↦ (ok a, s') | err e ↦ (handler >> raise e) s' ]

  -- a bind whose first part is known
  pub >>=-ok :
      {A B : Type 0} (m : Exec S E A) (k : A → Exec S E B) {s t : S} {a : A}
      → m s ≡ (ok a, t)
      → (m >>= k) s ≡ k a t
  >>=-ok m k h = ap (λ p. elim p.0 [ ok a ↦ k a p.1 | err e ↦ (err e, p.1) ]) h

  pub >>=-err :
      {A B : Type 0} (m : Exec S E A) (k : A → Exec S E B) {s t : S} {e : E}
      → m s ≡ (err e, t)
      → (m >>= k) s ≡ (err e, t)
  >>=-err m k h = ap (λ p. elim p.0 [ ok a ↦ k a p.1 | err e ↦ (err e, p.1) ]) h

  -- What holds of the value and the state where an action returned, and where it raised.
  abbrev pub Ends : {A : Type 0} → (E → S → Type 0) → (A → S → Type 0) → Result E A × S → Type 0
  Ends X P (ok a, s) = P a s
  Ends X P (err e, s) = X e s

  pub >>=-Ends :
      {A B : Type 0} (X : E → S → Type 0) (Q : A → S → Type 0) (P : B → S → Type 0) (m : Exec S E A)
      (k : A → Exec S E B) (s : S)
      → Ends X Q (m s)
      → ((a : A) (t : S) → Q a t → Ends X P (k a t))
      → Ends X P ((m >>= k) s)
  >>=-Ends {A = A} X Q P m k s h step = after (m s) h
    where
      after :
          (r : Result E A × S)
          → Ends X Q r
          → Ends X P (elim r.0 [ ok a ↦ k a r.1 | err e ↦ (err e, r.1) ])
      after (ok a, t) h = step a t h
      after (err e, t) h = h

  pub Ends-imp :
      {A : Type 0} (X Y : E → S → Type 0) (P Q : A → S → Type 0)
      → ((e : E) (s : S) → X e s → Y e s)
      → ((a : A) (s : S) → P a s → Q a s)
      → (r : Result E A × S) → Ends X P r
      → Ends Y Q r
  Ends-imp X Y P Q f g (ok a, s) h = g a s h
  Ends-imp X Y P Q f g (err e, s) h = f e s h
