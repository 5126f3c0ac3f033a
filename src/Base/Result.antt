-- ===== src/Base/Result.antt =====
-- A Go pair of a value and an error: one of the two.
use mathlib.Core.Path.{◌≡◌, refl, subst}
use mathlib.Core.Logic.{◌⊎◌, inl, inr}

pub data Outcome (E A : Type 0) : Type 0 where
  ok : A → Outcome E A
  err : E → Outcome E A

infixl 5 ◌>>=◌
abbrev pub ◌>>=◌ : {E A B : Type 0} → Outcome E A → (A → Outcome E B) → Outcome E B
ok a >>= f = f a
err e >>= f = err e

-- A bind that succeeds.
pub >>=-eq-ok :
    {E A B : Type 0} (m : Outcome E A) (f : A → Outcome E B) (b : B)
    → (m >>= f) ≡ ok b
    → (a : A) × (m ≡ ok a) × (f a ≡ ok b)
>>=-eq-ok (ok a) f b h = (a, refl, h)
>>=-eq-ok (err e) f b h = cc

pub ok-injective : {E A : Type 0} (a b : A) → ◌≡◌ {A = Outcome E A} (ok a) (ok b) → a ≡ b
ok-injective a b h = cc

pub err-injective : {E A : Type 0} (a b : E) → ◌≡◌ {A = Outcome E A} (err a) (err b) → a ≡ b
err-injective a b h = cc

-- `return err`, wrapped by the caller.
abbrev pub wrap_error : {E E' A : Type 0} → (E → E') → Outcome E A → Outcome E' A
wrap_error f (ok a) = ok a
wrap_error f (err e) = err (f e)

pub wrap_error-eq-ok :
    {E E' A : Type 0} (f : E → E') (o : Outcome E A) (a : A) → wrap_error f o ≡ ok a → o ≡ ok a
wrap_error-eq-ok f (ok x) a h = cc
wrap_error-eq-ok f (err e) a h = cc

-- Every error that the outcome can be satisfies `P`.
module _ {E : Type 0} (P : E → Type 0) where
  abbrev pub Fails : {A : Type 0} → Outcome E A → Type 0
  Fails (ok a) = Unit
  Fails (err e) = P e

  pub Fails->>= :
      {A B : Type 0} (m : Outcome E A) (f : A → Outcome E B)
      → Fails m
      → ((a : A) → Fails (f a))
      → Fails (m >>= f)
  Fails->>= (ok a) f h later = later a
  Fails->>= (err e) f h later = h

  pub Fails-wrap_error :
      {E' A : Type 0} (g : E' → E) (o : Outcome E' A)
      → ((e : E') → P (g e))
      → Fails (wrap_error g o)
  Fails-wrap_error g (ok a) h = tt
  Fails-wrap_error g (err e) h = h e

  pub Fails-err : {A : Type 0} (o : Outcome E A) (e : E) → Fails o → o ≡ err e → P e
  Fails-err (ok a) e h q = cc
  Fails-err (err x) e h q = subst P (err-injective x e q) h

-- To split on a computed outcome and keep the equation.
pub Outcome-cases :
    {E A : Type 0} (o : Outcome E A) → ((a : A) × (o ≡ ok a)) ⊎ ((e : E) × (o ≡ err e))
Outcome-cases (ok a) = inl (a, refl)
Outcome-cases (err e) = inr (e, refl)
