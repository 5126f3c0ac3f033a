-- ===== src/Base/Lists.antt =====
-- Lists measured and indexed by native numbers, and predicates on all their elements.
use Prim.Native.Nat.{ℕ, zero, suc, ◌+◌, min}
use mathlib.Core.Path.{◌≡◌, refl, ap, sym, subst}
use mathlib.Core.Logic.{◌⊎◌, inl, inr}
use mathlib.Core.List.{List, [], ◌∷◌, ◌++◌, map}
use mathlib.Core.Option.{Option, none, some}
use mathlib.Core.Bool.{Bool, true, false, ◌&&◌, ◌||◌}
use native.Mathlib.Omega.{arith}
use verdict_machine.Base.Tests.{if◌then◌else◌, Bool-cases}

module _ {ℓ} {A : Type ℓ} where
  abbrev pub length : List A → ℕ
  length [] = 0
  length (x ∷ xs) = suc (length xs)

  abbrev pub get_elem? : List A → ℕ → Option A
  get_elem? [] i = none
  get_elem? (x ∷ xs) zero = some x
  get_elem? (x ∷ xs) (suc i) = get_elem? xs i

  abbrev pub take : ℕ → List A → List A
  take zero xs = []
  take (suc n) [] = []
  take (suc n) (x ∷ xs) = x ∷ take n xs

  abbrev pub drop : ℕ → List A → List A
  drop zero xs = xs
  drop (suc n) [] = []
  drop (suc n) (x ∷ xs) = drop n xs

  pub length-append : (xs ys : List A) → length (xs ++ ys) ≡ length xs + length ys
  length-append [] ys = omega arith
  length-append (x ∷ xs) ys = omega (arith, length-append xs ys)

module _ {ℓ} {A : Type ℓ} where
  pub length-take : (n : ℕ) (xs : List A) → length (take n xs) ≡ min n (length xs)
  length-take zero xs = omega arith
  length-take (suc n) [] = omega arith
  length-take (suc n) (x ∷ xs) = omega (arith, length-take n xs)

  pub length-map {κ} : {B : Type κ} (xs : List A) (f : A → B) → length (map f xs) ≡ length xs
  length-map [] f = refl
  length-map (x ∷ xs) f = ap suc (length-map xs f)

  abbrev pub All {κ} : (A → Type κ) → List A → Type κ
  All P [] = Unit
  All P (x ∷ xs) = P x × All P xs

  pub All-append {κ} : (P : A → Type κ) (xs ys : List A) → All P xs → All P ys → All P (xs ++ ys)
  All-append P [] ys _ q = q
  All-append P (x ∷ xs) ys (p, ps) q = (p, All-append P xs ys ps q)

  pub All-map {κ κ'} :
      (P : A → Type κ) (Q : A → Type κ') (xs : List A) → ((a : A) → P a → Q a) → All P xs → All Q xs
  All-map P Q [] f h = tt
  All-map P Q (x ∷ xs) f (p, ps) = (f x p, All-map P Q xs f ps)

  -- The elements that pass a Boolean test, in order.
  abbrev pub select : (A → Bool) → List A → List A
  select p [] = []
  select p (x ∷ xs) = if p x then x ∷ select p xs else select p xs

-- A pair; the parts of `All P (x ∷ y ∷ [])` are written `p ◂ q ◂ tt`.
infixr 3 ◌◂◌
abbrev pub ◌◂◌ {ℓ κ} : {A : Type ℓ} {B : Type κ} → A → B → A × B
a ◂ b = (a, b)

pub All-zip {ℓ κ κ'} :
    {A : Type ℓ} (P : A → Type κ) (Q : A → Type κ') (xs : List A)
    → All P xs
    → All Q xs
    → All (λ x. P x × Q x) xs
All-zip P Q [] h k = tt
All-zip P Q (x ∷ xs) (p, ps) (q, qs) = ((p, q), All-zip P Q xs ps qs)

pub All-of_map {ℓ κ κ' ν} :
    {A : Type ℓ} {B : Type ν} (P : A → Type κ) (Q : B → Type κ') (f : A → B) (xs : List A)
    → ((a : A) → P a → Q (f a))
    → All P xs
    → All Q (map f xs)
All-of_map P Q f [] g h = tt
All-of_map P Q f (x ∷ xs) g (p, ps) = (g x p, All-of_map P Q f xs g ps)

module _ {A : Type 0} where
  -- `x` is an element, with its place.
  abbrev pub IsIn : A → List A → Type 0
  IsIn x [] = ⊥
  IsIn x (y ∷ ys) = (x ≡ y) ⊎ IsIn x ys

  pub All-IsIn : (P : A → Type 0) (x : A) (xs : List A) → All P xs → IsIn x xs → P x
  All-IsIn P x [] h m = absurd m
  All-IsIn P x (y ∷ ys) (p, ps) (inl e) = subst P (sym e) p
  All-IsIn P x (y ∷ ys) (p, ps) (inr m) = All-IsIn P x ys ps m

  abbrev pub any : (A → Bool) → List A → Bool
  any p [] = false
  any p (x ∷ xs) = p x || any p xs

  abbrev pub all : (A → Bool) → List A → Bool
  all p [] = true
  all p (x ∷ xs) = p x && all p xs

  pub all-IsIn : (p : A → Bool) (x : A) (xs : List A) → all p xs ≡ true → IsIn x xs → p x ≡ true
  all-IsIn p x [] h m = absurd m
  all-IsIn p x (y ∷ ys) h (inl e) = rw e (ground arith)
  all-IsIn p x (y ∷ ys) h (inr m) = all-IsIn p x ys (ground arith) m

  -- A test that holds of an element that a weaker test rejects everywhere is a contradiction.
  pub any-not-All :
      (p q : A → Bool) (xs : List A)
      → ((x : A) → p x ≡ true → q x ≡ true)
      → any p xs ≡ true
      → All (λ x. q x ≡ false) xs
      → ⊥
  any-not-All p q [] f h ns = cc
  any-not-All p q (x ∷ xs) f h (n, ns) = elim (Bool-cases (p x)) [
    | inl e ↦ cc (f x e)
    | inr e ↦ any-not-All p q xs f (rw e at h) ns
  ]
