-- ===== src/Base/Sort.antt =====
-- `sort.SliceStable` as insertion sort over a Boolean `less`, and the removal of duplicates that the
-- source makes with a map of the values seen.
use mathlib.Core.List.{Perm}
use mathlib.Core.List.Perm
use mathlib.Core.Path.{◌≡◌}
use mathlib.Core.Logic.{inl, inr}
use mathlib.Core.Bool.{Bool, true, false, ◌||◌}
use mathlib.Core.List.{List, [], ◌∷◌}
use verdict_machine.Base.Tests.{if◌then◌else◌, Bool-cases}
use verdict_machine.Base.Lists.{All, All-map}

module _ {ℓ} {A : Type ℓ} (less : A → A → Bool) where
  -- The new first element goes before the equals of it.
  unfoldable pub insert_sorted : A → List A → List A
  insert_sorted x [] = x ∷ []
  insert_sorted x (y ∷ ys) = if less y x then y ∷ insert_sorted x ys else x ∷ y ∷ ys

  unfoldable pub sort_by : List A → List A
  unfolding insert_sorted
  sort_by [] = []
  sort_by (x ∷ xs) = insert_sorted x (sort_by xs)

  -- No later element is below an earlier one.
  abbrev pub IsSorted : List A → Type 0
  IsSorted [] = Unit
  IsSorted (x ∷ xs) = All (λ y. less y x ≡ false) xs × IsSorted xs

  pub record IsOrder : Type ℓ where
    pub asym : (a b : A) → less a b ≡ true → less b a ≡ false
    pub weak_trans : (a b c : A) → less a b ≡ false → less b c ≡ false → less a c ≡ false

  insert_sorted-perm : (x : A) (xs : List A) → Perm (insert_sorted x xs) (x ∷ xs)
  unfolding insert_sorted
  insert_sorted-perm x [] = Perm.refl (x ∷ [])
  insert_sorted-perm x (y ∷ ys) = elim (Bool-cases (less y x)) [
    | inl e ↦ rw e (Perm.trans (Perm.cons y (insert_sorted-perm x ys)) (Perm.swap x y ys))
    | inr e ↦ rw e (Perm.refl (x ∷ y ∷ ys))
  ]

  pub sort_by-perm : (xs : List A) → Perm (sort_by xs) xs
  unfolding sort_by
  sort_by-perm [] = Perm.refl []
  sort_by-perm (x ∷ xs) =
      Perm.trans (insert_sorted-perm x (sort_by xs)) (Perm.cons x (sort_by-perm xs))

  insert_sorted-All {κ} :
      (P : A → Type κ) (x : A) (xs : List A) → P x → All P xs → All P (insert_sorted x xs)
  unfolding insert_sorted
  insert_sorted-All P x [] p ps = (p, tt)
  insert_sorted-All P x (y ∷ ys) p (q, qs) = elim (Bool-cases (less y x)) [
    | inl e ↦ rw e (q, insert_sorted-All P x ys p qs)
    | inr e ↦ rw e (p, (q, qs))
  ]

  pub sort_by-All {κ} : (P : A → Type κ) (xs : List A) → All P xs → All P (sort_by xs)
  unfolding sort_by
  sort_by-All P [] h = tt
  sort_by-All P (x ∷ xs) (p, ps) = insert_sorted-All P x (sort_by xs) p (sort_by-All P xs ps)

  module _ (order : IsOrder) where
    insert_sorted-IsSorted : (x : A) (xs : List A) → IsSorted xs → IsSorted (insert_sorted x xs)
    unfolding insert_sorted
    insert_sorted-IsSorted x [] h = (tt, tt)
    insert_sorted-IsSorted x (y ∷ ys) (below, rest) = elim (Bool-cases (less y x)) [
      | inl e ↦ rw e (
        insert_sorted-All (λ z. less z y ≡ false) x ys (order.asym y x e) below,
        insert_sorted-IsSorted x ys rest,
      )
      | inr e ↦ rw e ((e, All-map _ _ ys (λ z h. order.weak_trans z y x h e) below), (below, rest))
    ]

    pub sort_by-IsSorted : (xs : List A) → IsSorted (sort_by xs)
    unfolding sort_by
    sort_by-IsSorted [] = tt
    sort_by-IsSorted (x ∷ xs) = insert_sorted-IsSorted x (sort_by xs) (sort_by-IsSorted xs)

module _ {ℓ} {A : Type ℓ} (eqb : A → A → Bool) where
  unfoldable pub contains : List A → A → Bool
  contains [] a = false
  contains (x ∷ xs) a = eqb x a || contains xs a

  abbrev pub IsNodup : List A → Type 0
  IsNodup [] = Unit
  IsNodup (x ∷ xs) = (contains xs x ≡ false) × IsNodup xs

  -- The first occurrence of each value; `seen` is what came before, latest first.
  unfoldable pub dedupe_from : List A → List A → List A
  unfolding contains
  dedupe_from seen [] = []
  dedupe_from seen (x ∷ xs) =
      let rest = dedupe_from (x ∷ seen) xs in
      let skip = dedupe_from seen xs in if contains seen x then skip else x ∷ rest
