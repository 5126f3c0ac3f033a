-- ===== src/Base/Distinct.antt =====
-- Membership and distinctness under sorting, concatenation and the removal of duplicates.
use mathlib.Core.Path.{◌≡◌, refl, ap, ◌∙◌}
use mathlib.Core.Logic.{◌↔◌, inl, inr}
use mathlib.Core.Bool.{Bool, true, false, ◌&&◌, ◌||◌, not}
use mathlib.Core.List.{List, [], ◌∷◌, ◌++◌}
use native.Mathlib.Omega.{arith}
use verdict_machine.Base.Tests.{Bool-cases}
use verdict_machine.Base.Sort.{insert_sorted, sort_by, contains, IsNodup, dedupe_from}

module _ {A : Type 0} (eqb : A → A → Bool) where
  pub contains-append :
      (xs ys : List A) (a : A)
      → contains eqb (xs ++ ys) a ≡ (contains eqb xs a || contains eqb ys a)
  unfolding contains
  contains-append [] ys a = refl
  contains-append (x ∷ xs) ys a = ground (arith, contains-append xs ys a)

  module _ (less : A → A → Bool) where
    contains-insert_sorted :
        (x : A) (ys : List A) (a : A)
        → contains eqb (insert_sorted less x ys) a ≡ (eqb x a || contains eqb ys a)
    unfolding contains insert_sorted
    contains-insert_sorted x [] a = refl
    contains-insert_sorted x (y ∷ ys) a = ground (arith, contains-insert_sorted x ys a)

    pub contains-sort_by :
        (xs : List A) (a : A) → contains eqb (sort_by less xs) a ≡ contains eqb xs a
    unfolding contains sort_by
    contains-sort_by [] a = refl
    contains-sort_by (x ∷ xs) a =
        contains-insert_sorted x (sort_by less xs) a
        ∙ ap (λ b. eqb x a || b) (contains-sort_by xs a)

  module _ (eqb_iff : (a b : A) → (eqb a b ≡ true) ↔ (a ≡ b)) where
    eqb_ne_sym : (a b : A) → eqb a b ≡ false → eqb b a ≡ false
    eqb_ne_sym a b h = ground (arith, eqb_iff a b, eqb_iff b a)

    module _ (less : A → A → Bool) where
      insert_sorted-IsNodup :
          (x : A) (ys : List A)
          → contains eqb ys x ≡ false
          → IsNodup eqb ys
          → IsNodup eqb (insert_sorted less x ys)
      unfolding contains insert_sorted
      insert_sorted-IsNodup x [] new h = (refl, tt)
      insert_sorted-IsNodup x (y ∷ ys) new (fresh, rest) = ground (
        arith,
        insert_sorted-IsNodup x ys,
        contains-insert_sorted less x ys y,
        eqb_iff x y,
        eqb_iff y x,
      )

      pub sort_by-IsNodup : (xs : List A) → IsNodup eqb xs → IsNodup eqb (sort_by less xs)
      unfolding sort_by
      sort_by-IsNodup [] h = tt
      sort_by-IsNodup (x ∷ xs) (fresh, rest) =
          insert_sorted-IsNodup x (sort_by less xs) (rw (contains-sort_by less xs x) fresh)
            (sort_by-IsNodup xs rest)

    pub contains-dedupe_from :
        (seen xs : List A) (a : A)
        → contains eqb (dedupe_from eqb seen xs) a
          ≡ (contains eqb xs a && not (contains eqb seen a))
    unfolding contains dedupe_from
    contains-dedupe_from seen [] a = refl
    contains-dedupe_from seen (x ∷ xs) a =
        ground
          (arith, contains-dedupe_from seen xs a, contains-dedupe_from (x ∷ seen) xs a, eqb_iff x a)

    pub dedupe_from-IsNodup : (seen xs : List A) → IsNodup eqb (dedupe_from eqb seen xs)
    unfolding contains dedupe_from
    dedupe_from-IsNodup seen [] = tt
    dedupe_from-IsNodup seen (x ∷ xs) = elim (Bool-cases (contains eqb seen x)) [
      | inl e ↦ rw e (dedupe_from-IsNodup seen xs)
      | inr e ↦ rw e (
        ground (arith, contains-dedupe_from (x ∷ seen) xs x, eqb_iff x x),
        dedupe_from-IsNodup (x ∷ seen) xs,
      )
    ]
