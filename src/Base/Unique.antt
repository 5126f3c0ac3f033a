-- ===== src/Base/Unique.antt =====
-- A sort by a total order does not depend on the order of what it is given.
use mathlib.Core.List.{Perm, is_set}
use mathlib.Core.List.{Permᴰ}
use mathlib.Core.HLevel.{Discrete, hedberg}
use mathlib.Core.Logic.{∥∥₁_elim, inl, inr}
use mathlib.Core.Path.{◌≡◌, refl, sym, ap, ◌∙◌}
use mathlib.Core.Bool.{Bool, true, false}
use mathlib.Core.List.{List, [], ◌∷◌}
use verdict_machine.Base.Tests.{Bool-cases}
use verdict_machine.Base.Sort.{insert_sorted, sort_by, IsOrder}

module _ {ℓ} {A : Type ℓ} (less : A → A → Bool) where
  -- Elements that are not apart are the same.
  abbrev pub IsTotal : Type ℓ
  IsTotal = (a b : A) → less a b ≡ false → less b a ≡ false → a ≡ b

  module _ (order : IsOrder less) (total : IsTotal) where
    two_apart :
        (a b : A)
        → less b a ≡ true
        → less a b ≡ false
        → insert_sorted less a (insert_sorted less b [])
          ≡ insert_sorted less b (insert_sorted less a [])
    unfolding insert_sorted
    two_apart a b p q = rw (p, q) refl

    later :
        (x y : A) (ys : List A)
        → less y x ≡ true
        → insert_sorted less x (y ∷ ys) ≡ y ∷ insert_sorted less x ys
    unfolding insert_sorted
    later x y ys e = rw e refl

    here : (x y : A) (ys : List A) → less y x ≡ false → insert_sorted less x (y ∷ ys) ≡ x ∷ y ∷ ys
    unfolding insert_sorted
    here x y ys e = rw e refl

    -- Two elements in order go in either way.
    insert_sorted-swap :
        (a b : A) (l : List A)
        → less b a ≡ true
        → less a b ≡ false
        → insert_sorted less a (insert_sorted less b l)
          ≡ insert_sorted less b (insert_sorted less a l)
    insert_sorted-swap a b [] p q = two_apart a b p q
    insert_sorted-swap a b (y ∷ ys) p q = elim (Bool-cases (less y b)) [
      | inl yb ↦ elim (Bool-cases (less y a)) [
        | inl ya ↦
            ap (insert_sorted less a) (later b y ys yb)
            ∙ (later a y (insert_sorted less b ys) ya
                ∙ (ap (λ t. y ∷ t) (insert_sorted-swap a b ys p q)
                    ∙ sym (
                        ap (insert_sorted less b) (later a y ys ya)
                        ∙ later b y (insert_sorted less a ys) yb)))
        | inr ya ↦ cc (order.weak_trans y a b ya q)
      ]
      | inr yb ↦ elim (Bool-cases (less y a)) [
        | inl ya ↦
            ap (insert_sorted less a) (here b y ys yb)
            ∙ (later a b (y ∷ ys) p
                ∙ (ap (λ t. b ∷ t) (later a y ys ya)
                    ∙ sym (
                        ap (insert_sorted less b) (later a y ys ya)
                        ∙ here b y (insert_sorted less a ys) yb)))
        | inr ya ↦
            ap (insert_sorted less a) (here b y ys yb)
            ∙ (later a b (y ∷ ys) p
                ∙ (ap (λ t. b ∷ t) (here a y ys ya)
                    ∙ sym (ap (insert_sorted less b) (here a y ys ya) ∙ here b a (y ∷ ys) q)))
      ]
    ]

    insert_sorted_comm :
        (a b : A) (l : List A)
        → insert_sorted less a (insert_sorted less b l)
          ≡ insert_sorted less b (insert_sorted less a l)
    insert_sorted_comm a b l = elim (Bool-cases (less b a)) [
      | inl p ↦ insert_sorted-swap a b l p (order.asym b a p)
      | inr p ↦ elim (Bool-cases (less a b)) [
        | inl q ↦ sym (insert_sorted-swap b a l q p)
        | inr q ↦
            let e = total a b q p in
            ap (λ x. insert_sorted less x (insert_sorted less b l)) e
            ∙ ap (λ x. insert_sorted less b (insert_sorted less x l)) (sym e)
      ]
    ]

    sort_by_permᴰ : {xs ys : List A} → Permᴰ xs ys → sort_by less xs ≡ sort_by less ys
    unfolding sort_by
    sort_by_permᴰ Permᴰ.nil = refl
    sort_by_permᴰ (Permᴰ.cons {b = b} {l₁ = l} e p) =
        ap (λ x. insert_sorted less x (sort_by less l)) e
        ∙ ap (insert_sorted less b) (sort_by_permᴰ p)
    sort_by_permᴰ (Permᴰ.swap {a = a} {b = b} {l = l} e f) =
        rw (← e, ← f) (insert_sorted_comm a b (sort_by less l))
    sort_by_permᴰ (Permᴰ.trans p q) = sort_by_permᴰ p ∙ sort_by_permᴰ q

    pub sort_by-perm_eq :
        Discrete A → {xs ys : List A} → Perm xs ys → sort_by less xs ≡ sort_by less ys
    sort_by-perm_eq dec {xs} {ys} p =
        ∥∥₁_elim p (is_set (hedberg dec) (sort_by less xs) (sort_by less ys)) sort_by_permᴰ
