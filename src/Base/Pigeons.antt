-- ===== src/Base/Pigeons.antt =====
-- A list without repeats is no longer than a list that has all its elements.
use Prim.Native.Nat.{suc, ◌≤◌}
use mathlib.Core.Path.{◌≡◌, refl}
use mathlib.Core.Logic.{◌↔◌, inl, inr}
use mathlib.Core.Bool.{Bool, true, false}
use mathlib.Core.List.{List, [], ◌∷◌}
use native.Mathlib.Omega.{arith}
use verdict_machine.Base.Tests.{if◌then◌else◌, Bool-cases}
use verdict_machine.Base.Lists.{length}
use verdict_machine.Base.Sort.{contains, IsNodup}

module _ {A : Type 0} (eqb : A → A → Bool) where
  abbrev remove : A → List A → List A
  remove a [] = []
  remove a (x ∷ xs) = if eqb x a then xs else x ∷ remove a xs

  module _ (eqb_iff : (a b : A) → (eqb a b ≡ true) ↔ (a ≡ b)) where
    length-remove :
        (a : A) (xs : List A) → contains eqb xs a ≡ true → length xs ≡ suc (length (remove a xs))
    unfolding contains
    length-remove a [] h = cc
    length-remove a (x ∷ xs) h = elim (Bool-cases (eqb x a)) [
      | inl e ↦ rw e refl
      | inr e ↦ rw e (omega (arith, length-remove a xs (rw e at h)))
    ]

    contains-remove :
        (a b : A) (xs : List A)
        → eqb a b ≡ false
        → contains eqb xs b ≡ true
        → contains eqb (remove a xs) b ≡ true
    unfolding contains
    contains-remove a b [] ne h = cc
    contains-remove a b (x ∷ xs) ne h =
        ground (arith, contains-remove a b xs ne, eqb_iff x a, eqb_iff x b, eqb_iff a b)

    pub length-IsNodup-le :
        (xs ys : List A)
        → IsNodup eqb xs
        → ((a : A) → contains eqb xs a ≡ true → contains eqb ys a ≡ true)
        → length xs ≤ length ys
    unfolding contains
    length-IsNodup-le [] ys h within = omega arith
    length-IsNodup-le (x ∷ xs) ys (fresh, rest) within =
        let there = within x (rw ((eqb_iff x x).1 refl) refl) in
        let below =
          length-IsNodup-le xs (remove x ys) rest
            (λ a h. contains-remove x a ys (apart x a xs fresh h) (within a (ground arith))) in
        omega (arith, length-remove x ys there, below)
      where
        apart :
            (x a : A) (xs : List A)
            → contains eqb xs x ≡ false
            → contains eqb xs a ≡ true
            → eqb x a ≡ false
        apart x a xs h k = ground (arith, eqb_iff x a)
