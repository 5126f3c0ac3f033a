-- ===== src/Engine/Actions.antt =====
-- internal/engine/portfolio.go: `ApplyAdjustments`, what corporate actions leave of the book.
use mathlib.Core.Option.{some-injective}
use mathlib.Core.Path.{subst}
use verdict_machine.Base.{
  ◌≡◌, refl, sym, ◌∙◌, ap, inl, inr, List, [], ◌∷◌, Option, some, Bool-cases, Option-cases,
}
use verdict_machine.Base.Int.{ℤ, pos, leb_ℤ, eqb_ℤ, eqb_ℤ_iff, IsInt64}
use verdict_machine.Base.Map.{
  Map, lookup, insert, erase, int_key, lookup-insert, lookup-erase, Every-lookup,
}
use verdict_machine.Float.{Float}
use verdict_machine.Engine.Model.{Position, Portfolio, AdjustmentApplied}
use verdict_machine.Engine.Portfolio.{
  adjust_position, adjust, adjust_all, apply_adjustments, is_no_action, new_quantity,
}
use verdict_machine.Engine.Kept.{IsHolding, IsKept, at_least_one, insert-IsKept, erase-IsKept}

module _ {F : Type 0} where
  -- A holding that stands for one of before, with its ticker and its cost basis.
  abbrev pub IsCarried : Option (Position F) → Position F → Type 0
  IsCarried o h' =
      (h : Position F) × (o ≡ some h) × (h'.cost_basis ≡ h.cost_basis) × (h'.scrip ≡ h.scrip)

  -- The book after corporate actions: still of holdings of at least one share, none of them new.
  pub record IsAdjusted (p p' : Portfolio F) : Type 0 where
    pub kept : IsKept p'
    pub carried :
        (id : ℤ) (h' : Position F)
        → lookup id p'.positions ≡ some h'
        → IsCarried (lookup id p.positions) h'

  unchanged-IsAdjusted : (p : Portfolio F) → IsKept p → IsAdjusted p p
  unchanged-IsAdjusted p k = record { kept = k; carried = λ id h e. (h, e, refl, refl) }

  IsAdjusted-trans : (p q r : Portfolio F) → IsAdjusted p q → IsAdjusted q r → IsAdjusted p r
  IsAdjusted-trans p q r a b = record { kept = b.kept; carried = through }
    where
      through :
          (id : ℤ) (h : Position F)
          → lookup id r.positions ≡ some h
          → IsCarried (lookup id p.positions) h
      through id h e =
          let (g, found, basis, scrip) = b.carried id h e in
          let (f, held, basis', scrip') = a.carried id g found in
          (f, held, basis ∙ basis', scrip ∙ scrip')

  IsCarried-erase :
      (id : ℤ) (m : Map ℤ (Position F)) (j : ℤ) (h : Position F)
      → lookup j (erase id m) ≡ some h
      → IsCarried (lookup j m) h
  IsCarried-erase id m j h e = elim (Bool-cases (eqb_ℤ id j)) [
    | inl same ↦ cc (rw (lookup-erase id m j, same) at e)
    | inr other ↦ (h, rw (lookup-erase id m j, other) at e, refl, refl)
  ]

  IsCarried-insert :
      (id : ℤ) (held g : Position F) (m : Map ℤ (Position F)) (j : ℤ) (h : Position F)
      → lookup id m ≡ some held
      → g.cost_basis ≡ held.cost_basis
      → g.scrip ≡ held.scrip
      → lookup j (insert id g m) ≡ some h
      → IsCarried (lookup j m) h
  IsCarried-insert id held g m j h found basis scrip e = elim (Bool-cases (eqb_ℤ id j)) [
    | inl same ↦
        let v : g ≡ h = some-injective g h (rw (lookup-insert id g m j, same) at e) in
        (
          held,
          subst (λ i. lookup i m ≡ some held) ((eqb_ℤ_iff id j).0 same) found,
          sym (ap (λ a. a.cost_basis) v) ∙ basis,
          sym (ap (λ a. a.scrip) v) ∙ scrip,
        )
    | inr other ↦ (h, rw (lookup-insert id g m j, other) at e, refl, refl)
  ]

module _ {F : Type 0} ⦃fl : Float F⦄ (sized : (v : F) → IsInt64 (fl.to_int v)) where
  adjust_position-IsAdjusted :
      (p : Portfolio F) (id : ℤ) (ratio : F) (held : Position F)
      → IsKept p
      → lookup id p.positions ≡ some held
      → IsAdjusted p (adjust_position p id ratio held)
  unfolding adjust_position
  adjust_position-IsAdjusted p id ratio held k found =
      elim (Bool-cases (leb_ℤ (new_quantity held ratio) (pos 0))) [
        | inl all_cash ↦
            rw (all_cash)
              (record { kept = erase-IsKept p id k; carried = IsCarried-erase id p.positions })
        | inr some_left ↦ rw (some_left) (record {
          kept = insert-IsKept p k (record {
            owned = at_least_one (new_quantity held ratio) some_left;
            sized = sized _;
            own_key = (Every-lookup IsHolding id held p.positions k.holdings found).own_key;
          });
          carried = λ j h e. IsCarried-insert id held _ p.positions j h found refl refl e;
        })
      ]

  adjust-IsAdjusted :
      (p : Portfolio F) (id : ℤ) (ratio : F) → IsKept p → IsAdjusted p (adjust p id ratio).0
  unfolding adjust
  adjust-IsAdjusted p id ratio k = elim (Option-cases (lookup id p.positions)) [
    | inl e ↦ rw (e, adjust) (unchanged-IsAdjusted p k)
    | inr (held, e) ↦ elim (Bool-cases (is_no_action ratio)) [
      | inl idle ↦ rw (e, adjust, idle) (unchanged-IsAdjusted p k)
      | inr acts ↦ rw (e, adjust, acts) (adjust_position-IsAdjusted p id ratio held k e)
    ]
  ]

  adjust_all-IsAdjusted :
      (ratios : Map ℤ F) (p : Portfolio F) (done : List (AdjustmentApplied F))
      → IsKept p
      → IsAdjusted p (adjust_all p done ratios).0
  unfolding adjust_all
  adjust_all-IsAdjusted [] p done k = unchanged-IsAdjusted p k
  adjust_all-IsAdjusted ((id, ratio) ∷ rs) p done k =
      let step = adjust-IsAdjusted p id ratio k in
      IsAdjusted-trans p _ _ step (adjust_all-IsAdjusted rs _ _ step.kept)

  -- From a book whose holdings are all of at least one share, under distinct entities, and where a
  -- float64 converts to an int64: the book stays so under `ApplyAdjustments`, and every holding after
  -- it is a holding from before, with its ticker and its cost basis.
  pub apply_adjustments-IsAdjusted :
      (p : Portfolio F) (ratios : Map ℤ F) → IsKept p → IsAdjusted p (apply_adjustments p ratios).0
  unfolding apply_adjustments
  apply_adjustments-IsAdjusted p ratios k = adjust_all-IsAdjusted ratios p [] k
