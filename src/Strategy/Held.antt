-- ===== src/Strategy/Held.antt =====
-- internal/strategy/momentum.go: what the strategy reads of the book and of its targets.
use mathlib.Core.Option.{some-injective}
use verdict_machine.Base.{
  ◌≡◌, ap, ◌∙◌, inl, inr, List, [], ◌∷◌, some, All, All-of_map, All-zip, Bool-cases, Option-cases,
  arith,
}
use verdict_machine.Base.Int.{ℤ, pos, ◌≤ℤ◌, leb_ℤ, IsInt64}
use verdict_machine.Base.Map.{
  Map, lookup, insert, int_key, Every, Every-All, lookup-All, insert-Every, Every-lookup,
}
use verdict_machine.Base.Text.{less_text}
use verdict_machine.Base.Sort.{sort_by-All}
use verdict_machine.Float.{Float, nought}
use verdict_machine.Engine.Model.{Position, Portfolio}
use verdict_machine.Engine.Portfolio.{held_positions, position_of, or_zero}
use verdict_machine.Engine.Kept.{IsHolding, IsKept, at_least_one}
use verdict_machine.Strategy.Selector.{affordable, targets_onto, wanted}

module _ {F : Type 0} ⦃fl : Float F⦄ (p : Portfolio F) where
  -- A position of the book, with its shares.
  pub record IsHeld (h : Position F) : Type 0 where
    pub owned : pos 1 ≤ℤ h.quantity
    pub sized : IsInt64 h.quantity
    pub own : position_of p h.entity_id ≡ h

  pub held_positions-IsHeld : IsKept p → All IsHeld (held_positions p)
  unfolding held_positions
  held_positions-IsHeld k =
      sort_by-All (λ a b. less_text a.scrip b.scrip) IsHeld _
        (All-of_map _ IsHeld (λ e. e.1) p.positions each
          (All-zip _ _ p.positions (lookup-All p.positions k.distinct)
            (Every-All IsHolding p.positions k.holdings)))
    where
      each :
          (e : ℤ × Position F)
          → (lookup e.0 p.positions ≡ some e.1) × IsHolding e.0 e.1
          → IsHeld e.1
      each e (found, v) = record {
        owned = v.owned;
        sized = v.sized;
        own = ap (λ i. or_zero (lookup i p.positions)) v.own_key ∙ ap or_zero found;
      }

module _ {F : Type 0} ⦃fl : Float F⦄ (sized : (v : F) → IsInt64 (fl.to_int v)) (closes : Map ℤ F)
    (per_name : F) where
  affordable-inv :
      (id want : ℤ) → affordable closes per_name id ≡ some want → (pos 1 ≤ℤ want) × IsInt64 want
  unfolding affordable
  affordable-inv id want h = elim (Option-cases (lookup id closes)) [
    | inl e ↦ cc (rw (affordable, e) at h)
    | inr (px, e) ↦ elim (Bool-cases (fl.le px nought)) [
      | inl low ↦ cc (rw (affordable, e, low) at h)
      | inr up ↦ elim (Bool-cases (leb_ℤ (fl.to_int (fl.div per_name px)) (pos 0))) [
        | inl few ↦ cc (rw (affordable, e, up, few) at h)
        | inr enough ↦
            let same = some-injective _ want (rw (affordable, e, up, enough) at h) in
            rw (← same) (at_least_one _ enough, sized _)
      ]
    ]
  ]

  -- Each target is what the name's share of the equity buys.
  abbrev pub IsTarget : ℤ → ℤ → Type 0
  IsTarget id want = (affordable closes per_name id ≡ some want) × (pos 1 ≤ℤ want) × IsInt64 want

  pub targets_onto-IsTarget :
      (ids : List ℤ) (target : Map ℤ ℤ)
      → Every IsTarget target
      → Every IsTarget (targets_onto closes per_name target ids)
  unfolding targets_onto
  targets_onto-IsTarget [] target h = h
  targets_onto-IsTarget (id ∷ ids) target h = elim (Option-cases (affordable closes per_name id)) [
    | inl e ↦ rw (e) (targets_onto-IsTarget ids target h)
    | inr (q, e) ↦ rw (e) (
        targets_onto-IsTarget ids (insert id q target) (
          insert-Every IsTarget id q target
            (e, (affordable-inv id q e).0, (affordable-inv id q e).1) h))
  ]

  -- A name without a target is wanted in no quantity.
  pub wanted_bounds :
      (target : Map ℤ ℤ) (id : ℤ)
      → Every IsTarget target
      → (pos 0 ≤ℤ wanted target id) × IsInt64 (wanted target id)
  wanted_bounds target id h = elim (Option-cases (lookup id target)) [
    | inl e ↦ rw (wanted, e) (omega arith)
    | inr (q, e) ↦
        let (_, some_wanted, fits) = Every-lookup IsTarget id q target h e in
        rw (wanted, e) (omega (arith, some_wanted), fits)
  ]
