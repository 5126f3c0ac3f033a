-- ===== src/Engine/Sales.antt =====
-- internal/engine/portfolio.go: `applySell`, its cash and what is left of the holding.
use verdict_machine.Base.{
  ◌≡◌, refl, sym, ap, ◌∙◌, inl, inr, Option, none, some, false, arith, Bool-cases, Option-cases,
  ◌≢◌,
}
use verdict_machine.Base.Int.{
  ℤ, pos, ◌≤ℤ◌, ◌-ℤ◌, leb_ℤ, ltb_ℤ, eqb_ℤ, eqb_ℤ_iff, sub64, sub64_within, int_laws,
}
use verdict_machine.Base.Map.{
  lookup, int_key, lookup-insert_self, lookup-insert_ne, lookup-erase_ne, lookup-erase_self,
  Every-lookup,
}
use verdict_machine.Base.Result.{ok, ok-injective}
use verdict_machine.Float.{Float}
use verdict_machine.Engine.Model.{Fill, Position, Portfolio, value_of}
use verdict_machine.Engine.Portfolio.{or_zero, position_of, charged, apply_sell}
use verdict_machine.Engine.Kept.{
  IsHolding, IsKept, above, at_least_one, covers, part-IsInt64, minus_self, quantity_of,
  quantity_of_nonneg, insert-IsKept, erase-IsKept,
}

module _ {F : Type 0} ⦃fl : Float F⦄ where
  -- A sell that goes through: the shares were held, cash grows by value less charges, and the
  -- position shrinks by the quantity; at no shares it is gone.
  pub record IsSold (p : Portfolio F) (f : Fill F) (p' : Portfolio F) : Type 0 where
    pub covered : f.quantity ≤ℤ quantity_of p f.entity_id
    pub paid : p'.cash ≡ fl.add p.cash (fl.sub (value_of f) (charged f))
    pub kept : IsKept p'
    pub moved : quantity_of p' f.entity_id ≡ quantity_of p f.entity_id -ℤ f.quantity
    pub gone : f.quantity ≡ quantity_of p f.entity_id → lookup f.entity_id p'.positions ≡ none
    pub others : (id : ℤ) → f.entity_id ≢ id → lookup id p'.positions ≡ lookup id p.positions

  -- An entity with shares is held under its own id.
  held_key :
      (p : Portfolio F) (id : ℤ)
      → IsKept p
      → pos 1 ≤ℤ quantity_of p id
      → (position_of p id).entity_id ≡ id
  held_key p id k n = elim (Option-cases (lookup id p.positions)) [
    | inl e ↦ absurd (zero_owned (lookup id p.positions) e n)
    | inr (h, e) ↦ rw (e, or_zero) (Every-lookup IsHolding id h p.positions k.holdings e).own_key
  ]
    where
      zero_owned : (o : Option (Position F)) → o ≡ none → pos 1 ≤ℤ (or_zero o).quantity → ⊥
      zero_owned none e n = omega arith
      zero_owned (some h) e n = cc

  -- What is left of a holding after some of its shares are sold.
  remainder-IsHolding :
      (p : Portfolio F) (f : Fill F) {v m : F}
      → IsKept p
      → pos 1 ≤ℤ f.quantity
      → f.quantity ≤ℤ quantity_of p f.entity_id
      → sub64 (quantity_of p f.entity_id) f.quantity ≡ quantity_of p f.entity_id -ℤ f.quantity
      → eqb_ℤ (sub64 (quantity_of p f.entity_id) f.quantity) (pos 0) ≡ false
      → IsHolding f.entity_id (record (position_of p f.entity_id) {
        quantity = sub64 (quantity_of p f.entity_id) f.quantity;
        cost_basis = v;
        last_mark = m;
      })
  remainder-IsHolding p f k q le exact left =
      let (z, i) = quantity_of_nonneg p f.entity_id k in
      let owned : pos 1 ≤ℤ quantity_of p f.entity_id = omega arith in
      rw exact (record {
        owned = some_left (quantity_of p f.entity_id) f.quantity le (rw exact at left);
        sized = part-IsInt64 (quantity_of p f.entity_id) f.quantity i q le;
        own_key = held_key p f.entity_id k owned;
      })
    where
      some_left : (a b : ℤ) → b ≤ℤ a → eqb_ℤ (a -ℤ b) (pos 0) ≡ false → pos 1 ≤ℤ a -ℤ b
      some_left a b le ne = above (a -ℤ b) (omega int_laws) ne

  pub apply_sell-IsSold :
      (p : Portfolio F) (f : Fill F) (p' : Portfolio F)
      → IsKept p
      → leb_ℤ f.quantity (pos 0) ≡ false
      → apply_sell p f ≡ ok p'
      → IsSold p f p'
  unfolding apply_sell
  apply_sell-IsSold p f p' k q h = elim (Bool-cases (ltb_ℤ have f.quantity)) [
    | inl short ↦ cc (rw short at h)
    | inr enough ↦ elim (Bool-cases (eqb_ℤ (sub64 have f.quantity) (pos 0))) [
      | inl all ↦ rw (← ok-injective _ p' (rw (enough, all) at h)) (record {
        covered = covers have f.quantity enough;
        paid = refl;
        kept = erase-IsKept p f.entity_id k;
        moved =
            ap (λ o. (or_zero o).quantity) (lookup-erase_self f.entity_id p.positions)
            ∙ (sym ((eqb_ℤ_iff _ (pos 0)).0 all) ∙ exact enough);
        gone = λ _. lookup-erase_self f.entity_id p.positions;
        others = λ id ne. lookup-erase_ne f.entity_id p.positions id ne;
      })
      | inr left ↦ rw (← ok-injective _ p' (rw (enough, left) at h)) (record {
        covered = covers have f.quantity enough;
        paid = refl;
        kept = insert-IsKept p k (
            remainder-IsHolding p f k bought_some (covers have f.quantity enough) (exact enough)
              left);
        moved =
            ap (λ o. (or_zero o).quantity) (lookup-insert_self f.entity_id _ p.positions)
            ∙ exact enough;
        gone = λ e. absurd (never enough left e);
        others = λ id ne. lookup-insert_ne f.entity_id _ p.positions id ne;
      })
    ]
  ]
    where
      have : ℤ
      have = quantity_of p f.entity_id

      bought_some : pos 1 ≤ℤ f.quantity
      bought_some = at_least_one f.quantity q

      exact : ltb_ℤ have f.quantity ≡ false → sub64 have f.quantity ≡ have -ℤ f.quantity
      exact enough =
          sub64_within have f.quantity (quantity_of_nonneg p f.entity_id k).1
            (omega (arith, bought_some)) (covers have f.quantity enough)

      never :
          ltb_ℤ have f.quantity ≡ false
          → eqb_ℤ (sub64 have f.quantity) (pos 0) ≡ false
          → f.quantity ≡ have
          → ⊥
      never enough left e =
          cc ((eqb_ℤ_iff _ (pos 0)).1 (exact enough ∙ minus_self have f.quantity e))
