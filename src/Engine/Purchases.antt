-- ===== src/Engine/Purchases.antt =====
-- internal/engine/portfolio.go: `applyBuy`, its cash and the position it leaves.
use verdict_machine.Base.{◌≡◌, refl, ap, ◌∙◌, inl, inr, false, arith, Bool-cases, ◌≢◌}
use verdict_machine.Base.Int.{ℤ, pos, ◌≤ℤ◌, ◌+ℤ◌, leb_ℤ, IsInt64, add64, add64_exact, int_laws}
use verdict_machine.Base.Map.{lookup, int_key, lookup-insert_self, lookup-insert_ne}
use verdict_machine.Base.Text.{Text}
use verdict_machine.Base.Result.{ok, ok-injective}
use verdict_machine.Float.{Float}
use verdict_machine.Engine.Model.{Fill, Portfolio, value_of}
use verdict_machine.Engine.Portfolio.{or_zero, charged, apply_buy}
use verdict_machine.Engine.Kept.{IsHolding, IsKept, quantity_of, quantity_of_nonneg, insert-IsKept}

module _ {F : Type 0} ⦃fl : Float F⦄ where
  -- A buy that goes through: cash falls by value and charges, which the cash covered to within 10^-9,
  -- and the position grows by the quantity.
  pub record IsBought (p : Portfolio F) (f : Fill F) (p' : Portfolio F) : Type 0 where
    pub covered : fl.lt (fl.add p.cash (fl.decimal 1 9)) (fl.add (value_of f) (charged f)) ≡ false
    pub paid : p'.cash ≡ fl.sub p.cash (fl.add (value_of f) (charged f))
    pub kept : IsKept p'
    pub moved : quantity_of p' f.entity_id ≡ quantity_of p f.entity_id +ℤ f.quantity
    pub others : (id : ℤ) → f.entity_id ≢ id → lookup id p'.positions ≡ lookup id p.positions

  bought :
      (p : Portfolio F) (f : Fill F) {s : Text} {v m : F}
      → IsKept p
      → leb_ℤ f.quantity (pos 0) ≡ false
      → IsInt64 (quantity_of p f.entity_id +ℤ f.quantity)
      → IsHolding f.entity_id (record {
        entity_id = f.entity_id;
        scrip = s;
        quantity = add64 (quantity_of p f.entity_id) f.quantity;
        cost_basis = v;
        last_mark = m;
      })
  bought p f k q fits =
      let (z, i) = quantity_of_nonneg p f.entity_id k in
      rw (add64_exact (quantity_of p f.entity_id) f.quantity fits) (record {
        owned = grown (quantity_of p f.entity_id) f.quantity z q;
        sized = fits;
        own_key = refl;
      })
    where
      grown : (a b : ℤ) → pos 0 ≤ℤ a → leb_ℤ b (pos 0) ≡ false → pos 1 ≤ℤ a +ℤ b
      grown a b z q = let l : pos 1 ≤ℤ b = ground arith in omega int_laws

  pub apply_buy-IsBought :
      (p : Portfolio F) (f : Fill F) (p' : Portfolio F)
      → IsKept p
      → leb_ℤ f.quantity (pos 0) ≡ false
      → IsInt64 (quantity_of p f.entity_id +ℤ f.quantity)
      → apply_buy p f ≡ ok p'
      → IsBought p f p'
  unfolding apply_buy
  apply_buy-IsBought p f p' k q fits h =
      elim (Bool-cases (fl.lt (fl.add p.cash (fl.decimal 1 9)) (fl.add (value_of f) (charged f)))) [
        | inl short ↦ cc (rw short at h)
        | inr enough ↦ rw (← ok-injective _ p' (rw enough at h)) (record {
          covered = enough;
          paid = refl;
          kept = insert-IsKept p k (bought p f k q fits);
          moved =
              ap (λ o. (or_zero o).quantity) (lookup-insert_self f.entity_id _ p.positions)
              ∙ add64_exact (quantity_of p f.entity_id) f.quantity fits;
          others = λ id ne. lookup-insert_ne f.entity_id _ p.positions id ne;
        })
      ]
