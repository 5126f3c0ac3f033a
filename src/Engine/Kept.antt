-- ===== src/Engine/Kept.antt =====
-- The book between fills: holdings of at least one share, under distinct entities.
use verdict_machine.Base.{◌≡◌, inl, inr, false, arith, Option-cases}
use verdict_machine.Base.Int.{ℤ, pos, negsuc, ◌≤ℤ◌, ◌-ℤ◌, leb_ℤ, ltb_ℤ, eqb_ℤ, IsInt64, int_laws}
use verdict_machine.Base.Map.{
  lookup, insert, erase, int_key, IsMap, Every, insert-IsMap, erase-IsMap, insert-Every,
  erase-Every, Every-lookup,
}
use verdict_machine.Float.{Float}
use verdict_machine.Engine.Model.{Position, Portfolio}
use verdict_machine.Engine.Portfolio.{position_of}

module _ {F : Type 0} where
  -- A holding of at least one share, under its own entity.
  pub record IsHolding (id : ℤ) (h : Position F) : Type 0 where
    pub owned : pos 1 ≤ℤ h.quantity
    pub sized : IsInt64 h.quantity
    pub own_key : h.entity_id ≡ id

  pub record IsKept (p : Portfolio F) : Type 0 where
    pub distinct : IsMap p.positions
    pub holdings : Every IsHolding p.positions

pub above : (z : ℤ) → pos 0 ≤ℤ z → eqb_ℤ z (pos 0) ≡ false → pos 1 ≤ℤ z
above z h ne = ground arith

pub at_least_one : (z : ℤ) → leb_ℤ z (pos 0) ≡ false → pos 1 ≤ℤ z
at_least_one z h = ground arith

pub covers : (a b : ℤ) → ltb_ℤ a b ≡ false → b ≤ℤ a
covers a b h = ground arith

pub part-IsInt64 : (a b : ℤ) → IsInt64 a → pos 1 ≤ℤ b → b ≤ℤ a → IsInt64 (a -ℤ b)
unfolding ◌-ℤ◌
part-IsInt64 (pos a) (pos b) i q le = ground arith
part-IsInt64 (pos a) (negsuc b) i q le = absurd (omega arith)
part-IsInt64 (negsuc a) (pos b) i q le = absurd (omega arith)
part-IsInt64 (negsuc a) (negsuc b) i q le = absurd (omega arith)

pub minus_self : (a b : ℤ) → b ≡ a → a -ℤ b ≡ pos 0
minus_self a b e = rw e (omega int_laws)

module _ {F : Type 0} ⦃fl : Float F⦄ where
  abbrev pub quantity_of : Portfolio F → ℤ → ℤ
  quantity_of p id = (position_of p id).quantity

  -- An entity that is not held counts as no shares, and no holding is short.
  pub quantity_of_nonneg :
      (p : Portfolio F) (id : ℤ)
      → IsKept p
      → (pos 0 ≤ℤ quantity_of p id) × IsInt64 (quantity_of p id)
  quantity_of_nonneg p id k = elim (Option-cases (lookup id p.positions)) [
    | inl e ↦ rw (e, quantity_of, position_of) (omega arith)
    | inr (h, e) ↦
        let v = Every-lookup IsHolding id h p.positions k.holdings e in
        rw (e, quantity_of, position_of) (omega (arith, v.owned, v.sized))
  ]

  pub insert-IsKept :
      (p : Portfolio F) {c : F} {id : ℤ} {h : Position F}
      → IsKept p
      → IsHolding id h
      → IsKept (record { cash = c; positions = insert id h p.positions })
  insert-IsKept p {id = id} {h = h} k v = record {
    distinct = insert-IsMap id h p.positions k.distinct;
    holdings = insert-Every IsHolding id h p.positions v k.holdings;
  }

  pub erase-IsKept :
      (p : Portfolio F) {c : F} (id : ℤ)
      → IsKept p
      → IsKept (record { cash = c; positions = erase id p.positions })
  erase-IsKept p id k = record {
    distinct = erase-IsMap id p.positions k.distinct;
    holdings = erase-Every IsHolding id p.positions k.holdings;
  }
