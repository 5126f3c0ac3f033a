-- ===== src/Engine/Model.antt =====
-- internal/engine: orders, fills, positions and the portfolio.
use verdict_machine.Base.Int.{ℤ}
use verdict_machine.Base.Text.{Text}
use verdict_machine.Base.Map.{Map, int_key}
use verdict_machine.Float.{Float}
use verdict_machine.Time.{Time}
use verdict_machine.Cost.Product.{Product}
use verdict_machine.Cost.Side.{Side}
use verdict_machine.Cost.Model.{Charges}

pub record Order : Type 0 where
  pub entity_id : ℤ
  pub scrip : Text
  pub side : Side
  pub product : Product
  pub quantity : ℤ
  pub decided_on : Time

-- Go embeds the order in the fill.
pub record Fill (F : Type 0) : Type 0 where
  pub order : Order
  pub open order use *
  pub date : Time
  pub price : F
  pub charges : Charges F

pub record Unfilled : Type 0 where
  pub order : Order
  pub date : Time

pub record Position (F : Type 0) : Type 0 where
  pub entity_id : ℤ
  pub scrip : Text
  pub quantity : ℤ
  pub cost_basis : F
  pub last_mark : F

pub record Portfolio (F : Type 0) : Type 0 where
  pub cash : F
  pub positions : Map ℤ (Position F)

pub record AdjustmentApplied (F : Type 0) : Type 0 where
  pub entity_id : ℤ
  pub scrip : Text
  pub ratio : F
  pub from_qty : ℤ
  pub to_qty : ℤ
  pub cash_paid : F

-- The errors of `Portfolio.Apply`, with the values that their messages print.
pub data Error (F : Type 0) : Type 0 where
  bad_quantity : Text → ℤ → Error F
  insufficient_cash : Text → ℤ → F → F → F → F → Error F
  short_sale : ℤ → Text → ℤ → Error F
  unknown_side : Text → Side → Error F

module _ {F : Type 0} ⦃fl : Float F⦄ where
  -- `Fill.Value`
  abbrev pub value_of : Fill F → F
  value_of f = fl.mul (fl.of_int f.quantity) f.price
