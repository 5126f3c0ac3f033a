-- ===== src/Engine/Tests.antt =====
-- A holding of 98 units, and fills against it.
use verdict_machine.Base.{ℕ, ◌≡◌, refl, [], ◌∷◌, arith}
use verdict_machine.Base.Int.{IsInt64, wrap64, wrap64-IsInt64, pos, ◌*ℤ◌, ◌+ℤ◌, ◌-ℤ◌, sub64}
use verdict_machine.Base.Text.{bytes, eqb_text}
use verdict_machine.Base.Map.{insert, lookup}
use verdict_machine.Base.Sort.{contains}
use verdict_machine.Base.Result.{ok}
use verdict_machine.Float.Fixed.{Fixed, fixed_float}
use verdict_machine.Cost.Product
use verdict_machine.Cost.Side
use verdict_machine.Cost.Model.{Charges, total, round2}
use verdict_machine.Cost.Schedule.{note_date}
use verdict_machine.Engine.Model.{Fill, Portfolio}
use verdict_machine.Engine.Portfolio.{apply, apply_sell}
use verdict_machine.Engine.Kept.{IsKept}
use verdict_machine.Engine.Portfolio.{apply_adjustments, adjust_all, adjust, adjust_position}
use verdict_machine.Engine.Actions.{IsAdjusted, apply_adjustments-IsAdjusted}
use verdict_machine.Engine.Portfolio.{equity, mark}
use verdict_machine.Engine.Close.{Bar, relabel}
use verdict_machine.Engine.Marks.{equity-relabel-mark}
use verdict_machine.Base.Map.{Map}
use verdict_machine.Base.Int.{ℤ}
use verdict_machine.Engine.Holdings.{IsApplied, apply-IsApplied}

abbrev rupees : ℕ → Fixed
rupees n = fixed_float.decimal n 0

abbrev charges : Charges Fixed
charges = record {
  turnover = rupees 3800;
  brokerage = rupees 20;
  stt = rupees 0;
  exchange_txn = rupees 0;
  sebi_turnover = rupees 0;
  ipf = rupees 0;
  taxable_value = rupees 20;
  gst = rupees 0;
  stamp_duty = rupees 0;
  dp_charge = rupees 15;
  unverified = [];
}

-- 38 of 98 units sold at 100 rupees.
abbrev sale : Fill Fixed
sale = record {
  order = record {
    entity_id = pos 7;
    scrip = bytes "NIFTYBEES";
    side = Side.sell;
    product = Product.fund_units;
    quantity = pos 38;
    decided_on = note_date;
  };
  date = note_date;
  price = rupees 100;
  charges = charges;
}

abbrev portfolio : ℕ → ℕ → ℕ → ℕ → Portfolio Fixed
portfolio cash qty basis mark = record {
  cash = rupees cash;
  positions =
      (
        pos 7,
        record {
          entity_id = pos 7;
          scrip = bytes "NIFTYBEES";
          quantity = pos qty;
          cost_basis = rupees basis;
          last_mark = rupees mark;
        },
      )
      ∷ [];
}

sale_applied : apply (portfolio 500 98 9800 105) sale ≡ ok (portfolio 4265 60 6000 100)
unfolding apply apply_sell total round2 insert lookup sub64 eqb_text ◌*ℤ◌ ◌+ℤ◌ ◌-ℤ◌
sale_applied = refl

before_sale-IsKept : IsKept (portfolio 500 98 9800 105)
unfolding contains
before_sale-IsKept = record {
  distinct = (refl, tt);
  holdings = (record { owned = omega arith; sized = omega arith; own_key = refl }, tt);
}

apply-IsApplied_example : IsApplied (portfolio 500 98 9800 105) sale (portfolio 4265 60 6000 100)
unfolding lookup ◌+ℤ◌
apply-IsApplied_example =
    apply-IsApplied (portfolio 500 98 9800 105) sale (portfolio 4265 60 6000 100) before_sale-IsKept
      (omega arith) sale_applied

fixed-to_int-IsInt64 : (v : Fixed) → IsInt64 (fixed_float.to_int v)
fixed-to_int-IsInt64 v = wrap64-IsInt64 _

-- A bonus of one unit for each held.
bonus_doubles :
    (apply_adjustments (portfolio 500 98 9800 100) ((pos 7, rupees 2) ∷ [])).0
    ≡ portfolio 500 196 9800 50
unfolding apply_adjustments adjust_all adjust adjust_position insert lookup wrap64 ◌*ℤ◌ ◌+ℤ◌ ◌-ℤ◌
bonus_doubles = refl

apply_adjustments-IsAdjusted_example :
    IsAdjusted
      (portfolio 500 98 9800 105)
      (apply_adjustments (portfolio 500 98 9800 105) ((pos 7, rupees 2) ∷ [])).0
apply_adjustments-IsAdjusted_example =
    apply_adjustments-IsAdjusted fixed-to_int-IsInt64 (portfolio 500 98 9800 105)
      ((pos 7, rupees 2) ∷ []) before_sale-IsKept

abbrev closes : Map ℤ Fixed
closes = (pos 7, rupees 110) ∷ []

-- The fund trades under a new ticker.
abbrev bars : Map ℤ (Bar Fixed)
bars =
    (
      pos 7,
      record {
        entity_id = pos 7;
        scrip = bytes "NIFTYETF";
        open_price = rupees 108;
        high = rupees 111;
        low = rupees 107;
        close_price = rupees 110;
      },
    )
    ∷ []

equity-relabel-mark_example :
    equity closes (relabel bars (mark closes (portfolio 500 98 9800 105)))
    ≡ equity closes (portfolio 500 98 9800 105)
equity-relabel-mark_example = equity-relabel-mark closes bars (portfolio 500 98 9800 105)
