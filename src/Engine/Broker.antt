-- ===== src/Engine/Broker.antt =====
-- internal/engine/broker.go: the paper broker, which fills orders at a session's opens.
use verdict_machine.Base.{
  ℕ, List, [], ◌∷◌, ◌++◌, Option, none, some, Bool, true, false, ◌&&◌, not, if◌then◌else◌, length,
  ◌==◌,
}
use verdict_machine.Base.Int.{ℤ}
use verdict_machine.Base.Text.{less_text}
use verdict_machine.Base.Sort.{sort_by}
use verdict_machine.Base.Map.{Map, lookup, insert, int_key}
use verdict_machine.Base.Format.{format_int}
use verdict_machine.Base.Result.{Outcome, ok, err, ◌>>=◌, wrap_error}
use verdict_machine.Float.{Float, nought, whole}
use verdict_machine.Time.{Time}
use verdict_machine.Cost.Side
use verdict_machine.Cost.Side.{Side}
use verdict_machine.Cost.Component
use verdict_machine.Cost.Model
use verdict_machine.Cost.Model.{Trade, Charges, is}
use verdict_machine.Cost.Schedule.{Schedule}
use verdict_machine.Cost.Day.{DayCharges, price_day}
use verdict_machine.Engine.Model.{Order, Fill, Unfilled}

pub record Execution (F : Type 0) : Type 0 where
  pub fills : List (Fill F)
  pub unfilled : List Unfilled

pub record Paper (F : Type 0) : Type 0 where
  pub sched : Schedule F
  pub slippage_bps : F

pub data BrokerError (F : Type 0) : Type 0 where
  negative_slippage : F → BrokerError F
  pricing : Time → Model.Error F → BrokerError F
  miscounted : ℕ → ℕ → BrokerError F

-- The variables of the first loop of `Execute`.
pub record Batch (F : Type 0) : Type 0 where
  pub fillable : List Order
  pub trades : List (Trade F)
  pub unfilled : List Unfilled

-- `charged[id]`
abbrev pub is_charged : Map ℤ Bool → ℤ → Bool
is_charged charged id = elim (lookup id charged) [ some b ↦ b | none ↦ false ]

module _ {F : Type 0} ⦃fl : Float F⦄ where
  open fl use {add, sub, mul, div, lt, le, eq}

  unfoldable pub new_paper : Schedule F → F → Outcome (BrokerError F) (Paper F)
  new_paper s slippage =
      if lt slippage nought
      then err (negative_slippage slippage)
      else ok (record { sched = s; slippage_bps = slippage })

  unfoldable pub fill_price : Paper F → F → Side → F
  fill_price p price side =
      let adj = div (mul price p.slippage_bps) (whole 10_000) in
      if eq p.slippage_bps nought
      then price
      else if is side Side.buy
      then add price adj
      else sub price adj

  -- The open that an order can trade at: a missing one, and one that is not above 0, is none.
  unfoldable pub tradable_open : Map ℤ F → ℤ → Option F
  tradable_open opens id = elim (lookup id opens) [
    | none ↦ none
    | some price ↦ if le price nought then none else some price
  ]

  abbrev pub trade_of : Paper F → Time → Order → F → Trade F
  trade_of p on o price = record {
    date = on;
    scrip = format_int o.entity_id;
    product = o.product;
    side = o.side;
    quantity = o.quantity;
    price = fill_price p price o.side;
  }

  -- One round of the first loop.
  unfoldable pub take_order : Paper F → Time → Map ℤ F → Batch F → Order → Batch F
  take_order p on opens b o = elim (tradable_open opens o.entity_id) [
    | none ↦ record b { unfilled = b.unfilled ++ (record { order = o; date = on } ∷ []) }
    | some price ↦ record b {
      fillable = b.fillable ++ (o ∷ []);
      trades = b.trades ++ (trade_of p on o price ∷ []);
    }
  ]

  unfoldable pub take_orders : Paper F → Time → Map ℤ F → Batch F → List Order → Batch F
  take_orders p on opens b [] = b
  take_orders p on opens b (o ∷ os) = take_orders p on opens (take_order p on opens b o) os

  abbrev pub no_orders : Batch F
  no_orders = record { fillable = []; trades = []; unfilled = [] }

  unfoldable pub dp_per_scrip : DayCharges F → F
  dp_per_scrip day =
      if length day.dp_scrips == 0 then nought else div day.dp_charge (whole (length day.dp_scrips))

  -- Whether the session's charge for the scrip falls on this order.
  abbrev pub incurs : F → Map ℤ Bool → Order → Bool
  incurs dp charged o =
      is o.side Side.sell && (lt nought dp && not (is_charged charged o.entity_id))

  abbrev pub charge : F → Map ℤ Bool → Order → Charges F → Charges F
  charge dp charged o c =
      if incurs dp charged o
      then record c { dp_charge = dp; unverified = c.unverified ++ (Component.dp_charge ∷ []) }
      else c

  -- The second loop; the three lists are of one length when it starts.
  unfoldable pub fill_orders :
      F → Time → Map ℤ Bool → List Order → List (Trade F) → List (Charges F) → List (Fill F)
  fill_orders dp on charged (o ∷ os) (t ∷ ts) (c ∷ cs) =
      let charged' = if incurs dp charged o then insert o.entity_id true charged else charged in
      record { order = o; date = on; price = t.price; charges = charge dp charged o c }
      ∷ fill_orders dp on charged' os ts cs
  fill_orders dp on charged _ _ _ = []

  -- The end of `Execute`, on the priced session.
  unfoldable pub fill_batch : Time → Batch F → DayCharges F → Outcome (BrokerError F) (Execution F)
  fill_batch on b day =
      if not (length day.trades == length b.fillable)
      then err (miscounted (length day.trades) (length b.fillable))
      else ok (record {
        fills =
            sort_by (λ f g. less_text f.scrip g.scrip)
              (fill_orders (dp_per_scrip day) on [] b.fillable b.trades day.trades);
        unfilled = b.unfilled;
      })

  unfoldable pub execute_batch : Paper F → Time → Batch F → Outcome (BrokerError F) (Execution F)
  execute_batch p on b =
      if length b.fillable == 0
      then ok (record { fills = []; unfilled = b.unfilled })
      else (wrap_error (pricing on) (price_day p.sched on b.trades) >>= λ day. fill_batch on b day)

  -- `Paper.Execute`
  unfoldable pub execute :
      Paper F → Time → List Order → Map ℤ F → Outcome (BrokerError F) (Execution F)
  execute p on orders opens = execute_batch p on (take_orders p on opens no_orders orders)
