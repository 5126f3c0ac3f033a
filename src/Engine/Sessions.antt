-- ===== src/Engine/Sessions.antt =====
-- A session in which one unit of a fund is sold and another name does not trade.
use verdict_machine.Base.{ℕ, ◌≡◌, refl, List, [], ◌∷◌, map}
use verdict_machine.Base.Int.{ℤ, pos, ◌*ℤ◌, ◌+ℤ◌, ◌-ℤ◌}
use verdict_machine.Base.Text.{bytes, eqb_text, less_text}
use verdict_machine.Base.Format.{format_int}
use verdict_machine.Base.Map.{Map, insert, lookup}
use verdict_machine.Base.Sort.{sort_by, insert_sorted, dedupe_from, contains}
use verdict_machine.Base.Result.{Outcome, ok, err}
use verdict_machine.Float.Fixed.{Fixed, fixed_float}
use verdict_machine.Cost.Product
use verdict_machine.Cost.Side
use verdict_machine.Cost.Side.{Side}
use verdict_machine.Cost.Broker
use verdict_machine.Cost.Coverage.{schedule_of}
use verdict_machine.Cost.Schedule.{
  note_date, rate_for, levy, best_of, consider, applies, is_better, specificity,
}
use verdict_machine.Cost.Statutory.{statutory}
use verdict_machine.Cost.Model.{round2}
use verdict_machine.Cost.Trade.{price_trade, take_rates, price_lines, dedupe_components}
use verdict_machine.Cost.Day.{price_day, price_trades, book_trade, levy_sold}
use verdict_machine.Engine.Model.{Order}
use verdict_machine.Engine.Broker.{
  Paper, Execution, BrokerError, execute, execute_batch, fill_batch, fill_orders, take_orders,
  take_order, tradable_open, fill_price, dp_per_scrip,
}
use verdict_machine.Engine.Fills.{IsExecuted, execute-IsExecuted}

abbrev paper : Paper Fixed
paper = record { sched = schedule_of Broker.zerodha; slippage_bps = fixed_float.decimal 10 0 }

abbrev order : ℕ → Side → ℕ → Order
order id side qty = record {
  entity_id = pos id;
  scrip = bytes "X";
  side = side;
  product = Product.fund_units;
  quantity = pos qty;
  decided_on = note_date;
}

abbrev orders : List Order
orders = order 7 Side.sell 38 ∷ order 8 Side.buy 5 ∷ []

abbrev opens : Map ℤ Fixed
opens = (pos 7, fixed_float.decimal 100 0) ∷ []

abbrev result_of : Outcome (BrokerError Fixed) (Execution Fixed) → Execution Fixed
result_of (ok ex) = ex
result_of (err e) = record { fills = []; unfilled = [] }

abbrev execution : Execution Fixed
execution = result_of (execute paper note_date orders opens)

orders_executed : execute paper note_date orders opens ≡ ok execution
unfolding execute execute_batch fill_batch fill_orders take_orders take_order tradable_open
    fill_price dp_per_scrip price_day price_trades book_trade levy_sold insert lookup price_trade
    take_rates price_lines levy round2 dedupe_components dedupe_from statutory rate_for best_of
    consider applies is_better specificity format_int eqb_text less_text contains insert_sorted
    sort_by ◌*ℤ◌ ◌+ℤ◌ ◌-ℤ◌
orders_executed = refl

-- The sale is at the open less 10 basis points, and bears the DP charge of 15.34.
sale_filled :
    (map (λ f. f.price) execution.fills ≡ fixed_float.decimal 999 1 ∷ [])
    × (map (λ f. f.charges.dp_charge) execution.fills ≡ fixed_float.decimal 1534 2 ∷ [])
    × (map (λ u. u.order.entity_id) execution.unfilled ≡ pos 8 ∷ [])
unfolding execute execute_batch fill_batch fill_orders take_orders take_order tradable_open
    fill_price dp_per_scrip price_day price_trades book_trade levy_sold insert lookup price_trade
    take_rates price_lines levy round2 dedupe_components dedupe_from statutory rate_for best_of
    consider applies is_better specificity format_int eqb_text less_text contains insert_sorted
    sort_by ◌*ℤ◌ ◌+ℤ◌ ◌-ℤ◌
sale_filled = (refl, refl, refl)

execute-IsExecuted_example : IsExecuted paper note_date opens orders execution
execute-IsExecuted_example =
    execute-IsExecuted paper note_date opens orders execution orders_executed
