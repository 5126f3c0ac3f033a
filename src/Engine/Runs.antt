-- ===== src/Engine/Runs.antt =====
-- A run of three sessions, in which a fund is bought at the second; and one that sells what it does
-- not hold.
use verdict_machine.Base.{ℕ, zero, suc, ◌≡◌, refl, List, [], ◌∷◌, map, All, length, false}
use verdict_machine.Base.Int.{ℤ, pos, ◌*ℤ◌, ◌+ℤ◌, ◌-ℤ◌, add64, sub64, wrap64}
use verdict_machine.Base.Text.{bytes, eqb_text, less_text}
use verdict_machine.Base.Format.{format_int}
use verdict_machine.Base.Map.{Map, insert, lookup, erase}
use verdict_machine.Base.Sort.{sort_by, insert_sorted, dedupe_from, contains}
use verdict_machine.Base.Result.{Outcome, ok, err}
use verdict_machine.Float.Fixed.{Fixed, fixed_float}
use verdict_machine.Time.{Time, date}
use verdict_machine.Cost.Product
use verdict_machine.Cost.Side
use verdict_machine.Cost.Side.{Side}
use verdict_machine.Cost.Broker
use verdict_machine.Cost.Coverage.{schedule_of}
use verdict_machine.Cost.Schedule.{
  rate_for, levy, best_of, consider, applies, is_better, specificity,
}
use verdict_machine.Cost.Statutory.{statutory}
use verdict_machine.Cost.Model.{round2, total}
use verdict_machine.Cost.Trade.{price_trade, take_rates, price_lines, dedupe_components}
use verdict_machine.Cost.Day.{price_day, price_trades, book_trade, levy_sold}
use verdict_machine.Risk.Model.{Limits, Intent}
use verdict_machine.Risk.Gate.{
  check, check_intents, check_intent, accept_sell, accept_buy, buy_refusal, floor_of, sum_positions,
}
use verdict_machine.Engine.Model
use verdict_machine.Engine.Model.{Fill, Order}
use verdict_machine.Engine.Portfolio.{
  apply, apply_buy, apply_sell, mark, equity, sum_worth, new_portfolio,
}
use verdict_machine.Engine.Broker.{
  BrokerError, Execution, execute, execute_batch, fill_batch, fill_orders, take_orders, take_order,
  tradable_open, fill_price, dp_per_scrip,
}
use verdict_machine.Engine.Close.{Bar, relabel, order_of, book_of, drops, drop_of}
use verdict_machine.Engine.Seams.{Market, Strategy, paper_broker}
use verdict_machine.Engine.Steps.{
  Report, Progress, start, opens_of, adjust_session, close_session, take_verdict, count_all,
}
use verdict_machine.Engine.Run.{
  Engine, Error, Result, refused_fill, settle, settle_all, book_execution, fill_pending, submit,
  decide_session, run_session, run_sessions, run_from, run,
}
use verdict_machine.Engine.Pace.{IsPacedFill}
use verdict_machine.Engine.PaperBroker.{paper_broker-IsBroker}
use verdict_machine.Engine.Discipline.{run-IsPaced}

abbrev rupees : ℕ → Fixed
rupees n = fixed_float.decimal n 0

abbrev sessions : List Time
sessions = date 2026 9 7 ∷ date 2026 9 8 ∷ date 2026 9 9 ∷ []

abbrev Fault : Type 0
Fault = BrokerError Fixed

abbrev bar : Bar Fixed
bar = record {
  entity_id = pos 7;
  scrip = bytes "X";
  open_price = rupees 101;
  high = rupees 103;
  low = rupees 99;
  close_price = rupees 100;
}

abbrev market : Market Fixed Fault
market = record {
  sessions = ok sessions;
  bars = λ _. ok ((pos 7, bar) ∷ []);
  universe = λ _. ok [];
  returns = λ _ _ _. ok (record { priced = []; refused = []; absent = [] });
  closes = λ _ _ _. ok [];
  index_closes = λ _ _ _. ok [];
  volatility = λ _ _ _. ok ([], []);
  adjustments = λ _. ok [];
}

-- One order at the first session, and none after it.
abbrev one_order : Side → ℕ → List (Intent Fixed)
one_order side zero =
    record {
      entity_id = pos 7;
      scrip = bytes "X";
      side = side;
      product = Product.fund_units;
      quantity = pos 20;
      price = rupees 100;
    }
    ∷ []
one_order side (suc n) = []

abbrev strategy : Side → Strategy Fixed Fault ℕ
strategy side = record { name = λ _. bytes "once"; decide = λ n s. ok (suc n, one_order side n) }

abbrev limits : Limits Fixed
limits = record {
  max_positions = pos 2;
  max_round_trip_cost = fixed_float.decimal 5 3;
  min_notional = rupees 1000;
  max_stock_fraction = fixed_float.decimal 5 1;
  max_book_notional = rupees 0;
  daily_loss_cap = rupees 0;
  slippage_bps = rupees 0;
}

abbrev engine : Side → Engine Fixed Fault ℕ
engine side = record {
  market = market;
  broker =
      paper_broker (λ e. e)
        (record { sched = schedule_of Broker.zerodha; slippage_bps = rupees 0 });
  gate = record { limits = limits; sched = schedule_of Broker.zerodha };
  strategy = strategy side;
}

abbrev no_report : Report Fixed
no_report = record {
  fills = [];
  unfilled = [];
  rejected = [];
  adjustments = [];
  suspicious_drops = [];
  equity = [];
  total_costs = rupees 0;
  unverified = [];
  min_notional = rupees 0;
  slippage_modelled = false;
}

abbrev result_of : Outcome (Error Fixed Fault) (Result Fixed × ℕ) → Result Fixed
result_of (ok (r, _)) = r
result_of (err _) = record {
  strategy = [];
  from = date 2026 9 7;
  to = date 2026 9 7;
  sessions = 0;
  report = no_report;
  final = new_portfolio (rupees 0);
  final_cash = rupees 0;
}

abbrev result : Result Fixed
result = result_of (run (engine Side.buy) 0 (rupees 10_000))

engine_ran : run (engine Side.buy) 0 (rupees 10_000) ≡ ok (result, 3)
unfolding run run_from run_sessions run_session decide_session submit fill_pending book_execution
    settle_all settle adjust_session close_session take_verdict count_all order_of book_of drops
    drop_of relabel mark equity sum_worth new_portfolio apply apply_buy apply_sell add64 sub64
    wrap64 erase total check check_intents check_intent accept_sell accept_buy buy_refusal floor_of
    sum_positions execute execute_batch fill_batch fill_orders take_orders take_order tradable_open
    fill_price dp_per_scrip price_day price_trades book_trade levy_sold insert lookup price_trade
    take_rates price_lines levy round2 dedupe_components dedupe_from statutory rate_for best_of
    consider applies is_better specificity format_int eqb_text less_text contains insert_sorted
    sort_by ◌*ℤ◌ ◌+ℤ◌ ◌-ℤ◌
engine_ran = refl

-- The buy is filled at the second session, at its open.
bought_next :
    map {B = Time × Time × Fixed} (λ f. (f.decided_on, f.date, f.price)) result.report.fills
    ≡ (date 2026 9 7, date 2026 9 8, rupees 101) ∷ []
unfolding run run_from run_sessions run_session decide_session submit fill_pending book_execution
    settle_all settle adjust_session close_session take_verdict count_all order_of book_of drops
    drop_of relabel mark equity sum_worth new_portfolio apply apply_buy apply_sell add64 sub64
    wrap64 erase total check check_intents check_intent accept_sell accept_buy buy_refusal floor_of
    sum_positions execute execute_batch fill_batch fill_orders take_orders take_order tradable_open
    fill_price dp_per_scrip price_day price_trades book_trade levy_sold insert lookup price_trade
    take_rates price_lines levy round2 dedupe_components dedupe_from statutory rate_for best_of
    consider applies is_better specificity format_int eqb_text less_text contains insert_sorted
    sort_by ◌*ℤ◌ ◌+ℤ◌ ◌-ℤ◌
bought_next = refl

run-IsPaced_example :
    All (IsPacedFill sessions) result.report.fills
    × (map (λ p. p.date) result.report.equity ≡ sessions)
run-IsPaced_example =
    run-IsPaced (engine Side.buy) 0 (rupees 10_000) sessions result 3
      (paper_broker-IsBroker (λ e. e)
        (record { sched = schedule_of Broker.zerodha; slippage_bps = rupees 0 }))
      refl engine_ran

abbrev short_sale : Error Fixed Fault
short_sale = refused_fill (date 2026 9 8) (Model.short_sale (pos 20) (bytes "X") (pos 0))

short_sale_refused : run (engine Side.sell) 0 (rupees 10_000) ≡ err short_sale
unfolding run run_from run_sessions run_session decide_session submit fill_pending book_execution
    settle_all settle adjust_session close_session take_verdict count_all order_of book_of drops
    drop_of relabel mark equity sum_worth new_portfolio apply apply_buy apply_sell add64 sub64
    wrap64 erase total check check_intents check_intent accept_sell accept_buy buy_refusal floor_of
    sum_positions execute execute_batch fill_batch fill_orders take_orders take_order tradable_open
    fill_price dp_per_scrip price_day price_trades book_trade levy_sold insert lookup price_trade
    take_rates price_lines levy round2 dedupe_components dedupe_from statutory rate_for best_of
    consider applies is_better specificity format_int eqb_text less_text contains insert_sorted
    sort_by ◌*ℤ◌ ◌+ℤ◌ ◌-ℤ◌
short_sale_refused = refl

-- The book of a session that begins with a thousand rupees, and the order for twenty units at 101.
abbrev poor : Progress Fixed ℕ
poor =
    start (rupees 1000) 0
      (record { accepted = []; rejected = []; min_notional = rupees 0; slippage_modelled = false })

abbrev dear_order : Order
dear_order = record {
  entity_id = pos 7;
  scrip = bytes "X";
  side = Side.buy;
  product = Product.fund_units;
  quantity = pos 20;
  decided_on = date 2026 9 7;
}

abbrev bars : Map ℤ (Bar Fixed)
bars = (pos 7, bar) ∷ []

abbrev execution_of : Outcome Fault (Execution Fixed) → Execution Fixed
execution_of (ok ex) = ex
execution_of (err _) = record { fills = []; unfilled = [] }

abbrev answer : Outcome Fault (Execution Fixed)
answer = (engine Side.buy).broker.execute (date 2026 9 8) (dear_order ∷ []) (opens_of bars)

abbrev progress_of : Outcome (Error Fixed Fault) (Progress Fixed ℕ) → Progress Fixed ℕ
progress_of (ok w) = w
progress_of (err _) = poor

-- The cash does not cover the fill, and the order is in the report as unfilled.
left_for_cash :
    (length (execution_of answer).fills ≡ 1)
    × ((progress_of (
          fill_pending
            (engine Side.buy).broker
            (date 2026 9 8)
            bars
            poor
            (dear_order ∷ []))).report.unfilled
        ≡ record { order = dear_order; date = date 2026 9 8 } ∷ [])
unfolding fill_pending book_execution settle_all settle count_all apply apply_buy apply_sell add64
    sub64 wrap64 erase total execute execute_batch fill_batch fill_orders take_orders take_order
    tradable_open fill_price dp_per_scrip price_day price_trades book_trade levy_sold insert lookup
    price_trade take_rates price_lines levy round2 dedupe_components dedupe_from statutory rate_for
    best_of consider applies is_better specificity format_int eqb_text less_text contains
    insert_sorted sort_by new_portfolio ◌*ℤ◌ ◌+ℤ◌ ◌-ℤ◌
left_for_cash = (refl, refl)
