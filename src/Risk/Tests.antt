-- ===== src/Risk/Tests.antt =====
-- A batch against a gate with a floor of 1,000 rupees and room for two names.
use mathlib.Core.List.{Perm}
use verdict_machine.Base.{ℕ, ◌≤◌, ◌≡◌, refl, List, [], ◌∷◌, ◌++◌, All, length, arith, false}
use verdict_machine.Base.Int.{pos, ◌*ℤ◌, ◌+ℤ◌, ◌-ℤ◌}
use verdict_machine.Base.Text.{bytes, eqb_text}
use verdict_machine.Base.Format.{format_int}
use verdict_machine.Base.Map.{insert, erase, lookup}
use verdict_machine.Float.Fixed.{Fixed, fixed_float}
use verdict_machine.Cost.Product
use verdict_machine.Cost.Side
use verdict_machine.Cost.Side.{Side}
use verdict_machine.Cost.Broker
use verdict_machine.Cost.Schedule.{note_date}
use verdict_machine.Cost.Coverage.{schedule_of}
use verdict_machine.Risk.Rule
use verdict_machine.Risk.Model.{ok, Limits, Intent, Book, Decision, Gate}
use verdict_machine.Risk.Gate.{
  check, check_intents, check_intent, accept_sell, accept_buy, buy_refusal, opening, floor_of,
  sum_positions,
}
use verdict_machine.Risk.Verdicts.{
  intents_of, IsStopped, IsPermitted, check-perm, sells_pass, accepted-IsPermitted,
}
use verdict_machine.Risk.Floor.{min_notional}
use verdict_machine.Risk.Capacity.{SaleIsNotPositive, check_intents_capacity}

abbrev rupees : ℕ → Fixed
rupees n = fixed_float.decimal n 0

abbrev limits : Limits Fixed
limits = record {
  max_positions = pos 2;
  max_round_trip_cost = fixed_float.decimal 5 3;
  min_notional = rupees 1000;
  max_stock_fraction = fixed_float.decimal 5 1;
  max_book_notional = rupees 0;
  daily_loss_cap = rupees 0;
  slippage_bps = rupees 0;
}

abbrev gate : Gate Fixed
gate = record { limits = limits; sched = schedule_of Broker.zerodha }

abbrev book : Book Fixed
book = record {
  equity = rupees 10_000;
  positions = (bytes "7", rupees 3000) ∷ (bytes "8", rupees 2000) ∷ [];
  day_pnl = rupees 0;
  kill_switch = [];
}

abbrev intent : ℕ → Side → ℕ → Intent Fixed
intent id side qty = record {
  entity_id = pos id;
  scrip = bytes "X";
  side = side;
  product = Product.equity_delivery;
  quantity = pos qty;
  price = rupees 100;
}

-- Sold out of 7, a third name finds room; 9 shares are below the floor.
abbrev batch : List (Intent Fixed)
batch =
    intent 9 Side.buy 20 ∷ intent 7 Side.sell 30 ∷ intent 9 Side.buy 9 ∷ intent 9 Side.buy 20 ∷ []

abbrev decision : Decision Fixed
decision = record {
  accepted = intent 7 Side.sell 30 ∷ intent 9 Side.buy 20 ∷ [];
  rejected =
      record { intent = intent 9 Side.buy 20; rule = Rule.max_positions }
      ∷ record { intent = intent 9 Side.buy 9; rule = Rule.min_notional }
      ∷ [];
  min_notional = rupees 1000;
  slippage_modelled = false;
}

batch_checked : check gate note_date book batch ≡ ok decision
unfolding check check_intents check_intent accept_sell accept_buy buy_refusal floor_of sum_positions
    insert erase lookup format_int eqb_text ◌*ℤ◌ ◌+ℤ◌ ◌-ℤ◌
batch_checked = refl

check-perm_example : Perm (decision.accepted ++ intents_of decision.rejected) batch
check-perm_example = check-perm gate note_date book batch decision batch_checked

sells_pass_example : All (IsStopped book) decision.rejected
sells_pass_example = sells_pass gate note_date book batch decision batch_checked

accepted-IsPermitted_example : All (IsPermitted gate book decision.min_notional) decision.accepted
accepted-IsPermitted_example = accepted-IsPermitted gate note_date book batch decision batch_checked

fixed-SaleIsNotPositive : SaleIsNotPositive Fixed
unfolding ◌*ℤ◌ ◌-ℤ◌
fixed-SaleIsNotPositive q p h k = ground arith

check_intents_capacity_example :
    length (check_intents gate book (rupees 1000) (opening book) batch).positions ≤ 2
unfolding sum_positions ◌*ℤ◌ ◌+ℤ◌
check_intents_capacity_example =
    check_intents_capacity gate book (rupees 1000) (opening book) batch 2 fixed-SaleIsNotPositive
      (refl, (refl, (refl, (refl, tt)))) (omega arith) (omega arith)
