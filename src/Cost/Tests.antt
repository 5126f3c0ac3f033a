-- ===== src/Cost/Tests.antt =====
-- Concrete inputs: the contract note of 2026-09-07 and sessions around it.
use verdict_machine.Base.{ℕ, ◌≡◌, refl, inl, inr, [], ◌∷◌, ◌&&◌, any, arith}
use verdict_machine.Base.Int.{pos, ◌*ℤ◌, ◌+ℤ◌}
use verdict_machine.Base.Text.{bytes, eqb_text, less_text}
use verdict_machine.Base.Sort.{IsSorted, IsNodup, contains, insert_sorted, sort_by}
use verdict_machine.Base.Map.{insert}
use verdict_machine.Float.Fixed.{Fixed, fixed_float}
use verdict_machine.Cost.Product
use verdict_machine.Cost.Side
use verdict_machine.Cost.Side.{Side}
use verdict_machine.Cost.Component
use verdict_machine.Cost.Component.{Component}
use verdict_machine.Cost.Broker
use verdict_machine.Cost.Model.{ok, Trade, Charges, round2}
use verdict_machine.Cost.Schedule.{Schedule, note_date, rate_for, levy, applies}
use verdict_machine.Cost.Statutory.{statutory, new_schedule}
use verdict_machine.Cost.Selection.{IsChosen, rate_for-IsChosen}
use verdict_machine.Cost.Coverage.{schedule_of, IsCovered, price_trade_covered, levied}
use verdict_machine.Cost.Trade.{price_trade, take_rates, price_lines, dedupe_components}
use verdict_machine.Cost.Unverified.{rests_on_unverified, unverified_exact}
use verdict_machine.Cost.Day.{DayCharges, price_day, price_trades, book_trade, levy_sold}
use verdict_machine.Cost.Depository.{IsLevied, price_day-IsLevied}

abbrev nifty_bees : Side → Trade Fixed
nifty_bees side = record {
  date = note_date;
  scrip = bytes "NIFTYBEES";
  product = Product.fund_units;
  side = side;
  quantity = pos 98;
  price = fixed_float.decimal 27229 2;
}

abbrev paise : ℕ → Fixed
paise n = fixed_float.decimal n 2

golden_note :
    price_trade (schedule_of Broker.angel_one) (nifty_bees Side.buy)
    ≡ ok (record {
      turnover = paise 2_668_442;
      brokerage = paise 2000;
      stt = paise 0;
      exchange_txn = paise 82;
      sebi_turnover = paise 3;
      ipf = paise 0;
      taxable_value = paise 2085;
      gst = paise 375;
      stamp_duty = paise 400;
      dp_charge = paise 0;
      unverified = [];
    })
unfolding price_trade take_rates price_lines levy round2 dedupe_components statutory rate_for
    eqb_text ◌*ℤ◌ ◌+ℤ◌
golden_note = refl

-- A sale at the other broker: the rates of its brokerage and STT rest on no document.
abbrev zerodha_sale : Charges Fixed
zerodha_sale = record {
  turnover = paise 2_668_442;
  brokerage = paise 0;
  stt = paise 27;
  exchange_txn = paise 82;
  sebi_turnover = paise 3;
  ipf = paise 0;
  taxable_value = paise 85;
  gst = paise 15;
  stamp_duty = paise 0;
  dp_charge = paise 0;
  unverified = Component.brokerage ∷ Component.stt ∷ [];
}

sale_priced : price_trade (schedule_of Broker.zerodha) (nifty_bees Side.sell) ≡ ok zerodha_sale
unfolding price_trade take_rates price_lines levy round2 dedupe_components statutory rate_for
    eqb_text less_text contains insert_sorted ◌*ℤ◌ ◌+ℤ◌
sale_priced = refl

-- Two sales of one scrip in a session: one DP charge.
abbrev two_clips : DayCharges Fixed
two_clips = record {
  date = note_date;
  trades = zerodha_sale ∷ zerodha_sale ∷ [];
  dp_charge = paise 1534;
  dp_scrips = bytes "NIFTYBEES" ∷ [];
  unverified = Component.brokerage ∷ Component.dp_charge ∷ Component.stt ∷ [];
}

clips_priced :
    price_day
      (schedule_of Broker.zerodha)
      note_date
      (nifty_bees Side.sell ∷ nifty_bees Side.sell ∷ [])
    ≡ ok two_clips
unfolding price_day price_trades book_trade levy_sold insert price_trade take_rates price_lines levy
    round2 dedupe_components statutory rate_for eqb_text less_text contains insert_sorted sort_by
    ◌*ℤ◌ ◌+ℤ◌
clips_priced = refl

rate_for-IsChosen_example :
    IsChosen
      (applies
        (schedule_of {F = Fixed} Broker.angel_one)
        Component.gst
        Product.fund_units
        Side.buy
        note_date)
      statutory
      (rate_for
        (schedule_of {F = Fixed} Broker.angel_one)
        Component.gst
        Product.fund_units
        Side.buy
        note_date)
rate_for-IsChosen_example =
    rate_for-IsChosen (schedule_of Broker.angel_one) Component.gst Product.fund_units Side.buy
      note_date

sale-IsCovered : IsCovered (nifty_bees Side.sell)
unfolding ◌*ℤ◌
sale-IsCovered = record {
  sized = omega arith;
  priced = refl;
  product_in = inr (inl refl);
  side_in = inr (inl refl);
  since = refl;
}

price_trade_covered_example :
    (s : Schedule Fixed) × (c : Charges Fixed) × (new_schedule Broker.zerodha ≡ ok s)
    × (price_trade s (nifty_bees Side.sell) ≡ ok c)
price_trade_covered_example =
    price_trade_covered Broker.zerodha (nifty_bees Side.sell) (inl refl) sale-IsCovered

unverified_exact_example :
    IsSorted less_text zerodha_sale.unverified
    × IsNodup eqb_text zerodha_sale.unverified
    × ((comp : Component)
        → contains eqb_text zerodha_sale.unverified comp
          ≡ any
              (λ l.
                eqb_text l comp
                && rests_on_unverified (schedule_of Broker.zerodha) (nifty_bees Side.sell) l)
              levied)
unverified_exact_example =
    unverified_exact (schedule_of Broker.zerodha) (nifty_bees Side.sell) zerodha_sale sale_priced

price_day-IsLevied_example :
    IsLevied
      (schedule_of Broker.zerodha)
      note_date
      (nifty_bees Side.sell ∷ nifty_bees Side.sell ∷ [])
      two_clips
price_day-IsLevied_example =
    price_day-IsLevied (schedule_of Broker.zerodha) note_date
      (nifty_bees Side.sell ∷ nifty_bees Side.sell ∷ []) two_clips clips_priced
