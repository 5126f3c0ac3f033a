-- ===== src/Cost/Day.antt =====
-- internal/cost/cost.go: `Schedule.Day`, a session's trades with the DP charge levied once for each
-- scrip sold.
use verdict_machine.Base.{List, [], ◌∷◌, ◌++◌, Bool, true, if◌then◌else◌, length, ◌==◌, not}
use verdict_machine.Base.Text.{Text, less_text}
use verdict_machine.Base.Sort.{sort_by}
use verdict_machine.Base.Map.{Map, keys, insert, text_key}
use verdict_machine.Float.{Float, nought, whole}
use verdict_machine.Time.{Time}
use verdict_machine.Cost.Side
use verdict_machine.Cost.Component
use verdict_machine.Cost.Component.{Component}
use verdict_machine.Cost.Product.{Product}
use verdict_machine.Cost.Model.{
  Result, ok, err, other_session, ◌>>=◌, Trade, Charges, round2, total, unset, is,
}
use verdict_machine.Cost.Schedule.{Schedule, rate_for}
use verdict_machine.Cost.Trade.{price_trade, dedupe_components, flag}

pub record DayCharges (F : Type 0) : Type 0 where
  pub date : Time
  pub trades : List (Charges F)
  pub dp_charge : F
  pub dp_scrips : List Text
  pub unverified : List Component

-- The variables of the loop of `Day`. `sold` is a Go map to true, a set.
pub record Session (F : Type 0) : Type 0 where
  pub priced : List (Charges F)
  pub unverified : List Component
  pub sold : Map Text Bool
  pub product : Product

-- `sameDay`: the calendar dates of two instants in UTC.
abbrev pub same_day : Time → Time → Bool
same_day a b = a.day == b.day

module _ {F : Type 0} ⦃fl : Float F⦄ where
  open fl use {add, mul}

  abbrev pub no_trades : Session F
  no_trades = record { priced = []; unverified = []; sold = []; product = unset }

  -- The effect of one priced trade on the loop's variables.
  unfoldable pub book_trade : Session F → Trade F → Charges F → Session F
  book_trade st t c = record {
    priced = st.priced ++ (c ∷ []);
    unverified = st.unverified ++ c.unverified;
    sold = if is t.side Side.sell then insert t.scrip true st.sold else st.sold;
    product = if is t.side Side.sell then t.product else st.product;
  }

  unfoldable pub price_trades :
      Schedule F → Time → Session F → List (Trade F) → Result F (Session F)
  price_trades s on st [] = ok st
  price_trades s on st (t ∷ ts) =
      if not (same_day t.date on)
      then err (other_session t.date on)
      else (price_trade s t >>= λ c. price_trades s on (book_trade st t c) ts)

  -- The end of `Day`, by the scrips sold.
  unfoldable pub levy_sold : Schedule F → Time → Session F → Map Text Bool → Result F (DayCharges F)
  levy_sold s on st [] = ok (record {
    date = on;
    trades = st.priced;
    dp_charge = nought;
    dp_scrips = [];
    unverified = dedupe_components st.unverified;
  })
  levy_sold s on st (e ∷ rest) = do
    r ← rate_for s Component.dp_charge st.product Side.sell on
    let scrips = sort_by less_text (keys (e ∷ rest))
    ok (record {
      date = on;
      trades = st.priced;
      dp_charge = round2 (mul (whole (length scrips)) r.value);
      dp_scrips = scrips;
      unverified = dedupe_components (st.unverified ++ flag Component.dp_charge r);
    })

  -- `Schedule.Day`
  unfoldable pub price_day : Schedule F → Time → List (Trade F) → Result F (DayCharges F)
  price_day s on ts = price_trades s on no_trades ts >>= λ st. levy_sold s on st st.sold

  unfoldable pub sum_totals : F → List (Charges F) → F
  sum_totals acc [] = acc
  sum_totals acc (c ∷ cs) = sum_totals (add acc (total c)) cs

  -- `DayCharges.Total`
  unfoldable pub day_total : DayCharges F → F
  day_total d = round2 (add (sum_totals nought d.trades) d.dp_charge)
