-- ===== src/Cost/Trade.antt =====
-- internal/cost/cost.go: `Schedule.Trade`, the charges of one order, without the DP charge.
use verdict_machine.Base.{List, [], ◌∷◌, ◌++◌, ◌&&◌, if◌then◌else◌}
use verdict_machine.Base.Int.{pos, leb_ℤ}
use verdict_machine.Base.Text.{eqb_text, less_text}
use verdict_machine.Base.Sort.{sort_by, dedupe_from}
use verdict_machine.Float.{Float, nought}
use verdict_machine.Cost.Side
use verdict_machine.Cost.Component
use verdict_machine.Cost.Component.{Component}
use verdict_machine.Cost.Model.{
  Result, ok, err, bad_quantity, bad_price, unknown_side, ◌>>=◌, Trade, Charges, round2, gross,
  is_not,
}
use verdict_machine.Cost.Schedule.{Rate, Schedule, rate_for, levy}

unfoldable pub dedupe_components : List Component → List Component
unfolding dedupe_from sort_by
dedupe_components xs = sort_by less_text (dedupe_from eqb_text [] xs)

-- The entries that `Trade` takes, one for each component that it levies.
pub record Rates (F : Type 0) : Type 0 where
  pub brokerage : Rate F
  pub exchange_txn : Rate F
  pub sebi_turnover : Rate F
  pub ipf : Rate F
  pub gst : Rate F
  pub stt : Rate F
  pub stamp_duty : Rate F

module _ {F : Type 0} ⦃fl : Float F⦄ where
  open fl use {add, le}

  -- What `take` appends to `unverified`.
  abbrev pub flag : Component → Rate F → List Component
  flag comp r = if r.verified then [] else comp ∷ []

  unfoldable pub take_rates : Schedule F → Trade F → Result F (Rates F)
  take_rates s t = do
    br ← rate_for s Component.brokerage t.product t.side t.date
    ex ← rate_for s Component.exchange_txn t.product t.side t.date
    se ← rate_for s Component.sebi_turnover t.product t.side t.date
    ip ← rate_for s Component.ipf t.product t.side t.date
    gs ← rate_for s Component.gst t.product t.side t.date
    st ← rate_for s Component.stt t.product t.side t.date
    du ← rate_for s Component.stamp_duty t.product t.side t.date
    ok (record {
      brokerage = br;
      exchange_txn = ex;
      sebi_turnover = se;
      ipf = ip;
      gst = gs;
      stt = st;
      stamp_duty = du;
    })

  abbrev pub flags : Rates F → List Component
  flags r =
      flag Component.brokerage r.brokerage
      ++ (flag Component.exchange_txn r.exchange_txn
          ++ (flag Component.sebi_turnover r.sebi_turnover
              ++ (flag Component.ipf r.ipf
                  ++ (flag Component.gst r.gst
                      ++ (flag Component.stt r.stt ++ flag Component.stamp_duty r.stamp_duty)))))

  -- The lines of the note, each struck on the rounded turnover but GST, which is struck once on the
  -- taxable value.
  unfoldable pub price_lines : Rates F → F → Charges F
  price_lines r turnover =
      let br = levy r.brokerage turnover in
      let ex = levy r.exchange_txn turnover in
      let se = levy r.sebi_turnover turnover in
      let ip = levy r.ipf turnover in
      let taxable = round2 (add (add (add br ex) se) ip) in
      record {
        turnover = turnover;
        brokerage = br;
        stt = levy r.stt turnover;
        exchange_txn = ex;
        sebi_turnover = se;
        ipf = ip;
        taxable_value = taxable;
        gst = levy r.gst taxable;
        stamp_duty = levy r.stamp_duty turnover;
        dp_charge = nought;
        unverified = dedupe_components (flags r);
      }

  -- `Schedule.Trade`
  unfoldable pub price_trade : Schedule F → Trade F → Result F (Charges F)
  price_trade s t =
      if leb_ℤ t.quantity (pos 0)
      then err (bad_quantity t.quantity)
      else if le t.price nought
      then err (bad_price t.price)
      else if is_not t.side Side.buy && is_not t.side Side.sell
      then err (unknown_side t.side)
      else do r ← take_rates s t; ok (price_lines r (round2 (gross t)))
