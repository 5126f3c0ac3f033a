-- ===== src/Cost/Statutory.antt =====
-- internal/cost/schedule.go: `statutory`, the table of rates, and `NewSchedule`.
use verdict_machine.Base.{List, [], ◌∷◌, ◌++◌, Bool, true, false, ◌&&◌, if◌then◌else◌}
use verdict_machine.Float.{Float, nought, whole}
use verdict_machine.Time.{Time, date}
use verdict_machine.Cost.Product
use verdict_machine.Cost.Product.{Product}
use verdict_machine.Cost.Side
use verdict_machine.Cost.Side.{Side}
use verdict_machine.Cost.Component
use verdict_machine.Cost.Component.{Component}
use verdict_machine.Cost.Broker
use verdict_machine.Cost.Broker.{Broker}
use verdict_machine.Cost.Basis
use verdict_machine.Cost.Basis.{Basis}
use verdict_machine.Cost.Model.{unset, Result, ok, err, unknown_broker, is_not}
use verdict_machine.Cost.Schedule.{Rate, Schedule, archive_start, note_date}

module _ {F : Type 0} ⦃fl : Float F⦄ where
  -- The entry of a component for a product, a side and a broker, from a date on.
  abbrev entry : Component → Product → Side → Broker → Time → Basis → F → Bool → Rate F
  entry comp p side b from how v seen = record {
    component = comp;
    product = p;
    side = side;
    broker = b;
    effective_from = from;
    basis = how;
    value = v;
    cap = nought;
    floor = nought;
    verified = seen;
  }

  -- Angel One's brokerage: 0.1%, at most 20 rupees and at least 5.
  abbrev angel_one_brokerage : Time → Bool → Rate F
  angel_one_brokerage from seen =
      let r : Rate F =
        entry Component.brokerage unset unset Broker.angel_one from Basis.capped_percent
          (fl.decimal 1 3) seen in
      record r { cap = whole 20; floor = whole 5 }

  abbrev brokerage_rates : List (Rate F)
  brokerage_rates =
      entry Component.brokerage unset unset Broker.zerodha archive_start Basis.zero nought false
      ∷ angel_one_brokerage note_date true
      ∷ angel_one_brokerage archive_start false
      ∷ []

  abbrev stt_rates : List (Rate F)
  stt_rates =
      entry Component.stt Product.equity_delivery unset unset archive_start Basis.percent
        (fl.decimal 1 3) false
      ∷ entry Component.stt Product.fund_units Side.buy unset note_date Basis.zero nought true
      ∷ entry Component.stt Product.fund_units Side.buy unset archive_start Basis.zero nought false
      ∷ entry Component.stt Product.fund_units Side.sell unset archive_start Basis.percent
          (fl.decimal 1 5) false
      ∷ []

  abbrev exchange_txn_rates : List (Rate F)
  exchange_txn_rates =
      entry Component.exchange_txn unset unset unset note_date Basis.percent (fl.decimal 30699 9)
        true
      ∷ entry Component.exchange_txn unset unset unset archive_start Basis.percent
          (fl.decimal 30699 9) false
      ∷ []

  abbrev sebi_turnover_rates : List (Rate F)
  sebi_turnover_rates =
      entry Component.sebi_turnover unset unset unset note_date Basis.percent (fl.decimal 1 6) true
      ∷ entry Component.sebi_turnover unset unset unset archive_start Basis.percent (fl.decimal 1 6)
          false
      ∷ []

  abbrev ipf_rates : List (Rate F)
  ipf_rates =
      entry Component.ipf unset unset unset note_date Basis.zero nought true
      ∷ entry Component.ipf unset unset unset archive_start Basis.zero nought false
      ∷ []

  abbrev stamp_duty_rates : List (Rate F)
  stamp_duty_rates =
      entry Component.stamp_duty unset Side.buy unset note_date Basis.percent (fl.decimal 15 5) true
      ∷ entry Component.stamp_duty unset Side.buy unset (date 2020 7 1) Basis.percent
          (fl.decimal 15 5) false
      ∷ entry Component.stamp_duty unset Side.buy unset archive_start Basis.percent
          (fl.decimal 15 5) false
      ∷ entry Component.stamp_duty unset Side.sell unset archive_start Basis.zero nought true
      ∷ []

  abbrev gst_rates : List (Rate F)
  gst_rates =
      entry Component.gst unset unset unset note_date Basis.percent (fl.decimal 18 2) true
      ∷ entry Component.gst unset unset unset (date 2017 7 1) Basis.percent (fl.decimal 18 2) false
      ∷ entry Component.gst unset unset unset archive_start Basis.percent (fl.decimal 18 2) false
      ∷ []

  abbrev dp_charge_rates : List (Rate F)
  dp_charge_rates =
      entry Component.dp_charge unset Side.sell Broker.zerodha archive_start Basis.flat
        (fl.decimal 1534 2) false
      ∷ entry Component.dp_charge unset Side.sell Broker.angel_one archive_start Basis.flat
          (fl.decimal 2360 2) false
      ∷ []

  unfoldable pub statutory : List (Rate F)
  statutory =
      brokerage_rates
      ++ (stt_rates
          ++ (exchange_txn_rates
              ++ (sebi_turnover_rates
                  ++ (ipf_rates ++ (stamp_duty_rates ++ (gst_rates ++ (dp_charge_rates)))))))

  unfoldable pub new_schedule : Broker → Result F (Schedule F)
  new_schedule b =
      if is_not b Broker.zerodha && is_not b Broker.angel_one
      then err (unknown_broker b)
      else ok (record { broker = b; rates = statutory })
