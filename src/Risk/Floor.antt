-- ===== src/Risk/Floor.antt =====
-- internal/risk/risk.go: `RoundTripCost`, and `MinNotional`, the search for the smallest position
-- whose round trip is cheap enough.
use verdict_machine.Base.{ℕ, zero, suc, [], ◌∷◌, if◌then◌else◌}
use verdict_machine.Base.Int.{ℤ}
use verdict_machine.Base.Text.{bytes}
use verdict_machine.Float.{Float, nought, whole}
use verdict_machine.Time.{Time}
use verdict_machine.Cost.Product.{Product}
use verdict_machine.Cost.Side
use verdict_machine.Cost.Side.{Side}
use verdict_machine.Cost.Model.{Trade}
use verdict_machine.Cost.Schedule.{Schedule}
use verdict_machine.Cost.Day.{price_day, day_total}
use verdict_machine.Risk.Model.{
  Result, ok, err, ◌>>=◌, wrap_error, pricing, bad_notional, bad_max_cost, unreachable_floor,
  out_of_fuel,
}

-- One round for each step up to the cap, and one to leave.
abbrev pub scan_fuel : ℕ
scan_fuel = 20_001

module _ {F : Type 0} ⦃fl : Float F⦄ where
  open fl use {add, mul, div, le, of_int, to_int}

  -- `leg`: the session's charges for one order at price 1.
  unfoldable pub leg_cost : Schedule F → Product → ℤ → Time → Side → Result F F
  leg_cost s p qty on side = do
    let t : Trade F = record {
      date = on;
      scrip = bytes "derivation";
      product = p;
      side = side;
      quantity = qty;
      price = whole 1;
    }
    day ← wrap_error pricing (price_day s on (t ∷ []))
    ok (day_total day)

  unfoldable pub round_trip_cost : Schedule F → Time → Product → F → F → Result F F
  unfolding leg_cost
  round_trip_cost s on p n slippage = if le n nought then err (bad_notional n) else do
    buy ← leg_cost s p (to_int n) on Side.buy
    sell ← leg_cost s p (to_int n) on Side.sell
    let slip = mul (div (mul n slippage) (whole 10_000)) (whole 2)
    ok (div (add (add buy sell) slip) n)

  abbrev pub scan_step : F
  scan_step = whole 100

  abbrev pub scan_cap : F
  scan_cap = whole 2_000_000

  -- The loop of `MinNotional` from `n` on, over the ratio of a notional.
  unfoldable pub scan : ℕ → (F → Result F F) → F → F → Time → Result F F
  scan zero ratio max_pct n on = err out_of_fuel
  scan (suc fuel) ratio max_pct n on =
      let rest = scan fuel ratio max_pct (add n scan_step) on in
      if le n scan_cap
      then (ratio n >>= λ r. if le r max_pct then ok n else rest)
      else err (unreachable_floor max_pct on)

  unfoldable pub min_notional : Schedule F → Time → Product → F → F → Result F F
  min_notional s on p max_pct slippage =
      if le max_pct nought
      then err (bad_max_cost max_pct)
      else scan scan_fuel (λ n. round_trip_cost s on p n slippage) max_pct scan_step on
