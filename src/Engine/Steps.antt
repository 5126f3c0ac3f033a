-- ===== src/Engine/Steps.antt =====
-- internal/engine/engine.go: what the parts of a session of `Engine.Run` do to its variables.
use verdict_machine.Base.{
  ℕ, suc, List, [], ◌∷◌, ◌++◌, map, none, some, Bool, ◌&&◌, if◌then◌else◌, length,
}
use verdict_machine.Base.Int.{ℤ}
use verdict_machine.Base.Text.{less_text}
use verdict_machine.Base.Map.{Map, lookup, insert, text_key}
use verdict_machine.Float.{Float, nought}
use verdict_machine.Time.{Time, before, same_time}
use verdict_machine.Cost.Side
use verdict_machine.Cost.Component.{Component}
use verdict_machine.Cost.Model.{is, is_not, total}
use verdict_machine.Risk.Model.{Book, Rejection, Decision}
use verdict_machine.Engine.Model.{Order, Fill, Unfilled, Portfolio, AdjustmentApplied}
use verdict_machine.Engine.Portfolio.{new_portfolio, mark, equity, apply_adjustments}
use verdict_machine.Engine.Close.{Bar, SuspiciousDrop, relabel, order_of, scale_order, drops}

pub record EquityPoint (F : Type 0) : Type 0 where
  pub date : Time
  pub equity : F
  pub cash : F
  pub held : ℕ

-- What `Run` reports, less the final portfolio.
pub record Report (F : Type 0) : Type 0 where
  pub fills : List (Fill F)
  pub unfilled : List Unfilled
  pub rejected : List (Rejection F)
  pub adjustments : List (AdjustmentApplied F)
  pub suspicious_drops : List (SuspiciousDrop F)
  pub equity : List (EquityPoint F)
  pub total_costs : F
  pub unverified : Map Component ℕ
  pub min_notional : F
  pub slippage_modelled : Bool

-- The variables of the loop; `state` is the strategy's.
pub record Progress (F S : Type 0) : Type 0 where
  pub portfolio : Portfolio F
  pub pending : List Order
  pub state : S
  pub report : Report F

-- One more of a component in `res.Unverified`.
abbrev pub count_up : Map Component ℕ → Component → Map Component ℕ
count_up m c = insert c (suc (elim (lookup c m) [ some n ↦ n | none ↦ 0 ])) m

unfoldable pub count_all : Map Component ℕ → List Component → Map Component ℕ
count_all m [] = m
count_all m (c ∷ cs) = count_all (count_up m c) cs

abbrev pub last_session : Time → List Time → Time
last_session d [] = d
last_session d (e ∷ es) = last_session e es

module _ {F : Type 0} ⦃fl : Float F⦄ where
  abbrev pub sells_first : Fill F → Fill F → Bool
  sells_first f g = is f.side Side.sell && is_not g.side Side.sell

  abbrev pub opens_of : Map ℤ (Bar F) → Map ℤ F
  opens_of bars = map (λ (e : ℤ × Bar F). (e.0, e.1.open_price)) bars

  abbrev pub closes_of : Map ℤ (Bar F) → Map ℤ F
  closes_of bars = map (λ (e : ℤ × Bar F). (e.0, e.1.close_price)) bars

  abbrev pub empty_book : Book F
  empty_book = record { equity = nought; positions = []; day_pnl = nought; kill_switch = [] }

  -- The order of the fills in the result.
  abbrev pub fill_less : Fill F → Fill F → Bool
  fill_less f g =
      if same_time f.date g.date then less_text f.scrip g.scrip else before f.date g.date

module _ {F : Type 0} ⦃fl : Float F⦄ {S : Type 0} where
  open fl use {add}

  -- 0: corporate actions, on the book and on the pending orders.
  unfoldable pub adjust_session : Map ℤ F → Progress F S → Progress F S
  adjust_session [] w = w
  adjust_session (a ∷ adj) w =
      let (p, done) = apply_adjustments w.portfolio (a ∷ adj) in
      record w {
        portfolio = p;
        pending = map (scale_order (a ∷ adj)) w.pending;
        report = record (w.report) { adjustments = w.report.adjustments ++ done };
      }

  abbrev pub settled : Progress F S → Fill F → Portfolio F → Progress F S
  settled w f p = record w {
    portfolio = p;
    report = record (w.report) {
      fills = w.report.fills ++ (f ∷ []);
      total_costs = add w.report.total_costs (total f.charges);
      unverified = count_all w.report.unverified f.charges.unverified;
    };
  }

  abbrev pub unsettled : Time → Progress F S → Fill F → Progress F S
  unsettled on w f = record w {
    report = record (w.report) {
      unfilled = w.report.unfilled ++ (record { order = f.order; date = on } ∷ []);
    };
  }

  -- 3: the book is marked at the close.
  unfoldable pub close_session : Time → Map ℤ F → Map ℤ (Bar F) → Progress F S → Progress F S
  close_session on adj bars w =
      let closes = closes_of bars in
      let p = relabel bars (mark closes w.portfolio) in
      record w {
        portfolio = p;
        report = record (w.report) {
          suspicious_drops = w.report.suspicious_drops ++ drops on adj closes w.portfolio.positions;
          equity =
              w.report.equity
              ++ (record {
                date = on;
                equity = equity closes p;
                cash = p.cash;
                held = length p.positions;
              }
                  ∷ []);
        };
      }

  -- What a verdict of the gate adds.
  unfoldable pub take_verdict : Time → Map ℤ (Bar F) → Progress F S → Decision F → Progress F S
  take_verdict on bars w d = record w {
    pending = w.pending ++ map (order_of bars on) d.accepted;
    report = record (w.report) {
      rejected = w.report.rejected ++ d.rejected;
      min_notional = d.min_notional;
      slippage_modelled = d.slippage_modelled;
    };
  }

  abbrev pub start : F → S → Decision F → Progress F S
  start cash state d = record {
    portfolio = new_portfolio cash;
    pending = [];
    state = state;
    report = record {
      fills = [];
      unfilled = [];
      rejected = [];
      adjustments = [];
      suspicious_drops = [];
      equity = [];
      total_costs = nought;
      unverified = [];
      min_notional = d.min_notional;
      slippage_modelled = d.slippage_modelled;
    };
  }
