-- ===== src/Strategy/Tests.antt =====
-- A rebalance at the end of September under the trend filter, and a ranking of tied scores.
use mathlib.Core.List.Perm
use verdict_machine.Base.{ℕ, ◌≡◌, refl, List, [], ◌∷◌, false, arith}
use verdict_machine.Base.Int.{ℤ, IsInt64, pos, ◌*ℤ◌, ◌+ℤ◌, ◌-ℤ◌, sub64, wrap64, wrap64-IsInt64}
use verdict_machine.Base.Text.{Text, bytes, eqb_text, less_text}
use verdict_machine.Base.Map.{Map, insert, lookup, int_key}
use verdict_machine.Base.Sort.{sort_by, insert_sorted, contains}
use verdict_machine.Base.Result.{Outcome, ok, err}
use verdict_machine.Float.Fixed.{Fixed, fixed_float}
use verdict_machine.Time.{date}
use verdict_machine.Cost.Side
use verdict_machine.Risk.Model.{Intent}
use verdict_machine.Engine.Model.{Portfolio}
use verdict_machine.Engine.Portfolio.{held_positions}
use verdict_machine.Engine.Kept.{IsKept}
use verdict_machine.Engine.Seams.{Market, Session}
use verdict_machine.Strategy.Filter.{
  TrendFilter, trend_filter, trend_stance, judge_closes, judge_window, sum_closes,
}
use verdict_machine.Strategy.Rankers.{Error, turnover_ranker, by_score}
use verdict_machine.Strategy.Selector.{
  Selector, new_journal, month_ends, scrips_of, count_refusals, affordable, targets_onto,
  selected_of, sell_change, buy_change, intent_of,
}
use verdict_machine.Strategy.Decide.{
  load_calendar, decide, act, invest, rebalance_to, rebalance_universe, trade_ranked, share_of,
}
use verdict_machine.Strategy.Decisions.{IsOrderly, decide-IsOrderly}
use verdict_machine.Strategy.Sight.{IsSeen, decide-IsSeen}
use verdict_machine.Strategy.Ties.{IsOrdered, by_score-perm}

abbrev rupees : ℕ → Fixed
rupees n = fixed_float.decimal n 0

abbrev Fault : Type 0
Fault = Text

abbrev trend : TrendFilter
trend = record { index_code = bytes "NIFTY50"; days = 2 }

abbrev market : Market Fixed Fault
market = record {
  sessions = ok (date 2026 9 29 ∷ date 2026 9 30 ∷ date 2026 10 1 ∷ []);
  bars = λ _. ok [];
  universe = λ _. ok (
      record { entity_id = pos 8; scrip = bytes "A"; rank = 1 }
      ∷ record { entity_id = pos 9; scrip = bytes "B"; rank = 2 }
      ∷ record { entity_id = pos 10; scrip = bytes "C"; rank = 3 }
      ∷ []);
  returns = λ _ _ _. ok (record { priced = []; refused = []; absent = [] });
  closes = λ _ _ _. ok [];
  index_closes = λ _ _ _. ok (
      record { date = date 2026 9 29; close = rupees 100 }
      ∷ record { date = date 2026 9 30; close = rupees 110 }
      ∷ []);
  volatility = λ _ _ _. ok ([], []);
  adjustments = λ _. ok [];
}

abbrev portfolio : Portfolio Fixed
portfolio = record {
  cash = rupees 500;
  positions =
      (
        pos 7,
        record {
          entity_id = pos 7;
          scrip = bytes "N";
          quantity = pos 98;
          cost_basis = rupees 9800;
          last_mark = rupees 100;
        },
      )
      ∷ [];
}

abbrev session : Session Fixed Fault
session = record {
  date = date 2026 9 30;
  portfolio = portfolio;
  equity = rupees 10_000;
  closes = (pos 7, rupees 95) ∷ (pos 8, rupees 50) ∷ (pos 9, rupees 200) ∷ [];
  market = market;
}

abbrev selector : Selector Fixed Fault
selector = record {
  ranker = turnover_ranker;
  top = 2;
  rebalance_months = 1;
  filter = trend_filter trend;
  cash_buffer = fixed_float.decimal 1 2;
  min_trade_notional = rupees 0;
  rebalance_offset = 0;
  rebalance_once = false;
  rebalanced_once = false;
  label = bytes "equalweight";
  calendar = [];
  rebalance = [];
  journal = new_journal;
}

abbrev state_of :
    Outcome (Error Fault) (Selector Fixed Fault × List (Intent Fixed)) → Selector Fixed Fault
state_of (ok (m, _)) = m
state_of (err _) = selector

-- All of 7 is sold; 4,950 rupees buy 99 of 8 and 24 of 9.
abbrev sale : Intent Fixed
sale = intent_of (pos 7) (bytes "N") Side.sell (pos 98) (rupees 95)

abbrev purchases : List (Intent Fixed)
purchases =
    intent_of (pos 8) (bytes "A") Side.buy (pos 99) (rupees 50)
    ∷ intent_of (pos 9) (bytes "B") Side.buy (pos 24) (rupees 200)
    ∷ []

decided : decide selector session ≡ ok (state_of (decide selector session), sale ∷ purchases)
unfolding decide load_calendar act invest rebalance_to rebalance_universe trade_ranked month_ends
    scrips_of count_refusals affordable targets_onto selected_of sell_change buy_change trend_stance
    judge_closes judge_window sum_closes held_positions insert lookup eqb_text less_text
    insert_sorted sort_by sub64 wrap64 ◌*ℤ◌ ◌+ℤ◌ ◌-ℤ◌
decided = refl

fixed-to_int-IsInt64 : (v : Fixed) → IsInt64 (fixed_float.to_int v)
fixed-to_int-IsInt64 v = wrap64-IsInt64 _

portfolio-IsKept : IsKept portfolio
unfolding contains
portfolio-IsKept = record {
  distinct = (refl, tt);
  holdings = (record { owned = omega arith; sized = omega arith; own_key = refl }, tt);
}

decide-IsOrderly_example :
    IsOrderly portfolio session.closes (share_of selector (rupees 10_000)) 2 (sale ∷ purchases)
decide-IsOrderly_example =
    decide-IsOrderly fixed-to_int-IsInt64 session portfolio-IsKept selector
      (state_of (decide selector session)) (sale ∷ purchases) decided

decide-IsSeen_example : IsSeen trend session (trend_stance trend session).0
decide-IsSeen_example =
    decide-IsSeen trend selector (state_of (decide selector session)) session sale purchases refl
      decided

fixed-IsOrdered : IsOrdered Fixed
fixed-IsOrdered = record {
  eq_sym = λ a b p. ground arith;
  eq_trans = λ a b c p q. ground arith;
  lt_trans = λ a b c p q. ground arith;
  lt-eq_trans = λ a b c p q. ground arith;
  eq-lt_trans = λ a b c p q. ground arith;
  lt_apart = λ a b p. ground arith;
  lt_asym = λ a b p. ground arith;
  nought_eq = ground arith;
  connex = λ a b m n p q. ground arith;
}

abbrev scores : Map ℤ Fixed
scores = (pos 9, rupees 5) ∷ (pos 8, rupees 5) ∷ []

abbrev scores_again : Map ℤ Fixed
scores_again = (pos 8, rupees 5) ∷ (pos 9, rupees 5) ∷ []

same_scores : (id : ℤ) → lookup id scores ≡ lookup id scores_again
unfolding lookup
same_scores id = ground arith

tie_by_entity : by_score scores false ≡ pos 8 ∷ pos 9 ∷ []
unfolding by_score lookup insert_sorted sort_by
tie_by_entity = refl

by_score-perm_example : by_score scores false ≡ by_score scores_again false
by_score-perm_example =
    by_score-perm fixed-IsOrdered scores scores_again false (refl, (refl, tt))
      (Perm.swap (pos 8) (pos 9) []) same_scores
