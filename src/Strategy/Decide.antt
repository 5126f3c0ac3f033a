-- ===== src/Strategy/Decide.antt =====
-- internal/strategy/momentum.go: `Selector.Decide`, what the strategy intends at a session's close.
use verdict_machine.Base.{
  ℕ, suc, ◌+◌, ◌%◌, List, [], ◌∷◌, ◌++◌, map, some, true, false, ◌&&◌, ◌||◌, not, if◌then◌else◌,
  leb, ◌==◌, length, take,
}
use verdict_machine.Base.Int.{ℤ, pos}
use verdict_machine.Base.Text.{Text, bytes}
use verdict_machine.Base.Format.{format_int}
use verdict_machine.Base.Map.{Map}
use verdict_machine.Base.Result.{Outcome, ok, err, ◌>>=◌, wrap_error}
use verdict_machine.Float.{Float, whole}
use verdict_machine.Time.{Time}
use verdict_machine.Risk.Model.{Intent}
use verdict_machine.Engine.Model.{Position}
use verdict_machine.Engine.Portfolio.{held_positions}
use verdict_machine.Engine.Seams.{Member, Session, Strategy}
use verdict_machine.Strategy.Filter.{Stance, risk_on, risk_off, unknown, Reason, MarketFilter}
use verdict_machine.Strategy.Rankers.{
  Ranker, Ranked, Error, reading, return_ranker, volatility_ranker, turnover_ranker,
}
use verdict_machine.Strategy.Selector.{
  Journal, Selector, NewError, bad_top, bad_months, bad_formation, new_journal, month_ends,
  is_rebalance, scrips_of, count_refusals, Change, trades, drifts, exit_of, targets_onto,
  selected_of, sell_change, buy_change,
}

module _ {F E : Type 0} ⦃fl : Float F⦄ where
  -- `New`; the ranker and the filter are never missing.
  unfoldable pub new_selector :
      Text → Ranker F E → ℕ → ℕ → MarketFilter F E → Outcome NewError (Selector F E)
  new_selector label r top months f =
      if leb top 0
      then err (bad_top top)
      else if leb months 0 || not (12 % months == 0)
      then err (bad_months months)
      else ok (record {
        ranker = r;
        top = top;
        rebalance_months = months;
        filter = f;
        cash_buffer = fl.decimal 1 2;
        min_trade_notional = whole 0;
        rebalance_offset = 0;
        rebalance_once = false;
        rebalanced_once = false;
        label = label;
        calendar = [];
        rebalance = [];
        journal = new_journal;
      })

  unfoldable pub new_momentum : ℕ → ℕ → ℕ → MarketFilter F E → Outcome NewError (Selector F E)
  new_momentum top formation skip f =
      let label : Text =
        bytes "momentum-"
        ++ (format_int (pos formation)
            ++ (bytes "-" ++ (format_int (pos skip) ++ (bytes "-top" ++ format_int (pos top))))) in
      if leb formation skip
      then err (bad_formation formation skip)
      else new_selector label
          (return_ranker (record {
            formation_months = formation;
            skip_months = skip;
            ascending = false;
            label = label;
          }))
          top 1 f

  unfoldable pub new_low_volatility : ℕ → ℕ → MarketFilter F E → Outcome NewError (Selector F E)
  new_low_volatility top lookback f =
      let label : Text =
        bytes "lowvol-"
        ++ (format_int (pos lookback)
            ++ (bytes "m-top" ++ (format_int (pos top) ++ bytes "-annual"))) in
      new_selector label (volatility_ranker (record { lookback_months = lookback; label = label }))
        top 12 f

  unfoldable pub new_short_term_reversal : ℕ → MarketFilter F E → Outcome NewError (Selector F E)
  new_short_term_reversal top f =
      let label : Text = bytes "reversal-1m-top" ++ format_int (pos top) in
      new_selector label
        (return_ranker
          (record { formation_months = 1; skip_months = 0; ascending = true; label = label }))
        top 1 f

  unfoldable pub new_equal_weight_universe : ℕ → MarketFilter F E → Outcome NewError (Selector F E)
  new_equal_weight_universe top f =
      new_selector (bytes "equalweight-top" ++ (format_int (pos top) ++ bytes "-annual"))
        turnover_ranker top 12 f

  -- `Selector.Name`
  abbrev pub name_of : Selector F E → Text
  name_of m = m.label ++ (bytes "/" ++ m.filter.name)

  -- `loadCalendar`; a calendar of no sessions counts as none.
  unfoldable pub load_calendar : Selector F E → Session F E → Outcome (Error E) (Selector F E)
  load_calendar m s = elim m.calendar [
    | _ ∷ _ ↦ ok m
    | [] ↦
        (wrap_error reading s.market.sessions >>= λ sessions. ok (record m {
          calendar = sessions;
          rebalance = month_ends m.rebalance_months m.rebalance_offset [] sessions;
        }))
  ]

  unfoldable pub sit_out : Selector F E → Reason F E → Selector F E
  sit_out m why = record m {
    journal = record (m.journal) {
      unknown_sessions = suc m.journal.unknown_sessions;
      last_unknown_reason = some why;
    };
  }

  -- The branch of `RiskOff`, on what is held.
  unfoldable pub liquidate :
      Selector F E → Map ℤ F → List (Position F) → Selector F E × List (Intent F)
  liquidate m closes [] = (
    record m {
      journal = record (m.journal) { risk_off_sessions = suc m.journal.risk_off_sessions };
    },
    [],
  )
  liquidate m closes (h ∷ hs) = (
    record m {
      journal = record (m.journal) {
        risk_off_sessions = suc m.journal.risk_off_sessions;
        liquidations = suc m.journal.liquidations;
      };
    },
    map (exit_of closes) (h ∷ hs),
  )

  abbrev pub share_of : Selector F E → F → F
  share_of m equity = fl.div (fl.mul equity (fl.sub (whole 1) m.cash_buffer)) (whole m.top)

  -- The journal of a rebalance, but for the changes left inside the band.
  abbrev pub journal_ranking : Journal F E → Time → List Member → Ranked → List Text → Journal F E
  journal_ranking j on universe ranked selected = record j {
    rebalances = suc j.rebalances;
    returns_refused = j.returns_refused + length ranked.refused;
    returns_absent = j.returns_absent + length ranked.absent;
    refused_by_scrip = count_refusals (scrips_of [] universe) j.refused_by_scrip ranked.refused;
    rankings =
        j.rankings
        ++ (record {
          date = on;
          universe = length universe;
          priced = length ranked.order;
          refused = length ranked.refused;
          absent = length ranked.absent;
          selected = selected;
        }
            ∷ []);
  }

  abbrev pub sell_changes : Selector F E → Session F E → Map ℤ ℤ → List (Change F)
  sell_changes m s target =
      map (sell_change m.min_trade_notional s.closes target) (held_positions s.portfolio)

  abbrev pub buy_changes :
      Selector F E → Session F E → Map ℤ ℤ → List Member → List ℤ → List (Change F)
  buy_changes m s target universe ids =
      map (buy_change m.min_trade_notional s.closes target (scrips_of [] universe) s.portfolio) ids

  -- `rebalanceTo` on what was ranked.
  unfoldable pub trade_ranked :
      Selector F E → Session F E → List Member → Ranked → Selector F E × List (Intent F)
  trade_ranked m s universe ranked =
      let ids = take m.top ranked.order in
      let per_name = share_of m s.equity in
      let target = targets_onto s.closes per_name [] ids in
      let selected = selected_of s.closes per_name (scrips_of [] universe) ids in
      let sells = sell_changes m s target in
      let buys = buy_changes m s target universe ids in
      let j = journal_ranking m.journal s.date universe ranked selected in
      (
        record m {
          journal = record j { drift_skipped = j.drift_skipped + drifts sells + drifts buys };
        },
        trades sells ++ trades buys,
      )

  unfoldable pub rebalance_universe :
      Selector F E → Session F E → List Member → Outcome (Error E) (Selector F E × List (Intent F))
  rebalance_universe m s [] = ok (m, [])
  rebalance_universe m s (u ∷ us) =
      m.ranker.rank s (u ∷ us) >>= λ ranked. ok (trade_ranked m s (u ∷ us) ranked)

  -- `rebalanceTo`
  unfoldable pub rebalance_to :
      Selector F E → Session F E → Outcome (Error E) (Selector F E × List (Intent F))
  rebalance_to m s =
      wrap_error reading (s.market.universe s.date) >>= λ universe. rebalance_universe m s universe

  -- The branch of `RiskOn`.
  unfoldable pub invest :
      Selector F E → Session F E → Outcome (Error E) (Selector F E × List (Intent F))
  invest m s =
      if not (is_rebalance m.rebalance s.date)
      then ok (m, [])
      else if m.rebalance_once && m.rebalanced_once
      then ok (m, [])
      else rebalance_to (record m { rebalanced_once = m.rebalance_once || m.rebalanced_once }) s

  unfoldable pub act :
      Selector F E
      → Session F E
      → Stance
      → Reason F E
      → Outcome (Error E) (Selector F E × List (Intent F))
  act m s unknown why = ok (sit_out m why, [])
  act m s risk_off why = ok (liquidate m s.closes (held_positions s.portfolio))
  act m s risk_on why = invest m s

  -- `Selector.Decide`
  unfoldable pub decide :
      Selector F E → Session F E → Outcome (Error E) (Selector F E × List (Intent F))
  decide m s = do
    m' ← load_calendar m s
    (stance, why) ← wrap_error reading (m'.filter.stance s)
    act m' s stance why

  -- `Selector` as a `Strategy` of the engine, its errors among those of the run.
  abbrev pub selector_strategy : (Error E → E) → Strategy F E (Selector F E)
  selector_strategy fault = record { name = name_of; decide = λ m s. wrap_error fault (decide m s) }
