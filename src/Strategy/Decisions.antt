-- ===== src/Strategy/Decisions.antt =====
-- internal/strategy/momentum.go: what every decision of `Selector` keeps to.
use verdict_machine.Base.{
  ℕ, ◌≤◌, ◌≡◌, refl, sym, ap, inl, inr, List, [], ◌∷◌, ◌++◌, map, not, ◌&&◌, ◌||◌, All, All-of_map,
  Bool-cases, arith, length, take, length-take, length-map,
}
use mathlib.Core.List.{append-nil}
use verdict_machine.Base.Int.{ℤ, IsInt64}
use verdict_machine.Base.Map.{Map, Every, int_key}
use verdict_machine.Base.Result.{Outcome, ok, >>=-eq-ok, ok-injective, wrap_error}
use verdict_machine.Float.{Float}
use verdict_machine.Time.{Time}
use verdict_machine.Risk.Model.{Intent}
use verdict_machine.Engine.Model.{Position, Portfolio}
use verdict_machine.Engine.Portfolio.{held_positions}
use verdict_machine.Engine.Kept.{IsKept}
use verdict_machine.Engine.Seams.{Member, Session}
use verdict_machine.Strategy.Filter.{Stance, risk_on, risk_off, unknown, Reason}
use verdict_machine.Strategy.Rankers.{Ranked, Error, reading}
use verdict_machine.Strategy.Selector.{
  Selector, buy_change, exit_of, targets_onto, scrips_of, trades, is_rebalance,
}
use verdict_machine.Strategy.Decide.{
  load_calendar, sit_out, liquidate, share_of, sell_changes, buy_changes, trade_ranked,
  rebalance_universe, rebalance_to, invest, act, decide,
}
use verdict_machine.Strategy.Held.{
  IsHeld, IsTarget, held_positions-IsHeld, targets_onto-IsTarget, wanted_bounds,
}
use verdict_machine.Strategy.Trades.{
  trades-All, length-trades, IsReduction, IsPurchase, exit_of-IsReduction, sell_change-IsTrade,
  buy_change-IsTrade,
}

module _ {F : Type 0} ⦃fl : Float F⦄ where
  -- Reductions of the book first, then at most `top` purchases.
  pub record IsOrderly (p : Portfolio F) (closes : Map ℤ F) (per_name : F) (top : ℕ)
      (is : List (Intent F)) : Type 0 where
    pub sells : List (Intent F)
    pub buys : List (Intent F)
    pub in_order : is ≡ sells ++ buys
    pub reductions : All (IsReduction p) sells
    pub purchases : All (IsPurchase p closes per_name) buys
    pub at_most : length buys ≤ top

  nothing-IsOrderly :
      (p : Portfolio F) (closes : Map ℤ F) (per_name : F) (top : ℕ)
      → IsOrderly p closes per_name top []
  nothing-IsOrderly p closes per_name top = record {
    sells = [];
    buys = [];
    in_order = refl;
    reductions = tt;
    purchases = tt;
    at_most = omega arith;
  }

module _ {F E : Type 0} ⦃fl : Float F⦄ (sized : (v : F) → IsInt64 (fl.to_int v)) (s : Session F E)
    (kept : IsKept s.portfolio) where
  -- What a selector that is set up as `m` may decide.
  abbrev IsDecided : Selector F E → List (Intent F) → Type 0
  IsDecided m is = IsOrderly s.portfolio s.closes (share_of m s.equity) m.top is

  trade_ranked-IsDecided :
      (m : Selector F E) (universe : List Member) (ranked : Ranked)
      → IsDecided m (trade_ranked m s universe ranked).1
  unfolding trade_ranked
  trade_ranked-IsDecided m universe ranked = record {
    sells = trades (sell_changes m s target);
    buys = trades (buy_changes m s target universe ids);
    in_order = refl;
    reductions = trades-All (IsReduction s.portfolio) _ (
        All-of_map (IsHeld s.portfolio) _ _ (held_positions s.portfolio)
          (λ h v.
            sell_change-IsTrade s.portfolio m.min_trade_notional s.closes target h v
              (wanted_bounds sized s.closes per_name target h.entity_id targets).0)
          (held_positions-IsHeld s.portfolio kept));
    purchases = trades-All (IsPurchase s.portfolio s.closes per_name) _ (
        All-of_map (λ _. Unit) _ _ ids
          (λ id _.
            buy_change-IsTrade s.portfolio sized m.min_trade_notional s.closes per_name target
              (scrips_of [] universe) id kept targets)
          (every ids));
    at_most = omega (
      arith,
      length-trades (buy_changes m s target universe ids),
      length-map ids
          (buy_change m.min_trade_notional s.closes target (scrips_of [] universe) s.portfolio),
      length-take m.top ranked.order,
    );
  }
    where
      ids : List ℤ
      ids = take m.top ranked.order

      per_name : F
      per_name = share_of m s.equity

      target : Map ℤ ℤ
      target = targets_onto s.closes per_name [] ids

      targets : Every (IsTarget sized s.closes per_name) target
      targets = targets_onto-IsTarget sized s.closes per_name ids [] tt

      every : (xs : List ℤ) → All (λ _. Unit {0}) xs
      every [] = tt
      every (x ∷ xs) = (tt, every xs)

  liquidate-IsDecided :
      (m n : Selector F E) (held : List (Position F))
      → All (IsHeld s.portfolio) held
      → IsDecided n (liquidate m s.closes held).1
  unfolding liquidate
  liquidate-IsDecided m n [] h = nothing-IsOrderly s.portfolio s.closes (share_of n s.equity) n.top
  liquidate-IsDecided m n (h ∷ hs) v = record {
    sells = map (exit_of s.closes) (h ∷ hs);
    buys = [];
    in_order = sym (append-nil (map (exit_of s.closes) (h ∷ hs)));
    reductions =
        All-of_map (IsHeld s.portfolio) _ _ (h ∷ hs) (exit_of-IsReduction s.portfolio s.closes) v;
    purchases = tt;
    at_most = omega arith;
  }

  rebalance_universe-IsDecided :
      (m m' : Selector F E) (universe : List Member) (is : List (Intent F))
      → rebalance_universe m s universe ≡ ok (m', is)
      → IsDecided m is
  unfolding rebalance_universe
  rebalance_universe-IsDecided m m' [] is h =
      rw (← ap (λ a. a.1) (ok-injective (m, []) (m', is) h))
        (nothing-IsOrderly s.portfolio s.closes (share_of m s.equity) m.top)
  rebalance_universe-IsDecided m m' (u ∷ us) is h =
      let (ranked, _, q) = >>=-eq-ok (m.ranker.rank s (u ∷ us)) _ (m', is) h in
      rw (← ap (λ a. a.1) (ok-injective (trade_ranked m s (u ∷ us) ranked) (m', is) q))
        (trade_ranked-IsDecided m (u ∷ us) ranked)

  invest-IsDecided :
      (m m' : Selector F E) (is : List (Intent F)) → invest m s ≡ ok (m', is) → IsDecided m is
  unfolding invest rebalance_to
  invest-IsDecided m m' is h = elim (Bool-cases (not (is_rebalance m.rebalance s.date))) [
    | inl other_day ↦ idle (rw (other_day) at h)
    | inr due ↦ elim (Bool-cases (m.rebalance_once && m.rebalanced_once)) [
      | inl over ↦ idle (rw (due, over) at h)
      | inr open_yet ↦
          let (universe, _, q) =
            >>=-eq-ok (wrap_error reading (s.market.universe s.date)) _ (m', is)
              (rw (due, open_yet) at h) in
          rebalance_universe-IsDecided
            (record m { rebalanced_once = m.rebalance_once || m.rebalanced_once }) m' universe is q
    ]
  ]
    where
      idle :
          ◌≡◌ {A = Outcome (Error E) (Selector F E × List (Intent F))} (ok (m, [])) (ok (m', is))
          → IsDecided m is
      idle q =
          rw (← ap (λ a. a.1) (ok-injective (m, []) (m', is) q))
            (nothing-IsOrderly s.portfolio s.closes (share_of m s.equity) m.top)

  act-IsDecided :
      (m m' : Selector F E) (stance : Stance) (why : Reason F E) (is : List (Intent F))
      → act m s stance why ≡ ok (m', is)
      → IsDecided m is
  unfolding act
  act-IsDecided m m' unknown why is h =
      rw (← ap (λ a. a.1) (ok-injective (sit_out m why, []) (m', is) h))
        (nothing-IsOrderly s.portfolio s.closes (share_of m s.equity) m.top)
  act-IsDecided m m' risk_off why is h =
      rw
        (← ap (λ a. a.1)
          (ok-injective (liquidate m s.closes (held_positions s.portfolio)) (m', is) h))
        (liquidate-IsDecided m m (held_positions s.portfolio)
          (held_positions-IsHeld s.portfolio kept))
  act-IsDecided m m' risk_on why is h = invest-IsDecided m m' is h

  load_calendar-IsDecided :
      (m m' : Selector F E) (is : List (Intent F))
      → load_calendar m s ≡ ok m'
      → IsDecided m' is
      → IsDecided m is
  unfolding load_calendar
  load_calendar-IsDecided m m' is h d = by_calendar m.calendar refl
    where
      by_calendar : (c : List Time) → m.calendar ≡ c → IsDecided m is
      by_calendar (t ∷ ts) e = rw (ok-injective m m' (rw (load_calendar, e) at h)) d
      by_calendar [] e =
          let (sessions, _, q) =
            >>=-eq-ok (wrap_error reading s.market.sessions) _ m' (rw (load_calendar, e) at h) in
          rw (← ok-injective _ m' q) at d

  -- For a book whose holdings are all of at least one share, under distinct entities, and where a
  -- float64 converts to an int64: when `Decide` returns intents, sells come first and are of at least
  -- one share and of no more than the book holds of the entity; the buys after them are at most `Top`,
  -- and each takes the shares held to the number that `Top`'s equal part of the equity, less the cash
  -- buffer, buys at the entity's close.
  pub decide-IsOrderly :
      (m m' : Selector F E) (is : List (Intent F))
      → decide m s ≡ ok (m', is)
      → IsOrderly s.portfolio s.closes (share_of m s.equity) m.top is
  unfolding decide
  decide-IsOrderly m m' is h =
      let (n, loaded, q) = >>=-eq-ok (load_calendar m s) _ (m', is) h in
      let ((stance, why), _, acted) =
        >>=-eq-ok (wrap_error reading (n.filter.stance s)) _ (m', is) q in
      load_calendar-IsDecided m n is loaded (act-IsDecided n m' stance why is acted)
