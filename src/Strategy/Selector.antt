-- ===== src/Strategy/Selector.antt =====
-- internal/strategy/momentum.go: the state of `Selector`, its calendar, and the trades that a
-- rebalance asks for.
use verdict_machine.Base.{
  ℕ, suc, ◌%◌, List, [], ◌∷◌, Option, none, some, Bool, true, false, ◌&&◌, not, if◌then◌else◌, ◌==◌,
  get_elem?,
}
use verdict_machine.Base.Int.{ℤ, pos, ltb_ℤ, leb_ℤ, sub64}
use verdict_machine.Base.Text.{Text}
use verdict_machine.Base.Map.{Map, lookup, insert, int_key, text_key}
use verdict_machine.Float.{Float, nought}
use verdict_machine.Time.{Time, month, year, date_only}
use verdict_machine.Cost.Product
use verdict_machine.Cost.Side
use verdict_machine.Cost.Side.{Side}
use verdict_machine.Risk.Model.{Intent}
use verdict_machine.Engine.Model.{Position, Portfolio}
use verdict_machine.Engine.Portfolio.{position_of}
use verdict_machine.Engine.Seams.{Member}
use verdict_machine.Strategy.Filter.{MarketFilter, Reason}
use verdict_machine.Strategy.Rankers.{Ranker}

-- One rebalance's view.
pub record Ranking : Type 0 where
  pub date : Time
  pub universe : ℕ
  pub priced : ℕ
  pub refused : ℕ
  pub absent : ℕ
  pub selected : List Text

pub record Journal (F E : Type 0) : Type 0 where
  pub rebalances : ℕ
  pub risk_off_sessions : ℕ
  pub drift_skipped : ℕ
  pub unknown_sessions : ℕ
  pub last_unknown_reason : Option (Reason F E)
  pub liquidations : ℕ
  pub returns_refused : ℕ
  pub returns_absent : ℕ
  pub refused_by_scrip : Map Text ℕ
  pub rankings : List Ranking

pub record Selector (F E : Type 0) : Type 0 where
  pub ranker : Ranker F E
  pub top : ℕ
  pub rebalance_months : ℕ
  pub filter : MarketFilter F E
  pub cash_buffer : F
  pub min_trade_notional : F
  pub rebalance_offset : ℕ
  pub rebalance_once : Bool
  pub rebalanced_once : Bool
  pub label : Text
  pub calendar : List Time
  pub rebalance : Map Text Bool
  pub journal : Journal F E

pub data NewError : Type 0 where
  bad_top bad_months : ℕ → NewError
  bad_formation : ℕ → ℕ → NewError

abbrev pub new_journal : {F E : Type 0} → Journal F E
new_journal = record {
  rebalances = 0;
  risk_off_sessions = 0;
  drift_skipped = 0;
  unknown_sessions = 0;
  last_unknown_reason = none;
  liquidations = 0;
  returns_refused = 0;
  returns_absent = 0;
  refused_by_scrip = [];
  rankings = [];
}

-- The loop of `loadCalendar` from a session on; the offset counts sessions from it.
unfoldable pub month_ends : ℕ → ℕ → Map Text Bool → List Time → Map Text Bool
month_ends months offset marked [] = marked
month_ends months offset marked (a ∷ []) = marked
month_ends months offset marked (a ∷ b ∷ rest) =
    let marked' =
      (if (month a == month b) && (year a == year b)
        then marked
        else if not (month a % months == 0)
        then marked
        else elim (get_elem? (a ∷ b ∷ rest) offset) [
          | none ↦ marked
          | some d ↦ insert (date_only d) true marked
        ]) in
    month_ends months offset marked' (b ∷ rest)

abbrev pub is_rebalance : Map Text Bool → Time → Bool
is_rebalance marked on = elim (lookup (date_only on) marked) [ some b ↦ b | none ↦ false ]

-- The tickers of a universe by entity.
unfoldable pub scrips_of : Map ℤ Text → List Member → Map ℤ Text
scrips_of m [] = m
scrips_of m (u ∷ us) = scrips_of (insert u.entity_id u.scrip m) us

abbrev pub scrip_of : Map ℤ Text → ℤ → Text
scrip_of m id = elim (lookup id m) [ some s ↦ s | none ↦ [] ]

abbrev pub count_refused : Map Text ℕ → Text → Map Text ℕ
count_refused m s = insert s (suc (elim (lookup s m) [ some n ↦ n | none ↦ 0 ])) m

unfoldable pub count_refusals : Map ℤ Text → Map Text ℕ → Map ℤ Text → Map Text ℕ
count_refusals scrip m [] = m
count_refusals scrip m ((id, _) ∷ refused) =
    count_refusals scrip (count_refused m (scrip_of scrip id)) refused

-- What becomes of one name: it is left, left inside the band, or traded.
pub data Change (F : Type 0) : Type 0 where
  keep drift : Change F
  trade : Intent F → Change F

module _ {F : Type 0} where
  abbrev pub trades : List (Change F) → List (Intent F)
  trades [] = []
  trades (keep ∷ cs) = trades cs
  trades (drift ∷ cs) = trades cs
  trades (trade i ∷ cs) = i ∷ trades cs

  abbrev pub drifts : List (Change F) → ℕ
  drifts [] = 0
  drifts (keep ∷ cs) = drifts cs
  drifts (drift ∷ cs) = suc (drifts cs)
  drifts (trade i ∷ cs) = drifts cs

  abbrev pub intent_of : ℤ → Text → Side → ℤ → F → Intent F
  intent_of id scrip side qty px = record {
    entity_id = id;
    scrip = scrip;
    side = side;
    product = Product.equity_delivery;
    quantity = qty;
    price = px;
  }

-- `target[id]`, 0 for a missing key.
abbrev pub wanted : Map ℤ ℤ → ℤ → ℤ
wanted target id = elim (lookup id target) [ some q ↦ q | none ↦ pos 0 ]

module _ {F : Type 0} ⦃fl : Float F⦄ where
  open fl use {sub, mul, div, lt, le, of_int, to_int}

  -- `s.Closes[id]`, 0 for a missing key.
  abbrev pub close_of : Map ℤ F → ℤ → F
  close_of closes id = elim (lookup id closes) [ some c ↦ c | none ↦ nought ]

  -- The price that a held name is sold at.
  abbrev pub exit_price : Map ℤ F → Position F → F
  exit_price closes h = elim (lookup h.entity_id closes) [
    | some px ↦ if le px nought then h.last_mark else px
    | none ↦ h.last_mark
  ]

  -- The order that liquidates a holding.
  abbrev pub exit_of : Map ℤ F → Position F → Intent F
  exit_of closes h = intent_of h.entity_id h.scrip Side.sell h.quantity (exit_price closes h)

  -- The quantity of one name that its share of the equity buys, where that is at least one.
  unfoldable pub affordable : Map ℤ F → F → ℤ → Option ℤ
  affordable closes per_name id = elim (lookup id closes) [
    | none ↦ none
    | some px ↦
        let qty = to_int (div per_name px) in
        if le px nought then none else if leb_ℤ qty (pos 0) then none else some qty
  ]

  -- The loop that fills `target`.
  unfoldable pub targets_onto : Map ℤ F → F → Map ℤ ℤ → List ℤ → Map ℤ ℤ
  targets_onto closes per_name target [] = target
  targets_onto closes per_name target (id ∷ ids) =
      let target' : Map ℤ ℤ = elim (affordable closes per_name id) [
        | some qty ↦ insert id qty target
        | none ↦ target
      ] in
      targets_onto closes per_name target' ids

  -- The names that the loop selects.
  unfoldable pub selected_of : Map ℤ F → F → Map ℤ Text → List ℤ → List Text
  selected_of closes per_name scrip [] = []
  selected_of closes per_name scrip (id ∷ ids) =
      let rest = selected_of closes per_name scrip ids in
      elim (affordable closes per_name id) [ some _ ↦ scrip_of scrip id ∷ rest | none ↦ rest ]

  -- The round of the loop over the holdings.
  unfoldable pub sell_change : F → Map ℤ F → Map ℤ ℤ → Position F → Change F
  sell_change band closes target h =
      let want = wanted target h.entity_id in
      let qty = sub64 h.quantity want in
      let px = exit_price closes h in
      if leb_ℤ h.quantity want
      then keep
      else if ltb_ℤ (pos 0) want && lt (mul (of_int qty) px) band
      then drift
      else trade (intent_of h.entity_id h.scrip Side.sell qty px)

  -- The round of the loop over the ranked names.
  unfoldable pub buy_change : F → Map ℤ F → Map ℤ ℤ → Map ℤ Text → Portfolio F → ℤ → Change F
  buy_change band closes target scrip p id = elim (lookup id target) [
    | none ↦ keep
    | some want ↦
        let have = (position_of p id).quantity in
        let qty = sub64 want have in
        let px = close_of closes id in
        if leb_ℤ want have
        then keep
        else if ltb_ℤ (pos 0) have && lt (mul (of_int qty) px) band
        then drift
        else trade (intent_of id (scrip_of scrip id) Side.buy qty px)
  ]
