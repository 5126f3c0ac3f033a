-- ===== src/Risk/Gate.antt =====
-- internal/risk/risk.go: `Gate.Check`, which decides a batch of intents in the order given.
use verdict_machine.Base.{
  List, [], ◌∷◌, ◌++◌, Option, none, some, Bool, true, false, ◌&&◌, ◌||◌, not, if◌then◌else◌,
  length,
}
use verdict_machine.Base.Int.{pos, leb_ℤ}
use verdict_machine.Base.Text.{Text}
use verdict_machine.Base.Map.{Map, lookup, insert, erase, text_key}
use verdict_machine.Float.{Float, nought}
use verdict_machine.Time.{Time}
use verdict_machine.Cost.Product
use verdict_machine.Cost.Side
use verdict_machine.Cost.Model.{is, is_not, unset}
use verdict_machine.Risk.Rule
use verdict_machine.Risk.Rule.{Rule}
use verdict_machine.Risk.Floor.{min_notional}
use verdict_machine.Risk.Model.{
  Result, ok, ◌>>=◌, Intent, Book, Rejection, Decision, Gate, notional, key_of,
}

-- The loop's variables: the working book, and what was decided so far.
pub record Working (F : Type 0) : Type 0 where
  pub positions : Map Text F
  pub book_notional : F
  pub accepted : List (Intent F)
  pub rejected : List (Rejection F)

module _ {F : Type 0} ⦃fl : Float F⦄ where
  open fl use {add, sub, div, lt, le}

  -- `pos[k]`, which is 0 for a missing key.
  abbrev pub held_value : Map Text F → Text → F
  held_value m k = elim (lookup k m) [ some v ↦ v | none ↦ nought ]

  abbrev pub is_held : Map Text F → Text → Bool
  is_held m k = elim (lookup k m) [ some _ ↦ true | none ↦ false ]

  abbrev pub is_malformed : Intent F → Bool
  is_malformed i =
      leb_ℤ i.entity_id (pos 0)
      || (leb_ℤ i.quantity (pos 0)
          || (le i.price nought || (is_not i.side Side.buy && is_not i.side Side.sell)))

  abbrev pub is_killed : Book F → Bool
  is_killed b = is_not b.kill_switch unset

  abbrev pub is_loss_breached : Gate F → Book F → Bool
  is_loss_breached g b =
      lt nought g.limits.daily_loss_cap && le b.day_pnl (sub nought g.limits.daily_loss_cap)

  -- `reject`
  abbrev pub reject : Working F → Intent F → Rule → Working F
  reject w i rule = record w { rejected = w.rejected ++ (record { intent = i; rule = rule } ∷ []) }

  -- The branch of a sell: it is accepted, and leaves the working book.
  unfoldable pub accept_sell : Working F → Intent F → Working F
  accept_sell w i =
      let left = sub (held_value w.positions (key_of i)) (notional i) in
      record {
        positions =
            if le left nought
            then erase (key_of i) w.positions
            else insert (key_of i) left w.positions;
        book_notional = sub w.book_notional (notional i);
        accepted = w.accepted ++ (i ∷ []);
        rejected = w.rejected;
      }

  unfoldable pub accept_buy : Working F → Intent F → Working F
  accept_buy w i = record {
    positions =
        insert (key_of i) (add (held_value w.positions (key_of i)) (notional i)) w.positions;
    book_notional = add w.book_notional (notional i);
    accepted = w.accepted ++ (i ∷ []);
    rejected = w.rejected;
  }

  -- The first rule that refuses a buy.
  unfoldable pub buy_refusal : Gate F → Book F → F → Working F → Intent F → Option Rule
  buy_refusal g b floor w i =
      if is_loss_breached g b
      then some Rule.daily_loss
      else if lt (notional i) floor
      then some Rule.min_notional
      else if not (is_held w.positions (key_of i))
          && leb_ℤ g.limits.max_positions (pos (length w.positions))
      then some Rule.max_positions
      else if lt nought b.equity
          && lt g.limits.max_stock_fraction
              (div (add (held_value w.positions (key_of i)) (notional i)) b.equity)
      then some Rule.max_stock
      else if lt nought g.limits.max_book_notional
          && lt g.limits.max_book_notional (add w.book_notional (notional i))
      then some Rule.max_book_notional
      else none

  -- One round of the loop.
  unfoldable pub check_intent : Gate F → Book F → F → Working F → Intent F → Working F
  check_intent g b floor w i =
      if is_malformed i
      then reject w i Rule.malformed
      else if is_killed b
      then reject w i Rule.kill_switch
      else if is i.side Side.sell
      then accept_sell w i
      else elim (buy_refusal g b floor w i) [ some rule ↦ reject w i rule | none ↦ accept_buy w i ]

  unfoldable pub check_intents : Gate F → Book F → F → Working F → List (Intent F) → Working F
  check_intents g b floor w [] = w
  check_intents g b floor w (i ∷ rest) = check_intents g b floor (check_intent g b floor w i) rest

  unfoldable pub sum_positions : F → Map Text F → F
  sum_positions acc [] = acc
  sum_positions acc ((_, v) ∷ m) = sum_positions (add acc v) m

  -- The working book at the start: a copy of the caller's.
  abbrev pub opening : Book F → Working F
  opening b = record {
    positions = b.positions;
    book_notional = sum_positions nought b.positions;
    accepted = [];
    rejected = [];
  }

  -- The floor in force: configured, or solved for.
  unfoldable pub floor_of : Gate F → Time → Result F F
  floor_of g on =
      if le g.limits.min_notional nought
      then min_notional g.sched on Product.equity_delivery g.limits.max_round_trip_cost
          g.limits.slippage_bps
      else ok g.limits.min_notional

  -- `Gate.Check`
  unfoldable pub check : Gate F → Time → Book F → List (Intent F) → Result F (Decision F)
  check g on b intents = do
    floor ← floor_of g on
    let w = check_intents g b floor (opening b) intents
    ok (record {
      accepted = w.accepted;
      rejected = w.rejected;
      min_notional = floor;
      slippage_modelled = lt nought g.limits.slippage_bps;
    })
