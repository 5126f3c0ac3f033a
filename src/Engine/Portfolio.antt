-- ===== src/Engine/Portfolio.antt =====
-- internal/engine/portfolio.go: fills, marks, equity and corporate actions on the book.
use verdict_machine.Base.{Option, List, [], ◌∷◌, ◌++◌, map, none, some, Bool, ◌||◌, if◌then◌else◌}
use verdict_machine.Base.Int.{ℤ, pos, ltb_ℤ, leb_ℤ, eqb_ℤ, add64, sub64}
use verdict_machine.Base.Text.{less_text}
use verdict_machine.Base.Sort.{sort_by}
use verdict_machine.Base.Map.{Map, lookup, insert, erase, int_key}
use verdict_machine.Base.Result.{Outcome, ok, err}
use verdict_machine.Float.{Float, nought, whole}
use verdict_machine.Cost.Side
use verdict_machine.Cost.Model.{is, total}
use verdict_machine.Engine.Model.{
  Fill, Position, Portfolio, AdjustmentApplied, Error, bad_quantity, insufficient_cash, short_sale,
  unknown_side, value_of,
}

module _ {F : Type 0} ⦃fl : Float F⦄ where
  open fl use {add, sub, mul, div, lt, le, eq, of_int, to_int, floor}

  unfoldable pub new_portfolio : F → Portfolio F
  new_portfolio c = record { cash = c; positions = [] }

  -- The zero value of `Position`, which a missing key reads as.
  abbrev pub no_position : Position F
  no_position = record {
    entity_id = pos 0;
    scrip = [];
    quantity = pos 0;
    cost_basis = nought;
    last_mark = nought;
  }

  abbrev pub or_zero : Option (Position F) → Position F
  or_zero none = no_position
  or_zero (some h) = h

  -- `p.Positions[id]`
  abbrev pub position_of : Portfolio F → ℤ → Position F
  position_of p id = or_zero (lookup id p.positions)

  abbrev pub charged : Fill F → F
  charged f = total f.charges

  unfoldable pub apply_buy : Portfolio F → Fill F → Outcome (Error F) (Portfolio F)
  apply_buy p f =
      let outflow = add (value_of f) (charged f) in
      let held = position_of p f.entity_id in
      if lt (add p.cash (fl.decimal 1 9)) outflow
      then err (insufficient_cash f.scrip f.quantity f.price outflow (charged f) p.cash)
      else ok (record {
        cash = sub p.cash outflow;
        positions =
            insert f.entity_id
              (record {
                entity_id = f.entity_id;
                scrip = f.scrip;
                quantity = add64 held.quantity f.quantity;
                cost_basis = add held.cost_basis outflow;
                last_mark = f.price;
              })
              p.positions;
      })

  unfoldable pub apply_sell : Portfolio F → Fill F → Outcome (Error F) (Portfolio F)
  apply_sell p f =
      let held = position_of p f.entity_id in
      let basis_out = div (mul held.cost_basis (of_int f.quantity)) (of_int held.quantity) in
      let left = sub64 held.quantity f.quantity in
      if ltb_ℤ held.quantity f.quantity
      then err (short_sale f.quantity f.scrip held.quantity)
      else ok (record {
        cash = add p.cash (sub (value_of f) (charged f));
        positions =
            if eqb_ℤ left (pos 0)
            then erase f.entity_id p.positions
            else insert f.entity_id
                (record held {
                  quantity = left;
                  cost_basis = sub held.cost_basis basis_out;
                  last_mark = f.price;
                })
                p.positions;
      })

  -- `Portfolio.Apply`; an error leaves the portfolio as it was.
  unfoldable pub apply : Portfolio F → Fill F → Outcome (Error F) (Portfolio F)
  apply p f =
      if leb_ℤ f.quantity (pos 0)
      then err (bad_quantity f.scrip f.quantity)
      else if is f.side Side.buy
      then apply_buy p f
      else if is f.side Side.sell
      then apply_sell p f
      else err (unknown_side f.scrip f.side)

  abbrev pub mark_one : Map ℤ F → ℤ × Position F → ℤ × Position F
  mark_one closes (id, held) = elim (lookup id closes) [
    | some c ↦ if lt nought c then (id, record held { last_mark = c }) else (id, held)
    | none ↦ (id, held)
  ]

  -- `Portfolio.Mark`
  unfoldable pub mark : Map ℤ F → Portfolio F → Portfolio F
  mark closes p = record p { positions = map (mark_one closes) p.positions }

  -- What `Equity` adds for one position.
  abbrev pub worth : Map ℤ F → ℤ → Position F → F
  worth closes id held =
      let m : F = elim (lookup id closes) [ some c ↦ c | none ↦ held.last_mark ] in
      if le m nought then held.cost_basis else mul (of_int held.quantity) m

  unfoldable pub sum_worth : Map ℤ F → F → Map ℤ (Position F) → F
  sum_worth closes acc [] = acc
  sum_worth closes acc ((id, held) ∷ m) = sum_worth closes (add acc (worth closes id held)) m

  -- `Portfolio.Equity`
  unfoldable pub equity : Map ℤ F → Portfolio F → F
  equity closes p = sum_worth closes p.cash p.positions

  -- `Portfolio.Held`
  unfoldable pub held_positions : Portfolio F → List (Position F)
  held_positions p =
      sort_by (λ a b. less_text a.scrip b.scrip) (map (λ (e : ℤ × Position F). e.1) p.positions)

  abbrev pub exact_quantity : Position F → F → F
  exact_quantity held ratio = mul (of_int held.quantity) ratio

  abbrev pub new_quantity : Position F → F → ℤ
  new_quantity held ratio = to_int (floor (exact_quantity held ratio))

  -- The cash paid for the fraction of a share.
  abbrev pub fraction_cash : Position F → F → F
  fraction_cash held ratio =
      mul (sub (exact_quantity held ratio) (of_int (new_quantity held ratio)))
        (div held.last_mark ratio)

  -- The effect of one corporate action on a position that is held.
  unfoldable pub adjust_position : Portfolio F → ℤ → F → Position F → Portfolio F
  adjust_position p id ratio held =
      let qty = new_quantity held ratio in
      record {
        cash = add p.cash (fraction_cash held ratio);
        positions =
            if leb_ℤ qty (pos 0)
            then erase id p.positions
            else insert id (record held { quantity = qty; last_mark = div held.last_mark ratio })
                p.positions;
      }

  abbrev pub applied : ℤ → F → Position F → AdjustmentApplied F
  applied id ratio held = record {
    entity_id = id;
    scrip = held.scrip;
    ratio = ratio;
    from_qty = held.quantity;
    to_qty = new_quantity held ratio;
    cash_paid = fraction_cash held ratio;
  }

  abbrev pub is_no_action : F → Bool
  is_no_action ratio = le ratio nought || eq ratio (whole 1)

  -- One round of the loop of `ApplyAdjustments`.
  unfoldable pub adjust : Portfolio F → ℤ → F → Portfolio F × List (AdjustmentApplied F)
  adjust p id ratio = elim (lookup id p.positions) [
    | none ↦ (p, [])
    | some held ↦
        if is_no_action ratio
        then (p, [])
        else (adjust_position p id ratio held, applied id ratio held ∷ [])
  ]

  unfoldable pub adjust_all :
      Portfolio F → List (AdjustmentApplied F) → Map ℤ F → Portfolio F × List (AdjustmentApplied F)
  adjust_all p done [] = (p, done)
  adjust_all p done ((id, ratio) ∷ rs) =
      let (p', more) = adjust p id ratio in adjust_all p' (done ++ more) rs

  -- `Portfolio.ApplyAdjustments`
  unfoldable pub apply_adjustments :
      Portfolio F → Map ℤ F → Portfolio F × List (AdjustmentApplied F)
  apply_adjustments p ratios =
      let (p', done) = adjust_all p [] ratios in
      (p', sort_by (λ a b. less_text a.scrip b.scrip) done)
