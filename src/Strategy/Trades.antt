-- ===== src/Strategy/Trades.antt =====
-- internal/strategy/momentum.go: the orders that a decision asks for, sells first, within the holdings
-- and the targets.
use verdict_machine.Base.{
  ◌≤◌, ◌≡◌, refl, inl, inr, List, [], ◌∷◌, some, false, ◌&&◌, All, Bool-cases, Option-cases, arith,
  length,
}
use verdict_machine.Base.Int.{
  ℤ, pos, ◌≤ℤ◌, ◌<ℤ◌, ◌-ℤ◌, leb_ℤ, ltb_ℤ, IsInt64, sub64, sub64_within, int_laws,
}
use verdict_machine.Base.Map.{Map, lookup, int_key, Every, Every-lookup}
use verdict_machine.Base.Text.{Text}
use verdict_machine.Float.{Float}
use verdict_machine.Cost.Side
use verdict_machine.Risk.Model.{Intent}
use verdict_machine.Engine.Model.{Position, Portfolio}
use verdict_machine.Engine.Kept.{IsKept, quantity_of, quantity_of_nonneg}
use verdict_machine.Strategy.Selector.{
  Change, keep, drift, trade, trades, affordable, wanted, exit_price, close_of, exit_of,
  sell_change, buy_change,
}
use verdict_machine.Strategy.Held.{IsHeld, IsTarget}

module _ {F : Type 0} where
  -- What the change asks for, if anything, satisfies `P`.
  abbrev pub IsTrade : (Intent F → Type 0) → Change F → Type 0
  IsTrade P keep = Unit
  IsTrade P drift = Unit
  IsTrade P (trade i) = P i

  pub trades-All :
      (P : Intent F → Type 0) (cs : List (Change F)) → All (IsTrade P) cs → All P (trades cs)
  trades-All P [] h = tt
  trades-All P (keep ∷ cs) (_, h) = trades-All P cs h
  trades-All P (drift ∷ cs) (_, h) = trades-All P cs h
  trades-All P (trade i ∷ cs) (p, h) = (p, trades-All P cs h)

  pub length-trades : (cs : List (Change F)) → length (trades cs) ≤ length cs
  length-trades [] = omega arith
  length-trades (keep ∷ cs) = omega (arith, length-trades cs)
  length-trades (drift ∷ cs) = omega (arith, length-trades cs)
  length-trades (trade i ∷ cs) = omega (arith, length-trades cs)

above : (a b : ℤ) → leb_ℤ a b ≡ false → b <ℤ a
above a b more = ground arith

-- What is left of `a` beyond `b`.
excess :
    (a b : ℤ)
    → IsInt64 a
    → pos 0 ≤ℤ b
    → leb_ℤ a b ≡ false
    → (sub64 a b ≡ a -ℤ b) × (pos 1 ≤ℤ a -ℤ b) × (a -ℤ b ≤ℤ a)
excess a b i z more =
    let l = above a b more in
    (sub64_within a b i z (omega (arith, l)), omega (int_laws, l), omega (int_laws, l))

module _ {F : Type 0} ⦃fl : Float F⦄ (p : Portfolio F) where
  -- A sell of at least one share, and of no more than are held.
  pub record IsReduction (i : Intent F) : Type 0 where
    pub sells : i.side ≡ Side.sell
    pub some_shares : pos 1 ≤ℤ i.quantity
    pub held : i.quantity ≤ℤ quantity_of p i.entity_id

  -- A buy that takes the shares held to what the name's part of the equity buys.
  pub record IsPurchase (closes : Map ℤ F) (per_name : F) (i : Intent F) : Type 0 where
    pub buys : i.side ≡ Side.buy
    pub some_shares : pos 1 ≤ℤ i.quantity
    pub want : ℤ
    pub affords : affordable closes per_name i.entity_id ≡ some want
    pub tops_up : i.quantity ≡ want -ℤ quantity_of p i.entity_id

  pub exit_of-IsReduction :
      (closes : Map ℤ F) (h : Position F) → IsHeld p h → IsReduction (exit_of closes h)
  exit_of-IsReduction closes h v = record {
    sells = refl;
    some_shares = v.owned;
    held = rw (quantity_of, v.own) (omega arith);
  }

  pub sell_change-IsTrade :
      (band : F) (closes : Map ℤ F) (target : Map ℤ ℤ) (h : Position F)
      → IsHeld p h
      → (pos 0 ≤ℤ wanted target h.entity_id)
      → IsTrade IsReduction (sell_change band closes target h)
  unfolding sell_change
  sell_change-IsTrade band closes target h v z = elim (Bool-cases (leb_ℤ h.quantity want)) [
    | inl none_left ↦ rw (none_left) tt
    | inr more ↦
        elim (Bool-cases (
          ltb_ℤ (pos 0) want
          && fl.lt (fl.mul (fl.of_int (sub64 h.quantity want)) (exit_price closes h)) band)) [
            | inl inside ↦ rw (more, inside) tt
            | inr outside ↦
                let (exact, one, less) = excess h.quantity want v.sized z more in
                rw (more, outside)
                  (record {
                    sells = refl;
                    some_shares = rw (exact) one;
                    held = rw (exact, quantity_of, v.own) less;
                  })
          ]
  ]
    where
      want : ℤ
      want = wanted target h.entity_id

  pub buy_change-IsTrade :
      (sized : (v : F) → IsInt64 (fl.to_int v)) (band : F) (closes : Map ℤ F) (per_name : F)
      (target : Map ℤ ℤ) (scrip : Map ℤ Text) (id : ℤ)
      → IsKept p
      → Every (IsTarget sized closes per_name) target
      → IsTrade (IsPurchase closes per_name) (buy_change band closes target scrip p id)
  unfolding buy_change
  buy_change-IsTrade sized band closes per_name target scrip id k h =
      elim (Option-cases (lookup id target)) [
        | inl e ↦ rw (buy_change, e) tt
        | inr (want, e) ↦ elim (Bool-cases (leb_ℤ want (quantity_of p id))) [
          | inl enough ↦ rw (buy_change, e, enough) tt
          | inr more ↦
              elim (Bool-cases (
                ltb_ℤ (pos 0) (quantity_of p id)
                && fl.lt (fl.mul (fl.of_int (sub64 want (quantity_of p id))) (close_of closes id))
                    band)) [
                      | inl inside ↦ rw (buy_change, e, more, inside) tt
                      | inr outside ↦
                          let (found, one, fits) =
                            Every-lookup (IsTarget sized closes per_name) id want target h e in
                          let (exact, some_left, _) =
                            excess want (quantity_of p id) fits (quantity_of_nonneg p id k).0
                              more in
                          rw (buy_change, e, more, outside)
                            (record {
                              buys = refl;
                              some_shares = rw (exact) some_left;
                              want = want;
                              affords = found;
                              tops_up = exact;
                            })
                    ]
        ]
      ]
