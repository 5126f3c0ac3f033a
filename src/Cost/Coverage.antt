-- ===== src/Cost/Coverage.antt =====
-- The table has an entry for every component of a delivery trade from 1995-01-01 on, so `Trade`
-- refuses none of them for want of a rate.
use verdict_machine.Base.{
  ◌≡◌, refl, inl, inr, List, [], ◌∷◌, Bool, true, false, ◌&&◌, arith, IsIn, any, all, all-IsIn,
  any-not-All,
}
use verdict_machine.Base.Int.{ℤ, pos, ◌<ℤ◌, leb_ℤ}
use verdict_machine.Base.Text.{eqb_text}
use verdict_machine.Float.{Float, nought}
use verdict_machine.Time.{Time, before, same_time}
use verdict_machine.Cost.Product
use verdict_machine.Cost.Product.{Product}
use verdict_machine.Cost.Side
use verdict_machine.Cost.Side.{Side}
use verdict_machine.Cost.Component
use verdict_machine.Cost.Component.{Component}
use verdict_machine.Cost.Broker
use verdict_machine.Cost.Broker.{Broker}
use verdict_machine.Cost.Model.{Result, ok, err, Trade, Charges, is, is_not, gross, round2}
use verdict_machine.Cost.Schedule.{Rate, Schedule, applies, admits, rate_for, archive_start}
use verdict_machine.Cost.Statutory.{statutory, new_schedule}
use verdict_machine.Cost.Selection.{IsChosen, rate_for-IsChosen}
use verdict_machine.Cost.Trade.{price_trade, take_rates, price_lines, Rates}

abbrev pub products : List Product
products = Product.equity_delivery ∷ Product.fund_units ∷ []

abbrev pub sides : List Side
sides = Side.buy ∷ Side.sell ∷ []

abbrev pub brokers : List Broker
brokers = Broker.zerodha ∷ Broker.angel_one ∷ []

abbrev pub levied : List Component
levied =
    Component.brokerage ∷ Component.exchange_txn ∷ Component.sebi_turnover ∷ Component.ipf
    ∷ Component.gst ∷ Component.stt ∷ Component.stamp_duty ∷ []

known_side :
    (side : Side) → IsIn side sides → (is_not side Side.buy && is_not side Side.sell) ≡ false
unfolding eqb_text
known_side side (inl e) = rw e
known_side side (inr (inl e)) = rw e
known_side side (inr (inr h)) = absurd h

known_broker :
    (b : Broker) → IsIn b brokers → (is_not b Broker.zerodha && is_not b Broker.angel_one) ≡ false
unfolding eqb_text
known_broker b (inl e) = rw e
known_broker b (inr (inl e)) = rw e
known_broker b (inr (inr h)) = absurd h

module _ {F : Type 0} ⦃fl : Float F⦄ where
  -- An entry that has been in force since the start of the archive.
  abbrev is_original : Broker → Component → Product → Side → Rate F → Bool
  is_original b comp p side r =
      is r.component comp
      && (admits r.product p
          && (admits r.side side
              && (admits r.broker b && same_time r.effective_from archive_start)))

  original_applies :
      (s : Schedule F) (comp : Component) (p : Product) (side : Side) (on : Time)
      → before on archive_start ≡ false
      → (r : Rate F) → is_original s.broker comp p side r ≡ true
      → applies s comp p side on r ≡ true
  unfolding applies
  original_applies s comp p side on h r e = ground arith

module _ (F : Type 0) ⦃fl : Float F⦄ where
  abbrev has_original : Broker → Side → Product → Component → Bool
  has_original b side p comp = any (is_original {F = F} b comp p side) statutory

  originals :
      all (λ b. all (λ s. all (λ p. all (has_original b s p) levied) products) sides) brokers ≡ true
  unfolding statutory eqb_text
  originals = refl

-- The schedule that `NewSchedule` returns for a broker that it knows.
abbrev pub schedule_of : {F : Type 0} ⦃fl : Float F⦄ → Broker → Schedule F
schedule_of b = record { broker = b; rates = statutory }

module _ {F : Type 0} ⦃fl : Float F⦄ where
  abbrev Found : Result F (Rate F) → Type 0
  Found r = (a : Rate F) × (r ≡ ok a)

  -- Each component that is levied has a rate in force.
  rate-Found :
      (b : Broker) (comp : Component) (p : Product) (side : Side) (on : Time)
      → IsIn b brokers
      → IsIn p products
      → IsIn side sides
      → IsIn comp levied
      → before on archive_start ≡ false
      → Found (rate_for (schedule_of {F = F} b) comp p side on)
  rate-Found b comp p side on hb hp hs hc h =
      found (rate_for (schedule_of b) comp p side on)
        (rate_for-IsChosen (schedule_of b) comp p side on)
    where
      original : has_original F b side p comp ≡ true
      original =
          all-IsIn (has_original F b side p) comp levied
            (all-IsIn (λ q. all (has_original F b side q) levied) p products
              (all-IsIn (λ s. all (λ q. all (has_original F b s q) levied) products) side sides
                (all-IsIn
                  (λ c. all (λ s. all (λ q. all (has_original F c s q) levied) products) sides) b
                  brokers (originals F) hb)
                hs)
              hp)
            hc

      found :
          (r : Result F (Rate F))
          → IsChosen (applies (schedule_of b) comp p side on) statutory r
          → Found r
      found (ok a) c = (a, refl)
      found (err e) c = absurd (
          any-not-All (is_original b comp p side) (applies (schedule_of b) comp p side on) statutory
            (original_applies (schedule_of b) comp p side on h) original c)

  -- A trade that `Trade` accepts, of a product, side and session that the table covers.
  pub record IsCovered (t : Trade F) : Type 0 where
    pub sized : pos 0 <ℤ t.quantity
    pub priced : fl.le t.price nought ≡ false
    pub product_in : IsIn t.product products
    pub side_in : IsIn t.side sides
    pub since : before t.date archive_start ≡ false

  taken :
      (b : Broker) (t : Trade F)
      → IsIn b brokers
      → IsCovered t
      → (r : Rates F) × (take_rates (schedule_of b) t ≡ ok r)
  unfolding take_rates
  taken b t hb v =
      let get = λ (c : Component) (m : IsIn c levied).
        rate-Found b c t.product t.side t.date hb v.product_in v.side_in m v.since in
      let br = get Component.brokerage (inl refl) in
      let ex = get Component.exchange_txn (inr (inl refl)) in
      let se = get Component.sebi_turnover (inr (inr (inl refl))) in
      let ip = get Component.ipf (inr (inr (inr (inl refl)))) in
      let gs = get Component.gst (inr (inr (inr (inr (inl refl))))) in
      let st = get Component.stt (inr (inr (inr (inr (inr (inl refl)))))) in
      let du = get Component.stamp_duty (inr (inr (inr (inr (inr (inr (inl refl))))))) in
      (
        record {
          brokerage = br.0;
          exchange_txn = ex.0;
          sebi_turnover = se.0;
          ipf = ip.0;
          gst = gs.0;
          stt = st.0;
          stamp_duty = du.0;
        },
        rw (br.1, ex.1, se.1, ip.1, gs.1, st.1, du.1),
      )

  -- For both brokers that `NewSchedule` knows: `Trade` prices every trade of a positive quantity at a
  -- positive price, in shares or fund units, bought or sold on a date from 1995-01-01 on; no such
  -- trade is refused for want of a rate.
  pub price_trade_covered :
      (b : Broker) (t : Trade F)
      → IsIn b brokers
      → IsCovered t
      → (s : Schedule F) × (c : Charges F) × (new_schedule b ≡ ok s) × (price_trade s t ≡ ok c)
  unfolding price_trade new_schedule
  price_trade_covered b t hb v =
      let (r, e) = taken b t hb v in
      (
        schedule_of b,
        price_lines r (round2 (gross t)),
        rw (known_broker b hb),
        rw (positive t.quantity v.sized, v.priced, known_side t.side v.side_in, e),
      )
    where
      positive : (q : ℤ) → pos 0 <ℤ q → leb_ℤ q (pos 0) ≡ false
      positive q h = ground arith
