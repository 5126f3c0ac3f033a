-- ===== src/Cost/Unverified.antt =====
-- `dedupeComponents`, and what `Trade` reports as resting on a rate that no document reconciles.
use verdict_machine.Base.{
  ◌≡◌, refl, sym, ◌∙◌, List, [], Bool, true, false, ◌&&◌, ◌||◌, not, arith, any,
}
use verdict_machine.Base.Text.{
  eqb_text, eqb_text_iff, less_text, less_text_asym, less_text_weak_trans,
}
use verdict_machine.Base.Sort.{IsSorted, IsOrder, sort_by-IsSorted, contains, IsNodup, dedupe_from}
use verdict_machine.Base.Distinct.{
  contains-append, contains-sort_by, sort_by-IsNodup, contains-dedupe_from, dedupe_from-IsNodup,
}
use verdict_machine.Float.{Float}
use verdict_machine.Cost.Component
use verdict_machine.Cost.Component.{Component}
use verdict_machine.Cost.Model.{
  ok, err, ◌>>=◌, Trade, Charges, round2, gross, >>=-eq-ok, ok-injective,
}
use verdict_machine.Cost.Schedule.{Rate, Schedule, rate_for}
use verdict_machine.Cost.Coverage.{levied}
use verdict_machine.Cost.Trade.{
  price_trade, take_rates, price_lines, dedupe_components, flag, flags, Rates,
}

pub less_text-IsOrder : IsOrder less_text
less_text-IsOrder = record { asym = less_text_asym; weak_trans = less_text_weak_trans }

-- Sorted, without duplicates, and with the same components.
pub dedupe_components_lem :
    (xs : List Component)
    → IsSorted less_text (dedupe_components xs)
      × IsNodup eqb_text (dedupe_components xs)
      × ((c : Component) → contains eqb_text (dedupe_components xs) c ≡ contains eqb_text xs c)
unfolding dedupe_components contains
dedupe_components_lem xs =
    let firsts = dedupe_from eqb_text [] xs in
    (
      sort_by-IsSorted less_text less_text-IsOrder firsts,
      sort_by-IsNodup eqb_text eqb_text_iff less_text firsts
          (dedupe_from-IsNodup eqb_text eqb_text_iff [] xs),
      λ c.
          contains-sort_by eqb_text less_text firsts c
          ∙ contains-dedupe_from eqb_text eqb_text_iff [] xs c
          ∙ and_true (contains eqb_text xs c),
    )
  where
    and_true : (b : Bool) → (b && true) ≡ b
    and_true b = ground arith

or_false : (b : Bool) → (b || false) ≡ b
or_false b = ground arith

module _ {F : Type 0} ⦃fl : Float F⦄ where
  -- The rate that `Trade` finds for a component has no document behind it.
  abbrev pub rests_on_unverified : Schedule F → Trade F → Component → Bool
  rests_on_unverified s t c = elim (rate_for s c t.product t.side t.date) [
    | ok r ↦ not r.verified
    | err _ ↦ false
  ]

  contains-flag :
      (l : Component) (r : Rate F) (c : Component)
      → contains eqb_text (flag l r) c ≡ (eqb_text l c && not r.verified)
  unfolding contains
  contains-flag l r c = ground arith

  -- The seven entries that `Trade` takes.
  pub record IsTaken (s : Schedule F) (t : Trade F) (r : Rates F) : Type 0 where
    pub brokerage : rate_for s Component.brokerage t.product t.side t.date ≡ ok r.brokerage
    pub exchange_txn : rate_for s Component.exchange_txn t.product t.side t.date ≡ ok r.exchange_txn
    pub sebi_turnover :
        rate_for s Component.sebi_turnover t.product t.side t.date ≡ ok r.sebi_turnover
    pub ipf : rate_for s Component.ipf t.product t.side t.date ≡ ok r.ipf
    pub gst : rate_for s Component.gst t.product t.side t.date ≡ ok r.gst
    pub stt : rate_for s Component.stt t.product t.side t.date ≡ ok r.stt
    pub stamp_duty : rate_for s Component.stamp_duty t.product t.side t.date ≡ ok r.stamp_duty

  take_rates-IsTaken :
      (s : Schedule F) (t : Trade F) (r : Rates F) → take_rates s t ≡ ok r → IsTaken s t r
  unfolding take_rates
  take_rates-IsTaken s t r h = ground arith

  -- A priced trade passed the checks, and its lines are those of the entries taken.
  pub price_trade-inv :
      (s : Schedule F) (t : Trade F) (c : Charges F)
      → price_trade s t ≡ ok c
      → (r : Rates F) × (take_rates s t ≡ ok r) × (c ≡ price_lines r (round2 (gross t)))
  unfolding price_trade
  price_trade-inv s t c h =
      let (r, e, p) = >>=-eq-ok (take_rates s t) _ c (accepted h) in
      (r, e, sym (ok-injective _ c p))
    where
      accepted :
          price_trade s t ≡ ok c
          → (take_rates s t >>= λ r. ok (price_lines r (round2 (gross t)))) ≡ ok c
      accepted h = ground arith

  not_verified :
      (s : Schedule F) (t : Trade F) (c : Component) {r : Rate F}
      → rate_for s c t.product t.side t.date ≡ ok r
      → not r.verified ≡ rests_on_unverified s t c
  not_verified s t c e = rw (e, rests_on_unverified)

  price_lines-unverified :
      (r : Rates F) (v : F) → (price_lines r v).unverified ≡ dedupe_components (flags r)
  unfolding price_lines
  price_lines-unverified r v = refl

  -- The components of the entries taken that no document reconciles.
  contains-flags :
      (s : Schedule F) (t : Trade F) (r : Rates F) (c : Component)
      → IsTaken s t r
      → contains eqb_text (flags r) c ≡ any (λ l. eqb_text l c && rests_on_unverified s t l) levied
  contains-flags s t r c k = simp (
    contains-append,
    contains-flag,
    not_verified s t Component.brokerage k.brokerage,
    not_verified s t Component.exchange_txn k.exchange_txn,
    not_verified s t Component.sebi_turnover k.sebi_turnover,
    not_verified s t Component.ipf k.ipf,
    not_verified s t Component.gst k.gst,
    not_verified s t Component.stt k.stt,
    not_verified s t Component.stamp_duty k.stamp_duty,
    or_false,
  )

  -- When `Trade` prices a trade, `Unverified` is sorted, names no component twice, and names exactly
  -- the levied components whose rate in force for the trade is unverified.
  pub unverified_exact :
      (s : Schedule F) (t : Trade F) (c : Charges F)
      → price_trade s t ≡ ok c
      → IsSorted less_text c.unverified
        × IsNodup eqb_text c.unverified
        × ((comp : Component)
            → contains eqb_text c.unverified comp
              ≡ any (λ l. eqb_text l comp && rests_on_unverified s t l) levied)
  unverified_exact s t c h =
      let (r, taken, e) = price_trade-inv s t c h in
      let (sorted, nodup, same) = dedupe_components_lem (flags r) in
      rw (e, price_lines-unverified)
        (
          sorted,
          nodup,
          λ comp. same comp ∙ contains-flags s t r comp (take_rates-IsTaken s t r taken),
        )
