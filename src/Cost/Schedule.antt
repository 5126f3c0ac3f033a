-- ===== src/Cost/Schedule.antt =====
-- internal/cost/schedule.go: the dated rates, what one of them levies, and which is in force.
use verdict_machine.Base.{
  ℕ, ◌+◌, List, [], ◌∷◌, Option, none, some, Bool, ◌&&◌, ◌||◌, not, ltb, ◌==◌, if◌then◌else◌,
}
use verdict_machine.Base.Text.{Text, less_text}
use verdict_machine.Base.Sort.{sort_by}
use verdict_machine.Float.{Float, nought}
use verdict_machine.Time.{Time, before, after, date}
use verdict_machine.Cost.Basis
use verdict_machine.Cost.Basis.{Basis}
use verdict_machine.Cost.Product.{Product}
use verdict_machine.Cost.Side.{Side}
use verdict_machine.Cost.Component.{Component}
use verdict_machine.Cost.Broker.{Broker}
use verdict_machine.Cost.Model.{unset, Result, ok, err, no_rate, round2, is, is_not}

-- The entries' `Source` texts document them; no operation but `Describe` reads them.
pub record Rate (F : Type 0) : Type 0 where
  pub component : Component
  pub product : Product
  pub side : Side
  pub broker : Broker
  pub effective_from : Time
  pub basis : Basis
  pub value : F
  pub cap : F
  pub floor : F
  pub verified : Bool

pub record Schedule (F : Type 0) : Type 0 where
  pub broker : Broker
  pub rates : List (Rate F)

abbrev pub archive_start : Time
archive_start = date 1995 1 1

abbrev pub note_date : Time
note_date = date 2026 9 7

module _ {F : Type 0} ⦃fl : Float F⦄ where
  open fl use {mul, lt}

  -- The clamp of `CappedPercent`, before it is rounded.
  abbrev pub clamped : Rate F → F → F
  clamped r v =
      let capped = if lt nought r.cap && lt r.cap v then r.cap else v in
      if lt capped r.floor then r.floor else capped

  -- `rate.on`
  unfoldable pub levy : Rate F → F → F
  unfolding round2
  levy r base =
      if is r.basis Basis.zero
      then nought
      else if is r.basis Basis.flat
      then round2 r.value
      else if is r.basis Basis.percent
      then round2 (mul base r.value)
      else if is r.basis Basis.capped_percent
      then round2 (clamped r (mul base r.value))
      else nought

-- `want` is "" or equal to `have`
abbrev pub admits : Text → Text → Bool
admits want have = is want unset || is want have

module _ {F : Type 0} where
  unfoldable pub specificity : Rate F → ℕ
  specificity r =
      (if is_not r.product unset then 1 else 0)
      + (if is_not r.side unset then 1 else 0)
      + (if is_not r.broker unset then 1 else 0)

  -- No `continue` of the loop of `rateFor` skips the entry.
  unfoldable pub applies : Schedule F → Component → Product → Side → Time → Rate F → Bool
  applies s comp p side on r =
      is r.component comp
      && (admits r.product p
          && (admits r.side side && (admits r.broker s.broker && not (before on r.effective_from))))

  -- The entry that replaces the best one so far.
  unfoldable pub is_better : Rate F → Rate F → Bool
  is_better r best =
      ltb (specificity best) (specificity r)
      || (specificity r == specificity best && after r.effective_from best.effective_from)

  -- One round of the loop; `none` is `found == false`.
  unfoldable pub consider : (Rate F → Bool) → Option (Rate F) → Rate F → Option (Rate F)
  consider fits none r = if fits r then some r else none
  consider fits (some best) r = if fits r && is_better r best then some r else some best

  unfoldable pub best_of : (Rate F → Bool) → Option (Rate F) → List (Rate F) → Option (Rate F)
  best_of fits best [] = best
  best_of fits best (r ∷ rs) = best_of fits (consider fits best r) rs

  unfoldable pub rate_for : Schedule F → Component → Product → Side → Time → Result F (Rate F)
  unfolding best_of consider applies is_better specificity
  rate_for s comp p side on = elim (best_of (applies s comp p side on) none s.rates) [
    | some r ↦ ok r
    | none ↦ err (no_rate comp p side on s.broker)
  ]

  -- The order of `Schedule.Rates`.
  abbrev pub rate_less : Rate F → Rate F → Bool
  rate_less a b =
      if is_not a.component b.component
      then less_text a.component b.component
      else before a.effective_from b.effective_from

  unfoldable pub rates_of : Schedule F → List (Rate F)
  rates_of s = sort_by rate_less s.rates
