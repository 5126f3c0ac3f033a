-- ===== src/Strategy/Filter.antt =====
-- internal/strategy/filter.go: whether the book should be invested at all.
use verdict_machine.Base.{
  ℕ, ◌+◌, ◌-◌, ◌*◌, ◌/◌, List, [], ◌∷◌, ◌++◌, not, if◌then◌else◌, ltb, leb, length, drop,
}
use verdict_machine.Base.Text.{Text, bytes}
use verdict_machine.Base.Int.{pos}
use verdict_machine.Base.Format.{format_int}
use verdict_machine.Base.Result.{Outcome, ok, err}
use verdict_machine.Float.{Float, nought, whole}
use verdict_machine.Time.{Time, same_time, days_before}
use verdict_machine.Engine.Seams.{DatedClose, Session}

pub data Stance : Type 0 where
  risk_on risk_off unknown : Stance

-- The reason of a stance, with the values that its text prints.
pub data Reason (F E : Type 0) : Type 0 where
  no_filter no_window : Reason F E
  unreadable : Text → E → Reason F E
  warming_up : Text → ℕ → ℕ → Reason F E
  no_close : Text → Time → Time → Reason F E
  above_mean below_mean : Text → F → ℕ → F → Reason F E

pub record MarketFilter (F E : Type 0) : Type 0 where
  pub name : Text
  pub stance : Session F E → Outcome E (Stance × Reason F E)

pub record TrendFilter : Type 0 where
  pub index_code : Text
  pub days : ℕ

pub data FilterError : Type 0 where
  no_index_code : FilterError
  too_few_days : ℕ → FilterError

unfoldable pub new_trend_filter : Text → ℕ → Outcome FilterError TrendFilter
new_trend_filter [] days = err no_index_code
new_trend_filter (c ∷ code) days =
    if leb days 1
    then err (too_few_days days)
    else ok (record { index_code = c ∷ code; days = days })

-- `AlwaysOn`
abbrev pub always_on : {F E : Type 0} → MarketFilter F E
always_on = record { name = bytes "always-on"; stance = λ s. ok (risk_on, no_filter) }

-- `TrendFilter.Name`
abbrev pub trend_name : TrendFilter → Text
trend_name f = bytes "trend-" ++ (format_int (pos f.days) ++ (bytes "d-" ++ f.index_code))

-- The first day of the closes that `TrendFilter.Stance` asks for.
abbrev pub reach_back : TrendFilter → Time → Time
reach_back f on = days_before on (f.days * 8 / 5 + 30)

abbrev pub last_close : {F : Type 0} → DatedClose F → List (DatedClose F) → DatedClose F
last_close c [] = c
last_close c (d ∷ ds) = last_close d ds

module _ {F : Type 0} ⦃fl : Float F⦄ where
  open fl use {add, div, lt}

  unfoldable pub sum_closes : F → List (DatedClose F) → F
  sum_closes acc [] = acc
  sum_closes acc (c ∷ cs) = sum_closes (add acc c.close) cs

  abbrev pub mean_close : TrendFilter → List (DatedClose F) → F
  mean_close f window = div (sum_closes nought window) (whole f.days)

module _ {F E : Type 0} ⦃fl : Float F⦄ where
  -- The stance on the last `Days` closes. The source would panic on none of them, which
  -- `NewTrendFilter` rules out.
  unfoldable pub judge_window : TrendFilter → Time → List (DatedClose F) → Stance × Reason F E
  judge_window f on [] = (unknown, no_window)
  judge_window f on (c ∷ cs) =
      let mean = mean_close f (c ∷ cs) in
      let last = last_close c cs in
      if not (same_time last.date on)
      then (unknown, no_close f.index_code on last.date)
      else if fl.lt mean last.close
      then (risk_on, above_mean f.index_code last.close f.days mean)
      else (risk_off, below_mean f.index_code last.close f.days mean)

  unfoldable pub judge_closes : TrendFilter → Time → List (DatedClose F) → Stance × Reason F E
  judge_closes f on closes =
      if ltb (length closes) f.days
      then (unknown, warming_up f.index_code (length closes) f.days)
      else judge_window f on (drop (length closes - f.days) closes)

  -- `TrendFilter.Stance`, which never returns an error.
  unfoldable pub trend_stance : TrendFilter → Session F E → Stance × Reason F E
  trend_stance f s = elim (s.market.index_closes f.index_code (reach_back f s.date) s.date) [
    | err e ↦ (unknown, unreadable f.index_code e)
    | ok closes ↦ judge_closes f s.date closes
  ]

  abbrev pub trend_filter : TrendFilter → MarketFilter F E
  trend_filter f = record { name = trend_name f; stance = λ s. ok (trend_stance f s) }
