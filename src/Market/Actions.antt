-- ===== src/Market/Actions.antt =====
-- internal/market/adjustments.go: the share actions of a window, and the detector of them.
use verdict_machine.Base.{
  ℕ, zero, suc, ◌+◌, Bool, not, ◌&&◌, ◌||◌, Option, none, some, List, [], ◌∷◌, ◌++◌, any, ◌==◌,
  if◌then◌else◌,
}
use verdict_machine.Base.Int.{ℤ}
use verdict_machine.Base.Map.{Map, lookup, insert, int_key}
use verdict_machine.Base.Result.{Outcome, ok, err}
use verdict_machine.Float.{Float, nought, whole}
use verdict_machine.Time.{Time, before, after}

pub data Error (F : Type 0) : Type 0 where
  bad_step : F → Error F

-- `market.Day` of the year, the month and the day that `t` shows.
abbrev pub midnight : Time → Time
midnight t = record t { nanos = 0 }

pub record DatedRatio (F : Type 0) : Type 0 where
  pub date : Time
  pub ratio : F

pub record WindowAdjustment (F : Type 0) : Type 0 where
  pub ratio : F
  pub ex_dates : List Time
  pub actions : List (DatedRatio F)

abbrev pub any_ex_date_in : List Time → Time → Time → Bool
any_ex_date_in ex_dates lo hi = any (λ d. not (before d lo) && not (after d hi)) ex_dates

-- An action in (from, to].
abbrev pub is_within : Time → Time → Time → Bool
is_within from to d = after d from && not (after d to)

-- A row of a query: one entity's latest version of the action on one ex-date.
pub record ActionRow (F : Type 0) : Type 0 where
  pub entity_id : ℤ
  pub ex_date : Time
  pub ratio : F

-- A row of the query for steps in the two sources' ratio.
pub record StepRow (F : Type 0) : Type 0 where
  pub entity_id : ℤ
  pub ex_date : Time
  pub prev_date : Time
  pub ratio : F
  pub prev_bhav : F
  pub bhav : F

-- What is kept of an action; the evidence, which is only stored, is its fraction.
pub record Adjustment (F : Type 0) : Type 0 where
  pub entity_id : ℤ
  pub ex_date : Time
  pub ratio : F
  pub num : ℕ
  pub den : ℕ

pub record DetectionSummary : Type 0 where
  pub steps : ℕ
  pub share_actions : ℕ
  pub unclassified : ℕ
  pub uncorroborated : ℕ

abbrev pub no_steps : DetectionSummary
no_steps = record { steps = 0; share_actions = 0; unclassified = 0; uncorroborated = 0 }

module _ {F : Type 0} ⦃fl : Float F⦄ where
  -- The zero value of the Go struct.
  abbrev pub no_window : WindowAdjustment F
  no_window = record { ratio = nought; ex_dates = []; actions = [] }

  unfoldable pub ratio_from : F → List Time → List (DatedRatio F) → Time → Time → F × List Time
  ratio_from ratio dates [] from to = (ratio, dates)
  ratio_from ratio dates (a ∷ rest) from to =
      let counted = ratio_from (fl.mul ratio a.ratio) (dates ++ (a.date ∷ [])) rest from to in
      let skipped = ratio_from ratio dates rest from to in
      if is_within from to a.date then counted else skipped

  -- `RatioOver`
  abbrev pub ratio_over : WindowAdjustment F → Time → Time → F × List Time
  ratio_over w from to = ratio_from (whole 1) [] w.actions from to

  -- A missing entity reads as the zero value.
  abbrev pub window_of : Map ℤ (WindowAdjustment F) → ℤ → WindowAdjustment F
  window_of out id = elim (lookup id out) [ none ↦ no_window | some w ↦ w ]

  abbrev pub add_action : WindowAdjustment F → Time → F → WindowAdjustment F
  add_action w d ratio = record {
    ratio = fl.mul (if fl.eq w.ratio nought then whole 1 else w.ratio) ratio;
    ex_dates = w.ex_dates ++ (d ∷ []);
    actions = w.actions ++ (record { date = d; ratio = ratio } ∷ []);
  }

  -- `AdjustmentsBetween`, once the rows are there.
  unfoldable pub collect_actions :
      Map ℤ (WindowAdjustment F) → List (ActionRow F) → Map ℤ (WindowAdjustment F)
  collect_actions out [] = out
  collect_actions out (r ∷ rs) =
      let w = add_action (window_of out r.entity_id) (midnight r.ex_date) r.ratio in
      let kept = collect_actions (insert r.entity_id w out) rs in
      let skipped = collect_actions out rs in if fl.le r.ratio nought then skipped else kept

  -- 0.09 and 0.10
  abbrev pub min_share_action_step : F
  min_share_action_step = fl.decimal 9 2

  abbrev pub price_corroboration_tol : F
  price_corroboration_tol = fl.decimal 10 2

  abbrev pub fraction : ℕ → ℕ → F
  fraction num den = fl.div (whole num) (whole den)

  -- The inner test of the search: `num / den` is within `tol` of `r`.
  abbrev pub is_match : F → F → ℕ → ℕ → Bool
  is_match r tol num den =
      not (num == den) && fl.le (fl.abs (fl.sub (fl.div r (fraction num den)) (whole 1))) tol

  -- `left` numerators from `num` on.
  unfoldable pub scan_nums : F → F → ℕ → ℕ → ℕ → Option ℕ
  scan_nums r tol den num zero = none
  scan_nums r tol den num (suc left) =
      let rest = scan_nums r tol den (suc num) left in
      if is_match r tol num den then some num else rest

  -- `left` denominators from `den` on, each with the numerators 1 to 20.
  unfoldable pub scan_dens : F → F → ℕ → ℕ → Option (ℕ × ℕ)
  scan_dens r tol den zero = none
  scan_dens r tol den (suc left) = elim (scan_nums r tol den 1 20) [
    | some num ↦ some (num, den)
    | none ↦ scan_dens r tol (suc den) left
  ]

  abbrev pub is_small : F → Bool
  is_small r = fl.le r nought || fl.lt (fl.abs (fl.sub r (whole 1))) min_share_action_step

  unfoldable pub simple_fraction : F → F → Option (ℕ × ℕ)
  simple_fraction r tol = if is_small r then none else scan_dens r tol 1 10

  abbrev pub is_corroborated : StepRow F → F → Bool
  is_corroborated row exact =
      let price_change = fl.sub (fl.div row.bhav row.prev_bhav) (whole 1) in
      not (
        fl.lt price_corroboration_tol
          (fl.abs (fl.sub (fl.mul (fl.add (whole 1) price_change) exact) (whole 1))))

  abbrev pub adjustment_of : StepRow F → ℕ → ℕ → Adjustment F
  adjustment_of row num den = record {
    entity_id = row.entity_id;
    ex_date = midnight row.ex_date;
    ratio = fraction num den;
    num = num;
    den = den;
  }

  -- One row of `DetectAdjustments`, by the fraction that its ratio matches.
  unfoldable pub classify_as :
      StepRow F
      → DetectionSummary × List (Adjustment F)
      → Option (ℕ × ℕ)
      → DetectionSummary × List (Adjustment F)
  classify_as row (sum, out) none =
      (record sum { steps = sum.steps + 1; unclassified = sum.unclassified + 1 }, out)
  classify_as row (sum, out) (some (num, den)) =
      if is_corroborated row (fraction num den)
      then (
        record sum { steps = sum.steps + 1; share_actions = sum.share_actions + 1 },
        out ++ (adjustment_of row num den ∷ []),
      )
      else (record sum { steps = sum.steps + 1; uncorroborated = sum.uncorroborated + 1 }, out)

  unfoldable pub classify :
      F
      → StepRow F
      → DetectionSummary × List (Adjustment F)
      → DetectionSummary × List (Adjustment F)
  classify tol row seen = classify_as row seen (simple_fraction row.ratio tol)

  unfoldable pub classify_all :
      F
      → List (StepRow F)
      → DetectionSummary × List (Adjustment F)
      → DetectionSummary × List (Adjustment F)
  classify_all tol [] seen = seen
  classify_all tol (row ∷ rows) seen = classify_all tol rows (classify tol row seen)

  -- `DetectAdjustments`, its query being the argument `rows`.
  unfoldable pub detect_adjustments :
      List (StepRow F) → F → F → Outcome (Error F) (DetectionSummary × List (Adjustment F))
  detect_adjustments rows min_step frac_tol =
      if fl.le min_step nought || fl.le (whole 1) min_step
      then err (Error.bad_step min_step)
      else ok (classify_all frac_tol rows (no_steps, []))
