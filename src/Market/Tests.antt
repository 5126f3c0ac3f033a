-- ===== src/Market/Tests.antt =====
-- A split inside a window that is explained, the same split that is not, and the fractions of both.
use verdict_machine.Base.{◌≡◌, refl, true, map, List, [], ◌∷◌, some, none}
use verdict_machine.Base.Int.{ℤ, eqb_ℤ, pos, ◌*ℤ◌, ◌+ℤ◌, ◌-ℤ◌}
use verdict_machine.Base.Text.{Text, bytes}
use verdict_machine.Base.Map.{lookup, insert, keys, int_key}
use verdict_machine.Base.Sort.{sort_by, insert_sorted, contains, dedupe_from}
use verdict_machine.Base.Result.{Outcome, ok}
use verdict_machine.Float.Fixed.{Fixed, fixed_float}
use verdict_machine.Time.{date}
use verdict_machine.Market.Actions.{
  WindowAdjustment, Adjustment, DetectionSummary, no_steps, StepRow, ratio_over, ratio_from,
  simple_fraction, scan_nums, scan_dens, detect_adjustments, classify_all, collect_actions,
}
use verdict_machine.Market.Detection.{
  IsFound, IsDetected, simple_fraction-IsFound, detect_adjustments-IsDetected,
}
use verdict_machine.Market.Windows.{ratio_over-split}
use verdict_machine.Market.Fence.{first_refusal, unique_sorted}
use verdict_machine.Market.Sources.{
  DatedClose, guard_starts, adjustments_between, collect_endpoints, collect_guards,
}
use verdict_machine.Market.Returns.{
  ReturnSet, Error, Fetched, no_returns, entity_returns, returns_of, fetch, judge_all, judge_ends,
  judge_window, record_verdict,
}
use verdict_machine.Market.Accounts.{IsAccounted, entity_returns-IsAccounted}
use verdict_machine.Market.Fenced.{IsFenced, entity_returns-IsFenced}
use verdict_machine.Market.Samples.{num, split_day, reissue, archive, wanted, pin}
use verdict_machine.Market.Closes
use verdict_machine.Market.Closes.{past_fence, entity_closes}
use verdict_machine.Market.Unbroken.{IsUnbroken, entity_closes-IsUnbroken}
use verdict_machine.Market.Volatility.{
  fenced, no_bars, screen, skip_silent, take_volatilities, volatility_of, volatilities,
  entity_volatility,
}
use verdict_machine.Market.Covered.{IsAnswered, entity_volatility-IsAnswered}

abbrev tolerance : Fixed
tolerance = num 1 2

fractions :
    (simple_fraction (num 2 0) tolerance ≡ some (2, 1))
    × (simple_fraction (num 1503 3) tolerance ≡ some (3, 2))
    × (simple_fraction (num 1056 3) tolerance ≡ none)
unfolding ◌*ℤ◌ ◌+ℤ◌ ◌-ℤ◌ simple_fraction scan_nums scan_dens
fractions = (refl, refl, refl)

simple_fraction-IsFound_example :
    IsFound (num 2 0) tolerance 1 10 (simple_fraction (num 2 0) tolerance)
unfolding ◌*ℤ◌ ◌+ℤ◌ ◌-ℤ◌
simple_fraction-IsFound_example = simple_fraction-IsFound (num 2 0) tolerance refl

abbrev split_step : StepRow Fixed
split_step = record {
  entity_id = pos 7;
  ex_date = split_day;
  prev_date = date 2022 7 27;
  ratio = num 10 0;
  prev_bhav = num 95940 2;
  bhav = num 10035 2;
}

-- A dividend.
abbrev dividend_step : StepRow Fixed
dividend_step = record split_step { ex_date = date 2022 6 15; ratio = num 1056 3 }

abbrev steps : List (StepRow Fixed)
steps = split_step ∷ dividend_step ∷ []

abbrev detected : DetectionSummary × List (Adjustment Fixed)
detected = classify_all tolerance steps (no_steps, [])

detect_adjustments-IsDetected_example : IsDetected 2 detected
unfolding ◌*ℤ◌ ◌+ℤ◌ ◌-ℤ◌ detect_adjustments
detect_adjustments-IsDetected_example =
    detect_adjustments-IsDetected steps (num 1 2) tolerance detected refl

abbrev window : WindowAdjustment Fixed
window = record {
  ratio = num 20 0;
  ex_dates = date 2021 3 1 ∷ split_day ∷ [];
  actions =
      record { date = date 2021 3 1; ratio = num 2 0 }
      ∷ record { date = split_day; ratio = num 10 0 }
      ∷ [];
}

ratio_over-split_example :
    ratio_over window (date 2021 1 1) (date 2022 12 31)
    ≡ ratio_from
        (ratio_over window (date 2021 1 1) (date 2021 12 31)).0
        (ratio_over window (date 2021 1 1) (date 2021 12 31)).1
        window.actions
        (date 2021 12 31)
        (date 2022 12 31)
ratio_over-split_example =
    ratio_over-split window (date 2021 1 1) (date 2021 12 31) (date 2022 12 31) refl refl
      ((refl, tt), (tt, tt))

abbrev july : List ℤ → Outcome (Error Text) (ReturnSet Fixed)
july ids = entity_returns archive (bytes "nse-bhavcopy") ids (date 2022 6 30) (date 2022 8 31) pin

entity_returns-IsAccounted_example : IsAccounted wanted (july wanted)
entity_returns-IsAccounted_example =
    entity_returns-IsAccounted archive (bytes "nse-bhavcopy") wanted (date 2022 6 30)
      (date 2022 8 31) pin

abbrev fetched : Fetched Fixed
fetched = record {
  from_end =
      (pos 7, record { date = date 2022 6 30; close = num 95940 2 })
      ∷ (pos 9, record { date = date 2022 6 30; close = num 95940 2 })
      ∷ [];
  to_end =
      (pos 7, record { date = date 2022 8 31; close = num 10700 2 })
      ∷ (pos 9, record { date = date 2022 8 31; close = num 10700 2 })
      ∷ [];
  boundaries = (pos 7, reissue ∷ []) ∷ (pos 9, reissue ∷ []) ∷ [];
  guards = (date 2022 7 29, date 2022 7 22) ∷ [];
  adjs =
      (
        pos 7,
        record {
          ratio = num 10 0;
          ex_dates = split_day ∷ [];
          actions = record { date = split_day; ratio = num 10 0 } ∷ [];
        },
      )
      ∷ [];
}

abbrev returned : ReturnSet Fixed
returned = judge_all fetched no_returns (pos 7 ∷ pos 8 ∷ pos 9 ∷ [])

fetch_ran :
    fetch archive
      (bytes "nse-bhavcopy")
      (unique_sorted wanted)
      (date 2022 6 30)
      (date 2022 8 31)
      pin
    ≡ ok fetched
unfolding fetch collect_endpoints collect_guards collect_actions sort_by insert_sorted contains
    dedupe_from insert lookup ◌*ℤ◌ ◌+ℤ◌ ◌-ℤ◌
fetch_ran = refl

entity_returns_ran : july wanted ≡ ok returned
unfolding entity_returns returns_of fetch collect_endpoints collect_guards collect_actions sort_by
    insert_sorted contains dedupe_from insert lookup ◌*ℤ◌ ◌+ℤ◌ ◌-ℤ◌ judge_all judge_ends
    judge_window record_verdict first_refusal ratio_from
entity_returns_ran = refl

-- One of each: 7 is priced over its split, 9 refused, 8 absent.
three_ways :
    (map (λ e. e.1.share_ratio) returned.priced ≡ num 10 0 ∷ [])
    × (keys returned.priced ≡ pos 7 ∷ [])
    × (keys returned.refused ≡ pos 9 ∷ [])
    × (keys returned.absent ≡ pos 8 ∷ [])
unfolding contains insert lookup ◌*ℤ◌ ◌+ℤ◌ ◌-ℤ◌ judge_all judge_ends judge_window record_verdict
    first_refusal ratio_from
three_ways = (refl, refl, refl, refl)

entity_returns-IsFenced_example : IsFenced fetched returned
entity_returns-IsFenced_example =
    entity_returns-IsFenced archive (bytes "nse-bhavcopy") wanted (date 2022 6 30) (date 2022 8 31)
      pin fetched returned fetch_ran entity_returns_ran

abbrev year_closes : Outcome (Closes.Error Text) (List (DatedClose Fixed))
year_closes =
    entity_closes archive (bytes "nse-bhavcopy") (pos 7) (date 2022 7 1) (date 2022 8 31) pin

-- The split is scaled away: 100.35 becomes 1003.50.
abbrev one_basis : List (DatedClose Fixed)
one_basis =
    record { date = date 2022 7 27; close = num 95940 2 }
    ∷ record { date = split_day; close = num 100350 2 }
    ∷ []

entity_closes_ran : year_closes ≡ ok one_basis
unfolding entity_closes past_fence collect_guards collect_actions contains dedupe_from insert lookup
    ◌*ℤ◌ ◌+ℤ◌ ◌-ℤ◌ first_refusal ratio_from
entity_closes_ran = refl

guard_starts_ran :
    guard_starts archive (bytes "nse-bhavcopy") fetched.boundaries pin ≡ ok fetched.guards
unfolding collect_guards contains dedupe_from insert
guard_starts_ran = refl

adjustments_between_ran :
    adjustments_between archive (pos 7 ∷ []) (date 2022 7 1) (date 2022 8 31) pin ≡ ok fetched.adjs
unfolding collect_actions insert lookup ◌*ℤ◌ ◌+ℤ◌ ◌-ℤ◌
adjustments_between_ran = refl

entity_closes-IsUnbroken_example :
    IsUnbroken (date 2022 7 1) (date 2022 8 31) fetched.guards (split_day ∷ []) (reissue ∷ [])
unfolding lookup
entity_closes-IsUnbroken_example =
    entity_closes-IsUnbroken archive (bytes "nse-bhavcopy") (pos 7) (date 2022 7 1) (date 2022 8 31)
      pin fetched.boundaries fetched.guards fetched.adjs one_basis refl guard_starts_ran
      adjustments_between_ran entity_closes_ran

wanted_9 : contains eqb_ℤ wanted (pos 9) ≡ true
unfolding contains
wanted_9 = refl

entity_volatility-IsAnswered_example :
    IsAnswered
      (pos 9)
      (entity_volatility archive (bytes "nse-bhavcopy") (date 2022 7 1) (date 2022 8 31) pin wanted)
entity_volatility-IsAnswered_example =
    entity_volatility-IsAnswered archive (bytes "nse-bhavcopy") (date 2022 7 1) (date 2022 8 31) pin
      wanted (pos 9) wanted_9

-- 7 has a volatility, 9 is fenced, and of 8 there are no bars.
volatilities_ran :
    entity_volatility archive (bytes "nse-bhavcopy") (date 2022 7 1) (date 2022 8 31) pin wanted
    ≡ ok (
      (pos 7, num 31 2) ∷ [],
      (
        pos 9,
        fenced record {
          entity_id = pos 9;
          from_date = date 2022 7 1;
          to_date = date 2022 8 31;
          guard_start = date 2022 7 22;
          boundary = reissue;
        },
      )
          ∷ (pos 8, no_bars)
          ∷ [],
    )
unfolding entity_volatility volatilities volatility_of screen skip_silent take_volatilities
    collect_guards collect_actions sort_by insert_sorted contains dedupe_from insert lookup ◌*ℤ◌
    ◌+ℤ◌ ◌-ℤ◌ first_refusal
volatilities_ran = refl
