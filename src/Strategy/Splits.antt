-- ===== src/Strategy/Splits.antt =====
-- The returns over a split, as a ranker gets them, and a ranking by volatility.
use verdict_machine.Base.{◌≡◌, refl, List, [], ◌∷◌}
use verdict_machine.Base.Int.{pos, ◌*ℤ◌, ◌+ℤ◌, ◌-ℤ◌}
use verdict_machine.Base.Text.{Text, bytes}
use verdict_machine.Base.Map.{insert, lookup}
use verdict_machine.Base.Sort.{sort_by, insert_sorted, contains, dedupe_from}
use verdict_machine.Base.Result.{ok}
use verdict_machine.Float.Fixed.{Fixed, fixed_float}
use verdict_machine.Time.{date, months_before}
use verdict_machine.Market.Actions.{collect_actions, ratio_from}
use verdict_machine.Market.Fence.{first_refusal}
use verdict_machine.Market.Sources.{collect_endpoints, collect_guards}
use verdict_machine.Market.Returns.{
  Absence, no_session, entity_returns, returns_of, fetch, judge_all, judge_ends, judge_window,
  record_verdict,
}
use verdict_machine.Market.Texts.{refusal_text, skip_text}
use verdict_machine.Market.Samples.{num, reissue, archive, wanted, pin}
use verdict_machine.Market.Volatility
use verdict_machine.Market.Volatility.{
  no_bars, screen, skip_silent, take_volatilities, volatility_of, volatilities, entity_volatility,
}
use verdict_machine.Base.Format.{format_int}
use verdict_machine.Strategy.Rankers.{
  Ranked, VolatilityRanker, by_score, pick_reasons, volatility_rank,
}
use verdict_machine.Engine.Seams.{ReturnSet, Member, Session}
use verdict_machine.Engine.StoreMarket.{StoreMarket, returns, volatility}
use verdict_machine.Strategy.Fences.{IsLabelled, volatility_rank-IsLabelled}

abbrev market : StoreMarket Fixed Text
market = record { store = archive; source = bytes "nse-bhavcopy"; pin = pin }

abbrev why : Absence Fixed → Text
why absence = bytes "no session"

-- 959.40 becomes ten times 107.00.
abbrev ranked : ReturnSet Fixed
ranked = record {
  priced = (pos 7, num 115_280_383_573 12) ∷ [];
  refused =
      (
        pos 9,
        refusal_text record {
          entity_id = pos 9;
          from_date = date 2022 6 30;
          to_date = date 2022 8 31;
          guard_start = date 2022 7 22;
          boundary = reissue;
        },
      )
      ∷ [];
  absent = (pos 8, why no_session) ∷ [];
}

returns_ran : returns market why wanted (date 2022 6 30) (date 2022 8 31) ≡ ok ranked
unfolding returns entity_returns returns_of fetch collect_endpoints collect_guards collect_actions
    sort_by insert_sorted contains dedupe_from insert lookup ◌*ℤ◌ ◌+ℤ◌ ◌-ℤ◌ judge_all judge_ends
    judge_window record_verdict first_refusal ratio_from
returns_ran = refl

-- The volatilities come from the same store.
abbrev session : Session Fixed (Volatility.Error Text)
session = record {
  date = date 2022 8 31;
  portfolio = record { cash = num 0 0; positions = [] };
  equity = num 0 0;
  closes = [];
  market = record {
    sessions = ok [];
    bars = λ _. ok [];
    universe = λ _. ok [];
    returns = λ _ _ _. ok (record { priced = []; refused = []; absent = [] });
    closes = λ _ _ _. ok [];
    index_closes = λ _ _ _. ok [];
    volatility = volatility market;
    adjustments = λ _. ok [];
  };
}

abbrev members : List Member
members =
    record { entity_id = pos 9; scrip = bytes "A"; rank = 1 }
    ∷ record { entity_id = pos 7; scrip = bytes "B"; rank = 2 }
    ∷ record { entity_id = pos 8; scrip = bytes "C"; rank = 3 }
    ∷ []

abbrev low_volatility : VolatilityRanker
low_volatility = record { lookback_months = 2; label = bytes "lowvol" }

abbrev by_volatility : Ranked
by_volatility = record {
  order = pos 7 ∷ [];
  refused =
      (
        pos 9,
        refusal_text record {
          entity_id = pos 9;
          from_date = months_before (date 2022 8 31) 2;
          to_date = date 2022 8 31;
          guard_start = date 2022 7 22;
          boundary = reissue;
        },
      )
      ∷ [];
  absent = (pos 8, skip_text no_bars) ∷ [];
}

ranked_by_volatility : volatility_rank low_volatility session members ≡ ok by_volatility
unfolding volatility_rank volatility skip_text refusal_text pick_reasons by_score entity_volatility
    volatilities volatility_of screen skip_silent take_volatilities collect_guards collect_actions
    sort_by insert_sorted contains dedupe_from insert lookup format_int ◌*ℤ◌ ◌+ℤ◌ ◌-ℤ◌ first_refusal
ranked_by_volatility = refl

volatility_rank-IsLabelled_example :
    IsLabelled market (months_before (date 2022 8 31) 2) (date 2022 8 31) members by_volatility
volatility_rank-IsLabelled_example =
    volatility_rank-IsLabelled low_volatility session members market by_volatility refl
      ranked_by_volatility
