-- ===== src/Entities/Samples.antt =====
-- Tata Steel's two ISINs around its split of 2022, off the store and as a roster line.
use verdict_machine.Base.{ℕ, true, false, none, some, List, [], ◌∷◌}
use verdict_machine.Base.Int.{pos}
use verdict_machine.Base.Text.{Text, bytes}
use verdict_machine.Float.Fixed.{Fixed, fixed_float}
use verdict_machine.Time.{Time, date}
use verdict_machine.Entities.Link.{Link, Roster, reason_manual}
use verdict_machine.Entities.Candidate.{SymbolFacts, ProposeOptions}

abbrev pub num : ℕ → ℕ → Fixed
num m e = fixed_float.decimal m e

abbrev pub old_isin : Text
old_isin = bytes "INE081A01012"

abbrev pub new_isin : Text
new_isin = bytes "INE081A01020"

abbrev pub old_symbol : SymbolFacts Fixed
old_symbol = record {
  symbol_id = pos 1;
  isin = old_isin;
  first_date = date 2011 1 3;
  last_date = date 2022 7 28;
  bars = pos 2_866;
  first_close = num 67_300 2;
  last_close = num 10_035 2;
  first_turn = none;
  last_turn = none;
  first_ticker = bytes "TATASTEEL";
  last_ticker = bytes "TATASTEEL";
  eod2_bars = pos 0;
  eod2_first = none;
}

abbrev pub new_symbol : SymbolFacts Fixed
new_symbol = record {
  symbol_id = pos 2;
  isin = new_isin;
  first_date = date 2022 7 29;
  last_date = date 2026 9 7;
  bars = pos 1_010;
  first_close = num 10_760 2;
  last_close = num 16_800 2;
  first_turn = none;
  last_turn = none;
  first_ticker = bytes "TATASTEEL";
  last_ticker = bytes "TATASTEEL";
  eod2_bars = pos 3_876;
  eod2_first = some (date 2011 1 3);
}

abbrev pub calendar : List Time
calendar = date 2022 7 27 ∷ date 2022 7 28 ∷ date 2022 7 29 ∷ date 2022 8 1 ∷ []

abbrev pub unratified : ProposeOptions
unratified = record { ratified_by = []; ratified_at = [] }

abbrev pub split_line : Link Fixed
split_line = record {
  reason = bytes "succession";
  predecessor = old_isin;
  successor = new_isin;
  ticker_at_boundary = bytes "TATASTEEL";
  effective_from = bytes "2022-07-29";
  gates = record {
    check_digit = true;
    issuer_prefix = bytes "INE081A01";
    serial = bytes "01->02";
    predecessor_last_bar = bytes "2022-07-28";
    successor_first_bar = bytes "2022-07-29";
    sessions_between = pos 0;
    calendar_days_between = pos 1;
    gap_dates_all_settled = true;
    archive_unsettled = pos 0;
    boundary_close_ratio = num 10_722 4;
    boundary_ratio_matches = bytes "1/1";
    predecessor_bars = pos 2_866;
    successor_bars = pos 1_010;
  };
  evidence_not_gating = record {
    eod2_isin2hist_agrees = true;
    eod2_independent = false;
    eod2_predecessor_bars = pos 0;
    boundary_ticker_unchanged = true;
  };
  ratified_by = [];
  ratified_at = [];
  note = [];
}

abbrev pub one_line : Roster Fixed
one_line = record { version = pos 1; digest = []; links = split_line ∷ [] }

-- The same boundary, ratified by hand.
abbrev pub hand_line : Link Fixed
hand_line = record split_line {
  reason = reason_manual;
  ratified_by = bytes "hj";
  ratified_at = bytes "2026-09-08";
  note = bytes "face value split";
}
