-- ===== src/Market/Samples.antt =====
-- Entities 7 and 9, whose successor traded from 2022-07-29 on after a split.
use verdict_machine.Base.{ℕ, List, [], ◌∷◌, some}
use verdict_machine.Base.Int.{ℤ, pos}
use verdict_machine.Base.Text.{Text, bytes}
use verdict_machine.Base.Result.{ok}
use verdict_machine.Float.Fixed.{Fixed, fixed_float}
use verdict_machine.Time.{Time, date}
use verdict_machine.Market.Fence.{EntityBoundary}
use verdict_machine.Market.Sources.{Store, EndpointRow}

abbrev pub num : ℕ → ℕ → Fixed
num m e = fixed_float.decimal m e

abbrev pub split_day : Time
split_day = date 2022 7 28

abbrev pub reissue : EntityBoundary
reissue = record {
  date = date 2022 7 29;
  predecessor_id = pos 1;
  successor_id = pos 2;
  predecessor_isin = bytes "INE081A01012";
  successor_isin = bytes "INE081A01020";
}

abbrev pub endpoint_row : ℤ → EndpointRow Fixed
endpoint_row id = record {
  entity_id = id;
  from_date = some (date 2022 6 30);
  from_close = some (num 95940 2);
  to_date = some (date 2022 8 31);
  to_close = some (num 10700 2);
}

-- Entities 7 and 9 carry the boundary, 7 the action that explains it; 8 never traded.
abbrev pub archive : Store Fixed Text
archive = record {
  endpoint_rows = λ source ids from to pin. ok (endpoint_row (pos 7) ∷ endpoint_row (pos 9) ∷ []);
  entity_boundaries = λ ids pin. ok ((pos 7, reissue ∷ []) ∷ (pos 9, reissue ∷ []) ∷ []);
  guard_rows =
      λ source dates pin. ok (record { boundary = date 2022 7 29; start = date 2022 7 22 } ∷ []);
  action_rows = λ ids from to pin.
      ok (record { entity_id = pos 7; ex_date = split_day; ratio = num 10 0 } ∷ []);
  close_rows = λ source id from to pin. ok (
      record { date = date 2022 7 27; close = num 95940 2 }
      ∷ record { date = split_day; close = num 10035 2 }
      ∷ []);
  volatility_rows = λ source ids from to pin.
      ok (record { entity_id = pos 7; sd = some (num 31 2); n = 240 } ∷ []);
}

abbrev pub wanted : List ℤ
wanted = pos 9 ∷ pos 7 ∷ pos 8 ∷ pos 7 ∷ []

abbrev pub pin : Time
pin = date 2026 1 1
