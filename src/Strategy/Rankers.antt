-- ===== src/Strategy/Rankers.antt =====
-- internal/strategy/rankers.go: the orders of a universe, best first.
use verdict_machine.Base.{
  ℕ, List, [], ◌∷◌, map, none, some, Bool, true, false, not, if◌then◌else◌, leb, ◌==◌,
}
use verdict_machine.Base.Int.{ℤ, ltb_ℤ}
use verdict_machine.Base.Text.{Text, bytes}
use verdict_machine.Base.Sort.{sort_by}
use verdict_machine.Base.Map.{Map, lookup, keys, int_key}
use verdict_machine.Base.Result.{Outcome, ok, err, ◌>>=◌, wrap_error}
use verdict_machine.Float.{Float, nought}
use verdict_machine.Time.{months_before}
use verdict_machine.Engine.Seams.{Member, Session}

pub record Ranked : Type 0 where
  pub order : List ℤ
  pub refused : Map ℤ Text
  pub absent : Map ℤ Text

pub data Error (E : Type 0) : Type 0 where
  bad_window : ℕ → ℕ → Error E
  bad_lookback : ℕ → Error E
  reading : E → Error E

pub record Ranker (F E : Type 0) : Type 0 where
  pub name : Text
  pub rank : Session F E → List Member → Outcome (Error E) Ranked

abbrev pub universe_ids : List Member → List ℤ
universe_ids u = map (λ m. m.entity_id) u

module _ {F : Type 0} ⦃fl : Float F⦄ where
  open fl use {lt, eq}

  -- `scores[id]`
  abbrev pub score : Map ℤ F → ℤ → F
  score scores id = elim (lookup id scores) [ some v ↦ v | none ↦ nought ]

  -- The order of `byScore`: by score, ties by entity.
  abbrev pub ahead : Bool → F → F → ℤ → ℤ → Bool
  ahead ascending a b i j =
      if not (eq a b) then (if ascending then lt a b else lt b a) else ltb_ℤ i j

  abbrev pub score_less : Map ℤ F → Bool → ℤ → ℤ → Bool
  score_less scores ascending i j = ahead ascending (score scores i) (score scores j) i j

  unfoldable pub by_score : Map ℤ F → Bool → List ℤ
  by_score scores ascending = sort_by (score_less scores ascending) (keys scores)

pub record ReturnRanker : Type 0 where
  pub formation_months : ℕ
  pub skip_months : ℕ
  pub ascending : Bool
  pub label : Text

pub record VolatilityRanker : Type 0 where
  pub lookback_months : ℕ
  pub label : Text

-- `strings.Contains`
abbrev pub starts_with : Text → Text → Bool
starts_with [] s = true
starts_with (c ∷ cs) [] = false
starts_with (c ∷ cs) (d ∷ ds) = if c == d then starts_with cs ds else false

abbrev pub contains_text : Text → Text → Bool
contains_text [] part = starts_with part []
contains_text (c ∷ cs) part = if starts_with part (c ∷ cs) then true else contains_text cs part

abbrev pub is_fence_refusal : Text → Bool
is_fence_refusal why = contains_text why (bytes "succession guard band")

-- The names that were not ranked, by whether the fence refused them.
unfoldable pub pick_reasons : Bool → Map ℤ Text → Map ℤ Text
pick_reasons fenced [] = []
pick_reasons fenced ((id, why) ∷ m) =
    let rest = pick_reasons fenced m in
    if is_fence_refusal why
    then (if fenced then (id, why) ∷ rest else rest)
    else (if fenced then rest else (id, why) ∷ rest)

module _ {F E : Type 0} ⦃fl : Float F⦄ where
  unfoldable pub return_rank : ReturnRanker → Session F E → List Member → Outcome (Error E) Ranked
  return_rank r s universe =
      if leb r.formation_months r.skip_months
      then err (bad_window r.formation_months r.skip_months)
      else do
        rs ← wrap_error reading (
            s.market.returns (universe_ids universe) (months_before s.date r.formation_months)
              (months_before s.date r.skip_months))
        ok (record {
          order = by_score rs.priced r.ascending;
          refused = rs.refused;
          absent = rs.absent;
        })

  unfoldable pub volatility_rank :
      VolatilityRanker → Session F E → List Member → Outcome (Error E) Ranked
  volatility_rank v s universe =
      if leb v.lookback_months 0 then err (bad_lookback v.lookback_months) else do
        (vols, skipped) ← wrap_error reading (
            s.market.volatility (universe_ids universe) (months_before s.date v.lookback_months)
              s.date)
        ok (record {
          order = by_score vols true;
          refused = pick_reasons true skipped;
          absent = pick_reasons false skipped;
        })

  abbrev pub turnover_rank : Session F E → List Member → Outcome (Error E) Ranked
  turnover_rank s universe =
      ok (record { order = universe_ids universe; refused = []; absent = [] })

  abbrev pub return_ranker : ReturnRanker → Ranker F E
  return_ranker r = record { name = r.label; rank = return_rank r }

  abbrev pub volatility_ranker : VolatilityRanker → Ranker F E
  volatility_ranker v = record { name = v.label; rank = volatility_rank v }

  abbrev pub turnover_ranker : Ranker F E
  turnover_ranker = record { name = bytes "turnover"; rank = turnover_rank }
