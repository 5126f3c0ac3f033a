-- ===== src/Market/Volatility.antt =====
-- internal/market/series.go: EntityVolatility, with the reasons of the entities that have none.
use verdict_machine.Base.{ℕ, not, Option, none, some, List, [], ◌∷◌, ltb, if◌then◌else◌}
use verdict_machine.Base.Int.{ℤ}
use verdict_machine.Base.Text.{Text}
use verdict_machine.Base.Map.{Map, lookup, insert, int_key}
use verdict_machine.Base.Result.{Outcome, ok, err, wrap_error, ◌>>=◌}
use verdict_machine.Float.{Float}
use verdict_machine.Time.{Time, before}
use verdict_machine.Market.Actions.{window_of}
use verdict_machine.Market.Fence.{BoundaryRefusal, first_refusal, unique_sorted}
use verdict_machine.Market.Sources.{Store, VolatilityRow, guard_starts, adjustments_between}
use verdict_machine.Market.Returns.{boundaries_of}

pub data Error (E : Type 0) : Type 0 where
  bad_window : Time → Time → Error E
  store : E → Error E

-- Why an entity has no volatility; the source renders each as a text.
pub data Skip : Type 0 where
  fenced : BoundaryRefusal → Skip
  few_returns : ℕ → Skip
  no_bars : Skip

abbrev pub min_returns : ℕ
min_returns = 120

-- The entities whose window is clear, and those that the fence takes out.
unfoldable pub screen : (ℤ → Option BoundaryRefusal) → Map ℤ Skip → List ℤ → Map ℤ Skip × List ℤ
screen refusal_of skipped [] = (skipped, [])
screen refusal_of skipped (id ∷ ids) = elim (refusal_of id) [
  | some r ↦ screen refusal_of (insert id (fenced r) skipped) ids
  | none ↦ let rest = screen refusal_of skipped ids in (rest.0, id ∷ rest.1)
]

-- A clear entity that the rows did not mention.
abbrev pub mark_silent : {V : Type 0} → ℤ → Option V → Option Skip → Map ℤ Skip → Map ℤ Skip
mark_silent id (some v) o skipped = skipped
mark_silent id none (some why) skipped = skipped
mark_silent id none none skipped = insert id no_bars skipped

-- The last loop.
unfoldable pub skip_silent : {V : Type 0} → Map ℤ V → Map ℤ Skip → List ℤ → Map ℤ Skip
skip_silent vols skipped [] = skipped
skip_silent vols skipped (id ∷ clean) =
    skip_silent vols (mark_silent id (lookup id vols) (lookup id skipped) skipped) clean

module _ {F : Type 0} where
  abbrev pub take_volatility : ℤ → ℕ → Option F → Map ℤ F × Map ℤ Skip → Map ℤ F × Map ℤ Skip
  take_volatility id n none (vols, skipped) = (vols, insert id (few_returns n) skipped)
  take_volatility id n (some sd) (vols, skipped) =
      if ltb n min_returns
      then (vols, insert id (few_returns n) skipped)
      else (insert id sd vols, skipped)

  unfoldable pub take_volatilities :
      List (VolatilityRow F) → Map ℤ F × Map ℤ Skip → Map ℤ F × Map ℤ Skip
  take_volatilities [] taken = taken
  take_volatilities (r ∷ rs) taken =
      take_volatilities rs (take_volatility r.entity_id r.n r.sd taken)

  abbrev pub with_silent : List ℤ → Map ℤ F × Map ℤ Skip → Map ℤ F × Map ℤ Skip
  with_silent clean (vols, skipped) = (vols, skip_silent vols skipped clean)

  module _ {E : Type 0} ⦃fl : Float F⦄ (st : Store F E) (source : Text) (from to pin : Time) where
    -- With no clear entity there is no query.
    unfoldable pub volatility_of : Map ℤ Skip × List ℤ → Outcome (Error E) (Map ℤ F × Map ℤ Skip)
    volatility_of (skipped, []) = ok ([], skipped)
    volatility_of (skipped, id ∷ clean) = do
      rows ← wrap_error Error.store (st.volatility_rows source (id ∷ clean) from to pin)
      ok (with_silent (id ∷ clean) (take_volatilities rows ([], skipped)))

    unfoldable pub volatilities : List ℤ → Outcome (Error E) (Map ℤ F × Map ℤ Skip)
    volatilities [] = ok ([], [])
    volatilities (id ∷ ids) = if not (before from to) then err (Error.bad_window from to) else do
      boundaries ← wrap_error Error.store (st.entity_boundaries (id ∷ ids) pin)
      guards ← wrap_error Error.store (guard_starts st source boundaries pin)
      adjs ← wrap_error Error.store (adjustments_between st (id ∷ ids) from to pin)
      volatility_of (
          screen
            (λ id.
              first_refusal id from to (boundaries_of boundaries id) guards
                (window_of adjs id).ex_dates)
            [] (id ∷ ids))

    unfoldable pub entity_volatility : List ℤ → Outcome (Error E) (Map ℤ F × Map ℤ Skip)
    entity_volatility entity_ids = volatilities (unique_sorted entity_ids)
