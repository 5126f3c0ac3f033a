-- ===== src/Market/Sources.antt =====
-- internal/market/series.go: the rows that the queries of the store answer with, and the maps built from
-- them. The queries are the operations of `Store`; `E` is the type of their errors.
use verdict_machine.Base.{ℕ, Option, some, List, [], ◌∷◌, ◌++◌, map}
use verdict_machine.Base.Int.{ℤ}
use verdict_machine.Base.Text.{Text}
use verdict_machine.Base.Sort.{dedupe_from}
use verdict_machine.Base.Map.{Map, insert, int_key}
use verdict_machine.Base.Result.{Outcome, ok, ◌>>=◌}
use verdict_machine.Float.{Float}
use verdict_machine.Time.{Time, same_time}
use verdict_machine.Market.Actions.{ActionRow, WindowAdjustment, midnight, collect_actions}
use verdict_machine.Market.Fence.{EntityBoundary, time_key}

pub record Endpoint (F : Type 0) : Type 0 where
  pub date : Time
  pub close : F

-- A date and a close of either end may be NULL.
pub record EndpointRow (F : Type 0) : Type 0 where
  pub entity_id : ℤ
  pub from_date : Option Time
  pub from_close : Option F
  pub to_date : Option Time
  pub to_close : Option F

pub record GuardRow : Type 0 where
  pub boundary : Time
  pub start : Time

pub record DatedClose (F : Type 0) : Type 0 where
  pub date : Time
  pub close : F

-- A deviation of the daily returns of an entity, NULL where there are too few, and their number.
pub record VolatilityRow (F : Type 0) : Type 0 where
  pub entity_id : ℤ
  pub sd : Option F
  pub n : ℕ

-- The queries. `guard_rows` is asked for boundary dates, `action_rows` for (from, to].
pub record Store (F E : Type 0) : Type 0 where
  pub endpoint_rows : Text → List ℤ → Time → Time → Time → Outcome E (List (EndpointRow F))
  pub entity_boundaries : List ℤ → Time → Outcome E (Map ℤ (List EntityBoundary))
  pub guard_rows : Text → List Time → Time → Outcome E (List GuardRow)
  pub action_rows : List ℤ → Time → Time → Time → Outcome E (List (ActionRow F))
  pub close_rows : Text → ℤ → Time → Time → Time → Outcome E (List (DatedClose F))
  pub volatility_rows : Text → List ℤ → Time → Time → Time → Outcome E (List (VolatilityRow F))

unfoldable pub collect_guards : Map Time Time → List GuardRow → Map Time Time
collect_guards guards [] = guards
collect_guards guards (r ∷ rs) =
    collect_guards (insert (midnight r.boundary) (midnight r.start) guards) rs

abbrev pub boundary_dates : Map ℤ (List EntityBoundary) → List Time
boundary_dates [] = []
boundary_dates ((id, bs) ∷ rest) = map (λ b. b.date) bs ++ boundary_dates rest

module _ {F : Type 0} where
  abbrev pub set_endpoint : ℤ → Option Time → Option F → Map ℤ (Endpoint F) → Map ℤ (Endpoint F)
  set_endpoint id (some d) (some c) ends = insert id (record { date = midnight d; close = c }) ends
  set_endpoint id _ _ ends = ends

  unfoldable pub collect_endpoints :
      Map ℤ (Endpoint F) × Map ℤ (Endpoint F)
      → List (EndpointRow F)
      → Map ℤ (Endpoint F) × Map ℤ (Endpoint F)
  collect_endpoints ends [] = ends
  collect_endpoints (from_end, to_end) (r ∷ rs) =
      collect_endpoints
        (
          set_endpoint r.entity_id r.from_date r.from_close from_end,
          set_endpoint r.entity_id r.to_date r.to_close to_end,
        )
        rs

  module _ {E : Type 0} ⦃fl : Float F⦄ (st : Store F E) where
    abbrev pub endpoint_closes :
        Text → List ℤ → Time → Time → Time → Outcome E (Map ℤ (Endpoint F) × Map ℤ (Endpoint F))
    endpoint_closes source ids from to pin = do
      rows ← st.endpoint_rows source ids from to pin
      ok (collect_endpoints ([], []) rows)

    -- With no boundary there is no query.
    abbrev pub guards_at : Text → List Time → Time → Outcome E (Map Time Time)
    guards_at source [] pin = ok []
    guards_at source (d ∷ ds) pin = do
      rows ← st.guard_rows source (d ∷ ds) pin
      ok (collect_guards [] rows)

    abbrev pub guard_starts : Text → Map ℤ (List EntityBoundary) → Time → Outcome E (Map Time Time)
    guard_starts source boundaries pin =
        guards_at source (dedupe_from same_time [] (boundary_dates boundaries)) pin

    abbrev pub adjustments_between :
        List ℤ → Time → Time → Time → Outcome E (Map ℤ (WindowAdjustment F))
    adjustments_between [] from to pin = ok []
    adjustments_between (id ∷ ids) from to pin = do
      rows ← st.action_rows (id ∷ ids) from to pin
      ok (collect_actions [] rows)
