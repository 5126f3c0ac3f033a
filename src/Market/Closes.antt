-- ===== src/Market/Closes.antt =====
-- internal/market/series.go: EntityCloses, the closes of an entity on one share basis.
use verdict_machine.Base.{not, Option, none, some, List, [], ◌∷◌, map, if◌then◌else◌}
use verdict_machine.Base.Int.{ℤ}
use verdict_machine.Base.Text.{Text}
use verdict_machine.Base.Map.{Map}
use verdict_machine.Base.Result.{Outcome, ok, err, wrap_error, ◌>>=◌}
use verdict_machine.Float.{Float, whole}
use verdict_machine.Time.{Time, before, days_before}
use verdict_machine.Market.Actions.{WindowAdjustment, window_of, ratio_over, midnight}
use verdict_machine.Market.Fence.{EntityBoundary, BoundaryRefusal, first_refusal}
use verdict_machine.Market.Sources.{Store, DatedClose, guard_starts, adjustments_between}
use verdict_machine.Market.Returns.{boundaries_of}

pub data Error (E : Type 0) : Type 0 where
  bad_window : Time → Time → Error E
  store : E → Error E
  refusal : BoundaryRefusal → Error E

abbrev pub refuse :
    {E A : Type 0} → Option BoundaryRefusal → Outcome (Error E) A → Outcome (Error E) A
refuse none next = next
refuse (some r) next = err (Error.refusal r)

module _ {F : Type 0} ⦃fl : Float F⦄ where
  -- Scaled by the actions up to and including the session.
  abbrev pub on_one_basis : Time → WindowAdjustment F → DatedClose F → DatedClose F
  on_one_basis from adj row =
      let day = midnight row.date in
      let r = (ratio_over adj (days_before from 1) day).0 in
      record {
        date = day;
        close = if not (fl.eq r (whole 1)) then fl.mul row.close r else row.close;
      }

  module _ {E : Type 0} (st : Store F E) (source : Text) (id : ℤ) (from to pin : Time) where
    -- Without a boundary there is no band to ask for.
    unfoldable pub past_fence :
        {A : Type 0}
        → Map ℤ (List EntityBoundary)
        → List Time
        → List EntityBoundary
        → Outcome (Error E) A
        → Outcome (Error E) A
    past_fence boundaries ex_dates [] next = next
    past_fence boundaries ex_dates (b ∷ bs) next = do
      guards ← wrap_error Error.store (guard_starts st source boundaries pin)
      refuse (first_refusal id from to (b ∷ bs) guards ex_dates) next

    unfoldable pub entity_closes : Outcome (Error E) (List (DatedClose F))
    entity_closes = if not (before from to) then err (Error.bad_window from to) else do
      boundaries ← wrap_error Error.store (st.entity_boundaries (id ∷ []) pin)
      adjs ← wrap_error Error.store (adjustments_between st (id ∷ []) from to pin)
      past_fence boundaries (window_of adjs id).ex_dates (boundaries_of boundaries id) (do
        rows ← wrap_error Error.store (st.close_rows source id from to pin)
        ok (map (on_one_basis from (window_of adjs id)) rows))
