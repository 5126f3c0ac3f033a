-- ===== src/Market/Unbroken.antt =====
-- internal/market/series.go: EntityCloses answers only where no boundary breaks the series.
use mathlib.Core.Path.{subst}
use verdict_machine.Base.{
  ◌≡◌, refl, true, Option, none, some, List, [], ◌∷◌, All, inl, inr, Bool-cases,
}
use verdict_machine.Base.Int.{ℤ}
use verdict_machine.Base.Text.{Text}
use verdict_machine.Base.Map.{Map}
use verdict_machine.Base.Result.{Outcome, ok}
use verdict_machine.Float.{Float}
use verdict_machine.Time.{Time, before}
use verdict_machine.Market.Actions.{WindowAdjustment, window_of}
use verdict_machine.Market.Fence.{EntityBoundary, BoundaryRefusal}
use verdict_machine.Market.Sources.{Store, DatedClose, guard_starts, adjustments_between}
use verdict_machine.Market.Returns.{boundaries_of}
use verdict_machine.Market.Closes.{Error, refuse, past_fence, entity_closes}
use verdict_machine.Market.Fenced.{passes, IsJust, first_refusal-IsJust}

refuse-eq-ok :
    {E A : Type 0} (o : Option BoundaryRefusal) (next : Outcome (Error E) A) (a : A)
    → refuse o next ≡ ok a
    → o ≡ none
refuse-eq-ok none next a h = refl
refuse-eq-ok (some r) next a h = cc

-- Every boundary lets the range through.
abbrev pub IsUnbroken : Time → Time → Map Time Time → List Time → List EntityBoundary → Type 0
IsUnbroken from to guards ex_dates bs = All (λ b. passes from to guards ex_dates b ≡ true) bs

module _ {F E : Type 0} ⦃fl : Float F⦄ (st : Store F E) (source : Text) (id : ℤ)
    (from to pin : Time) (boundaries : Map ℤ (List EntityBoundary)) (guards : Map Time Time) where
  past_fence-IsUnbroken :
      {A : Type 0} (ex_dates : List Time) (bs : List EntityBoundary) (next : Outcome (Error E) A)
      (a : A)
      → guard_starts st source boundaries pin ≡ ok guards
      → past_fence st source id from to pin boundaries ex_dates bs next ≡ ok a
      → IsUnbroken from to guards ex_dates bs
  unfolding past_fence
  past_fence-IsUnbroken ex_dates [] next a gs h = tt
  past_fence-IsUnbroken ex_dates (b ∷ bs) next a gs h =
      subst (IsJust id from to (b ∷ bs) guards ex_dates) (refuse-eq-ok _ next a (rw gs at h))
        (first_refusal-IsJust id from to (b ∷ bs) guards ex_dates)

  -- Where EntityCloses returns the closes of an entity, no succession boundary of the entity, as the
  -- query of boundaries answered, is near the range unless an action inside its guard band explains it.
  pub entity_closes-IsUnbroken :
      (adjs : Map ℤ (WindowAdjustment F)) (out : List (DatedClose F))
      → st.entity_boundaries (id ∷ []) pin ≡ ok boundaries
      → guard_starts st source boundaries pin ≡ ok guards
      → adjustments_between st (id ∷ []) from to pin ≡ ok adjs
      → entity_closes st source id from to pin ≡ ok out
      → IsUnbroken from to guards (window_of adjs id).ex_dates (boundaries_of boundaries id)
  unfolding entity_closes
  entity_closes-IsUnbroken adjs out bs gs acts h = elim (Bool-cases (before from to)) [
    | inr e ↦ cc (rw e at h)
    | inl e ↦ past_fence-IsUnbroken _ _ _ out gs (rw (e, bs, acts) at h)
  ]
