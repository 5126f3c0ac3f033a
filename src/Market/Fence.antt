-- ===== src/Market/Fence.antt =====
-- internal/market/series.go and entity.go: the boundaries of an entity and the refusal of a window that
-- touches the guard band of one.
use verdict_machine.Base.{
  ◌≡◌, ◌↔◌, Bool, true, not, ◌||◌, Option, none, some, List, [], ◌∷◌, if◌then◌else◌, arith,
}
use verdict_machine.Base.Int.{ℤ, eqb_ℤ, ltb_ℤ}
use verdict_machine.Base.Text.{Text}
use verdict_machine.Base.Sort.{sort_by, dedupe_from}
use verdict_machine.Base.Map.{Key, Map, lookup}
use verdict_machine.Time.{Time, before, same_time}
use verdict_machine.Market.Actions.{any_ex_date_in}

pub same_time_iff : (a b : Time) → (same_time a b ≡ true) ↔ (a ≡ b)
same_time_iff a b = ground arith

instance abbrev pub time_key : Key Time
time_key = record { eqb = same_time; eqb_iff = same_time_iff }

pub record EntityBoundary : Type 0 where
  pub date : Time
  pub predecessor_id : ℤ
  pub successor_id : ℤ
  pub predecessor_isin : Text
  pub successor_isin : Text

pub record BoundaryRefusal : Type 0 where
  pub entity_id : ℤ
  pub from_date : Time
  pub to_date : Time
  pub guard_start : Time
  pub boundary : EntityBoundary

-- A boundary with no calendar behind it is its own guard band.
abbrev pub guard_of : Map Time Time → EntityBoundary → Time
guard_of guards b = elim (lookup b.date guards) [ none ↦ b.date | some start ↦ start ]

-- The window misses the guard band of the boundary.
abbrev pub is_clear : Time → Time → Map Time Time → EntityBoundary → Bool
is_clear from to guards b = not (before from b.date) || before to (guard_of guards b)

-- An action lies inside the band.
abbrev pub is_explained : List Time → Map Time Time → EntityBoundary → Bool
is_explained ex_dates guards b = any_ex_date_in ex_dates (guard_of guards b) b.date

unfoldable pub first_refusal :
    ℤ → Time → Time → List EntityBoundary → Map Time Time → List Time → Option BoundaryRefusal
first_refusal id from to [] guards ex_dates = none
first_refusal id from to (b ∷ bs) guards ex_dates =
    let rest = first_refusal id from to bs guards ex_dates in
    if is_clear from to guards b || is_explained ex_dates guards b
    then rest
    else some record {
      entity_id = id;
      from_date = from;
      to_date = to;
      guard_start = guard_of guards b;
      boundary = b;
    }

abbrev pub unique_sorted : List ℤ → List ℤ
unique_sorted ids = sort_by ltb_ℤ (dedupe_from eqb_ℤ [] ids)
