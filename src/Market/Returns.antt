-- ===== src/Market/Returns.antt =====
-- internal/market/series.go: the return of each entity over a window, its refusal or its absence.
use verdict_machine.Base.{
  ℕ, suc, ◌+◌, not, Option, none, some, List, [], ◌∷◌, ◌++◌, ◌==◌, select, if◌then◌else◌,
}
use verdict_machine.Base.Int.{ℤ, eqb_ℤ, ltb_ℤ}
use verdict_machine.Base.Text.{Text}
use verdict_machine.Base.Sort.{sort_by, contains, dedupe_from}
use verdict_machine.Base.Map.{Map, lookup, insert, keys, int_key}
use verdict_machine.Base.Result.{Outcome, ok, err, wrap_error, ◌>>=◌}
use verdict_machine.Float.{Float, nought, whole}
use verdict_machine.Time.{Time, before, days_before}
use verdict_machine.Market.Actions.{WindowAdjustment, window_of, ratio_over}
use verdict_machine.Market.Fence.{EntityBoundary, BoundaryRefusal, first_refusal, unique_sorted}
use verdict_machine.Market.Sources.{
  Store, Endpoint, endpoint_closes, guard_starts, adjustments_between,
}

pub record EntityReturn (F : Type 0) : Type 0 where
  pub entity_id : ℤ
  pub from_date : Time
  pub from_close : F
  pub to_date : Time
  pub to_close : F
  pub share_ratio : F
  pub ex_dates : List Time
  pub return : F

-- Why an entity has no return; the source renders each as a text.
pub data Absence (F : Type 0) : Type 0 where
  no_session : Absence F
  no_from_session : Absence F
  no_to_session : Absence F
  one_session : Time → Absence F
  bad_close : F → Time → Absence F

pub record ReturnSet (F : Type 0) : Type 0 where
  pub priced : Map ℤ (EntityReturn F)
  pub refused : Map ℤ BoundaryRefusal
  pub absent : Map ℤ (Absence F)

pub data Error (E : Type 0) : Type 0 where
  bad_window : Time → Time → Error E
  store : E → Error E
  unaccounted : List ℤ → List ℤ → Error E

-- What the queries answered.
pub record Fetched (F : Type 0) : Type 0 where
  pub from_end : Map ℤ (Endpoint F)
  pub to_end : Map ℤ (Endpoint F)
  pub boundaries : Map ℤ (List EntityBoundary)
  pub guards : Map Time Time
  pub adjs : Map ℤ (WindowAdjustment F)

pub data Verdict (F : Type 0) : Type 0 where
  is_priced : EntityReturn F → Verdict F
  is_refused : BoundaryRefusal → Verdict F
  is_absent : Absence F → Verdict F

abbrev pub endpoint_stale_days : ℕ
endpoint_stale_days = 30

-- A missing entity has no boundaries.
abbrev pub boundaries_of : Map ℤ (List EntityBoundary) → ℤ → List EntityBoundary
boundaries_of boundaries id = elim (lookup id boundaries) [ none ↦ [] | some bs ↦ bs ]

abbrev pub presence : {V : Type 0} → Map ℤ V → ℤ → ℕ
presence m id = elim (lookup id m) [ none ↦ 0 | some v ↦ 1 ]

module _ {F : Type 0} where
  abbrev pub no_returns : ReturnSet F
  no_returns = record { priced = []; refused = []; absent = [] }

  -- `seen[id]`
  abbrev pub times_seen : ReturnSet F → ℤ → ℕ
  times_seen rs id = presence rs.priced id + presence rs.refused id + presence rs.absent id

  abbrev pub seen_ids : ReturnSet F → List ℤ
  seen_ids rs = dedupe_from eqb_ℤ [] (keys rs.priced ++ (keys rs.refused ++ keys rs.absent))

  abbrev pub missing_from : ReturnSet F → List ℤ → List ℤ
  missing_from rs ids = select (λ id. not (times_seen rs id == 1)) (dedupe_from eqb_ℤ [] ids)

  abbrev pub extra_to : ReturnSet F → List ℤ → List ℤ
  extra_to rs ids = select (λ id. not (contains eqb_ℤ ids id)) (seen_ids rs)

  abbrev pub report : {E : Type 0} → ReturnSet F → List ℤ → List ℤ → Outcome (Error E) (ReturnSet F)
  report rs [] [] = ok rs
  report rs missing extra = err (Error.unaccounted (sort_by ltb_ℤ missing) (sort_by ltb_ℤ extra))

  -- `Accounted`, passing the set on.
  abbrev pub accounted : {E : Type 0} → ReturnSet F → List ℤ → Outcome (Error E) (ReturnSet F)
  accounted rs ids = report rs (missing_from rs ids) (extra_to rs ids)

  unfoldable pub record_verdict : ℤ → Verdict F → ReturnSet F → ReturnSet F
  record_verdict id (is_priced r) rs = record rs { priced = insert id r rs.priced }
  record_verdict id (is_refused r) rs = record rs { refused = insert id r rs.refused }
  record_verdict id (is_absent why) rs = record rs { absent = insert id why rs.absent }

  module _ ⦃fl : Float F⦄ where
    abbrev pub price_window : WindowAdjustment F → ℤ → Endpoint F → Endpoint F → EntityReturn F
    price_window adj id f t =
        let over = ratio_over adj f.date t.date in
        record {
          entity_id = id;
          from_date = f.date;
          from_close = f.close;
          to_date = t.date;
          to_close = t.close;
          share_ratio = over.0;
          ex_dates = over.1;
          return = fl.sub (fl.div (fl.mul t.close over.0) f.close) (whole 1);
        }

    -- Both endpoints are there.
    unfoldable pub judge_window : Fetched F → ℤ → Endpoint F → Endpoint F → Verdict F
    judge_window w id f t =
        let adj = window_of w.adjs id in
        if not (before f.date t.date)
        then is_absent (one_session f.date)
        else elim (first_refusal id f.date t.date (boundaries_of w.boundaries id) w.guards
            adj.ex_dates) [
              | some refusal ↦ is_refused refusal
              | none ↦
                  if fl.le f.close nought
                  then is_absent (bad_close f.close f.date)
                  else is_priced (price_window adj id f t)
            ]

    unfoldable pub judge_ends :
        Fetched F → ℤ → Option (Endpoint F) → Option (Endpoint F) → Verdict F
    judge_ends w id none none = is_absent no_session
    judge_ends w id none (some t) = is_absent no_from_session
    judge_ends w id (some f) none = is_absent no_to_session
    judge_ends w id (some f) (some t) = judge_window w id f t

    abbrev pub judge : Fetched F → ℤ → Verdict F
    judge w id = judge_ends w id (lookup id w.from_end) (lookup id w.to_end)

    unfoldable pub judge_all : Fetched F → ReturnSet F → List ℤ → ReturnSet F
    judge_all w rs [] = rs
    judge_all w rs (id ∷ ids) = judge_all w (record_verdict id (judge w id) rs) ids

    module _ {E : Type 0} (st : Store F E) where
      unfoldable pub fetch : Text → List ℤ → Time → Time → Time → Outcome E (Fetched F)
      fetch source ids from to pin = do
        ends ← endpoint_closes st source ids from to pin
        boundaries ← st.entity_boundaries ids pin
        guards ← guard_starts st source boundaries pin
        adjs ← adjustments_between st ids (days_before from (suc endpoint_stale_days)) to pin
        ok record {
          from_end = ends.0;
          to_end = ends.1;
          boundaries = boundaries;
          guards = guards;
          adjs = adjs;
        }

      -- `EntityReturns`, of the ids once sorted and made distinct.
      unfoldable pub returns_of :
          Text → List ℤ → Time → Time → Time → Outcome (Error E) (ReturnSet F)
      returns_of source [] from to pin = ok no_returns
      returns_of source (id ∷ ids) from to pin =
          if not (before from to) then err (Error.bad_window from to) else do
            w ← wrap_error Error.store (fetch source (id ∷ ids) from to pin)
            accounted (judge_all w no_returns (id ∷ ids)) (id ∷ ids)

      unfoldable pub entity_returns :
          Text → List ℤ → Time → Time → Time → Outcome (Error E) (ReturnSet F)
      entity_returns source entity_ids from to pin =
          returns_of source (unique_sorted entity_ids) from to pin
