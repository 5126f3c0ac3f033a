-- ===== src/Market/Accounts.antt =====
-- internal/market/series.go: each requested entity is in one of the three maps of a set of returns.
use verdict_machine.Base.{
  ◌+◌, ◌≡◌, ◌≢◌, refl, true, false, not, ◌||◌, List, [], ◌∷◌, ◌++◌, ◌==◌, inl, inr, Bool-cases,
  arith, if◌then◌else◌,
}
use verdict_machine.Base.Int.{ℤ, eqb_ℤ, eqb_ℤ_iff, ltb_ℤ}
use verdict_machine.Base.Text.{Text}
use verdict_machine.Base.Sort.{contains, IsNodup, dedupe_from}
use verdict_machine.Base.Distinct.{
  contains-append, contains-dedupe_from, dedupe_from-IsNodup, sort_by-IsNodup,
}
use verdict_machine.Base.Map.{lookup, keys, int_key}
use verdict_machine.Base.Result.{Outcome, ok, err, wrap_error, ◌>>=◌}
use verdict_machine.Float.{Float}
use verdict_machine.Time.{Time, before}
use verdict_machine.Market.Fence.{unique_sorted}
use verdict_machine.Market.Sources.{Store}
use verdict_machine.Market.Returns.{
  ReturnSet, Error, Fetched, times_seen, seen_ids, missing_from, extra_to, accounted, no_returns,
  record_verdict, judge, judge_all, fetch, returns_of, entity_returns,
}
use verdict_machine.Market.Seen.{
  requested, record_verdict-times_seen, requested-cons, still_new, select_none, presence-keys,
  contains-unique_sorted,
}

-- The set has each requested entity in one of its maps, and no other entity.
abbrev pub IsComplete : {F : Type 0} → List ℤ → ReturnSet F → Type 0
IsComplete ids rs = (id : ℤ) → times_seen rs id ≡ requested ids id

-- A success is complete, and no error is that of a set that is not.
abbrev pub IsAccounted : {F E : Type 0} → List ℤ → Outcome (Error E) (ReturnSet F) → Type 0
IsAccounted ids (ok rs) = IsComplete ids rs
IsAccounted ids (err (Error.unaccounted missing extra)) = ⊥
IsAccounted ids (err (Error.bad_window from to)) = Unit
IsAccounted ids (err (Error.store e)) = Unit

module _ {F : Type 0} where
  missing_from-reject :
      (rs : ReturnSet F) (ids : List ℤ)
      → IsComplete ids rs
      → (k : ℤ) → contains eqb_ℤ (dedupe_from eqb_ℤ [] ids) k ≡ true
      → not (times_seen rs k == 1) ≡ false
  unfolding contains
  missing_from-reject rs ids h k m =
      ground (arith, h k, contains-dedupe_from eqb_ℤ eqb_ℤ_iff [] ids k)

  missing_from-none :
      (rs : ReturnSet F) (ids : List ℤ) → IsComplete ids rs → missing_from rs ids ≡ []
  missing_from-none rs ids h =
      select_none (λ k. not (times_seen rs k == 1)) (dedupe_from eqb_ℤ [] ids)
        (missing_from-reject rs ids h)

  seen_ids-contains :
      (rs : ReturnSet F) (k : ℤ)
      → contains eqb_ℤ (seen_ids rs) k ≡ (
          contains eqb_ℤ (keys rs.priced) k
          || (contains eqb_ℤ (keys rs.refused) k || contains eqb_ℤ (keys rs.absent) k))
  unfolding contains
  seen_ids-contains rs k = ground (
    arith,
    contains-dedupe_from eqb_ℤ eqb_ℤ_iff [] (keys rs.priced ++ (keys rs.refused ++ keys rs.absent))
        k,
    contains-append eqb_ℤ (keys rs.priced) (keys rs.refused ++ keys rs.absent) k,
    contains-append eqb_ℤ (keys rs.refused) (keys rs.absent) k,
  )

  contains-seen_ids :
      (rs : ReturnSet F) (k : ℤ) → contains eqb_ℤ (seen_ids rs) k ≡ true → times_seen rs k ≢ 0
  contains-seen_ids rs k h = ground (
    arith,
    seen_ids-contains rs k,
    presence-keys rs.priced k,
    presence-keys rs.refused k,
    presence-keys rs.absent k,
  )

  extra_to-none : (rs : ReturnSet F) (ids : List ℤ) → IsComplete ids rs → extra_to rs ids ≡ []
  extra_to-none rs ids h =
      select_none (λ k. not (contains eqb_ℤ ids k)) (seen_ids rs)
        (λ k m. ground (arith, h k, contains-seen_ids rs k m))

  accounted-IsAccounted :
      (E : Type 0) (rs : ReturnSet F) (ids : List ℤ)
      → IsComplete ids rs
      → IsAccounted {E = E} ids (accounted rs ids)
  accounted-IsAccounted E rs ids h = rw (missing_from-none rs ids h, extra_to-none rs ids h) h

  module _ ⦃fl : Float F⦄ (w : Fetched F) where
    -- The entities still to be judged are in no map yet; each then enters one.
    judge_all-times_seen :
        (rs : ReturnSet F) (ids : List ℤ)
        → IsNodup eqb_ℤ ids
        → ((k : ℤ) → contains eqb_ℤ ids k ≡ true → times_seen rs k ≡ 0)
        → (k : ℤ) → times_seen (judge_all w rs ids) k ≡ times_seen rs k + requested ids k
    unfolding judge_all contains
    judge_all-times_seen rs [] h new k = omega arith
    judge_all-times_seen rs (id ∷ ids) (fresh, rest) new k =
        let rs' = record_verdict id (judge w id) rs in
        let first : times_seen rs id ≡ 0 = new id (rw ((eqb_ℤ_iff id id).1 refl) refl) in
        let step : (k : ℤ) → times_seen rs' k ≡ times_seen rs k + (if eqb_ℤ id k then 1 else 0) =
          λ k. record_verdict-times_seen id (judge w id) rs k first in
        let later =
          judge_all-times_seen rs' ids rest
            (λ j m. still_new id ids j (times_seen rs j) _ fresh m (new j (ground arith)) (step j))
            k in
        omega (arith, later, step k, requested-cons id ids k fresh)

    none_seen : (k : ℤ) → times_seen (no_returns {F = F}) k ≡ 0
    unfolding lookup
    none_seen k = refl

    judge_all-IsComplete :
        (ids : List ℤ) → IsNodup eqb_ℤ ids → IsComplete ids (judge_all w no_returns ids)
    judge_all-IsComplete ids h k =
        omega (arith, judge_all-times_seen no_returns ids h (λ j m. none_seen j) k, none_seen k)

  module _ ⦃fl : Float F⦄ {E : Type 0} where
    fetched-IsAccounted :
        (ids : List ℤ) (o : Outcome E (Fetched F))
        → IsNodup eqb_ℤ ids
        → IsAccounted ids
            (wrap_error Error.store o >>= (λ w. accounted (judge_all w no_returns ids) ids))
    fetched-IsAccounted ids (ok w) h =
        accounted-IsAccounted E (judge_all w no_returns ids) ids (judge_all-IsComplete w ids h)
    fetched-IsAccounted ids (err e) h = tt

    returns_of-IsAccounted :
        (st : Store F E) (source : Text) (ids : List ℤ) (from to pin : Time)
        → IsNodup eqb_ℤ ids
        → IsAccounted ids (returns_of st source ids from to pin)
    unfolding returns_of contains lookup
    returns_of-IsAccounted st source [] from to pin h = λ k. refl
    returns_of-IsAccounted st source (id ∷ ids) from to pin h = elim (Bool-cases (before from to)) [
      | inl e ↦ rw e (fetched-IsAccounted (id ∷ ids) (fetch st source (id ∷ ids) from to pin) h)
      | inr e ↦ rw e tt
    ]

    unique_sorted-IsAccounted :
        (ids : List ℤ) (o : Outcome (Error E) (ReturnSet F))
        → IsAccounted (unique_sorted ids) o
        → IsAccounted ids o
    unique_sorted-IsAccounted ids (ok rs) h = λ k. rw (← contains-unique_sorted ids k) (h k)
    unique_sorted-IsAccounted ids (err (Error.unaccounted missing extra)) h = h
    unique_sorted-IsAccounted ids (err (Error.bad_window from to)) h = tt
    unique_sorted-IsAccounted ids (err (Error.store e)) h = tt

    -- EntityReturns never fails in its own last check: what it returns is an error of a query, the error
    -- of a window that does not run forwards, or a set in which each requested entity, whatever the
    -- order and the repetitions of the request, is in exactly one of the three maps, and no other is.
    pub entity_returns-IsAccounted :
        (st : Store F E) (source : Text) (ids : List ℤ) (from to pin : Time)
        → IsAccounted ids (entity_returns st source ids from to pin)
    unfolding entity_returns
    entity_returns-IsAccounted st source ids from to pin = unique_sorted-IsAccounted ids _ (
        returns_of-IsAccounted st source (unique_sorted ids) from to pin
          (sort_by-IsNodup eqb_ℤ eqb_ℤ_iff ltb_ℤ _ (dedupe_from-IsNodup eqb_ℤ eqb_ℤ_iff [] ids)))
