-- ===== src/Market/Fenced.antt =====
-- internal/market/series.go: a window is priced only where every boundary near it is explained, and
-- refused only for a boundary that is not.
use mathlib.Core.Path.{subst}
use verdict_machine.Base.{
  ◌≡◌, refl, Bool, true, false, ◌||◌, Option, none, some, List, [], ◌∷◌, All, IsIn, inl, inr,
  Bool-cases, Option-cases,
}
use verdict_machine.Base.Int.{ℤ}
use verdict_machine.Base.Text.{Text}
use verdict_machine.Base.Map.{Map, int_key, Every, insert-Every}
use verdict_machine.Base.Result.{ok, ok-injective}
use verdict_machine.Float.{Float, nought}
use verdict_machine.Time.{Time, before}
use verdict_machine.Market.Actions.{window_of, ratio_over}
use verdict_machine.Market.Fence.{
  EntityBoundary, BoundaryRefusal, guard_of, is_clear, is_explained, first_refusal, unique_sorted,
}
use verdict_machine.Market.Sources.{Store, Endpoint}
use verdict_machine.Market.Returns.{
  EntityReturn, ReturnSet, Fetched, Verdict, is_priced, is_refused, is_absent, boundaries_of,
  no_returns, report, record_verdict, judge_window, judge_ends, judge, judge_all, fetch, returns_of,
  entity_returns,
}

-- The boundary lets the window through.
abbrev pub passes : Time → Time → Map Time Time → List Time → EntityBoundary → Bool
passes from to guards ex_dates b = is_clear from to guards b || is_explained ex_dates guards b

-- What a refusal, or none, says of the boundaries.
abbrev pub IsJust :
    ℤ
    → Time
    → Time
    → List EntityBoundary
    → Map Time Time
    → List Time
    → Option BoundaryRefusal
    → Type 0
IsJust id from to bs guards ex_dates none = All (λ b. passes from to guards ex_dates b ≡ true) bs
IsJust id from to bs guards ex_dates (some r) =
    IsIn r.boundary bs
    × (passes r.from_date r.to_date guards ex_dates r.boundary ≡ false)
    × (r.guard_start ≡ guard_of guards r.boundary)
    × (r.entity_id ≡ id)

IsJust-later :
    (id : ℤ) (from to : Time) (guards : Map Time Time) (ex_dates : List Time) (b : EntityBoundary)
    (bs : List EntityBoundary) (o : Option BoundaryRefusal)
    → passes from to guards ex_dates b ≡ true
    → IsJust id from to bs guards ex_dates o
    → IsJust id from to (b ∷ bs) guards ex_dates o
IsJust-later id from to guards ex_dates b bs none e h = (e, h)
IsJust-later id from to guards ex_dates b bs (some r) e (there, out, start, own) =
    (inr there, out, start, own)

pub first_refusal-IsJust :
    (id : ℤ) (from to : Time) (bs : List EntityBoundary) (guards : Map Time Time)
    (ex_dates : List Time)
    → IsJust id from to bs guards ex_dates (first_refusal id from to bs guards ex_dates)
unfolding first_refusal
first_refusal-IsJust id from to [] guards ex_dates = tt
first_refusal-IsJust id from to (b ∷ bs) guards ex_dates =
    elim (Bool-cases (passes from to guards ex_dates b)) [
      | inl e ↦ rw e (
          IsJust-later id from to guards ex_dates b bs _ e
            (first_refusal-IsJust id from to bs guards ex_dates))
      | inr e ↦ rw e (inl refl, e, refl, refl)
    ]

module _ {F : Type 0} ⦃fl : Float F⦄ (w : Fetched F) where
  -- The window runs forwards, no boundary of the entity is near it without an action that explains it,
  -- the close divided by is positive, and the share ratio is that of the actions inside the window.
  abbrev pub IsSafe : ℤ → EntityReturn F → Type 0
  IsSafe id r =
      (before r.from_date r.to_date ≡ true)
      × All (λ b. passes r.from_date r.to_date w.guards (window_of w.adjs id).ex_dates b ≡ true)
          (boundaries_of w.boundaries id)
      × (fl.le r.from_close nought ≡ false)
      × ((r.share_ratio, r.ex_dates) ≡ ratio_over (window_of w.adjs id) r.from_date r.to_date)

  -- The refusal names a boundary of the entity near the window that no action explains.
  abbrev pub IsWarranted : ℤ → BoundaryRefusal → Type 0
  IsWarranted id r =
      IsIn r.boundary (boundaries_of w.boundaries id)
      × (passes r.from_date r.to_date w.guards (window_of w.adjs id).ex_dates r.boundary ≡ false)
      × (r.guard_start ≡ guard_of w.guards r.boundary)
      × (r.entity_id ≡ id)

  abbrev pub IsFenced : ReturnSet F → Type 0
  IsFenced rs = Every IsSafe rs.priced × Every IsWarranted rs.refused

  abbrev IsSound : ℤ → Verdict F → Type 0
  IsSound id (is_priced r) = IsSafe id r
  IsSound id (is_refused r) = IsWarranted id r
  IsSound id (is_absent why) = Unit

  record_verdict-IsFenced :
      (id : ℤ) (v : Verdict F) (rs : ReturnSet F)
      → IsSound id v
      → IsFenced rs
      → IsFenced (record_verdict id v rs)
  unfolding record_verdict
  record_verdict-IsFenced id (is_priced r) rs h (safe, just) =
      (insert-Every IsSafe id r rs.priced h safe, just)
  record_verdict-IsFenced id (is_refused r) rs h (safe, just) =
      (safe, insert-Every IsWarranted id r rs.refused h just)
  record_verdict-IsFenced id (is_absent why) rs h fenced = fenced

  judge_window-IsSound : (id : ℤ) (f t : Endpoint F) → IsSound id (judge_window w id f t)
  unfolding judge_window
  judge_window-IsSound id f t =
      let adj = window_of w.adjs id in
      let bs = boundaries_of w.boundaries id in
      let just = first_refusal-IsJust id f.date t.date bs w.guards adj.ex_dates in
      elim (Bool-cases (before f.date t.date)) [
        | inr e ↦ rw e tt
        | inl e ↦ elim (Option-cases (first_refusal id f.date t.date bs w.guards adj.ex_dates)) [
          | inr (r, q) ↦ rw (e, q) (subst (IsJust id f.date t.date bs w.guards adj.ex_dates) q just)
          | inl q ↦ elim (Bool-cases (fl.le f.close nought)) [
            | inl z ↦ rw (e, q, z) tt
            | inr z ↦
                rw (e, q, z)
                  (e, subst (IsJust id f.date t.date bs w.guards adj.ex_dates) q just, z, refl)
          ]
        ]
      ]

  judge_ends-IsSound : (id : ℤ) (f t : Option (Endpoint F)) → IsSound id (judge_ends w id f t)
  unfolding judge_ends
  judge_ends-IsSound id none none = tt
  judge_ends-IsSound id none (some t) = tt
  judge_ends-IsSound id (some f) none = tt
  judge_ends-IsSound id (some f) (some t) = judge_window-IsSound id f t

  judge_all-IsFenced :
      (rs : ReturnSet F) (ids : List ℤ) → IsFenced rs → IsFenced (judge_all w rs ids)
  unfolding judge_all
  judge_all-IsFenced rs [] h = h
  judge_all-IsFenced rs (id ∷ ids) h =
      judge_all-IsFenced (record_verdict id (judge w id) rs) ids
        (record_verdict-IsFenced id (judge w id) rs (judge_ends-IsSound id _ _) h)

module _ {F E : Type 0} ⦃fl : Float F⦄ where
  report-eq-ok :
      (rs rs' : ReturnSet F) (missing extra : List ℤ)
      → report {E = E} rs missing extra ≡ ok rs'
      → rs ≡ rs'
  report-eq-ok rs rs' [] [] h = ok-injective rs rs' h
  report-eq-ok rs rs' [] (x ∷ xs) h = cc
  report-eq-ok rs rs' (x ∷ xs) extra h = cc

  returns_of-IsFenced :
      (st : Store F E) (source : Text) (ids : List ℤ) (from to pin : Time) (w : Fetched F)
      (rs : ReturnSet F)
      → fetch st source ids from to pin ≡ ok w
      → returns_of st source ids from to pin ≡ ok rs
      → IsFenced w rs
  unfolding returns_of
  returns_of-IsFenced st source [] from to pin w rs fetched h =
      subst (IsFenced w) (ok-injective no_returns rs h) (tt, tt)
  returns_of-IsFenced st source (id ∷ ids) from to pin w rs fetched h =
      elim (Bool-cases (before from to)) [
        | inl e ↦
            subst (IsFenced w) (report-eq-ok _ rs _ _ (rw (e, fetched) at h))
              (judge_all-IsFenced w no_returns (id ∷ ids) (tt, tt))
        | inr e ↦ cc (rw e at h)
      ]

  -- What EntityReturns returns of the answers of its queries: every priced window runs forwards, divides
  -- by a positive close, carries the ratio of the actions inside it, and is near no succession boundary
  -- of its entity that an action in the guard band does not explain; every refusal is of its entity, and
  -- names a boundary that the refused window is near and that no action explains.
  pub entity_returns-IsFenced :
      (st : Store F E) (source : Text) (ids : List ℤ) (from to pin : Time) (w : Fetched F)
      (rs : ReturnSet F)
      → fetch st source (unique_sorted ids) from to pin ≡ ok w
      → entity_returns st source ids from to pin ≡ ok rs
      → IsFenced w rs
  unfolding entity_returns
  entity_returns-IsFenced st source ids from to pin w rs fetched h =
      returns_of-IsFenced st source (unique_sorted ids) from to pin w rs fetched h
