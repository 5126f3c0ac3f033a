-- ===== src/Strategy/Sight.antt =====
-- internal/strategy: without the index's closes, the trend filter neither buys nor sells anything.
use verdict_machine.Base.{
  ◌-◌, ◌≤◌, ◌≡◌, ◌≢◌, refl, sym, ap, ◌∙◌, inl, inr, List, [], ◌∷◌, true, false, Bool-cases,
  if◌then◌else◌, ltb, length, drop, arith,
}
use verdict_machine.Base.Result.{
  Outcome, ok, err, >>=-eq-ok, ok-injective, wrap_error, wrap_error-eq-ok,
}
use verdict_machine.Float.{Float}
use verdict_machine.Time.{Time, same_time}
use verdict_machine.Risk.Model.{Intent}
use verdict_machine.Engine.Seams.{DatedClose, Session}
use verdict_machine.Strategy.Filter.{
  Stance, risk_on, risk_off, unknown, Reason, TrendFilter, trend_filter, trend_stance, judge_closes,
  judge_window, mean_close, last_close, reach_back,
}
use verdict_machine.Strategy.Rankers.{reading}
use verdict_machine.Strategy.Selector.{Selector}
use verdict_machine.Strategy.Decide.{load_calendar, sit_out, act, decide}

module _ {F : Type 0} ⦃fl : Float F⦄ where
  -- The stance is that of `Days` closes of which the last is the session's own.
  pub record IsJudged (f : TrendFilter) (on : Time) (closes : List (DatedClose F)) (stance : Stance)
      : Type 0 where
    pub first : DatedClose F
    pub rest : List (DatedClose F)
    pub enough : f.days ≤ length closes
    pub window : drop (length closes - f.days) closes ≡ first ∷ rest
    pub current : same_time (last_close first rest).date on ≡ true
    pub by_mean : stance ≡ (
        if fl.lt (mean_close f (first ∷ rest)) (last_close first rest).close
        then risk_on
        else risk_off)

  judge_closes-IsJudged :
      (E : Type 0) (f : TrendFilter) (on : Time) (closes : List (DatedClose F))
      → (judge_closes {E = E} f on closes).0 ≢ unknown
      → IsJudged f on closes (judge_closes {E = E} f on closes).0
  unfolding judge_closes judge_window
  judge_closes-IsJudged E f on closes sees = elim (Bool-cases (ltb (length closes) f.days)) [
    | inl few ↦ absurd (sees (rw (few) refl))
    | inr enough ↦ by_window (drop (length closes - f.days) closes) refl enough
  ]
    where
      by_window :
          (w : List (DatedClose F))
          → drop (length closes - f.days) closes ≡ w
          → ltb (length closes) f.days ≡ false
          → IsJudged f on closes (judge_closes {E = E} f on closes).0
      by_window [] e enough = absurd (sees (rw (enough, e) refl))
      by_window (c ∷ cs) e enough = elim (Bool-cases (same_time (last_close c cs).date on)) [
        | inr stale ↦ absurd (sees (rw (enough, e, stale) refl))
        | inl current ↦ elim (Bool-cases (fl.lt (mean_close f (c ∷ cs)) (last_close c cs).close)) [
          | inl above ↦ record {
            first = c;
            rest = cs;
            enough = ground arith;
            window = e;
            current = current;
            by_mean = rw (enough, e, current, above) refl;
          }
          | inr below ↦ record {
            first = c;
            rest = cs;
            enough = ground arith;
            window = e;
            current = current;
            by_mean = rw (enough, e, current, below) refl;
          }
        ]
      ]

module _ {F E : Type 0} ⦃fl : Float F⦄ where
  -- The closes that the filter reads for the session, and what it makes of them.
  abbrev pub IsSeen : TrendFilter → Session F E → Stance → Type 0
  IsSeen f s stance =
      (closes : List (DatedClose F)) × (s.market.index_closes f.index_code (reach_back f s.date)
          s.date
        ≡ ok closes)
      × IsJudged f s.date closes stance

  trend_stance-IsSeen :
      (f : TrendFilter) (s : Session F E)
      → (trend_stance f s).0 ≢ unknown
      → IsSeen f s (trend_stance f s).0
  unfolding trend_stance
  trend_stance-IsSeen f s sees =
      by_closes (s.market.index_closes f.index_code (reach_back f s.date) s.date) refl
    where
      by_closes :
          (o : Outcome E (List (DatedClose F)))
          → s.market.index_closes f.index_code (reach_back f s.date) s.date ≡ o
          → IsSeen f s (trend_stance f s).0
      by_closes (err x) e = absurd (sees (rw (trend_stance, e) refl))
      by_closes (ok closes) e =
          rw (trend_stance, e)
            (closes, refl, judge_closes-IsJudged E f s.date closes (rw (trend_stance, e) at sees))

  act-unknown :
      (m m' : Selector F E) (s : Session F E) (stance : Stance) (why : Reason F E) (i : Intent F)
      (is : List (Intent F))
      → act m s stance why ≡ ok (m', i ∷ is)
      → stance ≢ unknown
  unfolding act
  act-unknown m m' s unknown why i is h =
      cc (ap (λ a. a.1) (ok-injective (sit_out m why, []) (m', i ∷ is) h))
  act-unknown m m' s risk_on why i is h = λ q. cc
  act-unknown m m' s risk_off why i is h = λ q. cc

  load_calendar-filter :
      (m n : Selector F E) (s : Session F E) → load_calendar m s ≡ ok n → n.filter ≡ m.filter
  unfolding load_calendar
  load_calendar-filter m n s h = by_calendar m.calendar refl
    where
      by_calendar : (c : List Time) → m.calendar ≡ c → n.filter ≡ m.filter
      by_calendar (t ∷ ts) e =
          ap (λ a. a.filter) (sym (ok-injective m n (rw (load_calendar, e) at h)))
      by_calendar [] e =
          let (sessions, _, q) =
            >>=-eq-ok (wrap_error reading s.market.sessions) _ n (rw (load_calendar, e) at h) in
          ap (λ a. a.filter) (sym (ok-injective _ n q))

  -- Under the trend filter, whenever `Decide` intends any order at all, buy or sell, the market gave at
  -- least `Days` closes of the index, the last of them of the session itself, and the stance is the
  -- comparison of that close with the mean of the last `Days`: a gap in the index moves no position.
  pub decide-IsSeen :
      (f : TrendFilter) (m m' : Selector F E) (s : Session F E) (i : Intent F)
      (is : List (Intent F))
      → m.filter ≡ trend_filter f
      → decide m s ≡ ok (m', i ∷ is)
      → IsSeen f s (trend_stance f s).0
  unfolding decide
  decide-IsSeen f m m' s i is trend h =
      let (n, loaded, q) = >>=-eq-ok (load_calendar m s) _ (m', i ∷ is) h in
      let ((stance, why), read, acted) =
        >>=-eq-ok (wrap_error reading (n.filter.stance s)) _ (m', i ∷ is) q in
      let same : trend_stance f s ≡ (stance, why) =
        ok-injective {E = E} (trend_stance f s) (stance, why)
          (sym (ap (λ a. a.stance s) (load_calendar-filter m n s loaded ∙ trend))
            ∙ wrap_error-eq-ok reading (n.filter.stance s) (stance, why) read) in
      trend_stance-IsSeen f s
        (λ e. act-unknown n m' s stance why i is acted (sym (ap (λ a. a.0) same) ∙ e))
