-- ===== src/Engine/Discipline.antt =====
-- internal/engine/engine.go: no order is filled at the close that decided it, in all of a run.
use verdict_machine.Risk.Model.{Intent, Gate, Decision}
use verdict_machine.Risk.Gate.{check}
use mathlib.Core.List.{append-nil, append_assoc}
use verdict_machine.Base.{◌≡◌, refl, sym, ap, ◌∙◌, List, [], ◌∷◌, ◌++◌, map, All, All-of_map}
use mathlib.Core.Path.{subst}
use verdict_machine.Base.Int.{ℤ}
use verdict_machine.Base.Map.{Map, int_key}
use verdict_machine.Base.Sort.{sort_by, sort_by-All}
use verdict_machine.Base.Result.{Outcome, ok, >>=-eq-ok, ok-injective, wrap_error, wrap_error-eq-ok}
use verdict_machine.Float.{Float}
use verdict_machine.Time.{Time}
use verdict_machine.Engine.Close.{Bar, order_of}
use verdict_machine.Engine.Steps.{
  Progress, start, empty_book, fill_less, adjust_session, close_session, take_verdict,
}
use verdict_machine.Engine.Run.{
  Engine, Error, market, Result, run, run_on, run_from, no_bars, no_adjustments, no_verdict,
  no_decision, fill_pending, submit, decide_session, run_session, run_sessions,
}
use verdict_machine.Engine.Pace.{IsLast, IsBroker, IsPacedFill, IsPaced}
use verdict_machine.Engine.Clearing.{
  adjust_session-IsPaced, close_session-IsPaced, fill_pending-IsCleared,
}

module _ {F : Type 0} ⦃fl : Float F⦄ {S : Type 0} where
  start-IsPaced : (cash : F) (state : S) (d : Decision F) → IsPaced [] (start cash state d)
  start-IsPaced cash state d = record { pending = tt; fills = tt; curve = refl }

module _ {F : Type 0} ⦃fl : Float F⦄ {E S : Type 0} where
  submit-IsPaced :
      (done : List Time) (g : Gate F) (on : Time) (bars : Map ℤ (Bar F)) (w w' : Progress F S)
      (is : List (Intent F))
      → IsPaced (done ++ (on ∷ [])) w
      → w.pending ≡ []
      → ◌≡◌ {A = Outcome (Error F E) (Progress F S)} (submit g on bars w is) (ok w')
      → IsPaced (done ++ (on ∷ [])) w'
  unfolding submit take_verdict order_of
  submit-IsPaced done g on bars w w' [] h none_pending e = rw (← ok-injective w w' e) h
  submit-IsPaced done g on bars w w' (i ∷ is) h none_pending e =
      let (d, checked, last) = >>=-eq-ok (wrap_error no_verdict (check g on _ (i ∷ is))) _ w' e in
      rw (← ok-injective _ w' last) (record {
        pending = rw none_pending (
            All-of_map (λ _. Unit) (λ o. IsLast (done ++ (on ∷ [])) o.decided_on) (order_of bars on)
              d.accepted (λ a _. decided a) (every d.accepted));
        fills = h.fills;
        curve = h.curve;
      })
    where
      every : (xs : List (Intent F)) → All (λ _. Unit {0}) xs
      every [] = tt
      every (x ∷ xs) = (tt, every xs)

      decided : (a : Intent F) → IsLast (done ++ (on ∷ [])) (order_of bars on a).decided_on
      decided a = (done, refl)

  run_session-IsPaced :
      (done : List Time) (e : Engine F E S) (w w' : Progress F S) (on : Time)
      → IsBroker e.broker
      → IsPaced done w
      → run_session e w on ≡ ok w'
      → IsPaced (done ++ (on ∷ [])) w'
  unfolding run_session decide_session
  run_session-IsPaced done e w w' on lawful h q =
      let (bars, _, q1) = >>=-eq-ok (wrap_error (no_bars on) (e.market.bars on)) _ w' q in
      let (adj, _, q2) =
        >>=-eq-ok (wrap_error (no_adjustments on) (e.market.adjustments on)) _ w' q1 in
      let (filled, met, q3) =
        >>=-eq-ok
          (fill_pending e.broker on bars (adjust_session adj w) (adjust_session adj w).pending) _ w'
          q2 in
      let cleared =
        fill_pending-IsCleared done on e.broker bars (adjust_session adj w) filled _ lawful
          (adjust_session-IsPaced done adj w h) refl met in
      let (closed, empty) = close_session-IsPaced done on adj bars filled cleared in
      let ((state, intents), _, submitted) =
        >>=-eq-ok
          (wrap_error (no_decision _ on)
            (e.strategy.decide (close_session on adj bars filled).state _))
          _ w' q3 in
      submit-IsPaced done e.gate on bars
        (record (close_session on adj bars filled) { state = state }) w' intents
        (record { pending = closed.pending; fills = closed.fills; curve = closed.curve }) empty
        submitted

  run_sessions-IsPaced :
      (done more : List Time) (e : Engine F E S) (w w' : Progress F S)
      → IsBroker e.broker
      → IsPaced done w
      → run_sessions e w more ≡ ok w'
      → IsPaced (done ++ more) w'
  unfolding run_sessions
  run_sessions-IsPaced done [] e w w' lawful h q = rw (append-nil, ← ok-injective w w' q) h
  run_sessions-IsPaced done (on ∷ rest) e w w' lawful h q =
      let (v, first, later) = >>=-eq-ok (run_session e w on) _ w' q in
      rw (append_assoc done (on ∷ []) rest) at (
        run_sessions-IsPaced (done ++ (on ∷ [])) rest e v w' lawful
          (run_session-IsPaced done e w v on lawful h first) later)

  -- The end of a run that returns.
  run_from-inv :
      (e : Engine F E S) (state : S) (cash : F) (first : Time) (rest : List Time) (r : Result F)
      (last : S)
      → run_from e state cash first rest ≡ ok (r, last)
      → (d : Decision F) × (w : Progress F S) × (run_sessions e (start cash state d) (first ∷ rest)
          ≡ ok w)
        × (r.report.fills ≡ sort_by fill_less w.report.fills)
        × (r.report.equity ≡ w.report.equity)
  unfolding run_from
  run_from-inv e state cash first rest r last h =
      let (d, _, h1) =
        >>=-eq-ok (wrap_error no_verdict (check e.gate first empty_book [])) _ (r, last) h in
      let (w, ran, h2) =
        >>=-eq-ok (run_sessions e (start cash state d) (first ∷ rest)) _ (r, last) h1 in
      let same = ok-injective _ (r, last) h2 in
      (d, w, ran, ap (λ a. a.0.report.fills) (sym same), ap (λ a. a.0.report.equity) (sym same))

  run_on-IsPaced :
      (e : Engine F E S) (state : S) (cash : F) (sessions : List Time) (r : Result F) (last : S)
      → IsBroker e.broker
      → run_on e state cash sessions ≡ ok (r, last)
      → All (IsPacedFill sessions) r.report.fills × (map (λ p. p.date) r.report.equity ≡ sessions)
  run_on-IsPaced e state cash [] r last lawful h = cc
  run_on-IsPaced e state cash (a ∷ []) r last lawful h = cc
  run_on-IsPaced e state cash (a ∷ b ∷ rest) r last lawful h =
      let (d, w, ran, fills, curve) = run_from-inv e state cash a (b ∷ rest) r last h in
      let paced =
        run_sessions-IsPaced [] (a ∷ b ∷ rest) e (start cash state d) w lawful
          (start-IsPaced cash state d) ran in
      (
        rw (fills) (sort_by-All fill_less _ w.report.fills paced.fills),
        ap (λ l. map (λ p. p.date) l) curve ∙ paced.curve,
      )

  -- Where the broker fills only orders that it was given, at the session asked for: when `Run` returns
  -- a result, each fill's order was decided at the close of the session right before the fill's, in the
  -- market's list of sessions, and the equity curve has one point for each session, in order.
  pub run-IsPaced :
      (e : Engine F E S) (state : S) (cash : F) (sessions : List Time) (r : Result F) (last : S)
      → IsBroker e.broker
      → e.market.sessions ≡ ok sessions
      → run e state cash ≡ ok (r, last)
      → All (IsPacedFill sessions) r.report.fills × (map (λ p. p.date) r.report.equity ≡ sessions)
  unfolding run
  run-IsPaced e state cash sessions r last lawful known h =
      let (found, read, on_found) = >>=-eq-ok (wrap_error market e.market.sessions) _ (r, last) h in
      let same = ok-injective found sessions (sym (wrap_error-eq-ok market _ found read) ∙ known) in
      run_on-IsPaced e state cash sessions r last lawful
        (subst (λ l. run_on e state cash l ≡ ok (r, last)) same on_found)
