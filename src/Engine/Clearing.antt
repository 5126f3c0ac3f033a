-- ===== src/Engine/Clearing.antt =====
-- internal/engine/engine.go: the pending orders meet the opens of the next session, all of them.
use mathlib.Core.List.{map-append}
use verdict_machine.Base.{
  ◌≡◌, refl, sym, ap, ◌∙◌, inl, inr, List, [], ◌∷◌, ◌++◌, map, All, All-map, All-of_map,
  Option-cases, Bool-cases,
}
use mathlib.Core.Path.{subst}
use verdict_machine.Base.Int.{ℤ}
use verdict_machine.Base.Map.{Map, lookup, int_key}
use verdict_machine.Base.Sort.{sort_by, sort_by-All}
use verdict_machine.Base.Result.{Outcome, ok, >>=-eq-ok, ok-injective, wrap_error, wrap_error-eq-ok}
use verdict_machine.Float.{Float, nought}
use verdict_machine.Time.{Time}
use verdict_machine.Engine.Model.{Order, Fill}
use verdict_machine.Engine.Broker.{Execution}
use verdict_machine.Engine.Close.{Bar, scale_order}
use verdict_machine.Engine.Seams.{Broker}
use verdict_machine.Engine.Steps.{Progress, adjust_session, sells_first, close_session}
use verdict_machine.Engine.Run.{Error, execution, settle_all, book_execution, fill_pending}
use verdict_machine.Engine.Settlement.{settle_all-IsSettled}
use verdict_machine.Engine.Pace.{
  IsLast, IsNext, IsNext-append, IsLast-IsNext, IsBroker, IsTimely, IsPacedFill, IsPaced, IsCleared,
}

module _ {F : Type 0} ⦃fl : Float F⦄ where
  scale_order-decided_on :
      (ratios : Map ℤ F) (o : Order) → (scale_order ratios o).decided_on ≡ o.decided_on
  unfolding scale_order
  scale_order-decided_on ratios o = elim (Option-cases (lookup o.entity_id ratios)) [
    | inl e ↦ rw (e, scale_order) refl
    | inr (r, e) ↦ elim (Bool-cases (fl.lt nought r)) [
      | inl up ↦ rw (e, scale_order, up) refl
      | inr low ↦ rw (e, scale_order, low) refl
    ]
  ]

module _ {F : Type 0} ⦃fl : Float F⦄ {S : Type 0} where
  pub adjust_session-IsPaced :
      (done : List Time) (adj : Map ℤ F) (w : Progress F S)
      → IsPaced done w
      → IsPaced done (adjust_session adj w)
  unfolding adjust_session
  adjust_session-IsPaced done [] w h = h
  adjust_session-IsPaced done (a ∷ adj) w h = record {
    pending =
        All-of_map (λ (o : Order). IsLast done o.decided_on)
          (λ (o : Order). IsLast done o.decided_on) (scale_order (a ∷ adj)) w.pending
          (λ o p. rw (scale_order-decided_on (a ∷ adj) o) p) h.pending;
    fills = h.fills;
    curve = h.curve;
  }

  pub close_session-IsPaced :
      (done : List Time) (on : Time) (adj : Map ℤ F) (bars : Map ℤ (Bar F)) (w : Progress F S)
      → IsCleared done on w
      → IsPaced (done ++ (on ∷ [])) (close_session on adj bars w)
        × ((close_session on adj bars w).pending ≡ [])
  unfolding close_session
  close_session-IsPaced done on adj bars w h = (
    record {
      pending = rw h.pending tt;
      fills = h.fills;
      curve = map-append (λ p. p.date) w.report.equity _ ∙ ap (λ l. l ++ (on ∷ [])) h.curve;
    },
    h.pending,
  )

module _ {F : Type 0} ⦃fl : Float F⦄ {E S : Type 0} where
  book_execution-IsCleared :
      (done : List Time) (on : Time) (w w' : Progress F S) (ex : Execution F)
      → IsPaced done w
      → All (IsTimely done on) ex.fills
      → ◌≡◌ {A = Outcome (Error F E) (Progress F S)} (book_execution on w ex) (ok w')
      → IsCleared done on w'
  unfolding book_execution
  book_execution-IsCleared done on w w' ex h timely e =
      let (v, settled, last) = >>=-eq-ok (settle_all on w (sort_by sells_first ex.fills)) _ w' e in
      let s = settle_all-IsSettled on (sort_by sells_first ex.fills) w v settled in
      rw (← ok-injective _ w' last) (record {
        pending = refl;
        fills =
            s.fills (IsPacedFill (done ++ (on ∷ [])))
              (sort_by-All sells_first _ ex.fills
                (All-map (IsTimely done on) _ ex.fills next timely))
              (All-map (IsPacedFill done) _ w.report.fills
                (λ f. IsNext-append done (on ∷ []) f.decided_on f.date) h.fills);
        curve = ap (λ l. map (λ p. p.date) l) s.curve ∙ h.curve;
      })
    where
      next : (f : Fill F) → IsTimely done on f → IsPacedFill (done ++ (on ∷ [])) f
      next f (same, late) =
          subst (λ d. IsNext (done ++ (on ∷ [])) f.decided_on d) (sym same)
            (IsLast-IsNext done f.decided_on on late)

  pub fill_pending-IsCleared :
      (done : List Time) (on : Time) (b : Broker F E) (bars : Map ℤ (Bar F)) (w w' : Progress F S)
      (orders : List Order)
      → IsBroker b
      → IsPaced done w
      → w.pending ≡ orders
      → fill_pending b on bars w orders ≡ ok w'
      → IsCleared done on w'
  unfolding fill_pending
  fill_pending-IsCleared done on b bars w w' [] lawful h e q = rw (← ok-injective w w' q) (record {
    pending = e;
    fills =
        All-map (IsPacedFill done) _ w.report.fills
          (λ f. IsNext-append done (on ∷ []) f.decided_on f.date) h.fills;
    curve = h.curve;
  })
  fill_pending-IsCleared done on b bars w w' (o ∷ os) lawful h e q =
      let (ex, executed, booked) =
        >>=-eq-ok (wrap_error execution (b.execute on (o ∷ os) _)) _ w' q in
      book_execution-IsCleared done on w w' ex h
        (lawful on (o ∷ os) _ ex (wrap_error-eq-ok execution _ ex executed)
          (λ a. IsLast done a.decided_on) (rw e at h.pending))
        booked
