-- ===== src/Engine/Settlement.antt =====
-- internal/engine/engine.go: what applying a session's fills adds, and what it leaves as it was.
use verdict_machine.Base.{◌≡◌, refl, ◌∙◌, List, [], ◌∷◌, All, All-append}
use verdict_machine.Base.Map.{int_key}
use verdict_machine.Base.Result.{Outcome, ok, err, >>=-eq-ok, ok-injective}
use verdict_machine.Float.{Float}
use verdict_machine.Time.{Time}
use verdict_machine.Engine.Model
use verdict_machine.Engine.Model.{Order, Fill, Portfolio, insufficient_cash}
use verdict_machine.Engine.Portfolio.{apply}
use verdict_machine.Engine.Steps.{Progress}
use verdict_machine.Engine.Run.{Error, refusal, settle, settle_all}

module _ {F S : Type 0} where
  -- What settling a list of fills leaves as it was, and what it adds.
  pub record IsSettled (fs : List (Fill F)) (w w' : Progress F S) : Type 1 where
    pub pending : w'.pending ≡ w.pending
    pub curve : w'.report.equity ≡ w.report.equity
    pub fills : (P : Fill F → Type 0) → All P fs → All P w.report.fills → All P w'.report.fills

module _ {F : Type 0} ⦃fl : Float F⦄ {E S : Type 0} where
  refusal-IsSettled :
      (on : Time) (w w' : Progress F S) (f : Fill F) (e : Model.Error F)
      → ◌≡◌ {A = Outcome (Error F E) (Progress F S)} (refusal on w f e) (ok w')
      → IsSettled (f ∷ []) w w'
  refusal-IsSettled on w w' f (insufficient_cash scrip qty price needs charges cash) h =
      rw (← ok-injective _ w' h) (record { pending = refl; curve = refl; fills = λ P p q. q })
  refusal-IsSettled on w w' f (Model.bad_quantity scrip qty) h = cc
  refusal-IsSettled on w w' f (Model.short_sale qty scrip held) h = cc
  refusal-IsSettled on w w' f (Model.unknown_side scrip side) h = cc

  settle-IsSettled :
      (on : Time) (w w' : Progress F S) (f : Fill F)
      → ◌≡◌ {A = Outcome (Error F E) (Progress F S)} (settle on w f) (ok w')
      → IsSettled (f ∷ []) w w'
  unfolding settle
  settle-IsSettled on w w' f h = by_result (apply w.portfolio f) refl
    where
      by_result :
          (o : Outcome (Model.Error F) (Portfolio F))
          → apply w.portfolio f ≡ o
          → IsSettled (f ∷ []) w w'
      by_result (ok p) e = rw (← ok-injective _ w' (rw (settle, e) at h)) (record {
        pending = refl;
        curve = refl;
        fills = λ P (p, _) q. All-append P w.report.fills (f ∷ []) q (p, tt);
      })
      by_result (err x) e = refusal-IsSettled on w w' f x (rw (settle, e) at h)

  pub settle_all-IsSettled :
      (on : Time) (fs : List (Fill F)) (w w' : Progress F S)
      → ◌≡◌ {A = Outcome (Error F E) (Progress F S)} (settle_all on w fs) (ok w')
      → IsSettled fs w w'
  unfolding settle_all
  settle_all-IsSettled on [] w w' h =
      rw (← ok-injective w w' h) (record { pending = refl; curve = refl; fills = λ P p q. q })
  settle_all-IsSettled on (f ∷ fs) w w' h =
      let (v, first, later) = >>=-eq-ok (settle on w f) _ w' h in
      let a = settle-IsSettled on w v f first in
      let b = settle_all-IsSettled on fs v w' later in
      record {
        pending = b.pending ∙ a.pending;
        curve = b.curve ∙ a.curve;
        fills = λ P (p, ps) q. b.fills P ps (a.fills P (p, tt) q);
      }
