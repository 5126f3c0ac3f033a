-- ===== src/Engine/Pace.antt =====
-- internal/engine/engine.go: which session decided an order, and which filled it.
use mathlib.Core.List.{append_assoc}
use verdict_machine.Base.{◌≡◌, ap, ◌∙◌, List, [], ◌∷◌, ◌++◌, map, All}
use verdict_machine.Base.Int.{ℤ}
use verdict_machine.Base.Map.{Map, int_key}
use verdict_machine.Base.Result.{ok}
use verdict_machine.Time.{Time}
use verdict_machine.Engine.Model.{Order, Fill}
use verdict_machine.Engine.Broker.{Execution}
use verdict_machine.Engine.Seams.{Broker}
use verdict_machine.Engine.Steps.{Progress}

-- `d` is the last of the sessions done.
abbrev pub IsLast : List Time → Time → Type 0
IsLast done d = (xs : List Time) × (done ≡ xs ++ (d ∷ []))

-- `b` is the session right after `a`.
abbrev pub IsNext : List Time → Time → Time → Type 0
IsNext sessions a b = (xs : List Time) × (ys : List Time) × (sessions ≡ xs ++ (a ∷ b ∷ ys))

pub IsNext-append :
    (done more : List Time) (a b : Time) → IsNext done a b → IsNext (done ++ more) a b
IsNext-append done more a b (xs, ys, e) =
    (xs, ys ++ more, ap (λ l. l ++ more) e ∙ append_assoc xs (a ∷ b ∷ ys) more)

pub IsLast-IsNext : (done : List Time) (a b : Time) → IsLast done a → IsNext (done ++ (b ∷ [])) a b
IsLast-IsNext done a b (xs, e) =
    (xs, [], ap (λ l. l ++ (b ∷ [])) e ∙ append_assoc xs (a ∷ []) (b ∷ []))

module _ {F : Type 0} where
  -- A fill of the session `on`, of an order of the last session done.
  abbrev pub IsTimely : List Time → Time → Fill F → Type 0
  IsTimely done on f = (f.date ≡ on) × IsLast done f.decided_on

  abbrev pub IsPacedFill : List Time → Fill F → Type 0
  IsPacedFill sessions f = IsNext sessions f.decided_on f.date

module _ {F E : Type 0} where
  -- What `Run` relies on from its broker: fills are of the session that they were asked for, and of
  -- the orders given. What holds of all of these holds of each that is filled.
  abbrev pub IsBroker : Broker F E → Type 1
  IsBroker b =
      (on : Time) (orders : List Order) (opens : Map ℤ F) (ex : Execution F)
      → b.execute on orders opens ≡ ok ex
      → (P : Order → Type 0) → All P orders
      → All (λ f. (f.date ≡ on) × P f.order) ex.fills

module _ {F S : Type 0} where
  abbrev pub points : Progress F S → List Time
  points w = map (λ p. p.date) w.report.equity

  -- Between sessions: the pending orders are of the last one.
  pub record IsPaced (done : List Time) (w : Progress F S) : Type 0 where
    pub pending : All (λ o. IsLast done o.decided_on) w.pending
    pub fills : All (IsPacedFill done) w.report.fills
    pub curve : points w ≡ done

  -- Inside the session `on`, once the pending orders met its opens.
  pub record IsCleared (done : List Time) (on : Time) (w : Progress F S) : Type 0 where
    pub pending : w.pending ≡ []
    pub fills : All (IsPacedFill (done ++ (on ∷ []))) w.report.fills
    pub curve : points w ≡ done
