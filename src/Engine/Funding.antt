-- ===== src/Engine/Funding.antt =====
-- internal/engine/engine.go: a fill that the cash does not cover never ends a run, and is left unfilled.
use verdict_machine.Base.Map.{Map}
use verdict_machine.Base.Result.{Outcome, ok, err}
use verdict_machine.Float.{Float}
use verdict_machine.Time.{Time}
use verdict_machine.Risk.Model.{Gate}
use verdict_machine.Engine.Model
use verdict_machine.Engine.Model.{Portfolio}
use verdict_machine.Engine.Broker.{Execution}
use verdict_machine.Engine.Shortfall.{IsCashError, IsAllotted}
use verdict_machine.Engine.Seams.{Broker}
use verdict_machine.Engine.Steps.{Progress}
use verdict_machine.Engine.Run.{
  Engine, Error, market, few_sessions, execution, refused_fill, no_bars, no_adjustments, no_verdict,
  no_decision,
}

module _ {F E : Type 0} where
  -- The run ended on no fill, or on one that was refused for another reason than cash.
  abbrev pub IsFunded : Error F E → Type 0
  IsFunded (refused_fill on e) = ¬ IsCashError e
  IsFunded (market e) = Unit
  IsFunded (few_sessions n) = Unit
  IsFunded (no_bars on e) = Unit
  IsFunded (no_adjustments on e) = Unit
  IsFunded (execution e) = Unit
  IsFunded (no_decision name on e) = Unit
  IsFunded (no_verdict e) = Unit

module _ {F : Type 0} ⦃fl : Float F⦄ {E S : Type 0} where
  -- The session's fills are all accounted for, or it ended on one refused for another reason than cash.
  abbrev pub IsFilled :
      Time → Execution F → Progress F S → Outcome (Error F E) (Progress F S) → Type 0
  IsFilled on ex w (ok w') = IsAllotted on ex w w'
  IsFilled on ex w (err e) = IsFunded e
