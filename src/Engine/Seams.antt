-- ===== src/Engine/Seams.antt =====
-- internal/engine/market.go, engine.go and broker.go: the interfaces between the engine, its market,
-- its broker and its strategy. `E` is the type of the errors that their implementations return.
use verdict_machine.Base.{ℕ, List}
use verdict_machine.Base.Int.{ℤ}
use verdict_machine.Base.Text.{Text}
use verdict_machine.Base.Map.{Map}
use verdict_machine.Base.Result.{Outcome, wrap_error}
use verdict_machine.Time.{Time}
use verdict_machine.Risk.Model.{Intent}
use verdict_machine.Engine.Model.{Order, Portfolio}
use verdict_machine.Float.{Float}
use verdict_machine.Engine.Broker.{Execution, Paper, BrokerError, execute}
use verdict_machine.Engine.Close.{Bar}

-- `last_break` is only reported, and is left out.
pub record Member : Type 0 where
  pub entity_id : ℤ
  pub scrip : Text
  pub rank : ℕ

pub record ReturnSet (F : Type 0) : Type 0 where
  pub priced : Map ℤ F
  pub refused : Map ℤ Text
  pub absent : Map ℤ Text

pub record DatedClose (F : Type 0) : Type 0 where
  pub date : Time
  pub close : F

pub record Market (F E : Type 0) : Type 0 where
  pub sessions : Outcome E (List Time)
  pub bars : Time → Outcome E (Map ℤ (Bar F))
  pub universe : Time → Outcome E (List Member)
  pub returns : List ℤ → Time → Time → Outcome E (ReturnSet F)
  pub closes : ℤ → Time → Time → Outcome E (List (DatedClose F))
  pub index_closes : Text → Time → Time → Outcome E (List (DatedClose F))
  pub volatility : List ℤ → Time → Time → Outcome E (Map ℤ F × Map ℤ Text)
  pub adjustments : Time → Outcome E (Map ℤ F)

pub record Broker (F E : Type 0) : Type 0 where
  pub execute : Time → List Order → Map ℤ F → Outcome E (Execution F)

-- What a strategy sees at a session's close.
pub record Session (F E : Type 0) : Type 0 where
  pub date : Time
  pub portfolio : Portfolio F
  pub equity : F
  pub closes : Map ℤ F
  pub market : Market F E

-- A strategy with a state `S` of its own, which `Decide` changes.
pub record Strategy (F E S : Type 0) : Type 0 where
  pub name : S → Text
  pub decide : S → Session F E → Outcome E (S × List (Intent F))

-- `Paper` as a `Broker`, its errors among those of the run.
abbrev pub paper_broker : {F E : Type 0} ⦃fl : Float F⦄ → (BrokerError F → E) → Paper F → Broker F E
paper_broker fault p = record {
  execute = λ on orders opens. wrap_error fault (execute p on orders opens);
}
