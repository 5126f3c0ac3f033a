-- ===== src/Engine/Run.antt =====
-- internal/engine/engine.go: `Engine.Run`, a session at a time.
use verdict_machine.Base.{ℕ, List, [], ◌∷◌, ◌++◌, length}
use verdict_machine.Base.Int.{ℤ}
use verdict_machine.Base.Text.{Text}
use verdict_machine.Base.Sort.{sort_by}
use verdict_machine.Base.Map.{Map, text_key}
use verdict_machine.Base.Result.{Outcome, ok, err, ◌>>=◌, wrap_error}
use verdict_machine.Float.{Float}
use verdict_machine.Time.{Time}
use verdict_machine.Cost.Model.{is}
use verdict_machine.Risk.Model as RiskModel
use verdict_machine.Risk.Model.{Intent, Book, Rejection, Decision, Gate}
use verdict_machine.Risk.Gate.{check}
use verdict_machine.Engine.Model
use verdict_machine.Engine.Model.{
  Order, Fill, Unfilled, Portfolio, AdjustmentApplied, insufficient_cash,
}
use verdict_machine.Engine.Portfolio.{apply, equity}
use verdict_machine.Engine.Broker.{Execution}
use verdict_machine.Engine.Close.{Bar, book_of}
use verdict_machine.Engine.Seams.{Market, Broker, Session, Strategy}
use verdict_machine.Engine.Steps.{
  Report, Progress, last_session, sells_first, opens_of, closes_of, empty_book, fill_less,
  adjust_session, settled, unsettled, close_session, take_verdict, start,
}

pub record Result (F : Type 0) : Type 0 where
  pub strategy : Text
  pub from : Time
  pub to : Time
  pub sessions : ℕ
  pub report : Report F
  pub final : Portfolio F
  pub final_cash : F

-- `E` is the type of the errors of the market, the broker and the strategy.
pub data Error (F E : Type 0) : Type 0 where
  market : E → Error F E
  few_sessions : ℕ → Error F E
  no_bars no_adjustments : Time → E → Error F E
  execution : E → Error F E
  refused_fill : Time → Model.Error F → Error F E
  no_decision : Text → Time → E → Error F E
  no_verdict : RiskModel.Error F → Error F E

pub record Engine (F E S : Type 0) : Type 0 where
  pub market : Market F E
  pub broker : Broker F E
  pub gate : Gate F
  pub strategy : Strategy F E S

module _ {F : Type 0} ⦃fl : Float F⦄ {E S : Type 0} where
  -- A buy that the cash does not cover is left unfilled; any other error ends the run.
  abbrev pub refusal :
      Time → Progress F S → Fill F → Model.Error F → Outcome (Error F E) (Progress F S)
  refusal on w f (insufficient_cash scrip qty price needs charges cash) = ok (unsettled on w f)
  refusal on w f (Model.bad_quantity scrip qty) =
      err (refused_fill on (Model.bad_quantity scrip qty))
  refusal on w f (Model.short_sale qty scrip held) =
      err (refused_fill on (Model.short_sale qty scrip held))
  refusal on w f (Model.unknown_side scrip side) =
      err (refused_fill on (Model.unknown_side scrip side))

  unfoldable pub settle : Time → Progress F S → Fill F → Outcome (Error F E) (Progress F S)
  settle on w f = elim (apply w.portfolio f) [
    | ok p ↦ ok (settled w f p)
    | err e ↦ refusal on w f e
  ]

  unfoldable pub settle_all :
      Time → Progress F S → List (Fill F) → Outcome (Error F E) (Progress F S)
  settle_all on w [] = ok w
  settle_all on w (f ∷ fs) = settle on w f >>= λ w'. settle_all on w' fs

  -- The end of 1 and 2, on what the broker did.
  unfoldable pub book_execution :
      Time → Progress F S → Execution F → Outcome (Error F E) (Progress F S)
  book_execution on w ex = do
    w' ← settle_all on w (sort_by sells_first ex.fills)
    ok (record w' {
      pending = [];
      report = record (w'.report) { unfilled = w'.report.unfilled ++ ex.unfilled };
    })

  -- 1 and 2: the pending orders meet the opens.
  unfoldable pub fill_pending :
      Broker F E
      → Time
      → Map ℤ (Bar F)
      → Progress F S
      → List Order
      → Outcome (Error F E) (Progress F S)
  fill_pending b on bars w [] = ok w
  fill_pending b on bars w (o ∷ os) = do
    ex ← wrap_error execution (b.execute on (o ∷ os) (opens_of bars))
    book_execution on w ex

  -- 5: the gate decides the intents, if there are any.
  unfoldable pub submit :
      Gate F
      → Time
      → Map ℤ (Bar F)
      → Progress F S
      → List (Intent F)
      → Outcome (Error F E) (Progress F S)
  submit g on bars w [] = ok w
  submit g on bars w (i ∷ is) = do
    let closes = closes_of bars
    d ←
        wrap_error no_verdict
          (check g on (book_of closes (equity closes w.portfolio) w.portfolio) (i ∷ is))
    ok (take_verdict on bars w d)

  -- 4: the strategy sees the close.
  unfoldable pub decide_session :
      Engine F E S → Time → Map ℤ (Bar F) → Progress F S → Outcome (Error F E) (Progress F S)
  decide_session e on bars w = do
    let closes = closes_of bars
    let session : Session F E = record {
      date = on;
      portfolio = w.portfolio;
      equity = equity closes w.portfolio;
      closes = closes;
      market = e.market;
    }
    (state, intents) ←
        wrap_error (no_decision (e.strategy.name w.state) on) (e.strategy.decide w.state session)
    submit e.gate on bars (record w { state = state }) intents

  -- One round of the loop of `Run`.
  unfoldable pub run_session :
      Engine F E S → Progress F S → Time → Outcome (Error F E) (Progress F S)
  run_session e w on = do
    bars ← wrap_error (no_bars on) (e.market.bars on)
    adj ← wrap_error (no_adjustments on) (e.market.adjustments on)
    let adjusted = adjust_session adj w
    filled ← fill_pending e.broker on bars adjusted adjusted.pending
    decide_session e on bars (close_session on adj bars filled)

  unfoldable pub run_sessions :
      Engine F E S → Progress F S → List Time → Outcome (Error F E) (Progress F S)
  run_sessions e w [] = ok w
  run_sessions e w (on ∷ rest) = run_session e w on >>= λ w'. run_sessions e w' rest

  -- `Run`, on sessions of which there are at least two.
  unfoldable pub run_from :
      Engine F E S → S → F → Time → List Time → Outcome (Error F E) (Result F × S)
  run_from e state cash first rest = do
    d ← wrap_error no_verdict (check e.gate first empty_book [])
    w ← run_sessions e (start cash state d) (first ∷ rest)
    ok (
      record {
        strategy = e.strategy.name state;
        from = first;
        to = last_session first rest;
        sessions = length (first ∷ rest);
        report = record (w.report) { fills = sort_by fill_less w.report.fills };
        final = w.portfolio;
        final_cash = w.portfolio.cash;
      },
      w.state,
    )

  abbrev pub run_on : Engine F E S → S → F → List Time → Outcome (Error F E) (Result F × S)
  run_on e state cash (first ∷ second ∷ rest) = run_from e state cash first (second ∷ rest)
  run_on e state cash few = err (few_sessions (length few))

  -- `Engine.Run`, from the strategy's state and with the state that it ends in.
  unfoldable pub run : Engine F E S → S → F → Outcome (Error F E) (Result F × S)
  run e state cash =
      wrap_error market e.market.sessions >>= λ sessions. run_on e state cash sessions
