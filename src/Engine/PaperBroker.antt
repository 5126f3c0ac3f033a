-- ===== src/Engine/PaperBroker.antt =====
-- internal/engine/broker.go: the paper broker keeps what `Run` relies on from its broker.
use verdict_machine.Base.{
  ◌≡◌, refl, inl, inr, List, [], ◌∷◌, Bool, All, All-append, Option-cases, Bool-cases, ◌==◌, length,
}
use verdict_machine.Base.Int.{ℤ}
use verdict_machine.Base.Map.{Map}
use verdict_machine.Base.Result.{ok, ok-injective, >>=-eq-ok, wrap_error, wrap_error-eq-ok}
use verdict_machine.Base.Text.{less_text}
use verdict_machine.Base.Sort.{sort_by-All}
use verdict_machine.Cost.Model.{Trade, Charges}
use verdict_machine.Cost.Day.{price_day}
use verdict_machine.Float.{Float}
use verdict_machine.Time.{Time}
use verdict_machine.Cost.Day.{DayCharges}
use verdict_machine.Engine.Model.{Order, Fill}
use verdict_machine.Engine.Broker.{
  Paper, Batch, BrokerError, Execution, tradable_open, fill_orders, fill_batch, execute_batch,
  dp_per_scrip, pricing, take_order, take_orders, no_orders, execute,
}
use verdict_machine.Engine.Seams.{paper_broker}
use verdict_machine.Engine.Pace.{IsBroker}

module _ {F : Type 0} ⦃fl : Float F⦄ (on : Time) (P : Order → Type 0) where
  abbrev IsOf : Fill F → Type 0
  IsOf f = (f.date ≡ on) × P f.order

  fill_orders-IsOf :
      (dp : F) (os : List Order) (ts : List (Trade F)) (cs : List (Charges F))
      (charged : Map ℤ Bool)
      → All P os
      → All IsOf (fill_orders dp on charged os ts cs)
  unfolding fill_orders
  fill_orders-IsOf dp [] ts cs charged h = tt
  fill_orders-IsOf dp (o ∷ os) [] cs charged h = tt
  fill_orders-IsOf dp (o ∷ os) (t ∷ ts) [] charged h = tt
  fill_orders-IsOf dp (o ∷ os) (t ∷ ts) (c ∷ cs) charged (p, ps) =
      ((refl, p), fill_orders-IsOf dp os ts cs _ ps)

  fill_batch-IsOf :
      (b : Batch F) (day : DayCharges F) (ex : Execution F)
      → All P b.fillable
      → fill_batch on b day ≡ ok ex
      → All IsOf ex.fills
  unfolding fill_batch
  fill_batch-IsOf b day ex h e = elim (Bool-cases (length day.trades == length b.fillable)) [
    | inr off ↦ cc (rw off at e)
    | inl even ↦ rw (← ok-injective _ ex (rw even at e)) (
        sort_by-All (λ f g. less_text f.scrip g.scrip) IsOf _
          (fill_orders-IsOf (dp_per_scrip day) b.fillable b.trades day.trades [] h))
  ]

  execute_batch-IsOf :
      (p : Paper F) (b : Batch F) (ex : Execution F)
      → All P b.fillable
      → execute_batch p on b ≡ ok ex
      → All IsOf ex.fills
  unfolding execute_batch
  execute_batch-IsOf p b ex h e = elim (Bool-cases (length b.fillable == 0)) [
    | inl none_fillable ↦ rw (← ok-injective _ ex (rw none_fillable at e)) tt
    | inr some_fillable ↦
        let (day, _, q) =
          >>=-eq-ok (wrap_error (pricing on) (price_day p.sched on b.trades)) _ ex
            (rw some_fillable at e) in
        fill_batch-IsOf b day ex h q
  ]

  take_order-fillable :
      (p : Paper F) (opens : Map ℤ F) (b : Batch F) (o : Order)
      → All P b.fillable
      → P o
      → All P (take_order p on opens b o).fillable
  unfolding take_order
  take_order-fillable p opens b o h q = elim (Option-cases (tradable_open opens o.entity_id)) [
    | inl e ↦ rw (e, take_order) h
    | inr (price, e) ↦ rw (e, take_order) (All-append P b.fillable (o ∷ []) h (q, tt))
  ]

  take_orders-fillable :
      (p : Paper F) (opens : Map ℤ F) (os : List Order) (b : Batch F)
      → All P b.fillable
      → All P os
      → All P (take_orders p on opens b os).fillable
  unfolding take_orders
  take_orders-fillable p opens [] b h _ = h
  take_orders-fillable p opens (o ∷ os) b h (q, qs) =
      take_orders-fillable p opens os (take_order p on opens b o)
        (take_order-fillable p opens b o h q) qs

-- `Paper` fills only orders that it was given, and dates the fills by the session asked for.
pub paper_broker-IsBroker :
    {F E : Type 0} ⦃fl : Float F⦄ (fault : BrokerError F → E) (p : Paper F)
    → IsBroker (paper_broker fault p)
unfolding execute
paper_broker-IsBroker fault p on orders opens ex h P all =
    execute_batch-IsOf on P p (take_orders p on opens no_orders orders) ex
      (take_orders-fillable on P p opens orders no_orders tt all)
      (wrap_error-eq-ok fault (execute p on orders opens) ex h)
