-- ===== src/Engine/Fills.antt =====
-- internal/engine/broker.go: every order of a batch is filled at its open, or is left unfilled.
use mathlib.Core.List.{
  Perm, perm_middle, perm_append_singleton, append_assoc, append-nil, map-append,
}
use mathlib.Core.List.Perm
use verdict_machine.Base.{
  ◌≡◌, refl, ap, inl, inr, List, [], ◌∷◌, ◌++◌, map, none, some, Bool, Bool-cases, Option-cases,
  ◌==◌, length, All, All-append, arith,
}
use verdict_machine.Base.Int.{ℤ}
use verdict_machine.Base.Text.{less_text}
use verdict_machine.Base.Sort.{sort_by-perm, sort_by-All}
use verdict_machine.Base.Map.{Map, int_key}
use verdict_machine.Base.Result.{ok, >>=-eq-ok, ok-injective, wrap_error}
use verdict_machine.Float.{Float}
use verdict_machine.Time.{Time}
use verdict_machine.Cost.Model.{Trade, Charges}
use verdict_machine.Cost.Day.{DayCharges, price_day}
use verdict_machine.Engine.Model.{Order, Fill, Unfilled}
use verdict_machine.Engine.Broker.{
  Paper, Batch, Execution, pricing, tradable_open, trade_of, fill_price, take_order, take_orders,
  no_orders, fill_orders, fill_batch, execute_batch, execute, dp_per_scrip,
}

abbrev pub left_over : List Unfilled → List Order
left_over us = map (λ u. u.order) us

module _ {F : Type 0} where
  abbrev pub filled : List (Fill F) → List Order
  filled fs = map (λ f. f.order) fs

  -- The orders that a batch has taken.
  abbrev pub taken : Batch F → List Order
  taken b = b.fillable ++ left_over b.unfilled

module _ {F : Type 0} ⦃fl : Float F⦄ (p : Paper F) (on : Time) (opens : Map ℤ F) where
  abbrev pub IsTradeOf : Order → Trade F → Type 0
  IsTradeOf o t =
      (price : F) × (tradable_open opens o.entity_id ≡ some price) × (t ≡ trade_of p on o price)

  -- One trade for each order, at the order's open.
  abbrev pub IsPaired : List Order → List (Trade F) → Type 0
  IsPaired [] [] = Unit
  IsPaired [] (t ∷ ts) = ⊥
  IsPaired (o ∷ os) [] = ⊥
  IsPaired (o ∷ os) (t ∷ ts) = IsTradeOf o t × IsPaired os ts

  abbrev pub IsAtOpen : Fill F → Type 0
  IsAtOpen f =
      (f.date ≡ on)
      × ((price : F) × (tradable_open opens f.entity_id ≡ some price)
          × (f.price ≡ fill_price p price f.side))

  abbrev pub IsUntradable : Unfilled → Type 0
  IsUntradable u = tradable_open opens u.order.entity_id ≡ none

  IsPaired-append :
      (os : List Order) (ts : List (Trade F)) (o : Order) (t : Trade F)
      → IsPaired os ts
      → IsTradeOf o t
      → IsPaired (os ++ (o ∷ [])) (ts ++ (t ∷ []))
  IsPaired-append [] [] o t h q = (q, tt)
  IsPaired-append [] (_ ∷ _) o t h q = absurd h
  IsPaired-append (_ ∷ _) [] o t h q = absurd h
  IsPaired-append (_ ∷ os) (_ ∷ ts) o t (i, h) q = (i, IsPaired-append os ts o t h q)

  pub record IsTaken (b : Batch F) (os : List Order) : Type 0 where
    pub whole_batch : Perm (taken b) os
    pub paired : IsPaired b.fillable b.trades
    pub untradable : All IsUntradable b.unfilled

  take_order-IsTaken :
      (b : Batch F) (os : List Order) (o : Order)
      → IsTaken b os
      → IsTaken (take_order p on opens b o) (os ++ (o ∷ []))
  unfolding take_order
  take_order-IsTaken b os o h = elim (Option-cases (tradable_open opens o.entity_id)) [
    | inl e ↦
        rw (e, take_order)
          (record {
            whole_batch =
                rw
                  (
                    map-append (λ (u : Unfilled). u.order) b.unfilled
                        (record { order = o; date = on } ∷ []),
                    ← append_assoc b.fillable (left_over b.unfilled) (o ∷ []),
                  )
                  (Perm.append h.whole_batch (Perm.refl (o ∷ [])));
            paired = h.paired;
            untradable = All-append IsUntradable b.unfilled _ h.untradable (e, tt);
          })
    | inr (price, e) ↦
        rw (e, take_order)
          (record {
            whole_batch = rw (append_assoc b.fillable (o ∷ []) (left_over b.unfilled)) (
                Perm.trans (perm_middle b.fillable (left_over b.unfilled)) (
                  Perm.trans (Perm.symm (perm_append_singleton o (taken b)))
                    (Perm.append h.whole_batch (Perm.refl (o ∷ [])))));
            paired = IsPaired-append b.fillable b.trades o _ h.paired (price, e, refl);
            untradable = h.untradable;
          })
  ]

  take_orders-IsTaken :
      (b : Batch F) (done os : List Order)
      → IsTaken b done
      → IsTaken (take_orders p on opens b os) (done ++ os)
  unfolding take_orders
  take_orders-IsTaken b done [] h = rw (append-nil) h
  take_orders-IsTaken b done (o ∷ os) h = rw (append_assoc done (o ∷ []) os) at (
      take_orders-IsTaken (take_order p on opens b o) (done ++ (o ∷ [])) os
        (take_order-IsTaken b done o h))

  filled-fill_orders :
      (dp : F) (os : List Order) (ts : List (Trade F)) (cs : List (Charges F))
      (charged : Map ℤ Bool)
      → IsPaired os ts
      → length cs ≡ length os
      → (filled (fill_orders dp on charged os ts cs) ≡ os)
        × All IsAtOpen (fill_orders dp on charged os ts cs)
  unfolding fill_orders
  filled-fill_orders dp [] [] cs charged h l = (refl, tt)
  filled-fill_orders dp [] (_ ∷ _) cs charged h l = absurd h
  filled-fill_orders dp (_ ∷ _) [] cs charged h l = absurd h
  filled-fill_orders dp (o ∷ os) (t ∷ ts) [] charged h l = absurd (omega arith)
  filled-fill_orders dp (o ∷ os) (t ∷ ts) (c ∷ cs) charged ((price, found, e), h) l =
      let (same, at_open) = filled-fill_orders dp os ts cs _ h (omega arith) in
      (ap (λ r. o ∷ r) same, ((refl, (price, found, ap (λ (a : Trade F). a.price) e)), at_open))

-- What `Execute` returns: every order is filled or left over, and only once; fills are at the open,
-- moved by the slippage; and only orders without an open are left over.
module _ {F : Type 0} ⦃fl : Float F⦄ (p : Paper F) (on : Time) (opens : Map ℤ F) where
  pub record IsExecuted (orders : List Order) (ex : Execution F) : Type 0 where
    pub all : Perm (filled ex.fills ++ left_over ex.unfilled) orders
    pub at_open : All (IsAtOpen p on opens) ex.fills
    pub no_open : All (IsUntradable p on opens) ex.unfilled

  fill_batch-IsExecuted :
      (b : Batch F) (os : List Order) (day : DayCharges F) (ex : Execution F)
      → IsTaken p on opens b os
      → fill_batch on b day ≡ ok ex
      → IsExecuted os ex
  unfolding fill_batch
  fill_batch-IsExecuted b os day ex h e =
      elim (Bool-cases (length day.trades == length b.fillable)) [
        | inr off ↦ cc (rw off at e)
        | inl even ↦
            let (same, opened) =
              filled-fill_orders p on opens (dp_per_scrip day) b.fillable b.trades day.trades []
                h.paired (ground arith) in
            rw (← ok-injective _ ex (rw even at e)) (record {
              all =
                  Perm.trans
                    (Perm.append
                      (rw same at (
                        Perm.map (λ f. f.order)
                          (sort_by-perm (λ f g. less_text f.scrip g.scrip)
                            (fill_orders (dp_per_scrip day) on [] b.fillable b.trades day.trades))))
                      (Perm.refl (left_over b.unfilled)))
                    h.whole_batch;
              at_open = sort_by-All _ (IsAtOpen p on opens) _ opened;
              no_open = h.untradable;
            })
      ]

  -- When `Execute` returns no error, each order of the batch is filled or left unfilled, and only
  -- once; every fill is of the session's date, at the open of its entity as the slippage moves it; and
  -- an order is left unfilled only where its entity has no open above 0.
  pub execute-IsExecuted :
      (orders : List Order) (ex : Execution F)
      → execute p on orders opens ≡ ok ex
      → IsExecuted orders ex
  unfolding execute execute_batch
  execute-IsExecuted orders ex e = elim (Bool-cases (length b.fillable == 0)) [
    | inl none_fillable ↦ rw (← ok-injective _ ex (rw none_fillable at e)) (record {
      all = rw (no_elements b.fillable (ground arith)) at (h.whole_batch);
      at_open = tt;
      no_open = h.untradable;
    })
    | inr some_fillable ↦
        let (day, priced, q) =
          >>=-eq-ok (wrap_error (pricing on) (price_day p.sched on b.trades)) _ ex
            (rw some_fillable at e) in
        fill_batch-IsExecuted b orders day ex h q
  ]
    where
      b : Batch F
      b = take_orders p on opens no_orders orders

      h : IsTaken p on opens b orders
      h =
          take_orders-IsTaken p on opens no_orders [] orders
            (record { whole_batch = Perm.refl []; paired = tt; untradable = tt })

      no_elements : (xs : List Order) → length xs ≡ 0 → xs ≡ []
      no_elements [] e = refl
      no_elements (x ∷ xs) e = absurd (omega arith)
