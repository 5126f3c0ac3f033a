-- ===== src/Engine/Shortfall.antt =====
-- internal/engine/engine.go: every fill of an execution is booked, or left unfilled for want of cash.
use mathlib.Core.List.{Perm, append_assoc, append-nil}
use mathlib.Core.Path.{subst}
use verdict_machine.Base.{◌≡◌, refl, sym, ◌∙◌, List, [], ◌∷◌, ◌++◌, map, arith}
use verdict_machine.Base.Sort.{sort_by, sort_by-perm, sort_by-IsSorted, IsSorted, IsOrder}
use verdict_machine.Base.Result.{Outcome, ok, err, >>=-eq-ok, ok-injective}
use verdict_machine.Float.{Float}
use verdict_machine.Time.{Time}
use verdict_machine.Engine.Model
use verdict_machine.Engine.Model.{Fill, Unfilled, Portfolio, insufficient_cash}
use verdict_machine.Engine.Portfolio.{apply}
use verdict_machine.Engine.Broker.{Execution}
use verdict_machine.Engine.Steps.{Progress, sells_first, settled, unsettled}
use verdict_machine.Engine.Run.{Error, refusal, settle, settle_all, book_execution}

module _ {F : Type 0} where
  abbrev pub IsCashError : Model.Error F → Type 0
  IsCashError (insufficient_cash scrip qty price needs charges cash) = Unit
  IsCashError (Model.bad_quantity scrip qty) = ⊥
  IsCashError (Model.short_sale qty scrip held) = ⊥
  IsCashError (Model.unknown_side scrip side) = ⊥

  abbrev pub left_unfilled : Time → Fill F → Unfilled
  left_unfilled on f = record { order = f.order; date = on }

module _ {F : Type 0} ⦃fl : Float F⦄ where
  -- The fills `fs` are offered to the book `p` one after another, and it ends as `q`: those of `taken`
  -- are applied, and those of `left` refused for want of cash by the book as it is at their turn.
  pub data Offers
      : Portfolio F → List (Fill F) → List (Fill F) → List (Fill F) → Portfolio F → Type 0 where
    done : {p : Portfolio F} → Offers p [] [] [] p
    applied :
        {p p' q : Portfolio F} {f : Fill F} {fs taken left : List (Fill F)}
        → apply p f ≡ ok p'
        → Offers p' fs taken left q
        → Offers p (f ∷ fs) (f ∷ taken) left q
    short_of_cash :
        {p q : Portfolio F} {f : Fill F} {e : Model.Error F} {fs taken left : List (Fill F)}
        → apply p f ≡ err e
        → IsCashError e
        → Offers p fs taken left q
        → Offers p (f ∷ fs) taken (f ∷ left) q

  sells_first-IsOrder : IsOrder (sells_first {F = F})
  sells_first-IsOrder = record {
    asym = λ a b h. ground arith;
    weak_trans = λ a b c h k. ground arith;
  }

module _ {F : Type 0} ⦃fl : Float F⦄ {S : Type 0} where
  -- What a list of fills did to the variables of the loop.
  pub record AreOffered (on : Time) (fs : List (Fill F)) (w w' : Progress F S) : Type 0 where
    pub taken : List (Fill F)
    pub left : List (Fill F)
    pub offers : Offers w.portfolio fs taken left w'.portfolio
    pub fills : w'.report.fills ≡ w.report.fills ++ taken
    pub unfilled : w'.report.unfilled ≡ w.report.unfilled ++ map (left_unfilled on) left

  -- What an execution did to them: each of its fills, the sells first, is in the report as a fill, or as
  -- unfilled where the cash did not cover it; its own unfilled orders follow.
  pub record IsAllotted (on : Time) (ex : Execution F) (w w' : Progress F S) : Type 0 where
    pub offered : List (Fill F)
    pub all_offered : Perm offered ex.fills
    pub sells_lead : IsSorted sells_first offered
    pub taken : List (Fill F)
    pub left : List (Fill F)
    pub offers : Offers w.portfolio offered taken left w'.portfolio
    pub fills : w'.report.fills ≡ w.report.fills ++ taken
    pub unfilled :
        w'.report.unfilled ≡ (w.report.unfilled ++ map (left_unfilled on) left) ++ ex.unfilled
    pub no_pending : w'.pending ≡ []

  offered_first :
      (on : Time) (f : Fill F) (fs : List (Fill F)) (w v w' : Progress F S)
      → apply w.portfolio f ≡ ok v.portfolio
      → v.report.fills ≡ w.report.fills ++ (f ∷ [])
      → v.report.unfilled ≡ w.report.unfilled
      → AreOffered on fs v w'
      → AreOffered on (f ∷ fs) w w'
  offered_first on f fs w v w' h fills unfilled o = record {
    taken = f ∷ o.taken;
    left = o.left;
    offers = applied h o.offers;
    fills = rw (o.fills, fills) (append_assoc w.report.fills (f ∷ []) o.taken);
    unfilled = rw (o.unfilled, unfilled) refl;
  }

  short_first :
      (on : Time) (f : Fill F) (fs : List (Fill F)) (e : Model.Error F) (w w' : Progress F S)
      → apply w.portfolio f ≡ err e
      → IsCashError e
      → AreOffered on fs (unsettled on w f) w'
      → AreOffered on (f ∷ fs) w w'
  short_first on f fs e w w' h short o = record {
    taken = o.taken;
    left = f ∷ o.left;
    offers = short_of_cash h short o.offers;
    fills = o.fills;
    unfilled = o.unfilled ∙ append_assoc w.report.unfilled (left_unfilled on f ∷ []) _;
  }

module _ {F : Type 0} ⦃fl : Float F⦄ {E S : Type 0} where
  refusal-unsettled :
      (on : Time) (w v : Progress F S) (f : Fill F) (e : Model.Error F)
      → ◌≡◌ {A = Outcome (Error F E) (Progress F S)} (refusal on w f e) (ok v)
      → IsCashError e × (unsettled on w f ≡ v)
  refusal-unsettled on w v f (insufficient_cash scrip qty price needs charges cash) h =
      (tt, ok-injective _ v h)
  refusal-unsettled on w v f (Model.bad_quantity scrip qty) h = cc
  refusal-unsettled on w v f (Model.short_sale qty scrip held) h = cc
  refusal-unsettled on w v f (Model.unknown_side scrip side) h = cc

  settle_first :
      (on : Time) (f : Fill F) (fs : List (Fill F)) (w v w' : Progress F S)
      → ◌≡◌ {A = Outcome (Error F E) (Progress F S)} (settle on w f) (ok v)
      → AreOffered on fs v w'
      → AreOffered on (f ∷ fs) w w'
  unfolding settle
  settle_first on f fs w v w' h o = by_result (apply w.portfolio f) refl
    where
      by_result :
          (r : Outcome (Model.Error F) (Portfolio F))
          → apply w.portfolio f ≡ r
          → AreOffered on (f ∷ fs) w w'
      by_result (ok p) e =
          let same : settled w f p ≡ v = ok-injective _ v (rw (settle, e) at h) in
          offered_first on f fs w (settled w f p) w' e refl refl
            (subst (λ u. AreOffered on fs u w') (sym same) o)
      by_result (err x) e =
          let (short, same) = refusal-unsettled on w v f x (rw (settle, e) at h) in
          short_first on f fs x w w' e short (subst (λ u. AreOffered on fs u w') (sym same) o)

  settle_all-AreOffered :
      (on : Time) (fs : List (Fill F)) (w w' : Progress F S)
      → ◌≡◌ {A = Outcome (Error F E) (Progress F S)} (settle_all on w fs) (ok w')
      → AreOffered on fs w w'
  unfolding settle_all
  settle_all-AreOffered on [] w w' h = subst (AreOffered on [] w) (ok-injective w w' h) (record {
    taken = [];
    left = [];
    offers = done;
    fills = sym (append-nil w.report.fills);
    unfilled = sym (append-nil w.report.unfilled);
  })
  settle_all-AreOffered on (f ∷ fs) w w' h =
      let (v, first, later) = >>=-eq-ok (settle on w f) _ w' h in
      settle_first on f fs w v w' first (settle_all-AreOffered on fs v w' later)

  pub book_execution-IsAllotted :
      (on : Time) (ex : Execution F) (w w' : Progress F S)
      → ◌≡◌ {A = Outcome (Error F E) (Progress F S)} (book_execution on w ex) (ok w')
      → IsAllotted on ex w w'
  unfolding book_execution
  book_execution-IsAllotted on ex w w' h =
      let fs = sort_by sells_first ex.fills in
      let (v, settles, same) = >>=-eq-ok (settle_all {E = E} on w fs) _ w' h in
      let o = settle_all-AreOffered on fs w v settles in
      subst (IsAllotted on ex w) (ok-injective _ w' same) (record {
        offered = fs;
        all_offered = sort_by-perm sells_first ex.fills;
        sells_lead = sort_by-IsSorted sells_first sells_first-IsOrder ex.fills;
        taken = o.taken;
        left = o.left;
        offers = o.offers;
        fills = o.fills;
        unfilled = rw o.unfilled refl;
        no_pending = refl;
      })
