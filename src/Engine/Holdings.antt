-- ===== src/Engine/Holdings.antt =====
-- Fills against the book: `Apply` keeps the holdings, and moves cash and shares.
use verdict_machine.Base.{◌≡◌, ◌⊎◌, inl, inr, true, Bool-cases}
use verdict_machine.Base.Int.{pos, ◌+ℤ◌, leb_ℤ, IsInt64}
use verdict_machine.Base.Map.{int_key}
use verdict_machine.Base.Result.{ok}
use verdict_machine.Float.{Float}
use verdict_machine.Cost.Side
use verdict_machine.Cost.Model.{is}
use verdict_machine.Engine.Model.{Fill, Portfolio}
use verdict_machine.Engine.Portfolio.{apply}
use verdict_machine.Engine.Kept.{IsKept, quantity_of}
use verdict_machine.Engine.Purchases.{IsBought, apply_buy-IsBought}
use verdict_machine.Engine.Sales.{IsSold, apply_sell-IsSold}

module _ {F : Type 0} ⦃fl : Float F⦄ where
  -- What `Apply` does to the book when it returns no error.
  abbrev pub IsApplied : Portfolio F → Fill F → Portfolio F → Type 0
  IsApplied p f p' =
      ((is f.side Side.buy ≡ true) × IsBought p f p')
      ⊎ ((is f.side Side.sell ≡ true) × IsSold p f p')

  -- From a book whose holdings are all of at least one share, under distinct entities, and for a fill
  -- whose quantity and the shares held of its entity sum to an int64: when `Apply` returns no error,
  -- the fill is a buy or a sell, and the book stays so. A buy's outflow of value and charges, which
  -- the cash covers to within 10^-9, leaves the cash and its quantity joins the position; a sell is of
  -- shares that are held, its value less charges joins the cash, its quantity leaves the position, and
  -- a position sold whole is gone. No other entity's position changes.
  pub apply-IsApplied :
      (p : Portfolio F) (f : Fill F) (p' : Portfolio F)
      → IsKept p
      → IsInt64 (quantity_of p f.entity_id +ℤ f.quantity)
      → apply p f ≡ ok p'
      → IsApplied p f p'
  unfolding apply
  apply-IsApplied p f p' k fits h = elim (Bool-cases (leb_ℤ f.quantity (pos 0))) [
    | inl bad ↦ cc (rw bad at h)
    | inr good ↦ elim (Bool-cases (is f.side Side.buy)) [
      | inl buys ↦ inl (buys, apply_buy-IsBought p f p' k good fits (rw (good, buys) at h))
      | inr other ↦ elim (Bool-cases (is f.side Side.sell)) [
        | inl sells ↦ inr (sells, apply_sell-IsSold p f p' k good (rw (good, other, sells) at h))
        | inr unknown ↦ cc (rw (good, other, unknown) at h)
      ]
    ]
  ]
