-- ===== src/Engine/StoreMarket.antt =====
-- internal/engine/store_market.go: the returns and the volatilities of the market over the store, as
-- the engine sees them.
use verdict_machine.Base.{List, [], ◌∷◌}
use verdict_machine.Base.Int.{ℤ}
use verdict_machine.Base.Text.{Text}
use verdict_machine.Base.Map.{Map}
use verdict_machine.Base.Result.{Outcome, ok, ◌>>=◌}
use verdict_machine.Float.{Float}
use verdict_machine.Time.{Time}
use verdict_machine.Market.Texts.{refusal_text, skip_text}
use verdict_machine.Market.Sources.{Store}
use verdict_machine.Market.Returns.{EntityReturn, Absence, Error, entity_returns}
use verdict_machine.Market.Returns
use verdict_machine.Market.Volatility
use verdict_machine.Market.Volatility.{entity_volatility}
use verdict_machine.Engine.Seams.{ReturnSet}

pub record StoreMarket (F E : Type 0) : Type 0 where
  pub store : Store F E
  pub source : Text
  pub pin : Time

-- A map rebuilt with another value at each key.
abbrev pub with_values : {V W : Type 0} → (V → W) → Map ℤ V → Map ℤ W
with_values f [] = []
with_values f ((k, v) ∷ m) = (k, f v) ∷ with_values f m

-- `reason` is the text that the store keeps of an absence.
abbrev pub forward : {F : Type 0} → (Absence F → Text) → Returns.ReturnSet F → ReturnSet F
forward reason rs = record {
  priced = with_values (λ r. r.return) rs.priced;
  refused = with_values refusal_text rs.refused;
  absent = with_values reason rs.absent;
}

-- `StoreMarket.Returns`
unfoldable pub returns :
    {F E : Type 0} ⦃fl : Float F⦄
    → StoreMarket F E
    → (Absence F → Text)
    → List ℤ
    → Time
    → Time
    → Outcome (Error E) (ReturnSet F)
returns m reason ids from to = do
  rs ← entity_returns m.store m.source ids from to m.pin
  ok (forward reason rs)

-- `StoreMarket.Volatility`, with the reasons as the texts that EntityVolatility writes.
unfoldable pub volatility :
    {F E : Type 0} ⦃fl : Float F⦄
    → StoreMarket F E
    → List ℤ
    → Time
    → Time
    → Outcome (Volatility.Error E) (Map ℤ F × Map ℤ Text)
volatility m ids from to = do
  (vols, skipped) ← entity_volatility m.store m.source from to m.pin ids
  ok (vols, with_values skip_text skipped)
