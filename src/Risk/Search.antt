-- ===== src/Risk/Search.antt =====
-- `MinNotional` ends, and what it finds is the first step that is cheap enough.
use verdict_machine.Base.{◌≢◌, ℕ, ◌+◌, ◌*◌, ◌≤◌, ◌<◌, ◌^◌, ◌≡◌, ◌⊎◌, true, false, leb}
use verdict_machine.Float.{Float, whole}
use verdict_machine.Time.{Time}
use verdict_machine.Cost.Product.{Product}
use verdict_machine.Cost.Schedule.{Schedule}
use verdict_machine.Cost.Side
use verdict_machine.Cost.Side.{Side}
use verdict_machine.Cost.Model
use verdict_machine.Risk.Model.{out_of_fuel, Result, ok, err, unreachable_floor}

-- Whole numbers up to 2^53 are float64 values, and float64 adds and compares them exactly.
pub record IsExact (F : Type 0) ⦃fl : Float F⦄ : Type 0 where
  pub add_whole : (a b : ℕ) → a + b ≤ 2 ^ 53 → fl.add (whole a) (whole b) ≡ whole (a + b)
  pub le_whole : (a b : ℕ) → a ≤ 2 ^ 53 → b ≤ 2 ^ 53 → fl.le (whole a) (whole b) ≡ leb a b

module _ {F : Type 0} ⦃fl : Float F⦄ (ratio : F → Result F F) (max_pct : F) (on : Time) where
  -- The round trip of `n` rupees is priced, and costs more than the limit.
  abbrev pub IsDear : ℕ → Type 0
  IsDear n = (r : F) × (ratio (whole n) ≡ ok r) × (fl.le r max_pct ≡ false)

  abbrev pub IsCheap : ℕ → Type 0
  IsCheap n = (r : F) × (ratio (whole n) ≡ ok r) × (fl.le r max_pct ≡ true)

  -- What the search returns from step `j` on: the first cheap step, with all between dear; the error
  -- of a step that could not be priced; or the refusal, with every step up to the cap dear.
  abbrev pub IsFirst : ℕ → Result F F → Type 0
  IsFirst j (ok n) =
      (k : ℕ) × (j ≤ k)
      × (k ≤ 20_000)
      × (n ≡ whole (100 * k))
      × IsCheap (100 * k)
      × ((i : ℕ) → j ≤ i → i < k → IsDear (100 * i))
  IsFirst j (err e) =
      (e ≢ out_of_fuel)
      × (((k : ℕ) × (k ≤ 20_000) × (ratio (whole (100 * k)) ≡ err e))
          ⊎ ((e ≡ unreachable_floor max_pct on)
              × ((i : ℕ) → j ≤ i → i ≤ 20_000 → IsDear (100 * i))))
