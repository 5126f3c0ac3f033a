-- ===== src/Float/Defs.antt =====
-- Go's float64 as the operations that the source applies to it.
use verdict_machine.Base.{ℕ, Bool}
use verdict_machine.Base.Int.{ℤ, pos}

pub record Float (F : Type 0) : Type 0 where
  pub add : F → F → F
  pub sub : F → F → F
  pub mul : F → F → F
  pub div : F → F → F
  pub lt : F → F → Bool
  pub le : F → F → Bool
  pub eq : F → F → Bool
  -- `float64(n)` and `int64(v)`
  pub of_int : ℤ → F
  pub to_int : F → ℤ
  -- `math.Round`, `math.Floor` and `math.Abs`
  pub round : F → F
  pub floor : F → F
  pub abs : F → F
  -- `math.Inf(1)`
  pub inf : F
  -- the literal m · 10^-e
  pub decimal : ℕ → ℕ → F

module _ {F : Type 0} ⦃fl : Float F⦄ where
  -- the literal 0
  abbrev pub nought : F
  nought = fl.of_int (pos 0)

  -- the literal n
  abbrev pub whole : ℕ → F
  whole n = fl.of_int (pos n)
