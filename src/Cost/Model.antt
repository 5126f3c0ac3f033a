-- ===== src/Cost/Model.antt =====
-- internal/cost/cost.go: the trade, the charges of a contract note, and the errors of the package.
use verdict_machine.Base.{List, [], Bool, not}
use verdict_machine.Base.Int.{ℤ}
use verdict_machine.Base.Text.{Text, eqb_text}
use verdict_machine.Base.Result.{Outcome}
pub use verdict_machine.Base.Result.{ok, err, ◌>>=◌, >>=-eq-ok, ok-injective}
use verdict_machine.Float.{Float, whole}
use verdict_machine.Time.{Time}
use verdict_machine.Cost.Product.{Product}
use verdict_machine.Cost.Side.{Side}
use verdict_machine.Cost.Component.{Component}
use verdict_machine.Cost.Broker.{Broker}

-- "" in a rate: matches any.
abbrev pub unset : Text
unset = []

-- The errors that the package returns, with the values that their messages print.
pub data Error (F : Type 0) : Type 0 where
  bad_quantity : ℤ → Error F
  bad_price : F → Error F
  unknown_side : Side → Error F
  no_rate : Component → Product → Side → Time → Broker → Error F
  other_session : Time → Time → Error F
  unknown_broker : Broker → Error F

abbrev pub Result : Type 0 → Type 0 → Type 0
Result F A = Outcome (Error F) A

pub record Trade (F : Type 0) : Type 0 where
  pub date : Time
  pub scrip : Text
  pub product : Product
  pub side : Side
  pub quantity : ℤ
  pub price : F

pub record Charges (F : Type 0) : Type 0 where
  pub turnover : F
  pub brokerage : F
  pub stt : F
  pub exchange_txn : F
  pub sebi_turnover : F
  pub ipf : F
  pub taxable_value : F
  pub gst : F
  pub stamp_duty : F
  pub dp_charge : F
  pub unverified : List Component

module _ {F : Type 0} ⦃fl : Float F⦄ where
  open fl use {add, mul, div, round, of_int}

  unfoldable pub round2 : F → F
  round2 v = div (round (mul v (whole 100))) (whole 100)

  -- `Trade.Turnover`
  abbrev pub gross : Trade F → F
  gross t = mul (of_int t.quantity) t.price

  -- `Charges.Total`
  unfoldable pub total : Charges F → F
  unfolding round2
  total c = round2 (
      add
        (add
          (add (add (add (add (add c.brokerage c.stt) c.exchange_txn) c.sebi_turnover) c.ipf) c.gst)
          c.stamp_duty)
        c.dp_charge)

  -- `Charges.NetOutflow`
  unfoldable pub net_outflow : Charges F → F
  unfolding round2 total
  net_outflow c = round2 (add c.turnover (total c))

-- `==` on the string types
abbrev pub is : Text → Text → Bool
is s t = eqb_text s t

abbrev pub is_not : Text → Text → Bool
is_not s t = not (eqb_text s t)
