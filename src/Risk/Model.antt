-- ===== src/Risk/Model.antt =====
-- internal/risk/risk.go: limits, intents, the book that the gate reads and what it decides. A
-- rejection's `Detail`, a message for people, is left out.
use verdict_machine.Base.{List, Bool, ◌&&◌, ◌||◌, if◌then◌else◌}
use verdict_machine.Base.Int.{ℤ, pos, leb_ℤ}
use verdict_machine.Base.Text.{Text}
use verdict_machine.Base.Format.{format_int}
use verdict_machine.Base.Map.{Map}
use verdict_machine.Base.Result.{Outcome}
pub use verdict_machine.Base.Result.{ok, err, ◌>>=◌, >>=-eq-ok, ok-injective, wrap_error}
use verdict_machine.Float.{Float, nought, whole}
use verdict_machine.Time.{Time}
use verdict_machine.Cost.Product.{Product}
use verdict_machine.Cost.Side.{Side}
use verdict_machine.Cost.Model
use verdict_machine.Cost.Schedule.{Schedule}
use verdict_machine.Risk.Rule.{Rule}

pub record Limits (F : Type 0) : Type 0 where
  pub max_positions : ℤ
  pub max_round_trip_cost : F
  pub min_notional : F
  pub max_stock_fraction : F
  pub max_book_notional : F
  pub daily_loss_cap : F
  pub slippage_bps : F

pub record Intent (F : Type 0) : Type 0 where
  pub entity_id : ℤ
  pub scrip : Text
  pub side : Side
  pub product : Product
  pub quantity : ℤ
  pub price : F

pub record Book (F : Type 0) : Type 0 where
  pub equity : F
  pub positions : Map Text F
  pub day_pnl : F
  pub kill_switch : Text

pub record Rejection (F : Type 0) : Type 0 where
  pub intent : Intent F
  pub rule : Rule

pub record Decision (F : Type 0) : Type 0 where
  pub accepted : List (Intent F)
  pub rejected : List (Rejection F)
  pub min_notional : F
  pub slippage_modelled : Bool

pub record Gate (F : Type 0) : Type 0 where
  pub limits : Limits F
  pub sched : Schedule F

pub data Error (F : Type 0) : Type 0 where
  bad_max_positions : ℤ → Error F
  no_floor : Error F
  bad_max_stock_fraction bad_slippage bad_notional bad_max_cost : F → Error F
  pricing : Model.Error F → Error F
  unreachable_floor : F → Time → Error F
  out_of_fuel : Error F

abbrev pub Result : Type 0 → Type 0 → Type 0
Result F A = Outcome (Error F) A

module _ {F : Type 0} ⦃fl : Float F⦄ where
  open fl use {mul, lt, le, of_int}

  unfoldable pub default_limits : Limits F
  default_limits = record {
    max_positions = pos 20;
    max_round_trip_cost = fl.decimal 5 3;
    min_notional = nought;
    max_stock_fraction = fl.decimal 10 2;
    max_book_notional = nought;
    daily_loss_cap = nought;
    slippage_bps = nought;
  }

  -- `Limits.validate`
  unfoldable pub validate : Limits F → Result F (Unit {0})
  validate l =
      if leb_ℤ l.max_positions (pos 0)
      then err (bad_max_positions l.max_positions)
      else if le l.max_round_trip_cost nought && le l.min_notional nought
      then err no_floor
      else if le l.max_stock_fraction nought || lt (whole 1) l.max_stock_fraction
      then err (bad_max_stock_fraction l.max_stock_fraction)
      else if lt l.slippage_bps nought
      then err (bad_slippage l.slippage_bps)
      else ok tt

  unfoldable pub new_gate : Limits F → Schedule F → Result F (Gate F)
  unfolding validate
  new_gate l s = validate l >>= λ _. ok (record { limits = l; sched = s })

  -- `Intent.Notional`
  abbrev pub notional : Intent F → F
  notional i = mul (of_int i.quantity) i.price

module _ {F : Type 0} where
  -- `Intent.key`
  abbrev pub key_of : Intent F → Text
  key_of i = format_int i.entity_id
