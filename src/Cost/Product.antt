-- ===== src/Cost/Product.antt =====
-- internal/cost/cost.go: `Product`, a string type, and its constants.
use verdict_machine.Base.Text.{Text, bytes}

abbrev pub Product : Type 0
Product = Text

abbrev pub equity_delivery : Product
equity_delivery = bytes "equity_delivery"

abbrev pub fund_units : Product
fund_units = bytes "fund_units"
