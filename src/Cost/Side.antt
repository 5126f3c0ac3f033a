-- ===== src/Cost/Side.antt =====
-- internal/cost/cost.go: `Side`, a string type, and its constants.
use verdict_machine.Base.Text.{Text, bytes}

abbrev pub Side : Type 0
Side = Text

abbrev pub buy : Side
buy = bytes "buy"

abbrev pub sell : Side
sell = bytes "sell"
