-- ===== src/Risk/Rule.antt =====
-- internal/risk/risk.go: the names of the rules, as a rejection carries them.
use verdict_machine.Base.Text.{Text, bytes}

abbrev pub Rule : Type 0
Rule = Text

abbrev pub kill_switch : Rule
kill_switch = bytes "kill_switch"

abbrev pub daily_loss : Rule
daily_loss = bytes "daily_loss_cap"

abbrev pub min_notional : Rule
min_notional = bytes "min_notional"

abbrev pub max_positions : Rule
max_positions = bytes "max_positions"

abbrev pub max_stock : Rule
max_stock = bytes "max_stock_fraction"

abbrev pub max_book_notional : Rule
max_book_notional = bytes "max_book_notional"

abbrev pub malformed : Rule
malformed = bytes "malformed_intent"
