-- ===== src/Cost/Broker.antt =====
-- internal/cost/schedule.go: `Broker`, a string type, and its constants.
use verdict_machine.Base.Text.{Text, bytes}

abbrev pub Broker : Type 0
Broker = Text

abbrev pub zerodha : Broker
zerodha = bytes "zerodha"

abbrev pub angel_one : Broker
angel_one = bytes "angelone"
