-- ===== src/Cost/Component.antt =====
-- internal/cost/cost.go: `Component`, a string type, and its constants.
use verdict_machine.Base.Text.{Text, bytes}

abbrev pub Component : Type 0
Component = Text

abbrev pub brokerage : Component
brokerage = bytes "brokerage"

abbrev pub stt : Component
stt = bytes "stt"

abbrev pub exchange_txn : Component
exchange_txn = bytes "exchange_txn"

abbrev pub sebi_turnover : Component
sebi_turnover = bytes "sebi_turnover"

abbrev pub ipf : Component
ipf = bytes "ipf"

abbrev pub stamp_duty : Component
stamp_duty = bytes "stamp_duty"

abbrev pub gst : Component
gst = bytes "gst"

abbrev pub dp_charge : Component
dp_charge = bytes "dp_charge"
