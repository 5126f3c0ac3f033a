-- ===== src/Cost/Basis.antt =====
-- internal/cost/schedule.go: `Basis`, a string type, and its constants.
use verdict_machine.Base.Text.{Text, bytes}

abbrev pub Basis : Type 0
Basis = Text

abbrev pub percent : Basis
percent = bytes "percent"

abbrev pub capped_percent : Basis
capped_percent = bytes "capped_percent"

abbrev pub flat : Basis
flat = bytes "flat"

abbrev pub zero : Basis
zero = bytes "zero"
