-- ===== src/Entities/Lines.antt =====
-- internal/market/entities/roster.go: the checks of one line. They stand in lists, in the order of the
-- code's early returns: a check that fails is the error, unless an earlier one fails.
use verdict_machine.Base.{
  ℕ, Bool, true, false, not, ◌||◌, Option, none, some, List, [], ◌∷◌, ◌++◌, ◌==◌, length, leb,
  if◌then◌else◌,
}
use verdict_machine.Base.Int.{ℤ, pos, eqb_ℤ, ltb_ℤ}
use verdict_machine.Base.Text.{Text, bytes, eqb_text}
use verdict_machine.Float.{Float}
use verdict_machine.Time.{Time, before, same_time}
use verdict_machine.Entities.Isin.{
  isin_length, well_formed_isin, is_equity_isin, issuer_prefix, issue_serial,
}
use verdict_machine.Entities.Link.{
  Link, reason_of, is_manual, reason_succession, reason_manual, max_calendar_days_between,
  parse_day, day_or_zero, days_between, two_digits, match_ratio_band,
}

pub data Fault : Type 0 where
  not_a_reason : Text → Fault
  same_isin : Fault
  not_isin_length : Fault
  bad_date : Text → Fault
  not_first_bar : Fault
  not_disjoint : Fault
  bad_check_digit : Text → Fault
  check_digit_unset : Fault
  no_ratifier : Fault
  no_note : Fault
  not_equity : Fault
  issuer_differs : Fault
  issuer_misdescribed : Fault
  no_serial : Text → Fault
  serial_not_increasing : Fault
  serial_misdescribed : Fault
  live_sessions : ℤ → Fault
  gap_unsettled : Fault
  archive_holes : ℤ → Fault
  days_not_positive : ℤ → Fault
  days_misdescribed : Fault
  days_over_cap : ℤ → Fault
  no_band : Fault
  band_misdescribed : Fault

-- The fault of the first check that fails.
unfoldable pub first_fault : {E : Type 0} → List (Bool × E) → Option E
first_fault [] = none
first_fault ((fails, e) ∷ checks) = if fails then some e else first_fault checks

abbrev pub is_none : {A : Type 0} → Option A → Bool
is_none none = true
is_none (some a) = false

-- A serial whose error a check before it has found.
abbrev pub serial_or_0 : Option ℕ → ℕ
serial_or_0 none = 0
serial_or_0 (some n) = n

module _ {F : Type 0} where
  abbrev pub is_reason : Link F → Bool
  is_reason l = eqb_text (reason_of l) reason_succession || eqb_text (reason_of l) reason_manual

  abbrev pub effective_of : Link F → Option Time
  effective_of l = parse_day l.effective_from

  abbrev pub pred_last_of : Link F → Option Time
  pred_last_of l = parse_day l.gates.predecessor_last_bar

  abbrev pub succ_first_of : Link F → Option Time
  succ_first_of l = parse_day l.gates.successor_first_bar

  -- Of every line.
  abbrev pub line_checks : Link F → List (Bool × Fault)
  line_checks l =
      (not (is_reason l), not_a_reason l.reason)
      ∷ (eqb_text l.predecessor l.successor, same_isin)
      ∷ (
        not (length l.predecessor == isin_length) || not (length l.successor == isin_length),
        not_isin_length,
      )
      ∷ (is_none (effective_of l), bad_date (bytes "effective_from"))
      ∷ (is_none (pred_last_of l), bad_date (bytes "gates.predecessor_last_bar"))
      ∷ (is_none (succ_first_of l), bad_date (bytes "gates.successor_first_bar"))
      ∷ (
        not (same_time (day_or_zero (effective_of l)) (day_or_zero (succ_first_of l))),
        not_first_bar,
      )
      ∷ (not (before (day_or_zero (pred_last_of l)) (day_or_zero (succ_first_of l))), not_disjoint)
      ∷ (not (well_formed_isin l.predecessor), bad_check_digit l.predecessor)
      ∷ (not (well_formed_isin l.successor), bad_check_digit l.successor)
      ∷ (not l.gates.check_digit, check_digit_unset)
      ∷ []

  -- Of a manual line, which is exempt from the gates.
  abbrev pub manual_checks : Link F → List (Bool × Fault)
  manual_checks l =
      (eqb_text l.ratified_by [], no_ratifier)
      ∷ (is_none (parse_day l.ratified_at), bad_date (bytes "ratified_at"))
      ∷ (eqb_text l.note [], no_note)
      ∷ []

  module _ ⦃fl : Float F⦄ where
    -- G0 to G6 of a succession.
    abbrev pub gate_checks : Link F → List (Bool × Fault)
    gate_checks l =
        let pred_serial = issue_serial l.predecessor in
        let succ_serial = issue_serial l.successor in
        let p = serial_or_0 pred_serial in
        let s = serial_or_0 succ_serial in
        let days = l.gates.calendar_days_between in
        let band = match_ratio_band l.gates.boundary_close_ratio in
        (not (is_equity_isin l.predecessor) || not (is_equity_isin l.successor), not_equity)
        ∷ (not (eqb_text (issuer_prefix l.predecessor) (issuer_prefix l.successor)), issuer_differs)
        ∷ (not (eqb_text l.gates.issuer_prefix (issuer_prefix l.predecessor)), issuer_misdescribed)
        ∷ (is_none pred_serial, no_serial l.predecessor)
        ∷ (is_none succ_serial, no_serial l.successor)
        ∷ (leb s p, serial_not_increasing)
        ∷ (
          not (eqb_text l.gates.serial (two_digits p ++ bytes "->" ++ two_digits s)),
          serial_misdescribed,
        )
        ∷ (not (eqb_ℤ l.gates.sessions_between (pos 0)), live_sessions l.gates.sessions_between)
        ∷ (not l.gates.gap_dates_all_settled, gap_unsettled)
        ∷ (not (eqb_ℤ l.gates.archive_unsettled (pos 0)), archive_holes l.gates.archive_unsettled)
        ∷ (ltb_ℤ days (pos 1), days_not_positive days)
        ∷ (
          not (
              eqb_ℤ (days_between (day_or_zero (pred_last_of l)) (day_or_zero (succ_first_of l)))
                days),
          days_misdescribed,
        )
        ∷ (ltb_ℤ max_calendar_days_between days, days_over_cap days)
        ∷ (eqb_text band [], no_band)
        ∷ (not (eqb_text l.gates.boundary_ratio_matches band), band_misdescribed)
        ∷ []

    abbrev pub rest_checks : Link F → List (Bool × Fault)
    rest_checks l = if is_manual l then manual_checks l else gate_checks l

    unfoldable pub validate_link : Link F → Option Fault
    validate_link l = first_fault (line_checks l ++ rest_checks l)
