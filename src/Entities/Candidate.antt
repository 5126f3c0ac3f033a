-- ===== src/Entities/Candidate.antt =====
-- internal/market/entities/propose.go: a candidate pair, as it is measured off the store.
use verdict_machine.Base.{
  ℕ, Bool, true, false, not, ◌&&◌, Option, none, some, List, [], ◌∷◌, ◌++◌, if◌then◌else◌,
}
use verdict_machine.Base.Int.{ℤ, pos}
use verdict_machine.Base.Text.{Text, bytes, eqb_text}
use verdict_machine.Float.{Float, nought, whole}
use verdict_machine.Time.{Time, date_only, after}
use verdict_machine.Entities.Isin.{check_digit_ok, issuer_prefix, issue_serial}
use verdict_machine.Entities.Link.{
  Gates, EvidenceNotGating, Link, reason_succession, two_digits, match_ratio_band,
}

pub data Gate : Type 0 where
  g0 g1 g2 g3 g4 g4a g4b g5 g6 q_retracted : Gate

pub record SymbolFacts (F : Type 0) : Type 0 where
  pub symbol_id : ℤ
  pub isin : Text
  pub first_date : Time
  pub last_date : Time
  pub bars : ℤ
  pub first_close : F
  pub last_close : F
  pub first_turn : Option F
  pub last_turn : Option F
  pub first_ticker : Text
  pub last_ticker : Text
  pub eod2_bars : ℤ
  pub eod2_first : Option Time

pub record Candidate (F : Type 0) : Type 0 where
  pub generator : Text
  pub predecessor : Text
  pub successor : Text
  pub predecessor_id : ℤ
  pub successor_id : ℤ
  pub ticker_before : Text
  pub ticker_after : Text
  pub predecessor_span : Text × Text
  pub successor_span : Text × Text
  pub overlap_dates : ℤ
  pub boundary_close : F × F
  pub turnover_ratio : Option F
  pub gates : Gates F
  pub evidence_not_gating : EvidenceNotGating
  pub disposition : Text
  pub failed_gates : List Gate
  pub retracted_at : Text
  pub retraction_note : Text

abbrev pub accepted : {F : Type 0} → Candidate F → Bool
accepted c = elim c.failed_gates [ [] ↦ true | _ ∷ _ ↦ false ]

pub record ProposeOptions : Type 0 where
  pub ratified_by : Text
  pub ratified_at : Text

-- `c.link(opts)`
abbrev pub link_of : {F : Type 0} → ProposeOptions → Candidate F → Link F
link_of opts c = record {
  reason = reason_succession;
  predecessor = c.predecessor;
  successor = c.successor;
  ticker_at_boundary = c.ticker_after;
  effective_from = c.successor_span.0;
  gates = c.gates;
  evidence_not_gating = c.evidence_not_gating;
  ratified_by = opts.ratified_by;
  ratified_at = opts.ratified_at;
  note = [];
}

-- The two serials, where both can be read.
abbrev pub serials : Option ℕ → Option ℕ → Text
serials (some p) (some s) = two_digits p ++ bytes "->" ++ two_digits s
serials _ _ = []

abbrev pub is_by : Option Time → Time → Bool
is_by none last = false
is_by (some first) last = not (after first last)

module _ {F : Type 0} ⦃fl : Float F⦄ where
  abbrev pub round4 : F → F
  round4 f =
      fl.div (fl.of_int (fl.to_int (fl.add (fl.mul f (whole 10_000)) (fl.decimal 5 1))))
        (whole 10_000)

  abbrev pub ratio : Option F → Option F → Option F
  ratio (some a) (some b) = if fl.eq b nought then none else some (round4 (fl.div a b))
  ratio _ _ = none

  -- The ratio of the closes across the boundary, and the band it lies in: none is measured off a close
  -- of 0.
  abbrev pub close_ratio : SymbolFacts F → SymbolFacts F → F
  close_ratio p s =
      if not (fl.eq p.last_close nought) then round4 (fl.div s.first_close p.last_close) else nought

  abbrev pub close_band : SymbolFacts F → SymbolFacts F → Text
  close_band p s =
      if not (fl.eq p.last_close nought) then match_ratio_band (close_ratio p s) else []

  abbrev pub new_gates : SymbolFacts F → SymbolFacts F → Gates F
  new_gates p s = record {
    check_digit = check_digit_ok p.isin && check_digit_ok s.isin;
    issuer_prefix = issuer_prefix p.isin;
    serial = serials (issue_serial p.isin) (issue_serial s.isin);
    predecessor_last_bar = date_only p.last_date;
    successor_first_bar = date_only s.first_date;
    sessions_between = pos 0;
    calendar_days_between = pos 0;
    gap_dates_all_settled = false;
    archive_unsettled = pos 0;
    boundary_close_ratio = close_ratio p s;
    boundary_ratio_matches = close_band p s;
    predecessor_bars = p.bars;
    successor_bars = s.bars;
  }

  abbrev pub new_candidate : Text → SymbolFacts F → SymbolFacts F → Candidate F
  new_candidate generator p s = record {
    generator = generator;
    predecessor = p.isin;
    successor = s.isin;
    predecessor_id = p.symbol_id;
    successor_id = s.symbol_id;
    ticker_before = p.last_ticker;
    ticker_after = s.first_ticker;
    predecessor_span = (date_only p.first_date, date_only p.last_date);
    successor_span = (date_only s.first_date, date_only s.last_date);
    overlap_dates = pos 0;
    boundary_close = (p.last_close, s.first_close);
    turnover_ratio = ratio s.first_turn p.last_turn;
    gates = new_gates p s;
    evidence_not_gating = record {
      eod2_isin2hist_agrees = is_by s.eod2_first p.last_date;
      eod2_independent = false;
      eod2_predecessor_bars = p.eod2_bars;
      boundary_ticker_unchanged = eqb_text p.last_ticker s.first_ticker;
    };
    disposition = [];
    failed_gates = [];
    retracted_at = [];
    retraction_note = [];
  }
