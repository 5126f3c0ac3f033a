-- ===== src/Entities/Admission.antt =====
-- internal/market/entities/propose.go and roster.go: the gates of `propose` and the checks of a roster
-- line agree, so a line that is proposed is one that loads.
use verdict_machine.Base.{
  ◌◂◌, ℕ, ◌≡◌, refl, Bool, true, false, not, ◌&&◌, ◌||◌, Option, none, some, List, [], ◌∷◌, ◌++◌,
  ◌==◌, length, ltb, leb, All, All-append, inl, inr, Bool-cases, arith,
}
use verdict_machine.Base.Int.{ℤ, pos, eqb_ℤ, ltb_ℤ}
use verdict_machine.Base.Text.{Text, bytes, eqb_text, eqb_text_refl, eqb_text_iff}
use verdict_machine.Base.Map.{Map}
use verdict_machine.Base.Sort.{sort_by, insert_sorted}
use verdict_machine.Float.{Float, nought}
use verdict_machine.Time.{Time, before, same_time, date_only}
use verdict_machine.Entities.Isin.{
  isin_length, well_formed_isin, check_digit_ok, is_equity_isin, issuer_prefix, issue_serial,
}
use verdict_machine.Entities.Link.{
  Gates, parse_day, day_or_zero, days_between, max_calendar_days_between, match_ratio_band,
  two_digits,
}
use verdict_machine.Entities.Lines.{
  first_fault, is_none, serial_or_0, line_checks, gate_checks, rest_checks, validate_link,
}
use verdict_machine.Entities.Candidate.{
  Gate, SymbolFacts, Candidate, accepted, ProposeOptions, link_of, new_candidate, close_band,
  close_ratio, serials,
}
use verdict_machine.Entities.Gating.{
  rank, sort_gates, fail_if, failures, measured, is_g0, is_g2, pred_last, succ_first, gate,
}

pub first_fault-all :
    {E : Type 0} (checks : List (Bool × E))
    → All (λ c. c.0 ≡ false) checks
    → first_fault checks ≡ none
unfolding first_fault
first_fault-all [] h = refl
first_fault-all ((b, e) ∷ checks) (h, rest) = rw h (first_fault-all checks rest)

insert_sorted-cons :
    {A : Type 0} (less : A → A → Bool) (x : A) (ys : List A) → insert_sorted less x ys ≡ [] → ⊥
unfolding insert_sorted
insert_sorted-cons less x [] h = cc
insert_sorted-cons less x (y ∷ ys) h = elim (Bool-cases (less y x)) [
  | inl e ↦ cc (rw e at h)
  | inr e ↦ cc (rw e at h)
]

pub sort_gates-nil : (gates : List Gate) → sort_gates gates ≡ [] → gates ≡ []
unfolding sort_by
sort_gates-nil [] h = refl
sort_gates-nil (g ∷ gates) h =
    absurd (insert_sorted-cons (λ a b. ltb (rank a) (rank b)) g (sort_gates gates) h)

and-true : (a b : Bool) → (a && b) ≡ true → (a ≡ true) × (b ≡ true)
and-true true b h = (refl, h)
and-true false b h = cc

or-false : (a b : Bool) → (a || b) ≡ false → (a ≡ false) × (b ≡ false)
or-false true b h = cc
or-false false b h = (refl, h)

fail_if-nil :
    (b : Bool) (g : Gate) (gates : List Gate) → fail_if b g gates ≡ [] → (b ≡ false) × (gates ≡ [])
fail_if-nil false g gates h = (refl, h)
fail_if-nil true g [] h = cc
fail_if-nil true g (x ∷ gates) h = cc

well_formed-parts :
    (s : Text)
    → well_formed_isin s ≡ true
    → ((length s == isin_length) ≡ true) × (check_digit_ok s ≡ true)
unfolding well_formed_isin
well_formed-parts s h =
    let (but_check, checked) = and-true _ _ h in
    let (but_last, last) = and-true _ _ but_check in
    let (heads, alnum) = and-true _ _ but_last in
    let (sized, upper) = and-true _ _ heads in (sized, checked)

-- What it takes of the measures of a candidate that no gate fails.
pub record IsAdmitted {F : Type 0} (c : Candidate F) (m : Gates F) : Type 0 where
  pub equity : is_g0 c ≡ false
  pub issuer : eqb_text (issuer_prefix c.predecessor) (issuer_prefix c.successor) ≡ true
  pub serial : is_g2 c ≡ false
  pub disjoint : before (pred_last c) (succ_first c) ≡ true
  pub adjacent : eqb_ℤ m.sessions_between (pos 0) ≡ true
  pub settled : m.gap_dates_all_settled ≡ true
  pub complete : eqb_ℤ m.archive_unsettled (pos 0) ≡ true
  pub forwards : ltb_ℤ m.calendar_days_between (pos 1) ≡ false
  pub capped : ltb_ℤ max_calendar_days_between m.calendar_days_between ≡ false
  pub banded : eqb_text m.boundary_ratio_matches [] ≡ false

not-false : (b : Bool) → not b ≡ false → b ≡ true
not-false true h = refl
not-false false h = cc

failures-IsAdmitted :
    {F : Type 0} (c : Candidate F) (m : Gates F) → failures c m ≡ [] → IsAdmitted c m
failures-IsAdmitted c m h =
    let (band, up_to_g4b) = fail_if-nil _ _ _ h in
    let (days, up_to_g4a) = fail_if-nil _ _ _ up_to_g4b in
    let (gap, up_to_g4) = fail_if-nil _ _ _ up_to_g4a in
    let (live, up_to_g3) = fail_if-nil _ _ _ up_to_g4 in
    let (span, up_to_g2) = fail_if-nil _ _ _ up_to_g3 in
    let (serial, up_to_g1) = fail_if-nil _ _ _ up_to_g2 in
    let (issuer, up_to_g0) = fail_if-nil _ _ _ up_to_g1 in
    let (equity, none_before) = fail_if-nil _ _ _ up_to_g0 in
    let (low, high) = or-false _ _ days in
    let (unsettled, holes) = or-false _ _ gap in
    let (disjoint, shared) = or-false _ _ span in
    record {
      equity = equity;
      issuer = not-false _ issuer;
      serial = serial;
      disjoint = not-false _ disjoint;
      adjacent = not-false _ live;
      settled = not-false _ unsettled;
      complete = not-false _ holes;
      forwards = low;
      capped = high;
      banded = band;
    }

same_time_refl : (t : Time) → same_time t t ≡ true
same_time_refl t = ground arith

-- The parts of the gates that are tests joined by `or`.
is_g0-parts :
    {F : Type 0} (c : Candidate F)
    → is_g0 c ≡ false
    → ((is_equity_isin c.predecessor ≡ true) × (is_equity_isin c.successor ≡ true))
      × (well_formed_isin c.predecessor ≡ true)
      × (well_formed_isin c.successor ≡ true)
is_g0-parts c h = ground arith

is_g2-parts :
    {F : Type 0} (c : Candidate F)
    → is_g2 c ≡ false
    → (is_none (issue_serial c.predecessor) ≡ false)
      × (is_none (issue_serial c.successor) ≡ false)
      × (leb (serial_or_0 (issue_serial c.successor)) (serial_or_0 (issue_serial c.predecessor))
          ≡ false)
is_g2-parts c h = ground arith

serials_read :
    (a b : Option ℕ)
    → is_none a ≡ false
    → is_none b ≡ false
    → serials a b ≡ two_digits (serial_or_0 a) ++ bytes "->" ++ two_digits (serial_or_0 b)
serials_read (some p) (some s) h k = refl
serials_read none b h k = cc
serials_read (some p) none h k = cc

-- A band is that of the ratio.
close_band-match :
    {F : Type 0} ⦃fl : Float F⦄ (p s : SymbolFacts F)
    → eqb_text (close_band p s) [] ≡ false
    → close_band p s ≡ match_ratio_band (close_ratio p s)
unfolding eqb_text
close_band-match ⦃fl = fl⦄ p s h = elim (Bool-cases (fl.eq p.last_close nought)) [
  | inl e ↦ cc (rw e at h)
  | inr e ↦ rw e refl
]

eqb_ℤ_refl : (z : ℤ) → eqb_ℤ z z ≡ true
eqb_ℤ_refl z = ground arith

not_below : (n : ℕ) → leb n n ≡ false → ⊥
not_below n h = ground arith

different_texts : (s t : Text) (f : Text → ℕ) → leb (f t) (f s) ≡ false → eqb_text s t ≡ false
different_texts s t f h = elim (Bool-cases (eqb_text s t)) [
  | inr e ↦ e
  | inl e ↦ let same = (eqb_text_iff s t).0 e in absurd (not_below (f t) (rw same at h))
]

module _ {F : Type 0} ⦃fl : Float F⦄ (opts : ProposeOptions) (sessions : List Time)
    (settled : Map Time Bool) (unsettled : ℤ) (generator : Text) (p s : SymbolFacts F)
    (shared : ℤ) where
  -- The pair of two symbols, with the sessions that they share.
  abbrev pub pair : Candidate F
  pair = record (new_candidate generator p s) { overlap_dates = shared }

  abbrev pub gated : Candidate F
  gated = gate sessions settled unsettled pair

  IsAdmitted-validate_link :
      IsAdmitted pair (measured sessions settled unsettled pair)
      → is_none (parse_day (date_only p.last_date)) ≡ false
      → is_none (parse_day (date_only s.first_date)) ≡ false
      → validate_link (link_of opts gated) ≡ none
  unfolding validate_link gate eqb_text
  IsAdmitted-validate_link a read_last read_first =
      let ((p_equity, s_equity), p_formed, s_formed) = is_g0-parts pair a.equity in
      let (p_read, s_read, rising) = is_g2-parts pair a.serial in
      let (p_sized, p_checked) = well_formed-parts p.isin p_formed in
      let (s_sized, s_checked) = well_formed-parts s.isin s_formed in
      let band = close_band-match p s a.banded in
      let l = link_of opts gated in
      let lines : All (λ c. c.0 ≡ false) (line_checks l) =
        refl
        ◂ different_texts p.isin s.isin (λ t. serial_or_0 (issue_serial t)) rising
        ◂ rw (p_sized, s_sized) refl
        ◂ read_first
        ◂ read_last
        ◂ read_first
        ◂ rw (same_time_refl (day_or_zero (parse_day (date_only s.first_date)))) refl
        ◂ rw a.disjoint refl
        ◂ rw p_formed refl
        ◂ rw s_formed refl
        ◂ rw (p_checked, s_checked) refl
        ◂ tt in
      let gates : All (λ c. c.0 ≡ false) (gate_checks l) =
        rw (p_equity, s_equity) refl
        ◂ rw a.issuer refl
        ◂ rw (eqb_text_refl (issuer_prefix p.isin)) refl
        ◂ p_read
        ◂ s_read
        ◂ rising
        ◂ rw (serials_read _ _ p_read s_read, eqb_text_refl) refl
        ◂ rw a.adjacent refl
        ◂ rw a.settled refl
        ◂ rw a.complete refl
        ◂ a.forwards
        ◂ rw (eqb_ℤ_refl (days_between (pred_last pair) (succ_first pair))) refl
        ◂ a.capped
        ◂ rw (← band) a.banded
        ◂ rw (band, eqb_text_refl (match_ratio_band (close_ratio p s))) refl
        ◂ tt in
      first_fault-all (line_checks l ++ rest_checks l)
        (All-append (λ c. c.0 ≡ false) (line_checks l) (rest_checks l) lines gates)

  accepted-nil :
      (gates : List Gate) → accepted (record pair { failed_gates = gates }) ≡ true → gates ≡ []
  accepted-nil [] h = refl
  accepted-nil (g ∷ gates) h = cc

  -- Of two symbols whose last and first date are written in a form that reads back: where no gate of
  -- `propose` fails the pair, whatever the calendar and the shared sessions, the line made of it passes
  -- every check of a roster line, G0 to G6 among them.
  pub gate-validate_link :
      accepted gated ≡ true
      → is_none (parse_day (date_only p.last_date)) ≡ false
      → is_none (parse_day (date_only s.first_date)) ≡ false
      → validate_link (link_of opts gated) ≡ none
  unfolding gate
  gate-validate_link h read_last read_first =
      IsAdmitted-validate_link
        (failures-IsAdmitted pair (measured sessions settled unsettled pair)
          (sort_gates-nil _ (accepted-nil _ h)))
        read_last read_first
