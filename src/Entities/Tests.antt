-- ===== src/Entities/Tests.antt =====
-- A succession from the store to the roster: its identifiers, its gates and its line.
use verdict_machine.Base.{
  ◌≡◌, refl, Bool, true, false, none, some, [], ◌∷◌, ◌++◌, map, select, length, arith,
}
use verdict_machine.Base.Int.{pos, ◌*ℤ◌, ◌+ℤ◌, ◌-ℤ◌, wrap64}
use verdict_machine.Base.Text.{bytes, eqb_text, less_text}
use verdict_machine.Base.Map.{Map, lookup, insert}
use verdict_machine.Base.Sort.{sort_by, insert_sorted}
use verdict_machine.Float.Fixed.{Fixed, fixed_float}
use verdict_machine.Time.{Time, date}
use verdict_machine.Entities.Isin.{
  weigh, add_char, sum_from, check_digit_ok, well_formed_isin, issue_serial,
}
use verdict_machine.Entities.CheckDigits.{check_digit_ok-substitute}
use verdict_machine.Entities.Link.{Link, parse_day, days_between, nearest_band}
use verdict_machine.Entities.Lines.{first_fault, validate_link}
use verdict_machine.Entities.Graph.{
  claim_all, walk, walk_all, first_unseen, validate_graph, validate_links, validate,
}
use verdict_machine.Entities.Paths.{IsValidated, validate-IsValidated}
use verdict_machine.Entities.Candidate.{accepted, link_of}
use verdict_machine.Entities.Gating.{
  all_settled, search, count_between, holes_from, gate, apply_path_gate,
}
use verdict_machine.Entities.Admission.{gated, gate-validate_link}
use verdict_machine.Entities.Rosters.{
  Adopted, adopt, adopt_all, drop_superseded, with_adopted, index, adopt_manual, manual_links,
}
use verdict_machine.Entities.Adoption.{IsAdopted, adopt_manual-IsAdopted}
use verdict_machine.Entities.Canonical.{
  quote, escape, escape_all, write_canonical_string, utf16, null, boolean, text, array, object,
  no_more, element, no_member, member, FormatFloat, trim_zeros, es6_exponent, join_entries,
  write_canonical,
}
use verdict_machine.Entities.Quoted.{read, read_string, read_string-write_canonical_string}
use verdict_machine.Base.Result.{ok}
use verdict_machine.Entities.Proposing.{
  Proposal, proposal, measured_candidates, last_of, propose, generate, by_prefix, by_ticker,
  consecutive, add_groups, add_pairs, overlap_of,
}
use verdict_machine.Entities.Proposed.{IsProposed, propose-IsProposed}
use verdict_machine.Entities.Counting.{is_between, count_between-length}
use verdict_machine.Entities.Samples.{
  old_isin, new_isin, old_symbol, new_symbol, calendar, unratified, one_line, hand_line,
}

identifiers :
    (well_formed_isin old_isin ≡ true)
    × (well_formed_isin new_isin ≡ true)
    × (well_formed_isin (bytes "INF732E01011") ≡ true)
    × (check_digit_ok (bytes "INE081A01013") ≡ false)
    × (issue_serial new_isin ≡ some 2)
unfolding well_formed_isin check_digit_ok sum_from add_char weigh issue_serial
identifiers = (refl, refl, refl, refl, refl)

check_digit_ok-substitute_example :
    check_digit_ok (bytes "INE08" ++ (b'7' ∷ bytes "A01012")) ≡ false
unfolding check_digit_ok sum_from add_char weigh
check_digit_ok-substitute_example =
    check_digit_ok-substitute (bytes "INE08") (bytes "A01012") b'1' b'7' refl refl (omega arith)
      refl

dates :
    (parse_day (bytes "2022-07-29") ≡ some (date 2022 7 29))
    × (parse_day (bytes "2023-02-29") ≡ none)
    × (parse_day (bytes "2022-7-29") ≡ none)
    × (days_between (date 2022 7 28) (date 2022 8 1) ≡ pos 4)
unfolding parse_day days_between
dates = (refl, refl, refl, refl)

line_validates : validate one_line ≡ none
unfolding validate validate_links validate_link first_fault well_formed_isin check_digit_ok sum_from
    add_char weigh issue_serial parse_day days_between eqb_text nearest_band ◌*ℤ◌ ◌+ℤ◌ ◌-ℤ◌
    validate_graph claim_all walk walk_all first_unseen lookup insert
line_validates = refl

validate-IsValidated_example : IsValidated one_line (validate one_line)
validate-IsValidated_example = validate-IsValidated one_line

split_accepted :
    accepted
      (gated unratified calendar [] (pos 0) (bytes "issuer-prefix") old_symbol new_symbol (pos 0))
    ≡ true
unfolding gate well_formed_isin check_digit_ok sum_from add_char weigh issue_serial parse_day
    days_between eqb_text nearest_band ◌*ℤ◌ ◌+ℤ◌ ◌-ℤ◌ wrap64 sort_by insert_sorted all_settled
    count_between search lookup
split_accepted = refl

gate-validate_link_example :
    validate_link (
      link_of unratified (
        gated unratified calendar [] (pos 0) (bytes "issuer-prefix") old_symbol new_symbol (pos 0)))
    ≡ none
unfolding parse_day
gate-validate_link_example =
    gate-validate_link unratified calendar [] (pos 0) (bytes "issuer-prefix") old_symbol new_symbol
      (pos 0) split_accepted refl refl

adopt_manual-IsAdopted_example :
    (map
        (λ (a : Adopted Fixed). a.link)
        (record { link = hand_line; superseded_generated = true } ∷ [])
      ≡ manual_links (hand_line ∷ []))
    × IsAdopted one_line
        (hand_line ∷ [])
        (record { link = hand_line; superseded_generated = true } ∷ [])
        (record one_line { links = hand_line ∷ [] })
unfolding adopt_manual adopt_all adopt index with_adopted drop_superseded first_fault lookup insert
    eqb_text sort_by insert_sorted
adopt_manual-IsAdopted_example =
    adopt_manual-IsAdopted one_line (record one_line { links = hand_line ∷ [] }) (hand_line ∷ [])
      (record { link = hand_line; superseded_generated = true } ∷ []) refl

-- The reader keeps to the grammar.
reader_is_strict :
    (read_string (quote ∷ 1 ∷ quote ∷ []) ≡ none)
    × (read_string (bytes "\"\\x\"") ≡ none)
    × (read_string (bytes "\"\\u00zz\"") ≡ none)
    × (read_string (bytes "\"\\ud83d\"") ≡ none)
    × (read_string (bytes "\"\\u00E9\"") ≡ some (233 ∷ [], []))
unfolding read_string read
reader_is_strict = (refl, refl, refl, refl, refl)

read_string-write_canonical_string_example :
    read_string (write_canonical_string (b'a' ∷ quote ∷ 1 ∷ []) ++ bytes ":1")
    ≡ some (b'a' ∷ quote ∷ 1 ∷ [], bytes ":1")
read_string-write_canonical_string_example =
    read_string-write_canonical_string (b'a' ∷ quote ∷ 1 ∷ []) (bytes ":1")

abbrev no_format : FormatFloat Fixed
no_format = record { plain = λ f. []; with_exponent = λ f. [] }

-- The keys of an object come in the order of their UTF-16 code units.
object_sorted :
    write_canonical {F = Fixed} no_format (
      object (
        member (bytes "b") null (
          member
            (bytes "a")
            (array (element (boolean true) (element (text []) no_more)))
            no_member)))
    ≡ ok (bytes "{\"a\":[true,\"\"],\"b\":null}")
unfolding write_canonical join_entries write_canonical_string escape_all escape utf16 sort_by
    insert_sorted less_text
object_sorted = refl

-- The exponent has no leading zero.
exponent_trimmed : es6_exponent (bytes "1e-07") ≡ bytes "1e-7"
unfolding es6_exponent trim_zeros
exponent_trimmed = refl

abbrev settled_dates : Map Time Bool
settled_dates =
    (date 2022 7 27, true)
    ∷ (date 2022 7 28, true)
    ∷ (date 2022 7 29, true)
    ∷ (date 2022 7 30, true)
    ∷ (date 2022 7 31, true)
    ∷ (date 2022 8 1, true)
    ∷ []

abbrev split_proposal : Proposal Fixed
split_proposal = proposal unratified (
    apply_path_gate
      (measured_candidates (new_symbol ∷ old_symbol ∷ []) calendar settled_dates [] []))

split_proposed :
    propose unratified (new_symbol ∷ old_symbol ∷ []) calendar settled_dates (date 2026 9 8) [] []
    ≡ ok split_proposal
unfolding propose last_of lookup holes_from
split_proposed = refl

propose-IsProposed_example : IsProposed split_proposal
unfolding parse_day
propose-IsProposed_example =
    propose-IsProposed unratified (new_symbol ∷ old_symbol ∷ []) calendar settled_dates
      (date 2026 9 8) [] [] split_proposal ((refl, refl), ((refl, refl), tt)) split_proposed

split_proposal_line :
    map (λ (l : Link Fixed). l.successor) split_proposal.roster.links ≡ new_isin ∷ []
unfolding generate by_prefix by_ticker consecutive add_groups add_pairs overlap_of gate
    apply_path_gate well_formed_isin check_digit_ok sum_from add_char weigh issue_serial parse_day
    days_between eqb_text nearest_band ◌*ℤ◌ ◌+ℤ◌ ◌-ℤ◌ wrap64 sort_by insert_sorted all_settled
    count_between search lookup insert less_text
split_proposal_line = refl

count_between-length_example :
    count_between calendar (date 2022 7 27) (date 2022 8 1)
    ≡ length (select (is_between (date 2022 7 27) (date 2022 8 1)) calendar)
count_between-length_example =
    count_between-length calendar (date 2022 7 27) (date 2022 8 1)
      ((refl, (refl, (refl, tt))), ((refl, (refl, tt)), ((refl, tt), (tt, tt))))
