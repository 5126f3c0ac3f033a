-- ===== src/Entities/Gating.antt =====
-- internal/market/entities/propose.go: the gates of one candidate, G5 over the accepted ones, and the
-- dates of the archive that were never settled.
use verdict_machine.Base.{
  ℕ, zero, suc, ◌+◌, ◌-◌, Bool, true, false, not, ◌&&◌, ◌||◌, none, some, List, [], ◌∷◌, ◌++◌, map,
  ltb, leb, if◌then◌else◌,
}
use verdict_machine.Base.Int.{ℤ, pos, eqb_ℤ, ltb_ℤ}
use verdict_machine.Base.Text.{Text, eqb_text}
use verdict_machine.Base.Sort.{sort_by}
use verdict_machine.Base.Map.{Map, lookup}
use verdict_machine.Time.{Time, before, after}
use verdict_machine.Market.Fence.{time_key}
use verdict_machine.Entities.Isin.{well_formed_isin, is_equity_isin, issuer_prefix, issue_serial}
use verdict_machine.Entities.Link.{
  Gates, max_calendar_days_between, parse_day, day_or_zero, days_between,
}
use verdict_machine.Entities.Lines.{is_none, serial_or_0}
use verdict_machine.Entities.Candidate.{
  Gate, g0, g1, g2, g3, g4, g4a, g4b, g5, g6, q_retracted, Candidate, accepted,
}

-- The place in `ReportOrder`.
abbrev pub rank : Gate → ℕ
rank g0 = 0
rank g1 = 1
rank g2 = 2
rank g3 = 3
rank g4 = 4
rank g4a = 5
rank g4b = 6
rank g5 = 7
rank g6 = 8
rank q_retracted = 9

abbrev pub sort_gates : List Gate → List Gate
sort_gates gates = sort_by (λ a b. ltb (rank a) (rank b)) gates

-- `settled[d]`
abbrev pub is_settled : Map Time Bool → Time → Bool
is_settled settled d = elim (lookup d settled) [ none ↦ false | some b ↦ b ]

abbrev pub next_day : Time → Time
next_day d = record d { day = d.day + 1 }

-- `n` days from `d` on.
unfoldable pub all_settled : Map Time Bool → ℕ → Time → Bool
all_settled settled zero d = true
all_settled settled (suc n) d =
    let rest = all_settled settled n (next_day d) in
    if not (is_settled settled d) then false else rest

-- `sort.Search` over sessions in the order of their dates: the first index at which the test holds.
unfoldable pub search : (Time → Bool) → List Time → ℕ
search p [] = 0
search p (t ∷ ts) = let rest = search p ts in if p t then 0 else suc rest

unfoldable pub count_between : List Time → Time → Time → ℕ
count_between sessions from to =
    let lo = search (λ t. after t from) sessions in
    let hi = search (λ t. not (before t to)) sessions in if ltb hi lo then 0 else hi - lo

-- The dates of [d, d + n) that are not settled: holes, and those that the last fetch came too early
-- for. A session of d ends at midnight IST after it, 18:30 UTC on d, and has a day more to settle.
abbrev pub horizon : Time → Time
horizon d = record { day = d.day + 1; nanos = 66_600_000_000_000 }

unfoldable pub holes_from : Map Time Bool → Time → ℕ → Time → List Time × List Time
holes_from settled last_fetch zero d = ([], [])
holes_from settled last_fetch (suc n) d =
    let rest = holes_from settled last_fetch n (next_day d) in
    if is_settled settled d
    then rest
    else if before last_fetch (horizon d)
    then (rest.0, d ∷ rest.1)
    else (d ∷ rest.0, rest.1)

-- `archiveHoles`, of two midnights.
abbrev pub archive_holes : Time → Time → Map Time Bool → Time → List Time × List Time
archive_holes from to settled last_fetch =
    holes_from settled last_fetch (to.day + 1 - from.day) from

abbrev pub fail_if : Bool → Gate → List Gate → List Gate
fail_if fails g gates = if fails then gates ++ (g ∷ []) else gates

module _ {F : Type 0} where
  abbrev pub pred_last : Candidate F → Time
  pred_last c = day_or_zero (parse_day c.gates.predecessor_last_bar)

  abbrev pub succ_first : Candidate F → Time
  succ_first c = day_or_zero (parse_day c.gates.successor_first_bar)

  -- What `gate` measures.
  abbrev pub measured : List Time → Map Time Bool → ℤ → Candidate F → Gates F
  measured sessions settled archive_unsettled c = record (c.gates) {
    sessions_between = pos (count_between sessions (pred_last c) (succ_first c));
    gap_dates_all_settled =
        all_settled settled ((succ_first c).day - ((pred_last c).day + 1)) (next_day (pred_last c));
    archive_unsettled = archive_unsettled;
    calendar_days_between = days_between (pred_last c) (succ_first c);
  }

  abbrev pub is_g0 : Candidate F → Bool
  is_g0 c =
      not (is_equity_isin c.predecessor)
      || not (is_equity_isin c.successor)
      || not (well_formed_isin c.predecessor)
      || not (well_formed_isin c.successor)

  abbrev pub is_g2 : Candidate F → Bool
  is_g2 c =
      is_none (issue_serial c.predecessor)
      || is_none (issue_serial c.successor)
      || leb (serial_or_0 (issue_serial c.successor)) (serial_or_0 (issue_serial c.predecessor))

  -- The gates that fail, by the measures `m`.
  abbrev pub failures : Candidate F → Gates F → List Gate
  failures c m =
      let a = fail_if (is_g0 c) g0 c.failed_gates in
      let b =
        fail_if (not (eqb_text (issuer_prefix c.predecessor) (issuer_prefix c.successor))) g1 a in
      let d = fail_if (is_g2 c) g2 b in
      let e =
        fail_if (not (before (pred_last c) (succ_first c)) || not (eqb_ℤ c.overlap_dates (pos 0)))
          g3 d in
      let f = fail_if (not (eqb_ℤ m.sessions_between (pos 0))) g4 e in
      let g =
        fail_if (not m.gap_dates_all_settled || not (eqb_ℤ m.archive_unsettled (pos 0))) g4a f in
      let h =
        fail_if
          (ltb_ℤ m.calendar_days_between (pos 1)
            || ltb_ℤ max_calendar_days_between m.calendar_days_between)
          g4b g in
      fail_if (eqb_text m.boundary_ratio_matches []) g6 h

  unfoldable pub gate : List Time → Map Time Bool → ℤ → Candidate F → Candidate F
  gate sessions settled archive_unsettled c =
      let m = measured sessions settled archive_unsettled c in
      record c { gates = m; failed_gates = sort_gates (failures c m) }

  abbrev pub shares : (Candidate F → Text) → Candidate F → Candidate F → Bool
  shares key c d = accepted d && eqb_text (key d) (key c)

  -- How many accepted candidates have the name of `c`.
  abbrev pub sharers : (Candidate F → Text) → List (Candidate F) → Candidate F → ℕ
  sharers key [] c = 0
  sharers key (d ∷ ds) c = (if shares key c d then 1 else 0) + sharers key ds c

  abbrev pub is_contested : (Candidate F → Text) → List (Candidate F) → Candidate F → Bool
  is_contested key all c = accepted c && ltb 1 (sharers key all c)

  abbrev pub fail_g5 : Candidate F → Candidate F
  fail_g5 c = record c { failed_gates = sort_gates (c.failed_gates ++ (g5 ∷ [])) }

  -- Both groupings are of the candidates as they came, so one contested twice fails twice.
  abbrev pub path_gated : List (Candidate F) → Candidate F → Candidate F
  path_gated all c =
      let once = if is_contested (λ c. c.successor) all c then fail_g5 c else c in
      if is_contested (λ c. c.predecessor) all c then fail_g5 once else once

  unfoldable pub apply_path_gate : List (Candidate F) → List (Candidate F)
  apply_path_gate cs = map (path_gated cs) cs
