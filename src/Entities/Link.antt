-- ===== src/Entities/Link.antt =====
-- internal/market/entities/roster.go: a roster and its lines, the dates they are written in, and the
-- bands of G6.
use verdict_machine.Base.{
  ℕ, ◌+◌, ◌-◌, ◌*◌, ◌/◌, ◌%◌, Bool, not, ◌&&◌, ◌||◌, Option, none, some, List, [], ◌∷◌, ltb, leb,
  ◌==◌, all, if◌then◌else◌,
}
use verdict_machine.Base.Int.{ℤ, pos, sub_ℕ}
use verdict_machine.Base.Text.{Text, bytes, eqb_text, less_text}
use verdict_machine.Base.Sort.{sort_by}
use verdict_machine.Float.{Float, whole}
use verdict_machine.Time.{Time, date}
use verdict_machine.Entities.Isin.{is_digit}

pub record Gates (F : Type 0) : Type 0 where
  pub check_digit : Bool
  pub issuer_prefix : Text
  pub serial : Text
  pub predecessor_last_bar : Text
  pub successor_first_bar : Text
  pub sessions_between : ℤ
  pub calendar_days_between : ℤ
  pub gap_dates_all_settled : Bool
  pub archive_unsettled : ℤ
  pub boundary_close_ratio : F
  pub boundary_ratio_matches : Text
  pub predecessor_bars : ℤ
  pub successor_bars : ℤ

pub record EvidenceNotGating : Type 0 where
  pub eod2_isin2hist_agrees : Bool
  pub eod2_independent : Bool
  pub eod2_predecessor_bars : ℤ
  pub boundary_ticker_unchanged : Bool

pub record Link (F : Type 0) : Type 0 where
  pub reason : Text
  pub predecessor : Text
  pub successor : Text
  pub ticker_at_boundary : Text
  pub effective_from : Text
  pub gates : Gates F
  pub evidence_not_gating : EvidenceNotGating
  pub ratified_by : Text
  pub ratified_at : Text
  pub note : Text

pub record Roster (F : Type 0) : Type 0 where
  pub version : ℤ
  pub digest : Text
  pub links : List (Link F)

abbrev pub reason_succession : Text
reason_succession = bytes "succession"

abbrev pub reason_manual : Text
reason_manual = bytes "manual"

abbrev pub roster_version : ℤ
roster_version = pos 1

abbrev pub max_calendar_days_between : ℤ
max_calendar_days_between = pos 4

-- An omitted reason means a succession.
abbrev pub reason_of : {F : Type 0} → Link F → Text
reason_of l = if eqb_text l.reason [] then reason_succession else l.reason

abbrev pub is_manual : {F : Type 0} → Link F → Bool
is_manual l = eqb_text (reason_of l) reason_manual

-- By predecessor, then by successor.
abbrev pub link_less : {F : Type 0} → Link F → Link F → Bool
link_less a b =
    if not (eqb_text a.predecessor b.predecessor)
    then less_text a.predecessor b.predecessor
    else less_text a.successor b.successor

abbrev pub sort_links : {F : Type 0} → List (Link F) → List (Link F)
sort_links links = sort_by link_less links

-- `Roster.Sort`
abbrev pub sort_roster : {F : Type 0} → Roster F → Roster F
sort_roster r = record r { links = sort_links r.links }

abbrev is_leap : ℕ → Bool
is_leap y = y % 4 == 0 && (not (y % 100 == 0) || y % 400 == 0)

abbrev days_in : ℕ → ℕ → ℕ
days_in y m =
    if m == 2
    then (if is_leap y then 29 else 28)
    else if m == 4 || m == 6 || m == 9 || m == 11
    then 30
    else 31

abbrev is_date : ℕ → ℕ → ℕ → Bool
is_date y m d = leb 1 y && leb 1 m && leb m 12 && leb 1 d && leb d (days_in y m)

abbrev value : ℕ → ℕ
value c = c - b'0'

-- `time.Parse` of YYYY-MM-DD, in the years 1 to 9999, and none of the empty text.
unfoldable pub parse_day : Text → Option Time
parse_day (a ∷ b ∷ c ∷ d ∷ p ∷ e ∷ f ∷ q ∷ g ∷ h ∷ []) =
    let y = value a * 1000 + value b * 100 + value c * 10 + value d in
    let m = value e * 10 + value f in
    let n = value g * 10 + value h in
    if all is_digit (a ∷ b ∷ c ∷ d ∷ e ∷ f ∷ g ∷ h ∷ []) && p == b'-' && q == b'-' && is_date y m n
    then some (date y m n)
    else none
parse_day _ = none

-- A date whose error is ignored: the zero `time.Time` is the first day of the year 1.
abbrev pub day_or_zero : Option Time → Time
day_or_zero none = date 1 1 1
day_or_zero (some t) = t

-- `int(to.Sub(from).Hours() / 24)` of two midnights. A Duration saturates at 106,751 whole days.
abbrev pub max_days : ℕ
max_days = 106_751

unfoldable pub days_between : Time → Time → ℤ
days_between from to =
    if ltb (from.day + max_days) to.day
    then pos max_days
    else if ltb (to.day + max_days) from.day
    then sub_ℕ 0 max_days
    else sub_ℕ to.day from.day

-- `%02d` of a number below 100.
abbrev pub two_digits : ℕ → Text
two_digits n = (b'0' + n / 10) ∷ (b'0' + n % 10) ∷ []

pub record RatioBand (F : Type 0) : Type 0 where
  pub name : Text
  pub value : F

module _ {F : Type 0} ⦃fl : Float F⦄ where
  abbrev band : Text → F → RatioBand F
  band name value = record { name = name; value = value }

  abbrev pub ratio_bands : List (RatioBand F)
  ratio_bands =
      band (bytes "1/1") (whole 1)
      ∷ band (bytes "1/2") (fl.decimal 5 1)
      ∷ band (bytes "2/5") (fl.decimal 4 1)
      ∷ band (bytes "1/4") (fl.decimal 25 2)
      ∷ band (bytes "1/5") (fl.decimal 2 1)
      ∷ band (bytes "1/10") (fl.decimal 1 1)
      ∷ band (bytes "1/20") (fl.decimal 5 2)
      ∷ band (bytes "1/50") (fl.decimal 2 2)
      ∷ band (bytes "1/100") (fl.decimal 1 2)
      ∷ []

  -- 1 - 0.25 and 1 + 0.25
  abbrev pub is_outside : F → F → Bool
  is_outside ratio v =
      fl.lt ratio (fl.mul v (fl.decimal 75 2)) || fl.lt (fl.mul v (fl.decimal 125 2)) ratio

  unfoldable pub nearest_band : F → Text → F → List (RatioBand F) → Text
  nearest_band ratio best best_err [] = best
  nearest_band ratio best best_err (b ∷ bs) =
      let e = fl.div (fl.abs (fl.sub ratio b.value)) b.value in
      let kept = nearest_band ratio best best_err bs in
      let nearer = nearest_band ratio b.name e bs in
      if is_outside ratio b.value then kept else if fl.lt e best_err then nearer else kept

  abbrev pub match_ratio_band : F → Text
  match_ratio_band ratio = nearest_band ratio [] fl.inf ratio_bands
