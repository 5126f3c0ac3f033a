-- ===== src/Time.antt =====
-- `time.Time` as the source uses it: an instant in UTC, split into its calendar day and the time of
-- that day. All dates of the program are UTC midnights (`market.Day`).
use verdict_machine.Base.Text.{Text, bytes}
use verdict_machine.Base.{
  ℕ, ◌+◌, ◌-◌, ◌*◌, ◌/◌, ◌%◌, ◌≡◌, refl, Bool, ◌&&◌, ◌||◌, [], ◌∷◌, ltb, leb, ◌==◌, if◌then◌else◌,
}

-- `day` counts the days since 0000-03-01, `nanos` the nanoseconds since its midnight.
pub record Time : Type 0 where
  pub day : ℕ
  pub nanos : ℕ

abbrev pub before : Time → Time → Bool
before a b = ltb a.day b.day || (a.day == b.day && ltb a.nanos b.nanos)

abbrev pub after : Time → Time → Bool
after a b = before b a

-- `Time.Equal`
abbrev pub same_time : Time → Time → Bool
same_time a b = a.day == b.day && a.nanos == b.nanos

-- The day number of a Gregorian date; years run from March.
abbrev pub day_number : ℕ → ℕ → ℕ → ℕ
day_number y m d =
    let y' = if leb m 2 then y - 1 else y in
    let day_of_year = (153 * ((m + 9) % 12) + 2) / 5 + (d - 1) in
    let of_era = y' % 400 in
    y' / 400 * 146_097 + (of_era * 365 + of_era / 4 - of_era / 100 + day_of_year)

-- `market.Day`, for a date in range.
abbrev pub date : ℕ → ℕ → ℕ → Time
date y m d = record { day = day_number y m d; nanos = 0 }

days_apart :
    ((date 2024 3 1).day ≡ (date 2024 2 28).day + 2)
    × ((date 2023 3 1).day ≡ (date 2023 2 28).day + 1)
    × ((date 2026 9 7).day ≡ (date 1995 1 1).day + 11_572)
days_apart = (refl, refl, refl)

-- The year and the month of a day, from the day number; years run from March.
abbrev pub day_of_era : Time → ℕ
day_of_era t = t.day % 146_097

abbrev pub year_of_era : Time → ℕ
year_of_era t = let d = day_of_era t in (d - d / 1_460 + d / 36_524 - d / 146_096) / 365

abbrev pub day_of_year : Time → ℕ
day_of_year t = let y = year_of_era t in day_of_era t - (365 * y + y / 4 - y / 100)

abbrev pub march_month : Time → ℕ
march_month t = (5 * day_of_year t + 2) / 153

-- `Time.Month`, `Time.Year` and `Time.Day`
abbrev pub month : Time → ℕ
month t = if ltb (march_month t) 10 then march_month t + 3 else march_month t - 9

abbrev pub year : Time → ℕ
year t = t.day / 146_097 * 400 + year_of_era t + (if leb (month t) 2 then 1 else 0)

abbrev pub month_day : Time → ℕ
month_day t = day_of_year t - (153 * march_month t + 2) / 5 + 1

-- `AddDate(0, 0, -n)`
abbrev pub days_before : Time → ℕ → Time
days_before t n = record t { day = t.day - n }

-- `AddDate(0, -n, 0)`: the same day of an earlier month, counted on into the next where it is too long.
abbrev pub months_before : Time → ℕ → Time
months_before t n =
    let m = year t * 12 + (month t - 1) - n in
    record t { day = day_number (m / 12) (m % 12 + 1) 1 + (month_day t - 1) }

abbrev digit : ℕ → ℕ
digit n = 48 + n % 10

-- `Format(time.DateOnly)`, of a year below 10,000
abbrev pub date_only : Time → Text
date_only t =
    digit (year t / 1000)
    ∷ digit (year t / 100)
    ∷ digit (year t / 10)
    ∷ digit (year t)
    ∷ 45
    ∷ digit (month t / 10)
    ∷ digit (month t)
    ∷ 45
    ∷ digit (month_day t / 10)
    ∷ digit (month_day t)
    ∷ []

calendar_tests :
    (date_only (date 2024 2 29) ≡ bytes "2024-02-29")
    × (date_only (date 1995 12 31) ≡ bytes "1995-12-31")
    × (months_before (date 2026 3 31) 1 ≡ date 2026 3 3)
    × (months_before (date 2026 1 15) 12 ≡ date 2025 1 15)
    × (days_before (date 2026 3 1) 1 ≡ date 2026 2 28)
calendar_tests = (refl, refl, refl, refl, refl)
