-- ===== src/Calendar.antt =====
-- What internal/maintenance/maintenance.go and the messages of the controllers use of package time, in
-- UTC: the calendar day of an instant, its weekday, and its text. Go's zero time begins a Monday.
use kangal_patch.Prelude.{
  ◌≡◌, refl, ℕ, suc, ◌+◌, ◌-◌, ◌*◌, ◌/◌, ◌%◌, ◌==◌, ltb, min_nat, Bool, true, false, not, String,
  List, [], ◌∷◌, concat, show_nat, if◌then◌else◌,
}

abbrev pub day_length : ℕ
day_length = 86400000000000

-- The day of an instant, counted from Go's zero time, and the instant at which a day begins.
unfoldable pub day_of : ℕ → ℕ
day_of t = t / day_length

unfoldable pub midnight : ℕ → ℕ
midnight d = d * day_length

pub record CivilDate : Type 0 where
  pub year : ℕ
  pub month : ℕ
  pub day : ℕ

abbrev is_leap : ℕ → Bool
is_leap y = if not (y % 4 == 0) then false else if not (y % 100 == 0) then true else y % 400 == 0

-- The lengths of the months from January on.
abbrev month_lengths : Bool → List ℕ
month_lengths leap =
    31 ∷ (if leap then 29 else 28) ∷ 31 ∷ 30 ∷ 31 ∷ 30 ∷ 31 ∷ 31 ∷ 30 ∷ 31 ∷ 30 ∷ 31 ∷ []

-- The month that holds the day `n` of the year, both counted on from the first month of the list.
abbrev find_month : ℕ → ℕ → ℕ → List ℕ → CivilDate
find_month y m n [] = record { year = y; month = m; day = suc n }
find_month y m n (len ∷ rest) =
    let later = find_month y (suc m) (n - len) rest in
    if ltb n len then record { year = y; month = m; day = suc n } else later

-- Cycles of 400, 100, 4 years and 1 year.
unfoldable pub civil_of_day : ℕ → CivilDate
civil_of_day n =
    let in_400 = n % 146097 in
    let centuries = min_nat 3 (in_400 / 36524) in
    let in_100 = in_400 - centuries * 36524 in
    let in_4 = in_100 % 1461 in
    let years = min_nat 3 (in_4 / 365) in
    let y = 400 * (n / 146097) + 100 * centuries + 4 * (in_100 / 1461) + years + 1 in
    find_month y 1 (in_4 - years * 365) (month_lengths (is_leap y))

-- time.Weekday.String of a day.
unfoldable pub weekday_of : ℕ → String
weekday_of d =
    let k = d % 7 in
    if k == 0
    then "Monday"
    else if k == 1
    then "Tuesday"
    else if k == 2
    then "Wednesday"
    else if k == 3
    then "Thursday"
    else if k == 4
    then "Friday"
    else if k == 5
    then "Saturday"
    else "Sunday"

abbrev pub two_digits : ℕ → String
two_digits n = concat ((if ltb n 10 then "0" else "") ∷ show_nat n ∷ [])

abbrev four_digits : ℕ → String
four_digits n = concat (
    (if ltb n 10 then "000" else if ltb n 100 then "00" else if ltb n 1000 then "0" else "")
    ∷ show_nat n
    ∷ [])

abbrev civil_text : CivilDate → String
civil_text c = concat (four_digits c.year ∷ "-" ∷ two_digits c.month ∷ "-" ∷ two_digits c.day ∷ [])

-- Format("2006-01-02") of a day.
unfoldable pub date_text : ℕ → String
unfolding civil_of_day
date_text d = civil_text (civil_of_day d)

-- Format(time.RFC3339) of an instant in UTC.
unfoldable pub rfc3339_text : ℕ → String
unfolding date_text day_of
rfc3339_text t =
    let s = t / 1000000000 in
    concat (
      date_text (day_of t)
      ∷ "T"
      ∷ two_digits (s / 3600 % 24)
      ∷ ":"
      ∷ two_digits (s / 60 % 60)
      ∷ ":"
      ∷ two_digits (s % 60)
      ∷ "Z"
      ∷ [])

-- 2026-12-24 is a Thursday, 739973 days after the zero time.
sample_date : date_text 739973 ≡ "2026-12-24"
unfolding date_text show_nat concat civil_of_day
sample_date = refl

sample_weekday : weekday_of 739973 ≡ "Thursday"
unfolding weekday_of
sample_weekday = refl
