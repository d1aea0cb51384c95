-- ===== src/Maintenance.antt =====
-- internal/maintenance/maintenance.go: when a plan may patch nodes. The local time zone of the
-- operator is taken to be UTC, as in its container image.
pub mod Clock
pub mod Windows
pub mod Least
pub mod Openings
pub mod Resuming
pub mod Weekly
use Prim.Native.Char.{code}
use Prim.Native.String
use kangal_patch.Prelude.{
  ℕ, zero, suc, ◌+◌, ◌-◌, ◌*◌, ◌==◌, ltb, leb, Bool, true, false, not, ◌&&◌, ◌||◌, String, List, [],
  ◌∷◌, Option, none, some, same, is_empty, any, concat, if◌then◌else◌,
}
use kangal_patch.Api.Kube.{Error, Result, ok, err, errorf, wrap}
use kangal_patch.Api.Plan.{MaintenanceWindow, MaintenanceSpec}
use kangal_patch.Effect.Prog.{on_err}
use kangal_patch.Calendar.{day_length, day_of, midnight, weekday_of, date_text}
use kangal_patch.Maintenance.Clock.{codes, parse_time_of_day}

-- strings.EqualFold with an ASCII text: the letters fold, and so do the long s and the Kelvin sign.
abbrev fold : ℕ → ℕ
fold c =
    if leb b'A' c && leb c b'Z'
    then c + 32
    else if c == 383
    then b's'
    else if c == 8490
    then b'k'
    else c

equal_codes : List ℕ → List ℕ → Bool
equal_codes [] [] = true
equal_codes [] (d ∷ ds) = false
equal_codes (c ∷ cs) [] = false
equal_codes (c ∷ cs) (d ∷ ds) = let rest = equal_codes cs ds in fold c == fold d && rest

unfoldable pub equal_fold : String → String → Bool
unfolding equal_codes
equal_fold s t = equal_codes (codes s) (codes t)

-- The first three letters.
unfoldable pub short_name : String → String
short_name s = String.slice s 0 3

-- isDayMatch.
unfoldable pub is_day_match : List String → ℕ → Bool
is_day_match days t =
    let today = weekday_of (day_of t) in
    if is_empty days
    then true
    else if any (λ d. equal_fold d "Any" || equal_fold d "All") days
    then true
    else any (λ d. equal_fold d today || equal_fold d (short_name today)) days

-- isExcludedDate.
unfoldable pub is_excluded_date : List String → ℕ → Bool
is_excluded_date dates t = any (λ d. same d (date_text (day_of t))) dates

-- isInWindow once both times are parsed.
unfoldable pub between : List String → ℕ → ℕ → ℕ → Bool
between days now start end =
    if ltb end start
    then (leb start now && is_day_match days now)
      || (ltb now end && is_day_match days (now - day_length))
    else leb start now && (ltb now end && is_day_match days now)

-- isInWindow. The day before the first day of Go's calendar is not represented.
unfoldable pub is_in_window : MaintenanceWindow → ℕ → Result Bool
is_in_window w now =
    on_err (parse_time_of_day w.start_time now) (λ e. err (wrap "invalid start time" e))
      λ start.
        on_err (parse_time_of_day w.end_time now) (λ e. err (wrap "invalid end time" e))
          λ end. ok (between w.days now start end)

-- An error counts as being outside.
abbrev pub holds : Result Bool → Bool
holds (ok b) = b
holds (err e) = false

-- The loop over the windows.
unfoldable pub in_some_window : List MaintenanceWindow → ℕ → Bool
in_some_window [] now = false
in_some_window (w ∷ ws) now =
    let rest = in_some_window ws now in
    if w.disabled then rest else if holds (is_in_window w now) then true else rest

unfoldable pub is_in_windows : MaintenanceSpec → ℕ → Bool × String
is_in_windows spec now =
    if is_excluded_date spec.exclude_dates now
    then (false, concat ("current date " ∷ date_text (day_of now) ∷ " is in excluded dates" ∷ []))
    else if is_empty spec.windows || in_some_window spec.windows now
    then (true, "")
    else (false, "current time is not within any maintenance window")

-- IsInMaintenanceWindow.
unfoldable pub is_in_maintenance_window : Option MaintenanceSpec → ℕ → Bool × String
is_in_maintenance_window none now = (true, "")
is_in_maintenance_window (some spec) now = is_in_windows spec now

-- `i` days after an instant: AddDate(0, 0, i) in UTC.
abbrev pub days_after : ℕ → ℕ → ℕ
days_after now i = now + i * day_length

-- The loop of NextMaintenanceWindow without windows, with `left` days to look at from day `i` on.
unfoldable pub first_free_day : List String → ℕ → ℕ → ℕ → Result ℕ
first_free_day dates now i zero = err (errorf "every day in the next year is excluded")
first_free_day dates now i (suc left) =
    let later = first_free_day dates now (suc i) left in
    if is_excluded_date dates (days_after now i)
    then later
    else if i == 0
    then ok now
    else ok (midnight (day_of (days_after now i)))

-- The earlier of the best so far and a new opening.
abbrev pub earlier_of : Option ℕ → ℕ → Option ℕ
earlier_of none start = some start
earlier_of (some best) start = if ltb start best then some start else some best

abbrev pub consider_start : ℕ → Option ℕ → Result ℕ → Option ℕ
consider_start now best (ok start) = if leb now start then earlier_of best start else best
consider_start now best (err e) = best

-- One window on the day of `check`.
unfoldable pub consider_window : ℕ → ℕ → Option ℕ → MaintenanceWindow → Option ℕ
consider_window now check best w =
    if w.disabled || not (is_day_match w.days check)
    then best
    else consider_start now best (parse_time_of_day w.start_time check)

unfoldable pub consider_windows : ℕ → ℕ → Option ℕ → List MaintenanceWindow → Option ℕ
consider_windows now check best [] = best
consider_windows now check best (w ∷ ws) =
    consider_windows now check (consider_window now check best w) ws

-- The loop over the next days, `left` of them from day `i` on.
unfoldable pub consider_days : MaintenanceSpec → ℕ → ℕ → Option ℕ → ℕ → Option ℕ
consider_days spec now i best zero = best
consider_days spec now i best (suc left) =
    let check = days_after now i in
    consider_days spec now (suc i)
      (if is_excluded_date spec.exclude_dates check
        then best
        else consider_windows now check best spec.windows)
      left

abbrev pub found_window : Option ℕ → Result ℕ
found_window none = err (errorf "no maintenance window found in the next 7 days")
found_window (some t) = ok t

unfoldable pub next_of_spec : MaintenanceSpec → ℕ → Result ℕ
next_of_spec spec now =
    if is_empty spec.windows
    then first_free_day spec.exclude_dates now 0 366
    else found_window (consider_days spec now 0 none 7)

-- NextMaintenanceWindow.
unfoldable pub next_maintenance_window : Option MaintenanceSpec → ℕ → Result ℕ
next_maintenance_window none now = ok now
next_maintenance_window (some spec) now = next_of_spec spec now
