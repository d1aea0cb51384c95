-- ===== src/Witnesses/Windows.antt =====
-- The theorems of the maintenance windows: from 22:00 to 02:00 on Thursdays, seen at 01:00 on Friday
-- 2026-12-25 and at noon on Thursday, and with the Thursday excluded.
use kangal_patch.Prelude.{
  ◌≡◌, ◌↔◌, ◌≤◌, ◌<◌, refl, false, zero, suc, ℕ, ◌+◌, ◌*◌, pos, true, false, [], ◌∷◌, some, arith,
}
use kangal_patch.Api.Kube.{ok}
use kangal_patch.Api.Plan.{MaintenanceWindow, MaintenanceSpec}
use kangal_patch.Calendar.{day_of, midnight, weekday_of}
use kangal_patch.Maintenance.{
  is_in_window, is_in_maintenance_window, next_maintenance_window, next_of_spec, days_after,
  is_excluded_date, consider_days, consider_windows, consider_window, is_day_match, equal_fold,
  short_name,
}
use kangal_patch.Maintenance.Clock.{parse_clock, parse_time_of_day, parse_clock-digits}
use kangal_patch.Maintenance.Windows.{IsOpen, is_in_window-IsOpen}
use kangal_patch.Maintenance.Openings.{IsOpening, next_maintenance_window-first}
use kangal_patch.Maintenance.Weekly.{next_maintenance_window-misses}
use kangal_patch.Maintenance.Resuming.{next_maintenance_window-open}

abbrev thursday_night : MaintenanceWindow
thursday_night = record {
  days = "thu" ∷ [];
  start_time = "22:00";
  end_time = "02:00";
  disabled = false;
}

abbrev thursdays : MaintenanceSpec
thursdays = record { exclude_dates = []; windows = thursday_night ∷ [] }

abbrev friday_morning : ℕ
friday_morning = 739974 * 86400000000000 + 3600000000000

abbrev thursday_noon : ℕ
thursday_noon = 739973 * 86400000000000 + 43200000000000

starts_at_ten : parse_clock thursday_night.start_time ≡ ok (pos 79200000000000)
unfolding parse_clock
starts_at_ten = refl

ends_at_two : parse_clock thursday_night.end_time ≡ ok (pos 7200000000000)
unfolding parse_clock
ends_at_two = refl

is_in_window-IsOpen_example :
    (is_in_window thursday_night friday_morning ≡ ok true)
    ↔ IsOpen ("thu" ∷ []) 79200000000000 7200000000000 friday_morning
is_in_window-IsOpen_example =
    is_in_window-IsOpen thursday_night friday_morning 79200000000000 7200000000000 starts_at_ten
      ends_at_two (omega arith) (omega arith) (omega arith)

next_maintenance_window-first_example :
    (next_maintenance_window (some thursdays) thursday_noon ≡ ok 63933746400000000000) ↔ (
      IsOpening thursday_noon thursdays 63933746400000000000
      × ((s : ℕ) → IsOpening thursday_noon thursdays s → 63933746400000000000 ≤ s))
next_maintenance_window-first_example =
    next_maintenance_window-first thursday_noon thursdays refl 63933746400000000000

opens_tonight : next_maintenance_window (some thursdays) thursday_noon ≡ ok 63933746400000000000
unfolding next_maintenance_window next_of_spec consider_days consider_windows consider_window
    is_day_match weekday_of day_of equal_fold short_name parse_time_of_day parse_clock midnight
    is_excluded_date
opens_tonight = refl

next_maintenance_window-open_example :
    (thursday_noon ≤ 63933746400000000000)
    × ((is_in_maintenance_window (some thursdays) 63933746400000000000).0 ≡ true)
next_maintenance_window-open_example =
    next_maintenance_window-open thursday_noon thursdays 63933746400000000000 (omega arith)
      (
        (
          79200000000000,
          7200000000000,
          starts_at_ten,
          ends_at_two,
          omega arith,
          omega arith,
          λ e. omega (arith, e),
        ),
        tt,
      )
      opens_tonight

abbrev late_thursday : ℕ
late_thursday = 739973 * 86400000000000 + 82800000000000

only_on_thursdays :
    (i : ℕ) → 1 ≤ i → i < 7 → is_day_match ("thu" ∷ []) (days_after late_thursday i) ≡ false
unfolding is_day_match weekday_of day_of equal_fold short_name
only_on_thursdays zero from to = let no_such : ⊥ = omega (arith, from) in elim no_such [ ]
only_on_thursdays (suc zero) from to = refl
only_on_thursdays (suc (suc zero)) from to = refl
only_on_thursdays (suc (suc (suc zero))) from to = refl
only_on_thursdays (suc (suc (suc (suc zero)))) from to = refl
only_on_thursdays (suc (suc (suc (suc (suc zero))))) from to = refl
only_on_thursdays (suc (suc (suc (suc (suc (suc zero)))))) from to = refl
only_on_thursdays (suc (suc (suc (suc (suc (suc (suc n))))))) from to =
    let no_such : ⊥ = omega (arith, to) in elim no_such [ ]

a_thursday : is_day_match ("thu" ∷ []) late_thursday ≡ true
unfolding is_day_match weekday_of day_of equal_fold short_name
a_thursday = refl

after_ten : midnight (day_of late_thursday) + 79200000000000 < late_thursday
unfolding midnight day_of
after_ten = omega arith

next_maintenance_window-misses_example :
    ((t : ℕ) → ¬ (next_maintenance_window (some thursdays) late_thursday ≡ ok t))
    × (is_day_match ("thu" ∷ []) (days_after late_thursday 7) ≡ true)
    × (midnight (day_of (days_after late_thursday 7)) + 79200000000000 < days_after late_thursday 7)
next_maintenance_window-misses_example =
    next_maintenance_window-misses late_thursday thursday_night 79200000000000 starts_at_ten
      after_ten only_on_thursdays thursdays refl a_thursday

parse_clock-digits_example :
    parse_clock "07:45" ≡ ok (pos ((10 * 0 + 7) * 3600000000000 + (10 * 4 + 5) * 60000000000))
parse_clock-digits_example =
    parse_clock-digits 0 7 4 5 (omega arith) (omega arith) (omega arith) (omega arith) "07:45" refl
