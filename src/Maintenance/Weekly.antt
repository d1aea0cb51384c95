-- ===== src/Maintenance/Weekly.antt =====
-- internal/maintenance/maintenance.go, NextMaintenanceWindow: a window of one weekday.
use kangal_patch.Prelude.{
  ℕ, ◌+◌, ◌%◌, ◌≤◌, ◌<◌, ◌≡◌, refl, sym, ap, ◌∙◌, subst, inl, inr, pos, leb, true, false, String,
  List, [], ◌∷◌, some, is_empty, AnyOf, Bool-cases, true_apart, arith,
}
use kangal_patch.Api.Kube.{ok, ok-injective}
use kangal_patch.Api.Plan.{MaintenanceWindow, MaintenanceSpec}
use kangal_patch.Calendar.{day_of, midnight, weekday_of}
use kangal_patch.Maintenance.{is_day_match, days_after, next_maintenance_window}
use kangal_patch.Maintenance.Clock.{parse_clock}
use kangal_patch.Maintenance.Windows.{parse_time_of_day-clock}
use kangal_patch.Maintenance.Openings.{OpensOn, next_maintenance_window-first}

-- A day match comes again after a week.
is_day_match-week :
    (days : List String) (t : ℕ) → is_day_match days (days_after t 7) ≡ is_day_match days t
unfolding is_day_match weekday_of day_of
is_day_match-week days t = rw (same_day t) refl
  where
    same_day : (n : ℕ) → day_of (days_after n 7) % 7 ≡ day_of n % 7
    same_day n = omega arith

module _ (now : ℕ) (w : MaintenanceWindow) (a : ℕ) (start : parse_clock w.start_time ≡ ok (pos a))
    (opened : midnight (day_of now) + a < now)
    (once : (i : ℕ) → 1 ≤ i → i < 7 → is_day_match w.days (days_after now i) ≡ false) where
  opened_before : midnight (day_of (days_after now 0)) + a < now
  unfolding midnight day_of
  opened_before = omega (arith, opened)

  never : (s k : ℕ) → k < 7 → OpensOn now (days_after now k) w s → ⊥
  never s k in_week opens = elim (Bool-cases (leb k 0)) [
    | inl e ↦
        let at : midnight (day_of (days_after now k)) + a ≡ s =
          ok-injective
            (sym (parse_time_of_day-clock w.start_time (days_after now k) a start) ∙ opens.2) in
        before s k (ground (arith, e)) at opens.3
    | inr e ↦ true_apart (sym opens.1 ∙ once k (ground (arith, e)) in_week)
  ]
    where
      before : (s k : ℕ) → k ≡ 0 → midnight (day_of (days_after now k)) + a ≡ s → now ≤ s → ⊥
      before s k e at le =
          omega (
            arith,
            opened_before,
            le,
            subst (λ n. midnight (day_of (days_after now n)) + a ≡ s) e at,
          )

  -- After the only window of a plan has opened on its only weekday, NextMaintenanceWindow names no
  -- instant that day, though the window opens again less than seven days later.
  pub next_maintenance_window-misses :
      (spec : MaintenanceSpec)
      → spec.windows ≡ w ∷ []
      → is_day_match w.days now ≡ true
      → ((t : ℕ) → ¬ (next_maintenance_window (some spec) now ≡ ok t))
        × (is_day_match w.days (days_after now 7) ≡ true)
        × (midnight (day_of (days_after now 7)) + a < days_after now 7)
  unfolding midnight day_of
  next_maintenance_window-misses spec only today = (
    λ t e.
        let (opening, _) = (next_maintenance_window-first now spec (ap is_empty only) t).0 e in
        elim (subst (λ ws. AnyOf (λ v. OpensOn now (days_after now opening.0) v t) ws) only
          opening.3.1) [ inl o ↦ never t opening.0 opening.2 o | inr n ↦ n ],
    is_day_match-week w.days now ∙ today,
    omega (arith, opened),
  )
