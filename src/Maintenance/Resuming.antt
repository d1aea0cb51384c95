-- ===== src/Maintenance/Resuming.antt =====
-- internal/maintenance/maintenance.go: a plan that waits for NextMaintenanceWindow finds it open.
use kangal_patch.Prelude.{
  ℕ, zero, suc, ◌+◌, ◌==◌, ◌≤◌, ◌<◌, ◌≡◌, ◌≢◌, ◌⊎◌, refl, sym, ap, ◌∙◌, subst, inl, inr, pos, Bool,
  true, false, String, List, [], ◌∷◌, some, is_empty, All, Bool-cases, if◌then◌else◌, arith,
}
use kangal_patch.Api.Kube.{Result, ok, ok-injective, err-ne-ok}
use kangal_patch.Api.Plan.{MaintenanceWindow, MaintenanceSpec}
use kangal_patch.Calendar.{day_length, day_of, midnight}
use kangal_patch.Maintenance.{
  is_excluded_date, is_in_window, holds, in_some_window, is_in_windows, is_in_maintenance_window,
  days_after, first_free_day, next_of_spec, next_maintenance_window,
}
use kangal_patch.Maintenance.Clock.{parse_clock}
use kangal_patch.Maintenance.Windows.{
  day_of-midnight, is_day_match-OnDay, closing, parse_time_of_day-clock, is_in_window-IsOpen,
}
use kangal_patch.Maintenance.Openings.{
  OpensOn, OneOpensOn, IsOpening, next_maintenance_window-first,
}

-- Both times of the window are times of a day, as the schema of the resource requires, and differ.
abbrev pub IsTimed : MaintenanceWindow → Type 0
IsTimed w =
    (a : ℕ) × (b : ℕ) × (parse_clock w.start_time ≡ ok (pos a))
    × (parse_clock w.end_time ≡ ok (pos b))
    × (a < day_length)
    × (b < day_length)
    × (a ≢ b)

-- An excluded date excludes all of its day.
is_excluded_date-day :
    (dates : List String) (t u : ℕ)
    → day_of t ≡ day_of u
    → is_excluded_date dates t ≡ is_excluded_date dates u
unfolding is_excluded_date
is_excluded_date-day dates t u e = rw e refl

day_of-clock : (d a : ℕ) → a < day_length → day_of (midnight d + a) ≡ d
unfolding day_of midnight
day_of-clock d a h = omega arith

opens_before_closing : (a b d : ℕ) → a < day_length → a ≢ b → midnight d + a < closing a b d
unfolding midnight
opens_before_closing a b d a_in apart = ground (arith, a_in, apart)

inside_first :
    (a b r : Bool) → a ≡ false → b ≡ true → (if a then r else if b then true else r) ≡ true
inside_first a b r h k = ground arith

inside_later : (a b r : Bool) → r ≡ true → (if a then r else if b then true else r) ≡ true
inside_later a b r h = ground arith

module _ (now : ℕ) where
  -- A window that opens at an instant of the calendar is open at it, which is of the day looked at.
  OpensOn-open :
      (check : ℕ) (w : MaintenanceWindow) (s : ℕ)
      → day_length ≤ now
      → IsTimed w
      → OpensOn now check w s
      → (day_of s ≡ day_of check) × (is_in_window w s ≡ ok true)
  OpensOn-open check w s later (a, b, start, end, a_in, b_in, apart) (_, day, at, from) =
      let is : midnight (day_of check) + a ≡ s =
        ok-injective (sym (parse_time_of_day-clock w.start_time check a start) ∙ at) in
      (
        ap day_of (sym is) ∙ day_of-clock (day_of check) a a_in,
        (is_in_window-IsOpen w s a b start end a_in b_in (omega (arith, later, from))).1 (
          day_of check,
          is_day_match-OnDay w.days check _ refl day,
          omega (arith, is),
          subst (λ n. n < closing a b (day_of check)) is
              (opens_before_closing a b (day_of check) a_in apart),
        ),
      )

  OneOpensOn-open :
      (check : ℕ) (ws : List MaintenanceWindow) (s : ℕ)
      → day_length ≤ now
      → All IsTimed ws
      → OneOpensOn now check ws s
      → (day_of s ≡ day_of check) × (in_some_window ws s ≡ true)
  unfolding in_some_window
  OneOpensOn-open check [] s later timed opens = elim opens [ ]
  OneOpensOn-open check (w ∷ ws) s later timed (inl opens) =
      let (day, inside) = OpensOn-open check w s later timed.0 opens in
      (day, inside_first w.disabled (holds (is_in_window w s)) _ opens.0 (ap holds inside))
  OneOpensOn-open check (w ∷ ws) s later timed (inr opens) =
      let (day, inside) = OneOpensOn-open check ws s later timed.1 opens in
      (day, inside_later w.disabled (holds (is_in_window w s)) _ inside)

  free_day :
      (excluded today : Bool) (later : Result ℕ) (u t : ℕ)
      → (if excluded then later else if today then ok now else ok u) ≡ ok t
      → (later ≡ ok t)
        ⊎ ((excluded ≡ false) × (((today ≡ true) × (now ≡ t)) ⊎ ((today ≡ false) × (u ≡ t))))
  free_day true today later u t e = inl e
  free_day false true later u t e = inr (refl, inl (refl, ok-injective e))
  free_day false false later u t e = inr (refl, inr (refl, ok-injective e))

  today_is : (i t : ℕ) → (i == 0) ≡ true → now ≡ t → days_after now i ≡ t
  today_is i t e f = ground arith

  later_day : (i t : ℕ) → (i == 0) ≡ false → midnight (day_of (days_after now i)) ≡ t → now ≤ t
  unfolding midnight day_of
  later_day i t e f = ground arith

  -- The answer without windows.
  first_free_day-open :
      (dates : List String) (left i t : ℕ)
      → first_free_day dates now i left ≡ ok t
      → (is_excluded_date dates t ≡ false) × (now ≤ t)
  unfolding first_free_day
  first_free_day-open dates zero i t e = elim (err-ne-ok e) [ ]
  first_free_day-open dates (suc left) i t e =
      elim (free_day (is_excluded_date dates (days_after now i)) (i == 0) _ _ t e) [
        | inl later ↦ first_free_day-open dates left (suc i) t later
        | inr (free, inl (today, is)) ↦ (
          subst (λ n. is_excluded_date dates n ≡ false) (today_is i t today is) free,
          omega (arith, is),
        )
        | inr (free, inr (not_today, is)) ↦ (
          is_excluded_date-day dates t (days_after now i) (ap day_of (sym is) ∙ day_of-midnight _)
              ∙ free,
          later_day i t not_today is,
        )
      ]

  if_first : {b : Bool} (x y : Result ℕ) → b ≡ true → (if b then x else y) ≡ x
  if_first x y e = rw e refl

  OneOpensOn-from :
      (check : ℕ) (ws : List MaintenanceWindow) (s : ℕ) → OneOpensOn now check ws s → now ≤ s
  OneOpensOn-from check [] s opens = elim opens [ ]
  OneOpensOn-from check (w ∷ ws) s (inl opens) = opens.3
  OneOpensOn-from check (w ∷ ws) s (inr opens) = OneOpensOn-from check ws s opens

  no_windows :
      (spec : MaintenanceSpec) (t : ℕ)
      → is_empty spec.windows ≡ true
      → next_of_spec spec now ≡ ok t
      → (now ≤ t) × ((is_in_windows spec t).0 ≡ true)
  unfolding next_of_spec is_in_windows
  no_windows spec t none_at_all e =
      let (free, from) =
        first_free_day-open spec.exclude_dates 366 0 t (sym (if_first _ _ none_at_all) ∙ e) in
      (from, rw (free, none_at_all) refl)

  some_windows :
      (spec : MaintenanceSpec) (t : ℕ)
      → is_empty spec.windows ≡ false
      → day_length ≤ now
      → All IsTimed spec.windows
      → IsOpening now spec t
      → (is_in_windows spec t).0 ≡ true
  unfolding is_in_windows
  some_windows spec t windows later timed (k, _, _, (free, opens)) =
      let (day, inside) = OneOpensOn-open (days_after now k) spec.windows t later timed opens in
      rw (is_excluded_date-day spec.exclude_dates t (days_after now k) day ∙ free, windows, inside)
        refl

  -- Where NextMaintenanceWindow names an instant, it is not before now and patching is allowed at it,
  -- if the two times of each window are times of a day and differ.
  pub next_maintenance_window-open :
      (spec : MaintenanceSpec) (t : ℕ)
      → day_length ≤ now
      → All IsTimed spec.windows
      → next_maintenance_window (some spec) now ≡ ok t
      → (now ≤ t) × ((is_in_maintenance_window (some spec) t).0 ≡ true)
  unfolding is_in_maintenance_window next_maintenance_window
  next_maintenance_window-open spec t later timed e = elim (Bool-cases (is_empty spec.windows)) [
    | inl f ↦ no_windows spec t f e
    | inr f ↦
        let (opening, _) = (next_maintenance_window-first now spec f t).0 e in
        (OneOpensOn-from _ spec.windows t opening.3.1, some_windows spec t f later timed opening)
  ]
