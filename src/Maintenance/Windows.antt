-- ===== src/Maintenance/Windows.antt =====
-- internal/maintenance/maintenance.go, isInWindow: the times at which a window is open.
use kangal_patch.Prelude.{
  ℕ, suc, ◌+◌, ◌-◌, ◌≤◌, ◌<◌, ◌≡◌, ◌⊎◌, ◌↔◌, refl, sym, ap, ◌∙◌, inl, inr, pos, Bool, true, ◌&&◌,
  ◌||◌, ltb, leb, String, List, if◌then◌else◌, arith,
}
use kangal_patch.Api.Kube.{ok, ok-injective}
use kangal_patch.Api.Plan.{MaintenanceWindow}
use kangal_patch.Calendar.{day_length, day_of, midnight}
use kangal_patch.Maintenance.{is_day_match, between, is_in_window}
use kangal_patch.Maintenance.Clock.{parse_clock, parse_time_of_day}

pub day_of-midnight : (d : ℕ) → day_of (midnight d) ≡ d
unfolding day_of midnight
day_of-midnight d = omega arith

-- The day match depends on the day alone.
pub is_day_match-day :
    (days : List String) (t u : ℕ) → day_of t ≡ day_of u → is_day_match days t ≡ is_day_match days u
unfolding is_day_match
is_day_match-day days t u e = rw e refl

-- The days of the window are matched by the day `d`.
abbrev pub OnDay : List String → ℕ → Type 0
OnDay days d = is_day_match days (midnight d) ≡ true

pub is_day_match-OnDay :
    (days : List String) (t d : ℕ) → day_of t ≡ d → is_day_match days t ≡ true → OnDay days d
is_day_match-OnDay days t d e h =
    is_day_match-day days (midnight d) t (day_of-midnight d ∙ sym e) ∙ h

OnDay-is_day_match :
    (days : List String) (t d : ℕ) → day_of t ≡ d → OnDay days d → is_day_match days t ≡ true
OnDay-is_day_match days t d e h =
    is_day_match-day days t (midnight d) (e ∙ sym (day_of-midnight d)) ∙ h

-- When the window of a day closes: on the next day if the end is before the start.
abbrev pub closing : ℕ → ℕ → ℕ → ℕ
closing a b d = if ltb b a then midnight (suc d) + b else midnight d + b

-- The window of some day, from its opening to its closing, holds the instant.
abbrev pub IsOpen : List String → ℕ → ℕ → ℕ → Type 0
IsOpen days a b t = (d : ℕ) × OnDay days d × (midnight d + a ≤ t) × (t < closing a b d)

between-sides :
    (s e n : ℕ) (x y : Bool)
    → (if ltb e s then (leb s n && x) || (ltb n e && y) else leb s n && (ltb n e && x)) ≡ true
    → ((x ≡ true) × (s ≤ n) × ((e < s) ⊎ (n < e))) ⊎ ((y ≡ true) × (e < s) × (n < e))
between-sides s e n x y h = ground arith

sides-between :
    (s e n : ℕ) (x y : Bool)
    → ((x ≡ true) × (s ≤ n) × ((e < s) ⊎ (n < e))) ⊎ ((y ≡ true) × (e < s) × (n < e))
    → (if ltb e s then (leb s n && x) || (ltb n e && y) else leb s n && (ltb n e && x)) ≡ true
sides-between s e n x y h = ground arith

module _ (a b t : ℕ) (a_in : a < day_length) (b_in : b < day_length) (later : day_length ≤ t) where
  abbrev begin : ℕ
  begin = midnight (day_of t)

  yesterday : day_of (t - day_length) ≡ day_of t - 1
  unfolding day_of
  yesterday = omega (arith, later)

  closing-late : (begin + b < begin + a) ⊎ (t < begin + b) → t < closing a b (day_of t)
  unfolding midnight day_of
  closing-late e = ground (arith, b_in)

  closing-early :
      begin + b < begin + a
      → t < begin + b
      → (midnight (day_of t - 1) + a ≤ t) × (t < closing a b (day_of t - 1))
  unfolding midnight day_of
  closing-early e f = ground (arith, a_in, later)

  sides :
      (d : ℕ)
      → midnight d + a ≤ t
      → t < closing a b d
      → ((day_of t ≡ d) × (begin + a ≤ t) × ((begin + b < begin + a) ⊎ (t < begin + b)))
        ⊎ ((day_of (t - day_length) ≡ d) × (begin + b < begin + a) × (t < begin + b))
  unfolding midnight day_of
  sides d le lt = ground (arith, a_in, b_in)

  between-IsOpen :
      (days : List String) → (between days t (begin + a) (begin + b) ≡ true) ↔ IsOpen days a b t
  unfolding between
  between-IsOpen days = (
    λ h.
        elim (between-sides (begin + a) (begin + b) t (is_day_match days t)
          (is_day_match days (t - day_length)) h) [
            | inl (on, le, side) ↦
                (day_of t, is_day_match-OnDay days t _ refl on, le, closing-late side)
            | inr (on, lt, f) ↦ (
              day_of t - 1,
              is_day_match-OnDay days (t - day_length) _ yesterday on,
              (closing-early lt f).0,
              (closing-early lt f).1,
            )
          ],
    λ (d, on, le, lt). elim (sides d le lt) [
      | inl (e, f, side) ↦ sides-between _ _ _ _ _ (inl (OnDay-is_day_match days t d e on, f, side))
      | inr (e, f, g) ↦
          sides-between _ _ _ _ _ (inr (OnDay-is_day_match days (t - day_length) d e on, f, g))
    ],
  )

pub parse_time_of_day-clock :
    (s : String) (t a : ℕ)
    → parse_clock s ≡ ok (pos a)
    → parse_time_of_day s t ≡ ok (midnight (day_of t) + a)
unfolding parse_time_of_day
parse_time_of_day-clock s t a e = rw e (ap ok (omega arith))

is_in_window-between :
    (w : MaintenanceWindow) (t a b : ℕ)
    → parse_clock w.start_time ≡ ok (pos a)
    → parse_clock w.end_time ≡ ok (pos b)
    → is_in_window w t ≡ ok (between w.days t (midnight (day_of t) + a) (midnight (day_of t) + b))
unfolding is_in_window
is_in_window-between w t a b e f =
    rw (parse_time_of_day-clock _ t a e, parse_time_of_day-clock _ t b f) refl

-- Where the times of a window are times of a day, isInWindow says yes exactly when the window of some
-- matching day has opened and not closed: a window whose end is before its start closes on the day
-- after, and the day that it opens on decides.
pub is_in_window-IsOpen :
    (w : MaintenanceWindow) (t a b : ℕ)
    → parse_clock w.start_time ≡ ok (pos a)
    → parse_clock w.end_time ≡ ok (pos b)
    → a < day_length
    → b < day_length
    → day_length ≤ t
    → (is_in_window w t ≡ ok true) ↔ IsOpen w.days a b t
is_in_window-IsOpen w t a b e f a_in b_in later =
    let open_if = between-IsOpen a b t a_in b_in later w.days in
    (
      λ h. open_if.0 (ok-injective (sym (is_in_window-between w t a b e f) ∙ h)),
      λ h. is_in_window-between w t a b e f ∙ ap ok (open_if.1 h),
    )
