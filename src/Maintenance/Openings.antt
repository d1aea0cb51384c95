-- ===== src/Maintenance/Openings.antt =====
-- internal/maintenance/maintenance.go, NextMaintenanceWindow: the first opening of a window.
use kangal_patch.Prelude.{
  ℕ, zero, suc, ◌+◌, ◌≤◌, ◌<◌, ◌≡◌, ◌⊎◌, ◌↔◌, refl, ap, subst, inl, inr, Bool, true, false, ◌||◌,
  not, leb, List, [], ◌∷◌, Option, none, some, is_empty, AnyOf, Bool-cases, true_apart,
  if◌then◌else◌, arith,
}
use kangal_patch.Api.Kube.{Result, ok, err, ok-injective, err-ne-ok}
use kangal_patch.Api.Plan.{MaintenanceWindow, MaintenanceSpec}
use kangal_patch.Maintenance.{
  is_day_match, is_excluded_date, days_after, earlier_of, consider_start, consider_window,
  consider_windows, consider_days, found_window, next_of_spec, next_maintenance_window,
}
use kangal_patch.Maintenance.Least.{Least, Least-none, Least-iff, Least-skip, Least-earlier}
use kangal_patch.Maintenance.Clock.{parse_time_of_day}

module _ (now : ℕ) where
  -- The window opens at `s` on the day of `check`, and not before now.
  abbrev pub OpensOn : ℕ → MaintenanceWindow → ℕ → Type 0
  OpensOn check w s =
      (w.disabled ≡ false)
      × (is_day_match w.days check ≡ true)
      × (parse_time_of_day w.start_time check ≡ ok s)
      × (now ≤ s)

  too_early : (u s : ℕ) → leb now u ≡ false → u ≡ s → now ≤ s → ⊥
  too_early u s e f le = ground arith

  consider_start-Least :
      (P : ℕ → Type 0) (o : Option ℕ) (r : Result ℕ)
      → Least P o
      → Least (λ s. P s ⊎ ((r ≡ ok s) × (now ≤ s))) (consider_start now o r)
  consider_start-Least P o (err e) h = Least-skip P _ o (λ s (f, _). err-ne-ok f) h
  consider_start-Least P o (ok u) h = elim (Bool-cases (leb now u)) [
    | inl e ↦ rw e (
        Least-iff _ _ (earlier_of o u)
          (λ s. (
            λ f. elim f [ inl p ↦ inl p | inr q ↦ inr (ap ok q, ground (arith, e, q)) ],
            λ f. elim f [ inl p ↦ inl p | inr (q, _) ↦ inr (ok-injective q) ],
          ))
          (Least-earlier P o u h))
    | inr e ↦ rw e (Least-skip P _ o (λ s (f, le). too_early u s e (ok-injective f) le) h)
  ]

  open_day : (a b : Bool) → (a || not b) ≡ false → (a ≡ false) × (b ≡ true)
  open_day a b h = ground arith

  closed_day : (a b : Bool) → (a || not b) ≡ true → a ≡ false → b ≡ true → ⊥
  closed_day a b h f g = ground arith

  consider_window-Least :
      (P : ℕ → Type 0) (o : Option ℕ) (check : ℕ) (w : MaintenanceWindow)
      → Least P o
      → Least (λ s. P s ⊎ OpensOn check w s) (consider_window now check o w)
  unfolding consider_window
  consider_window-Least P o check w h =
      elim (Bool-cases (w.disabled || not (is_day_match w.days check))) [
        | inl e ↦ rw e (Least-skip P _ o (λ s f. closed_day _ _ e f.0 f.1) h)
        | inr e ↦
            let (on, day) = open_day _ _ e in
            rw e (
              Least-iff _ _ _
                (λ s. (
                  λ f. elim f [ inl p ↦ inl p | inr (q, le) ↦ inr (on, day, q, le) ],
                  λ f. elim f [ inl p ↦ inl p | inr (_, _, q, le) ↦ inr (q, le) ],
                ))
                (consider_start-Least P o (parse_time_of_day w.start_time check) h))
      ]

  -- Some window of the list opens at `s`.
  abbrev pub OneOpensOn : ℕ → List MaintenanceWindow → ℕ → Type 0
  OneOpensOn check ws s = AnyOf (λ w. OpensOn check w s) ws

  consider_windows-Least :
      (check : ℕ) (ws : List MaintenanceWindow) (P : ℕ → Type 0) (o : Option ℕ)
      → Least P o
      → Least (λ s. P s ⊎ OneOpensOn check ws s) (consider_windows now check o ws)
  unfolding consider_windows
  consider_windows-Least check [] P o h = Least-skip P _ o (λ s f. f) h
  consider_windows-Least check (w ∷ ws) P o h =
      Least-iff _ _ (consider_windows now check (consider_window now check o w) ws)
        (λ s. (
          λ f. elim f [ inl (inl p) ↦ inl p | inl (inr q) ↦ inr (inl q) | inr q ↦ inr (inr q) ],
          λ f. elim f [ inl p ↦ inl (inl p) | inr (inl q) ↦ inl (inr q) | inr (inr q) ↦ inr q ],
        ))
        (consider_windows-Least check ws _ _ (consider_window-Least P o check w h))

  module _ (spec : MaintenanceSpec) where
    -- A window opens at `s` on the `i`th day from now, which is not excluded.
    abbrev pub OpensAfter : ℕ → ℕ → Type 0
    OpensAfter i s =
        (is_excluded_date spec.exclude_dates (days_after now i) ≡ false)
        × OneOpensOn (days_after now i) spec.windows s

    -- The same, on one of `left` days from the `i`th on.
    abbrev pub OpensWithin : ℕ → ℕ → ℕ → Type 0
    OpensWithin i left s = (k : ℕ) × (i ≤ k) × (k < i + left) × OpensAfter k s

    consider_day-Least :
        (i : ℕ) (P : ℕ → Type 0) (o : Option ℕ)
        → Least P o
        → Least
            (λ s. P s ⊎ OpensAfter i s)
            (if is_excluded_date spec.exclude_dates (days_after now i)
              then o
              else consider_windows now (days_after now i) o spec.windows)
    consider_day-Least i P o h =
        elim (Bool-cases (is_excluded_date spec.exclude_dates (days_after now i))) [
          | inl e ↦ rw e (Least-skip P _ o (λ s f. true_apart f.0) h)
          | inr e ↦ rw e (
              Least-iff _ _ (consider_windows now (days_after now i) o spec.windows)
                (λ s. (
                  λ f. elim f [ inl p ↦ inl p | inr q ↦ inr (refl, q) ],
                  λ f. elim f [ inl p ↦ inl p | inr (_, q) ↦ inr q ],
                ))
                (consider_windows-Least (days_after now i) spec.windows P o h))
        ]

    at_once :
        (i left s : ℕ) → OpensWithin i (suc left) s → OpensAfter i s ⊎ OpensWithin (suc i) left s
    at_once i left s (k, le, lt, opens) = elim (Bool-cases (leb k i)) [
      | inl e ↦ inl (subst (λ n. OpensAfter n s) (ground (arith, e, le)) opens)
      | inr e ↦ inr (k, ground (arith, e), omega (arith, lt), opens)
    ]

    consider_days-Least :
        (left i : ℕ) (P : ℕ → Type 0) (o : Option ℕ)
        → Least P o
        → Least (λ s. P s ⊎ OpensWithin i left s) (consider_days spec now i o left)
    unfolding consider_days
    consider_days-Least zero i P o h =
        Least-skip P _ o (λ s (k, le, lt, _). omega (arith, le, lt)) h
    consider_days-Least (suc left) i P o h =
        Least-iff _ _ (consider_days spec now i o (suc left))
          (λ s. (
            λ f. elim f [
              | inl (inl p) ↦ inl p
              | inl (inr q) ↦ inr (i, omega arith, omega arith, q)
              | inr (k, le, lt, q) ↦ inr (k, omega (arith, le), omega (arith, lt), q)
            ],
            λ f. elim f [
              | inl p ↦ inl (inl p)
              | inr q ↦ elim (at_once i left s q) [ inl a ↦ inl (inr a) | inr b ↦ inr b ]
            ],
          ))
          (consider_days-Least left (suc i) _ _ (consider_day-Least i P o h))

    -- Some window opens at `t`, not before now, on one of the seven days from today on.
    abbrev pub IsOpening : ℕ → Type 0
    IsOpening t = OpensWithin 0 7 t

    found-Least :
        (o : Option ℕ)
        → Least (λ s. ⊥ ⊎ IsOpening s) o
        → (t : ℕ) → (found_window o ≡ ok t) ↔ (IsOpening t × ((s : ℕ) → IsOpening s → t ≤ s))
    unfolding Least
    found-Least none h t = (λ e. elim (err-ne-ok e) [ ], λ f. elim (h t (inr f.0)) [ ])
    found-Least (some u) h t = (
      λ e.
          subst (λ n. IsOpening n × ((s : ℕ) → IsOpening s → n ≤ s)) (ok-injective e)
            (elim h.0 [ inl p ↦ elim p [ ] | inr q ↦ q ], λ s q. h.1 s (inr q)),
      λ f.
          ap ok (elim h.0 [ inl p ↦ elim p [ ] | inr q ↦ omega (arith, h.1 t (inr f.0), f.1 u q) ]),
    )

    -- Where there are windows, NextMaintenanceWindow answers `t` exactly if `t` is the first instant,
    -- from now on, at which an enabled window opens on a day that it names and that is not excluded,
    -- among the seven days from today on.
    pub next_maintenance_window-first :
        is_empty spec.windows ≡ false
        → (t : ℕ)
        → (next_maintenance_window (some spec) now ≡ ok t)
          ↔ (IsOpening t × ((s : ℕ) → IsOpening s → t ≤ s))
    unfolding next_maintenance_window next_of_spec
    next_maintenance_window-first e t =
        rw (e, next_of_spec)
          (found-Least (consider_days spec now 0 none 7)
            (consider_days-Least 7 0 (λ s. ⊥) none Least-none) t)
