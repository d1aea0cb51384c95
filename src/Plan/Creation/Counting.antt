-- ===== src/Plan/Creation/Counting.antt =====
-- controllers/leases.go: syncLeases counts the slots.
use kangal_patch.Prelude.{
  ℕ, ◌≤◌, or_false, ◌+◌, ◌≡◌, refl, sym, ap, ◌∙◌, Bool, true, false, not, ◌&&◌, ◌||◌, String, List,
  [], ◌∷◌, Option, none, some, Dict, lookup, member, same, is_some, length, keep, Bool-cases, inl,
  inr, arith,
}
use kangal_patch.Api.Kube.{Lease, ok, err-ne-ok}
use kangal_patch.Api.Plan.{PatchPlan}
use kangal_patch.Api.Job.{PatchJob, is_terminal}
use kangal_patch.Effect.Request.{Request, list_leases}
use kangal_patch.Effect.Sat.{Sat, returns, calls, Sat-bind, Sat-if, Sat-on_err, Sat-imp}
use kangal_patch.Effect.Trace.{
  Event, Answered-Later, just_answered, Trace, stops, asks, Trace-bind, Trace-on_err, Trace-result,
}
use kangal_patch.Drain.{ignore_not_found}
use kangal_patch.Scheduling.{Rollout}
use kangal_patch.Plan.Jobs.{count_of, index_names_from}
use kangal_patch.Plan.Leases.{
  Held, group_of_job, sync_lease, sync_held, needs_no_lease, heal_leases, sync_leases,
}
use kangal_patch.Plan.Creation.Starts.{creation_of, created_in}
use kangal_patch.Plan.Creation.Kept.{CreatesNothing, Uncounted}
use kangal_patch.Plan.Creation.Rooms.{acquire_lease-Sat}
use kangal_patch.Plan.Creation.Steady.{IfOk, ok-IfOk, err-IfOk}
use kangal_patch.Plan.Creation.Increments.{one_if, length-keep, count_of-increment}
use kangal_patch.Plan.Creation.Slots.{
  is_running, is_of_group, holds_slot, held_names, takes_slot, slots_of, Slots,
}

module _ (namespace : String) (rollout : Rollout) where
  -- One lease adds its slot, and its name, by its job.
  abbrev AddsBy : Option PatchJob → Lease → Held → Held → Type 0
  AddsBy o l held held' =
      ((g : String)
        → count_of g held'.active
          ≡ one_if (is_running o && is_of_group rollout g o) + count_of g held.active)
      × ((n : String)
          → member n held'.names ≡ ((is_running o && same l.name n) || member n held.names))

  sync_lease-Adds :
      (l : Lease) (o : Option PatchJob) (held : Held)
      → Sat CreatesNothing (IfOk (AddsBy o l held)) (sync_lease namespace rollout l o held)
  unfolding sync_lease creation_of
  sync_lease-Adds l none held = returns (ok-IfOk _ held (λ g. omega arith, λ n. refl))
  sync_lease-Adds l (some job) held =
      Sat-if (is_terminal job.status.phase)
        (λ e. calls refl λ x.
          Sat-on_err (ignore_not_found x) (λ f _. returns (err-IfOk _ _))
            (λ _ _. returns (ok-IfOk _ held (λ g. rw e (omega arith), λ n. rw e refl))))
        (λ e. returns (
          ok-IfOk _ _ (
            λ g. rw e (count_of-increment (group_of_job job rollout) g held.active),
            λ n. rw e (ground arith),
          )))

  -- The leases add their slots, and the names of those that occupy one.
  abbrev AddsAll : Dict PatchJob → List Lease → Held → Held → Type 0
  AddsAll by_name ls held held' =
      ((g : String)
        → count_of g held'.active
          ≡ length (keep (holds_slot rollout by_name g) ls) + count_of g held.active)
      × ((n : String)
          → member n held'.names ≡ (member n (held_names by_name ls) || member n held.names))

  held_names-cons :
      (by_name : Dict PatchJob) (l : Lease) (ls : List Lease) (n : String)
      → member n (held_names by_name (l ∷ ls)) ≡ (
          (is_running (lookup l.name by_name) && same l.name n) || member n (held_names by_name ls))
  held_names-cons by_name l ls n = elim (Bool-cases (is_running (lookup l.name by_name))) [
    | inl e ↦ rw e (ground arith)
    | inr e ↦ rw e refl
  ]

  sync_held-Adds :
      (by_name : Dict PatchJob) (ls : List Lease) (held : Held)
      → Sat CreatesNothing
          (IfOk (AddsAll by_name ls held))
          (sync_held namespace rollout by_name ls held)
  unfolding sync_held
  sync_held-Adds by_name [] held = returns (ok-IfOk _ held (λ g. omega arith, λ n. refl))
  sync_held-Adds by_name (l ∷ ls) held =
      Sat-bind (sync_lease-Adds l (lookup l.name by_name) held) λ x adds.
        Sat-on_err x (λ f _. returns (err-IfOk _ f))
          λ held' is.
            Sat-imp (sync_held-Adds by_name ls held') (λ _ c. c)
              λ r more final e. (
                λ g. omega (
                  arith,
                  (adds held' is).0 g,
                  (more final e).0 g,
                  length-keep (holds_slot rollout by_name g) l ls,
                ),
                λ n.
                    (more final e).1 n
                    ∙ ap (λ b. member n (held_names by_name ls) || b) ((adds held' is).1 n)
                    ∙ or_shift (member n (held_names by_name ls))
                        (is_running (lookup l.name by_name) && same l.name n) (member n held.names)
                    ∙ ap (λ b. b || member n held.names) (sym (held_names-cons by_name l ls n)),
              )
    where
      or_shift : (a b c : Bool) → (a || (b || c)) ≡ ((b || a) || c)
      or_shift a b c = ground arith

  taken :
      (terminal deleted leased of_group : Bool)
      → ((terminal || deleted) || leased) ≡ true
      → (not terminal && (not deleted && (not leased && of_group))) ≡ false
  taken terminal deleted leased of_group e = ground (arith, e)

  free :
      (terminal deleted leased of_group : Bool)
      → ((terminal || deleted) || leased) ≡ false
      → (not terminal && (not deleted && (not leased && of_group))) ≡ of_group
  free terminal deleted leased of_group e = ground (arith, e)

  -- The slots that the jobs without a lease add.
  abbrev Heals : List String → List PatchJob → Dict ℕ → Dict ℕ → Type 0
  Heals names js active active' =
      (g : String)
      → count_of g active'
        ≡ length (keep (takes_slot rollout (λ n. member n names) g) js) + count_of g active

  heal_leases-Heals :
      (names : List String) (js : List PatchJob) (active : Dict ℕ)
      → Sat CreatesNothing
          (IfOk (Heals names js active))
          (heal_leases namespace rollout names js active)
  unfolding heal_leases needs_no_lease
  heal_leases-Heals names [] active = returns (ok-IfOk _ active (λ g. omega arith))
  heal_leases-Heals names (j ∷ js) active =
      Sat-if (needs_no_lease namespace j names)
        (λ e.
          Sat-imp (heal_leases-Heals names js active) (λ _ c. c)
            λ r more final is g. omega (
              arith,
              more final is g,
              length-keep (takes_slot rollout (λ n. member n names) g) j js,
              ap one_if (
                  taken (is_terminal j.status.phase) (is_some j.deletion_timestamp)
                    (member j.name names) (same (group_of_job j rollout) g) e),
            ))
        λ e. Sat-bind (acquire_lease-Sat namespace j (group_of_job j rollout)) λ x _.
          Sat-on_err x (λ f _. returns (err-IfOk _ f))
            λ _ _.
              Sat-imp (heal_leases-Heals names js _) (λ _ c. c)
                λ r more final is g. omega (
                  arith,
                  more final is g,
                  count_of-increment (group_of_job j rollout) g active,
                  length-keep (takes_slot rollout (λ n. member n names) g) j js,
                  ap one_if (
                      free (is_terminal j.status.phase) (is_some j.deletion_timestamp)
                        (member j.name names) (same (group_of_job j rollout) g) e),
                )

module _ {P : List Event → Request → Type 0}
    (lenient : (h : List Event) (r : Request) → CreatesNothing r → P h r) (namespace : String)
    (plan : PatchPlan) (rollout : Rollout) (jobs : List PatchJob) where
  counted_slots :
      (leases : List Lease) (held : Held) (active : Dict ℕ)
      → AddsAll namespace rollout
          (index_names_from [] jobs)
          leases
          (record { active = []; names = [] })
          held
      → Heals namespace rollout held.names jobs held.active active
      → (g : String) → count_of g active ≡ slots_of rollout jobs leases g
  unfolding slots_of count_of
  counted_slots leases held active adds heals g =
      let same_names : (λ n. member n held.names)
          ≡ (λ n. member n (held_names (index_names_from [] jobs) leases)) =
        λ i n. (adds.1 n ∙ or_false _) i in
      let same_count = ap (λ has. length (keep (takes_slot rollout has g) jobs)) same_names in
      omega (arith, heals g, adds.0 g, same_count)

  -- Where syncLeases succeeds, its counts are those of the slots by the leases that it has listed.
  pub sync_leases-Slots :
      (h : List Event)
      → created_in h ≤ 0
      → Trace P
          (λ h' r.
            (created_in h' ≤ 0)
            × ((active : Dict ℕ) → r ≡ ok active → Slots namespace plan rollout jobs active h'))
          h
          (sync_leases namespace plan rollout jobs)
  unfolding sync_leases creation_of created_in
  sync_leases-Slots h zero = asks (lenient h (list_leases namespace plan.name) refl) λ x.
      Trace-on_err x (λ _ _. stops (omega (arith, zero), λ a e. elim (err-ne-ok e) [ ]))
        λ leases is.
          Trace-bind
            (Uncounted lenient _ 0 (omega (arith, zero)) (
              sync_held-Adds namespace rollout (index_names_from [] jobs) leases
                (record { active = []; names = [] })))
            λ h1 synced l1 (zero1, adds).
              Trace-on_err synced (λ _ _. stops (zero1, λ a e. elim (err-ne-ok e) [ ]))
                λ held is1.
                  Trace-result
                    (λ h2 r l2 (zero2, heals). (
                      zero2,
                      λ active e. record {
                        leases = leases;
                        read_leases = Answered-Later l2 (Answered-Later l1 (just_answered x is));
                        counted = counted_slots leases held active (adds held is1) (heals active e);
                      },
                    ))
                    (Uncounted lenient h1 0 zero1
                      (heal_leases-Heals namespace rollout held.names jobs held.active))
