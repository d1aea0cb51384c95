-- ===== src/Plan/Mirroring/Sync.antt =====
-- controllers/leases.go: acquireLease, the second loop of syncLeases, and the whole.
use mathlib.Core.List.{Mem}
use mathlib.Core.Option.{none-ne-some, some-injective}
use kangal_patch.Prelude.{
  ℕ, ◌≡◌, refl, sym, subst, Bool, true, false, ◌||◌, List, [], ◌∷◌, All, All-imp, All-mem, Dict,
  String, member, is_some, arith,
}
use kangal_patch.Api.Kube.{Error, ErrorKind, already_exists, Lease, Result, ok, err}
use kangal_patch.Api.Plan.{PatchPlan}
use kangal_patch.Api.Job.{PatchJob, is_terminal}
use kangal_patch.Effect.Request.{now, list_leases, create_lease, set_controller_reference}
use kangal_patch.Effect.Prog.{Handler, run}
use kangal_patch.Effect.Trace.{
  Event, Answered, Later, latest, earlier, just_answered, Trace, stops, asks, Trace-bind, Trace-if,
  Trace-result, Trace-on_err, Throughout, at_first, history, Trace-history, Trace-run,
}
use kangal_patch.Scheduling.{Rollout}
use kangal_patch.Plan.Jobs.{index_names_from}
use kangal_patch.Plan.Leases.{
  group_of_job, lease_of, lease_refused, acquire_lease, Held, needs_no_lease, heal_leases,
  sync_leases,
}
use kangal_patch.Plan.Mirroring.Leased.{
  Mirrored, Leased, Leased-Later, other, released_by, acquired_by, IsUnfinished, OkOf, AllLeased,
  given, existed,
}
use kangal_patch.Plan.Mirroring.Entries.{index_names_from-All}
use kangal_patch.Plan.Mirroring.Held.{Holds, Holds-Later, sync_held-Mirrored, member-Holds}

module _ (namespace : String) (plan : PatchPlan) (rollout : Rollout) (jobs : List PatchJob) where
  module _ (j : PatchJob) (of_plan : Mem j jobs) (unfinished : IsUnfinished j) where
    abbrev lease_at : ℕ → Lease
    lease_at t = lease_of namespace j (group_of_job j rollout) t

    refused :
        (h : List Event) (t : ℕ) (e : Error) (k : ErrorKind)
        → e.kind ≡ k
        → Answered (create_lease (lease_at t)) (err e) h
        → OkOf (λ u. Leased namespace plan rollout jobs h j) (lease_refused namespace j.name e k)
    unfolding lease_refused
    refused h t e already_exists is a = existed t e is a
    refused h t e ErrorKind.not_found is a = tt
    refused h t e ErrorKind.too_many_requests is a = tt
    refused h t e ErrorKind.unmanaged_pods is a = tt
    refused h t e ErrorKind.unknown_talos is a = tt
    refused h t e ErrorKind.image_missing is a = tt
    refused h t e ErrorKind.other is a = tt

    acquire_lease-Mirrored :
        (h : List Event)
        → Trace
            (Mirrored namespace plan rollout jobs)
            (λ h' r. OkOf (λ u. Leased namespace plan rollout jobs h' j) r)
            h
            (acquire_lease namespace j (group_of_job j rollout))
    unfolding acquire_lease released_by acquired_by
    acquire_lease-Mirrored h = asks (other namespace plan rollout jobs h now refl refl) λ t.
        asks
          (other namespace plan rollout jobs _ (set_controller_reference j.name j.name) refl refl)
          λ owned.
            Trace-on_err owned (λ _ _. stops tt)
              λ _ _.
                asks
                  (
                    λ l is. elim (none-ne-some l is) [ ],
                    λ l is. record {
                      job = j;
                      of_plan = of_plan;
                      unfinished = unfinished;
                      clock = t;
                      read_clock = earlier latest;
                      is_lease = sym (some-injective _ _ is);
                    },
                  )
                  λ created.
                    Trace-on_err created
                      (λ e is. stops (refused _ t e e.kind refl (just_answered created is)))
                      (λ u is. stops (given t (just_answered created is)))

  -- A job that needs no lease is not unfinished, or has one.
  needless : (a b m : Bool) → ((a || b) || m) ≡ true → (a ≡ false) × (b ≡ false) → m ≡ true
  needless a b m e f = ground (arith, e, f.0, f.1)

  needed : (a b m : Bool) → ((a || b) || m) ≡ false → (a ≡ false) × (b ≡ false)
  needed a b m e = (ground (arith, e), ground (arith, e))

  cons-AllLeased :
      (h h' : List Event) (j : PatchJob) (js : List PatchJob) (r : Result (Dict ℕ))
      → (IsUnfinished j → Leased namespace plan rollout jobs h j)
      → Later h h'
      → OkOf (λ a. AllLeased namespace plan rollout jobs h' js) r
      → OkOf (λ a. AllLeased namespace plan rollout jobs h' (j ∷ js)) r
  cons-AllLeased h h' j js (ok a) leased later q =
      (λ u. Leased-Later namespace plan rollout jobs j later (leased u), q)
  cons-AllLeased h h' j js (err e) leased later q = tt

  heal_leases-Mirrored :
      (h : List Event) (held : Held) (js : List PatchJob) (active : Dict ℕ)
      → All (λ j. Mem j jobs) js
      → Holds namespace plan rollout jobs h held
      → Trace
          (Mirrored namespace plan rollout jobs)
          (λ h' r. OkOf (λ a. AllLeased namespace plan rollout jobs h' js) r)
          h
          (heal_leases namespace rollout held.names js active)
  unfolding heal_leases needs_no_lease
  heal_leases-Mirrored h held [] active of_plan holds = stops tt
  heal_leases-Mirrored h held (j ∷ js) active of_plan holds =
      Trace-if (needs_no_lease namespace j held.names)
        (λ e.
          Trace-result
            (λ h' r. cons-AllLeased h h' j js r λ u.
              member-Holds namespace plan rollout jobs h j held.names holds (needless _ _ _ e u))
            (heal_leases-Mirrored h held js active of_plan.1 holds))
        λ e.
          Trace-bind
            (acquire_lease-Mirrored j of_plan.0
              (needed (is_terminal j.status.phase) (is_some j.deletion_timestamp)
                (member j.name held.names) e)
              h)
            λ h' acquired later q.
              Trace-on_err acquired (λ _ _. stops tt)
                λ u is.
                  Trace-result
                    (λ h'' r.
                      cons-AllLeased h' h'' j js r
                        (λ _. subst (OkOf (λ u. Leased namespace plan rollout jobs h' j)) is q))
                    (heal_leases-Mirrored h' held js _ of_plan.1
                      (Holds-Later namespace plan rollout jobs held later holds))

  sync_leases-Mirrored :
      Trace
        (Mirrored namespace plan rollout jobs)
        (λ h' r. OkOf (λ a. AllLeased namespace plan rollout jobs h' jobs) r)
        []
        (sync_leases namespace plan rollout jobs)
  unfolding sync_leases released_by acquired_by
  sync_leases-Mirrored =
      asks (other namespace plan rollout jobs [] (list_leases namespace plan.name) refl refl) λ x.
        Trace-on_err x (λ _ _. stops tt)
          λ leases listed.
            Trace-bind
              (sync_held-Mirrored namespace plan rollout jobs _ (index_names_from [] jobs) leases
                (record { active = []; names = [] })
                (All-imp _ _ leases
                  (λ l of. record { leases = leases; read = just_answered x listed; listed = of })
                  (All-mem leases))
                (index_names_from-All jobs [] jobs tt (All-mem jobs)) tt)
              λ h synced later q.
                Trace-on_err synced (λ _ _. stops tt)
                  λ held is.
                    heal_leases-Mirrored h held jobs held.active (All-mem jobs)
                      (subst (OkOf (Holds namespace plan rollout jobs h)) is q)

-- In every world, syncLeases deletes a lease only if it has listed it among those of the plan and one of
-- the jobs has its name and has finished, and creates one only as that of a job that has neither
-- finished nor been deleted; and where it succeeds, each such job has a lease: one that was listed
-- under its name, one that it created, or one that it found to exist.
pub sync_leases-mirrors :
    {W : Type 0} (world : Handler W) (w : W) (namespace : String) (plan : PatchPlan)
    (rollout : Rollout) (jobs : List PatchJob)
    → Throughout
        (Mirrored namespace plan rollout jobs)
        (history world w [] (sync_leases namespace plan rollout jobs))
      × OkOf
          (λ active.
            AllLeased namespace plan rollout jobs
              (history world w [] (sync_leases namespace plan rollout jobs))
              jobs)
          (run world w (sync_leases namespace plan rollout jobs)).0
sync_leases-mirrors world w namespace plan rollout jobs =
    let trace = sync_leases-Mirrored namespace plan rollout jobs in
    (Trace-history world w at_first trace, Trace-run world w trace)
