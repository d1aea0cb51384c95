-- ===== src/Plan/Mirroring/Held.antt =====
-- controllers/leases.go: the first loop of syncLeases.
use mathlib.Core.List.{Mem}
use mathlib.Core.Option.{none-ne-some, some-injective}
use kangal_patch.Prelude.{
  ◌≡◌, refl, sym, ◌∙◌, subst, true, List, [], ◌∷◌, Option, none, some, All, All-imp, Dict, String,
  lookup, member, same, same-eq, Bool-cases, inl, inr, true_apart, arith,
}
use kangal_patch.Api.Kube.{Lease}
use kangal_patch.Api.Plan.{PatchPlan}
use kangal_patch.Api.Job.{PatchJob, is_terminal}
use kangal_patch.Effect.Trace.{
  Event, Later, now_or, after, Trace, stops, asks, Trace-bind, Trace-if, Trace-on_err,
}
use kangal_patch.Scheduling.{Rollout}
use kangal_patch.Drain.{ignore_not_found}
use kangal_patch.Plan.Leases.{Held, sync_lease, sync_held}
use kangal_patch.Plan.Mirroring.Leased.{
  Listed, Released, Mirrored, Leased, Listed-Later, released_by, acquired_by, OkOf, had,
}
use kangal_patch.Plan.Mirroring.Entries.{IsEntry, lookup-IsEntry}

module _ (namespace : String) (plan : PatchPlan) (rollout : Rollout) (jobs : List PatchJob) where
  -- Every held name is that of a listed lease.
  abbrev pub Holds : List Event → Held → Type 0
  Holds h held =
      All (λ n. (l : Lease) × Listed namespace plan rollout jobs h l × (l.name ≡ n)) held.names

  pub Holds-Later : {h h' : List Event} (held : Held) → Later h h' → Holds h held → Holds h' held
  Holds-Later held later p =
      All-imp _ _ held.names
        (λ n (l, listed, named).
          (l, Listed-Later namespace plan rollout jobs l later listed, named))
        p

  sync_lease-Mirrored :
      (h : List Event) (l : Lease) (o : Option PatchJob) (held : Held)
      → Listed namespace plan rollout jobs h l
      → ((j : PatchJob) → o ≡ some j → Mem j jobs × (j.name ≡ l.name))
      → Holds h held
      → Trace
          (Mirrored namespace plan rollout jobs)
          (λ h' r. OkOf (Holds h') r)
          h
          (sync_lease namespace rollout l o held)
  unfolding sync_lease released_by acquired_by
  sync_lease-Mirrored h l none held listed entry holds = stops holds
  sync_lease-Mirrored h l (some job) held listed entry holds =
      Trace-if (is_terminal job.status.phase)
        (λ finished.
          asks
            (
              λ l' is.
                  subst (Released namespace plan rollout jobs h) (some-injective _ _ is) (record {
                    listed = listed;
                    job = job;
                    of_plan = (entry job refl).0;
                    named = (entry job refl).1;
                    finished = finished;
                  }),
              λ l' is. elim (none-ne-some l' is) [ ],
            )
            λ x.
              Trace-on_err (ignore_not_found x) (λ _ _. stops tt)
                λ _ _. stops (Holds-Later held (after now_or) holds))
        (λ _. stops ((l, listed, refl), holds))

  pub sync_held-Mirrored :
      (h : List Event) (d : Dict PatchJob) (ls : List Lease) (held : Held)
      → All (Listed namespace plan rollout jobs h) ls
      → All (IsEntry jobs) d
      → Holds h held
      → Trace
          (Mirrored namespace plan rollout jobs)
          (λ h' r. OkOf (Holds h') r)
          h
          (sync_held namespace rollout d ls held)
  unfolding sync_held
  sync_held-Mirrored h d [] held listed entries holds = stops holds
  sync_held-Mirrored h d (l ∷ ls) held listed entries holds =
      Trace-bind
        (sync_lease-Mirrored h l (lookup l.name d) held listed.0
          (λ j e. lookup-IsEntry jobs l.name d j entries e) holds)
        λ h' synced later q.
          Trace-on_err synced (λ _ _. stops tt)
            λ held' e.
              sync_held-Mirrored h' d ls held'
                (All-imp _ _ ls (λ i. Listed-Later namespace plan rollout jobs i later) listed.1)
                entries (subst (OkOf (Holds h')) e q)

  pub member-Holds :
      (h : List Event) (j : PatchJob) (names : List String)
      → All (λ n. (l : Lease) × Listed namespace plan rollout jobs h l × (l.name ≡ n)) names
      → member j.name names ≡ true
      → Leased namespace plan rollout jobs h j
  member-Holds h j [] p e = elim (true_apart (sym e)) [ ]
  member-Holds h j (n ∷ ns) p e = elim (Bool-cases (same n j.name)) [
    | inl at ↦ had p.0.0 p.0.1 (p.0.2 ∙ same-eq n j.name at)
    | inr at ↦ member-Holds h j ns p.1 (ground (arith, e, at))
  ]
