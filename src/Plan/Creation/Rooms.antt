-- ===== src/Plan/Creation/Rooms.antt =====
-- controllers/scheduler.go: the loop that creates the jobs of one group.
use mathlib.Core.List.{Mem}
use mathlib.Core.Option.{none-ne-some, some-injective}
use kangal_patch.Prelude.{
  ℕ, suc, ◌+◌, ◌≤◌, ◌<◌, ◌≡◌, refl, sym, ◌∙◌, pos, ltb_ℤ, List, [], ◌∷◌, ◌++◌, none, Dict, lookup,
  String, inl, inr, length, All, arith,
}
use kangal_patch.Api.Kube.{Node, Error, ErrorKind, already_exists}
use kangal_patch.Api.Plan.{PatchPlan}
use kangal_patch.Api.Job.{PatchJob}
use kangal_patch.Effect.Request.{Request, set_controller_reference}
use kangal_patch.Effect.Sat.{Sat, returns, calls, Sat-bind, Sat-on_err, Any}
use kangal_patch.Effect.Trace.{
  Event, Later, Answered-Later, now_or, after, Trace, stops, asks, Trace-bind, Trace-if,
  Trace-on_err,
}
use kangal_patch.Scheduling.{Group, Rollout}
use kangal_patch.Plan.Jobs.{count_of}
use kangal_patch.Plan.Leases.{acquire_lease}
use kangal_patch.Plan.Schedule.{job_for, job_refused, job_created, create_patch_job, create_jobs}
use kangal_patch.Plan.Creation.Starts.{
  creation_of, created_in, IsDone, IsPaced, MayStart, Scheduled,
}
use kangal_patch.Plan.Creation.Kept.{
  SamePlan, CreatesNothing, Keeps, ok-Keeps, err-Keeps, update_status-Keeps, Uncounted,
}
use kangal_patch.Plan.Creation.Gate.{wait_for_control_plane-Waited}
use kangal_patch.Job.Recovery.Failing.{ResultAny}

pub IsPaced-Later :
    (plan : PatchPlan) (jobs : Dict PatchJob) {h h' : List Event}
    → Later h h'
    → IsPaced plan jobs h
    → IsPaced plan jobs h'
IsPaced-Later plan jobs l p = elim p [
  | inl e ↦ inl e
  | inr (t, read, over) ↦ inr (t, Answered-Later l read, over)
]

-- The job depends on no more of the plan than its name and its spec.
job_for-same :
    (a b : PatchPlan) (n : Node) (group : String)
    → SamePlan a b
    → job_for b n group ≡ job_for a n group
unfolding job_for
job_for-same a b n group (named, specified) = cc

module _ (namespace : String) where
  pub acquire_lease-Sat :
      (job : PatchJob) (group : String) → Sat CreatesNothing Any (acquire_lease namespace job group)
  unfolding acquire_lease creation_of
  acquire_lease-Sat job group = calls refl λ t. calls refl λ owned.
      Sat-on_err owned (λ _ _. returns tt)
        λ _ _. calls refl λ created. Sat-on_err created (λ _ _. returns tt) (λ _ _. returns tt)

  job_created-Keeps :
      (plan p : PatchPlan) (n : Node) (group : String)
      → SamePlan plan p
      → Sat CreatesNothing (Keeps plan) (job_created namespace p n group)
  unfolding job_created creation_of
  job_created-Keeps plan p n group kept = Sat-bind (acquire_lease-Sat _ group) λ acquired _.
      Sat-on_err acquired (λ e _. returns (err-Keeps plan e))
        λ _ _. calls refl (λ t. update_status-Keeps plan p _ kept)

job_refused-Keeps :
    (plan p : PatchPlan) (e : Error) (k : ErrorKind)
    → SamePlan plan p
    → Keeps plan (job_refused p e k)
unfolding job_refused
job_refused-Keeps plan p e already_exists kept = ok-Keeps plan p kept
job_refused-Keeps plan p e ErrorKind.not_found kept = err-Keeps plan e
job_refused-Keeps plan p e ErrorKind.too_many_requests kept = err-Keeps plan e
job_refused-Keeps plan p e ErrorKind.unmanaged_pods kept = err-Keeps plan e
job_refused-Keeps plan p e ErrorKind.unknown_talos kept = err-Keeps plan e
job_refused-Keeps plan p e ErrorKind.image_missing kept = err-Keeps plan e
job_refused-Keeps plan p e ErrorKind.other kept = err-Keeps plan e

module _ (plan : PatchPlan) (rollout : Rollout) (jobs : Dict PatchJob) (active : Dict ℕ) where
  pub lenient :
      (h : List Event) (r : Request) → CreatesNothing r → Scheduled plan rollout jobs active h r
  lenient h r e j f = elim (none-ne-some j (sym e ∙ f)) [ ]

  module _ (namespace : String) (earlier later : List Group) (g : Group)
      (order : rollout.groups ≡ earlier ++ g ∷ later)
      (done_before : All (λ g'. All (IsDone jobs) g'.nodes) earlier) where
    -- A node of the group that has no job.
    abbrev pub IsNew : Node → Type 0
    IsNew n = Mem n g.nodes × (lookup n.name jobs ≡ none)

    create_patch_job-Scheduled :
        (h : List Event) (m : ℕ) (p : PatchPlan) (n : Node)
        → SamePlan plan p
        → created_in h ≤ m
        → m + count_of g.name active < g.concurrency
        → IsNew n
        → MayStart plan rollout jobs n
        → IsPaced plan jobs h
        → Trace
            (Scheduled plan rollout jobs active)
            (λ h' r. (created_in h' ≤ suc m) × Keeps plan r)
            h
            (create_patch_job namespace p n g.name)
    unfolding create_patch_job creation_of created_in
    create_patch_job-Scheduled h m p n kept counted room new may paced =
        asks (lenient h (set_controller_reference p.name (job_for p n g.name).name) refl) λ owned.
          Trace-on_err owned (λ e _. stops (omega (arith, counted), err-Keeps plan e))
            λ _ _.
              asks
                (λ j is. record {
                  before = earlier;
                  group = g;
                  after = later;
                  order = order;
                  done_before = done_before;
                  node = n;
                  of_group = new.0;
                  without_job = new.1;
                  is_job = sym (some-injective _ _ is) ∙ job_for-same plan p n g.name kept;
                  room = omega (arith, counted, room);
                  may_start = may;
                  paced = IsPaced-Later plan jobs (after now_or) paced;
                })
                λ created.
                  Trace-on_err created
                    (λ e _. stops (omega (arith, counted), job_refused-Keeps plan p e e.kind kept))
                    λ _ _.
                      Uncounted lenient _ (suc m) (omega (arith, counted))
                        (job_created-Keeps namespace plan p n g.name kept)

    pub create_jobs-Scheduled :
        (h : List Event) (created : ℕ) (p : PatchPlan) (ns : List Node)
        → SamePlan plan p
        → created_in h ≤ created
        → created + (length ns + count_of g.name active) ≤ g.concurrency
        → All IsNew ns
        → IsPaced plan jobs h
        → Trace
            (Scheduled plan rollout jobs active)
            ResultAny
            h
            (create_jobs namespace p rollout jobs g.name created ns)
    unfolding create_jobs
    create_jobs-Scheduled h created p [] kept counted room new paced = stops tt
    create_jobs-Scheduled h created p (n ∷ ns) kept counted room new paced =
        Trace-bind
          (Uncounted lenient h created counted
            (wait_for_control_plane-Waited plan rollout jobs n p kept))
          λ h' waited l (counted', free).
            Trace-on_err waited (λ _ _. stops tt)
              λ w is.
                Trace-if (ltb_ℤ (pos 0) w.0) (λ _. stops tt)
                  λ short.
                    Trace-bind
                      (create_patch_job-Scheduled h' created w.1 n (free w is).0 counted'
                        (omega (arith, room)) new.0 ((free w is).1 short)
                        (IsPaced-Later plan jobs l paced))
                      λ h'' made l' (counted'', keeps).
                        Trace-on_err made (λ _ _. stops tt)
                          λ p' is'.
                            create_jobs-Scheduled h'' (suc created) p' ns (keeps p' is') counted''
                              (omega (arith, room)) new.1
                              (IsPaced-Later plan jobs l' (IsPaced-Later plan jobs l paced))
