-- ===== src/Plan/Purging.antt =====
-- controllers/retention.go: when applyRetention deletes the jobs of a plan.
use mathlib.Core.List.{Mem}
use mathlib.Core.Option.{none-ne-some, some-injective}
use kangal_patch.Prelude.{
  ℕ, ◌≡◌, refl, sym, ◌∙◌, subst, true, false, not, List, [], ◌∷◌, Option, none, some, all, All,
  All-imp, All-mem, and-true, not-false, ltb_ℤ, sub_ℕ,
}
use kangal_patch.Api.Kube.{ok}
use kangal_patch.Api.Plan.{PatchPlan, PatchPlanStatus, history_retention}
use kangal_patch.Api.Job.{PatchJob, is_terminal}
use kangal_patch.Effect.Request.{Request, now, list_jobs_of_plan, delete_job, patch_plan_status}
use kangal_patch.Effect.Prog.{Handler}
use kangal_patch.Effect.Trace.{
  Event, Answered, Answered-Later, Later, now_or, after, latest, earlier, just_answered, Trace,
  stops, asks, Trace-bind, Trace-if, Trace-on_err, Throughout, at_first, history, Trace-history,
}
use kangal_patch.Drain.{ignore_not_found}
use kangal_patch.Plan.Status.{update_status, with_status}
use kangal_patch.Plan.Retention.{
  is_finished_phase, delete_jobs, purge, retain_after, apply_retention,
}

-- The job that a request deletes.
unfoldable pub deletion_of : Request → Option PatchJob
deletion_of (delete_job j) = some j
deletion_of _ = none

-- Why the job is deleted after the history: it is one of the jobs of a plan that has finished and is
-- not purged, whose retention was over when the clock was read, and whose jobs are all terminal.
pub record Purges (plan : PatchPlan) (h : List Event) (j : PatchJob) : Type 0 where
  pub finished : is_finished_phase plan.status.phase ≡ true
  pub not_purged : plan.status.history_purged ≡ false
  pub finished_at : ℕ
  pub completed : plan.status.completion_time ≡ some finished_at
  pub clock : ℕ
  pub read_clock : Answered now clock h
  pub expired : ltb_ℤ (sub_ℕ clock finished_at) (history_retention plan) ≡ false
  pub jobs : List PatchJob
  pub read_jobs : Answered (list_jobs_of_plan plan.name) (ok jobs) h
  pub all_terminal : All (λ i. is_terminal i.status.phase ≡ true) jobs
  pub of_plan : Mem j jobs

abbrev pub Retained : PatchPlan → List Event → Request → Type 0
Retained plan h r = (j : PatchJob) → deletion_of r ≡ some j → Purges plan h j

all_terminal-All :
    (jobs : List PatchJob)
    → all (λ j. is_terminal j.status.phase) jobs ≡ true
    → All (λ j. is_terminal j.status.phase ≡ true) jobs
all_terminal-All [] e = tt
all_terminal-All (j ∷ js) e =
    let (first, rest) = and-true _ _ e in (first, all_terminal-All js rest)

module _ (plan : PatchPlan) where
  other : (h : List Event) (r : Request) → deletion_of r ≡ none → Retained plan h r
  other h r e j f = elim (none-ne-some j (sym e ∙ f)) [ ]

  -- The reason holds for each of the jobs.
  abbrev Reasons : List Event → PatchJob → Type 0
  Reasons h j = Purges plan h j

  Purges-Later :
      {h h' : List Event} (j : PatchJob) → Later h h' → Purges plan h j → Purges plan h' j
  Purges-Later j l p = record {
    finished = p.finished;
    not_purged = p.not_purged;
    finished_at = p.finished_at;
    completed = p.completed;
    clock = p.clock;
    read_clock = Answered-Later l p.read_clock;
    expired = p.expired;
    jobs = p.jobs;
    read_jobs = Answered-Later l p.read_jobs;
    all_terminal = p.all_terminal;
    of_plan = p.of_plan;
  }

  delete_jobs-Retained :
      (h : List Event) (js : List PatchJob)
      → All (Purges plan h) js
      → Trace (Retained plan) (λ h' r. Unit) h (delete_jobs js)
  unfolding delete_jobs deletion_of
  delete_jobs-Retained h [] reasons = stops tt
  delete_jobs-Retained h (j ∷ js) reasons =
      asks (λ i is. subst (Purges plan h) (some-injective _ _ is) reasons.0)
        λ x.
          Trace-on_err (ignore_not_found x) (λ _ _. stops tt)
            λ _ _.
              delete_jobs-Retained _ js
                (All-imp _ _ js (λ i. Purges-Later i (after now_or)) reasons.1)

  update_status-Retained :
      (h : List Event) (p : PatchPlan) (s : PatchPlanStatus)
      → Trace (Retained plan) (λ h' r. Unit) h (update_status p s)
  unfolding update_status deletion_of
  update_status-Retained h p s =
      asks (other h (patch_plan_status p (with_status s p)) refl)
        λ x. Trace-on_err x (λ _ _. stops tt) (λ _ _. stops tt)

  purge-Retained :
      (h : List Event) (jobs : List PatchJob)
      → (all (λ j. is_terminal j.status.phase) jobs ≡ true → All (Purges plan h) jobs)
      → Trace (Retained plan) (λ h' r. Unit) h (purge plan jobs)
  unfolding purge
  purge-Retained h jobs reasons =
      let terminal = all (λ j. is_terminal j.status.phase) jobs in
      Trace-if (not terminal) (λ _. stops tt)
        λ e.
          Trace-bind (delete_jobs-Retained h jobs (reasons (not-false terminal e)))
            λ h' deleted _ _.
              Trace-on_err deleted (λ _ _. stops tt)
                λ _ _.
                  Trace-bind (update_status-Retained h' plan _)
                    λ h'' updated _ _. Trace-on_err updated (λ _ _. stops tt) (λ _ _. stops tt)

  retain_after-Retained :
      is_finished_phase plan.status.phase ≡ true
      → (o : Option ℕ) → plan.status.completion_time ≡ o
      → Trace (Retained plan) (λ h' r. Unit) [] (retain_after plan o)
  unfolding retain_after deletion_of
  retain_after-Retained finished none completed = stops tt
  retain_after-Retained finished (some time) completed =
      Trace-if plan.status.history_purged (λ _. stops tt)
        λ not_purged. asks (other [] now refl) λ t.
          Trace-if (ltb_ℤ (sub_ℕ t time) (history_retention plan)) (λ _. stops tt)
            λ expired. asks (other _ (list_jobs_of_plan plan.name) refl) λ x.
              Trace-on_err x (λ _ _. stops tt)
                λ jobs listed. purge-Retained _ jobs λ terminal.
                  All-imp _ _ jobs
                    (λ j of_plan. record {
                      finished = finished;
                      not_purged = not_purged;
                      finished_at = time;
                      completed = completed;
                      clock = t;
                      read_clock = earlier latest;
                      expired = expired;
                      jobs = jobs;
                      read_jobs = just_answered x listed;
                      all_terminal = all_terminal-All jobs terminal;
                      of_plan = of_plan;
                    })
                    (All-mem jobs)

  apply_retention-Trace : Trace (Retained plan) (λ h' r. Unit) [] (apply_retention plan)
  unfolding apply_retention
  apply_retention-Trace =
      let finished = is_finished_phase plan.status.phase in
      Trace-if (not finished) (λ _. stops tt)
        λ e. retain_after-Retained (not-false finished e) plan.status.completion_time refl

-- In every world, applyRetention deletes a job only after it has found the plan finished and not
-- purged, has read a clock at which the retention of the plan since its completion is over, and has
-- listed the jobs of the plan, the deleted one among them, all of which are terminal.
pub apply_retention-Retained :
    {W : Type 0} (world : Handler W) (w : W) (plan : PatchPlan)
    → Throughout (Retained plan) (history world w [] (apply_retention plan))
apply_retention-Retained world w plan = Trace-history world w at_first (apply_retention-Trace plan)
