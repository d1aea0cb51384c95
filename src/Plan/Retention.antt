-- ===== src/Plan/Retention.antt =====
-- controllers/retention.go.
use kangal_patch.Prelude.{
  ℤ, pos, leb_ℤ, ltb_ℤ, sub_ℕ, add_duration, minutes, Bool, true, false, not, List, [], ◌∷◌, Option,
  none, some, all, if◌then◌else◌,
}
use kangal_patch.Prelude.{ℕ}
use kangal_patch.Api.Kube.{Result, ok, err}
use kangal_patch.Api.Plan
use kangal_patch.Api.Plan.{PatchPlan, PatchPhase, history_retention}
use kangal_patch.Api.Job.{PatchJob, is_terminal}
use kangal_patch.Effect.Request.{now, list_jobs_of_plan, delete_job}
use kangal_patch.Effect.Prog.{Prog, ret, ask, ◌>>=◌, on_err, Outcome, done, requeue}
use kangal_patch.Drain.{ignore_not_found}
use kangal_patch.Plan.Status.{update_status}

abbrev pub requeue_when_retention_blocked : ℤ
requeue_when_retention_blocked = minutes 60

-- isFinishedPhase.
unfoldable pub is_finished_phase : PatchPhase → Bool
is_finished_phase Plan.completed = true
is_finished_phase Plan.failed = true
is_finished_phase Plan.cancelled = true
is_finished_phase _ = false

-- What is left of the retention, or the next attempt.
abbrev pub positive_or_blocked : ℤ → ℤ
positive_or_blocked wait = if leb_ℤ wait (pos 0) then requeue_when_retention_blocked else wait

-- terminalResult, by the completion time.
unfoldable pub result_after : PatchPlan → Option ℕ → Prog Outcome
result_after plan none = ret done
result_after plan (some finished) = do
  t ← ask now
  ret (requeue (positive_or_blocked (sub_ℕ (add_duration finished (history_retention plan)) t)))

unfoldable pub terminal_result : PatchPlan → Prog Outcome
terminal_result plan = result_after plan plan.status.completion_time

-- The loop of deletions.
unfoldable pub delete_jobs : List PatchJob → Prog (Result (Unit {0}))
delete_jobs [] = ret (ok tt)
delete_jobs (j ∷ js) = do
  deleted ← ask (delete_job j)
  on_err (ignore_not_found deleted) (λ e. ret (err e)) λ _. delete_jobs js

-- Whether the plan is purged, with the plan.
abbrev pub Purged : Type 0
Purged = Bool × PatchPlan

unfoldable pub purge : PatchPlan → List PatchJob → Prog (Result Purged)
purge plan jobs =
    if not (all (λ j. is_terminal j.status.phase) jobs) then ret (ok (false, plan)) else do
      deleted ← delete_jobs jobs
      on_err deleted (λ e. ret (err e))
          λ _. do
            updated ← update_status plan (record (plan.status) { history_purged = true })
            on_err updated (λ e. ret (err e)) λ plan'. ret (ok (true, plan'))

-- applyRetention of a finished plan, by its completion time.
unfoldable pub retain_after : PatchPlan → Option ℕ → Prog (Result Purged)
retain_after plan none = ret (ok (false, plan))
retain_after plan (some finished) = if plan.status.history_purged then ret (ok (true, plan)) else do
  t ← ask now
  if ltb_ℤ (sub_ℕ t finished) (history_retention plan) then ret (ok (false, plan)) else do
    listed ← ask (list_jobs_of_plan plan.name)
    on_err listed (λ e. ret (err e)) λ jobs. purge plan jobs

-- applyRetention.
unfoldable pub apply_retention : PatchPlan → Prog (Result Purged)
apply_retention plan =
    if not (is_finished_phase plan.status.phase)
    then ret (ok (false, plan))
    else retain_after plan plan.status.completion_time
