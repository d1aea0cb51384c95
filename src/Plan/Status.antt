-- ===== src/Plan/Status.antt =====
-- controllers/patchplan_controller.go: patches of the plan's status, and the requeue intervals.
use kangal_patch.Prelude.{ℤ, seconds, minutes, String, same, if◌then◌else◌}
use kangal_patch.Api.Kube.{Result, ok, err}
use kangal_patch.Api.Plan.{PatchPlan, PatchPlanStatus}
use kangal_patch.Effect.Request.{patch_plan_status}
use kangal_patch.Effect.Prog.{Prog, ret, ask, ◌>>=◌, on_err}

abbrev pub requeue_when_at_max_concurrency : ℤ
requeue_when_at_max_concurrency = seconds 5

abbrev pub requeue_for_next_node : ℤ
requeue_for_next_node = seconds 10

abbrev pub requeue_when_jobs_in_progress : ℤ
requeue_when_jobs_in_progress = seconds 30

abbrev pub requeue_when_paused : ℤ
requeue_when_paused = minutes 1

-- requeueWhenPreflightFailed (controllers/preflight.go).
abbrev pub requeue_when_preflight_failed : ℤ
requeue_when_preflight_failed = minutes 1

abbrev pub with_status : PatchPlanStatus → PatchPlan → PatchPlan
with_status s plan = record plan { status = s }

-- updateStatus, for the status that the mutation leaves. The client keeps what the server replies to a
-- patch; here that is the plan that was sent.
unfoldable pub update_status : PatchPlan → PatchPlanStatus → Prog (Result PatchPlan)
update_status plan s = do
  patched ← ask (patch_plan_status plan (with_status s plan))
  on_err patched (λ e. ret (err e)) λ _. ret (ok (with_status s plan))

-- setMessage.
unfoldable pub set_message : PatchPlan → String → Prog (Result PatchPlan)
set_message plan msg =
    if same plan.status.message msg
    then ret (ok plan)
    else update_status plan (record (plan.status) { message = msg })
