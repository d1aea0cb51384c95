-- ===== src/Job/Draining.antt =====
-- controllers/patchjob_controller.go: startDrain and waitForDrain.
use kangal_patch.Prelude.{
  ℕ, ℤ, sub_ℕ, ltb_ℤ, Bool, String, Option, [], ◌∷◌, none, some, concat, show_duration, not,
  if◌then◌else◌,
}
use kangal_patch.Api.Kube.{ErrorKind, Error, errorf, unmanaged_pods}
use kangal_patch.Api.Plan.{PatchPlan}
use kangal_patch.Api.Job.{PatchJob, draining, upgrading}
use kangal_patch.Effect.Request.{now}
use kangal_patch.Effect.Prog.{Prog, ret, ask, ◌>>=◌, on_err, Outcome, failed_with, requeue}
use kangal_patch.Drain.{DrainOptions, cordon_node, drain_node, is_drained}
use kangal_patch.Job.Common.{
  with_phase, patch_status, fail_job, retry_or_fail, get_patch_plan, drain_timeout_of,
  requeue_for_drain_check, requeue_for_upgrade_start,
}

abbrev pub with_drain_start : ℕ → PatchJob → PatchJob
with_drain_start t job = record job { status = record (job.status) { drain_start_time = some t } }

abbrev pub with_message : String → PatchJob → PatchJob
with_message message job = record job { status = record (job.status) { message = message } }

unfoldable pub drain_options : PatchPlan → DrainOptions
drain_options plan = record {
  respect_pdbs = plan.spec.respect_pdbs;
  evict_unmanaged = plan.spec.evict_unmanaged_pods;
  timeout = drain_timeout_of plan;
}

-- The job with its drain start time, which is set on the first attempt only.
unfoldable pub stamp_drain_start : PatchJob → Option ℕ → Prog (PatchJob × ℕ)
stamp_drain_start job (some start) = ret (job, start)
stamp_drain_start job none = do t ← ask now; ret (with_drain_start t job, t)

-- A PodDisruptionBudget refused: stay Pending until drainTimeout has passed.
unfoldable pub drain_blocked : PatchJob → PatchJob → ℕ → ℤ → Prog Outcome
drain_blocked original job start timeout = do
  t ← ask now
  if ltb_ℤ timeout (sub_ℕ t start)
      then fail_job original job "drain timed out" (
          errorf (
            concat
              ("pods still blocked by PodDisruptionBudgets after " ∷ show_duration timeout ∷ [])))
      else do
        patched ←
            patch_status original
              (with_message "drain blocked by PodDisruptionBudget, retrying" job)
        on_err patched (λ e. ret (failed_with e)) λ _. ret (requeue requeue_for_drain_check)

unfoldable pub after_drain : PatchJob → PatchJob → ℕ → ℤ → Bool → Prog Outcome
after_drain original job start timeout blocked =
    if blocked then drain_blocked original job start timeout else do
      patched ← patch_status original (with_phase draining "draining node" job)
      on_err patched (λ e. ret (failed_with e)) λ _. ret (requeue requeue_for_drain_check)

-- The error branches behind DrainNode.
unfoldable pub drain_failed : PatchJob → PatchJob → Error → ErrorKind → Prog Outcome
drain_failed original job e unmanaged_pods = fail_job original job "drain refused" e
drain_failed original job e _ = retry_or_fail original job "failed to drain node" e

-- startDrain from the drain on: the job, and when its drain began.
unfoldable pub drain_cordoned : PatchJob → PatchPlan → PatchJob × ℕ → Prog Outcome
drain_cordoned original plan (job, start) = do
  drained ← drain_node original.spec.node_name (drain_options plan)
  on_err drained (λ e. drain_failed original job e e.kind)
      λ blocked. after_drain original job start (drain_timeout_of plan) blocked

-- startDrain.
unfoldable pub start_drain : PatchJob → Prog Outcome
start_drain original = do
  got ← get_patch_plan original
  on_err got (retry_or_fail original original "failed to get PatchPlan") λ plan. do
    cordon ← cordon_node original.spec.node_name
    on_err cordon (retry_or_fail original original "failed to cordon node") λ _.
        stamp_drain_start original original.status.drain_start_time >>= drain_cordoned original plan

-- The test of drainTimeout against the start of the drain, if that was recorded.
unfoldable pub drain_overdue : PatchJob → PatchPlan → Option ℕ → Prog Outcome
drain_overdue original plan none = ret (requeue requeue_for_drain_check)
drain_overdue original plan (some start) = do
  t ← ask now
  if ltb_ℤ (drain_timeout_of plan) (sub_ℕ t start)
      then fail_job original original "drain timed out" (
          errorf
            (concat ("pods still on node after " ∷ show_duration (drain_timeout_of plan) ∷ [])))
      else ret (requeue requeue_for_drain_check)

-- Pods are still there: wait, unless drainTimeout has passed since the drain began.
unfoldable pub still_draining : PatchJob → Prog Outcome
still_draining original = do
  got ← get_patch_plan original
  on_err got (retry_or_fail original original "failed to get PatchPlan")
      λ plan. drain_overdue original plan original.status.drain_start_time

-- waitForDrain.
unfoldable pub wait_for_drain : PatchJob → Prog Outcome
wait_for_drain original = do
  checked ← is_drained original.spec.node_name
  on_err checked (retry_or_fail original original "failed to check drain status") λ drained.
      if not drained then still_draining original else do
        patched ←
            patch_status original (with_phase upgrading "drain complete, ready to upgrade" original)
        on_err patched (λ e. ret (failed_with e)) λ _. ret (requeue requeue_for_upgrade_start)
