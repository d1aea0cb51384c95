-- ===== src/Job/Common.antt =====
-- controllers/patchjob_controller.go: what the phases share: status patches, retries, failures, the
-- Talos session, the parent plan and the check of the static pods.
use kangal_patch.Prelude.{
  ℕ, ◌==◌, ℤ, pos, sub_ℕ, ltb_ℤ, minutes, seconds, milliseconds, Bool, true, false, ◌&&◌, ◌||◌, not,
  String, List, [], ◌∷◌, Option, none, some, lookup, any, is_some, same, is_blank, concat,
  if◌then◌else◌, length,
}
use kangal_patch.Api.Kube.{Node, Pod, ContainerStatus, Error, Result, ok, err, errorf, wrap}
use kangal_patch.Api.Plan.{PatchPlan}
use kangal_patch.Api.Job.{PatchJob, JobPhase, pending, draining, upgrading, failed, is_terminal}
use kangal_patch.Effect.Request.{
  Client, ClientConfig, now, load_or_store, get_plan, get_node, patch_job_status, new_talos_client,
  close_talos_client, list_pods_in_namespace,
}
use kangal_patch.Effect.Prog.{Prog, ret, ask, ◌>>=◌, on_err, Outcome, failed_with, done}
use kangal_patch.Images.{
  build_api_server_image, build_controller_manager_image, build_scheduler_image,
}
use kangal_patch.NodeUtil.{get_node_internal_ip}
use kangal_patch.Drain.{uncordon_node, default_timeout}
use kangal_patch.Talos.{resolve_talos_config}

-- The requeue intervals and time limits.
abbrev pub requeue_immediate : ℤ
requeue_immediate = milliseconds 1

abbrev pub requeue_for_drain_check : ℤ
requeue_for_drain_check = seconds 10

abbrev pub requeue_for_upgrade_start : ℤ
requeue_for_upgrade_start = seconds 5

abbrev pub requeue_for_reboot_check : ℤ
requeue_for_reboot_check = seconds 60

abbrev pub requeue_for_kubernetes_check : ℤ
requeue_for_kubernetes_check = seconds 15

abbrev pub default_reboot_timeout : ℤ
default_reboot_timeout = minutes 10

abbrev pub default_kubernetes_upgrade_timeout : ℤ
default_kubernetes_upgrade_timeout = minutes 10

abbrev pub transient_error_deadline : ℤ
transient_error_deadline = minutes 5

-- `patchJob.Status.Phase = …; patchJob.Status.Message = …`.
abbrev pub with_phase : JobPhase → String → PatchJob → PatchJob
with_phase phase message job = record job {
  status = record (job.status) { phase = phase; message = message };
}

abbrev pub completed_at : ℕ → PatchJob → PatchJob
completed_at t job = record job { status = record (job.status) { completion_time = some t } }

-- PatchJobReconciler.patchStatus. The client keeps what the server replies to a patch; here that is the
-- job that was sent.
unfoldable pub patch_status : PatchJob → PatchJob → Prog (Result (Unit {0}))
patch_status original modified =
    if not (is_terminal modified.status.phase && not (is_some modified.status.completion_time))
    then ask (patch_job_status original modified)
    else do t ← ask now; ask (patch_job_status original (completed_at t modified))

-- The phases in which failJob gives the node back: before the reboot.
unfoldable pub releases_cordon : JobPhase → Bool
releases_cordon pending = true
releases_cordon draining = true
releases_cordon upgrading = true
releases_cordon _ = false

unfoldable pub record_failure : PatchJob → PatchJob → String → Error → Prog Outcome
record_failure original modified message e = do
  patched ←
      patch_status original (with_phase failed (concat (message ∷ ": " ∷ e.text ∷ [])) modified)
  on_err patched (λ f. ret (failed_with f)) λ _. ret done

-- failJob. An error of the uncordon is logged and dropped.
unfoldable pub fail_job : PatchJob → PatchJob → String → Error → Prog Outcome
fail_job original modified message e =
    if not (releases_cordon original.status.phase)
    then record_failure original modified message e
    else do _ ← uncordon_node modified.spec.node_name; record_failure original modified message e

-- retryOrFail.
unfoldable pub retry_or_fail : PatchJob → PatchJob → String → Error → Prog Outcome
retry_or_fail original modified message e = do
  t ← ask now
  since ← ask (load_or_store modified.name t)
  later ← ask now
  if ltb_ℤ transient_error_deadline (sub_ℕ later since)
      then fail_job original modified message e
      else ret (failed_with (wrap (concat (message ∷ " (will retry)" ∷ [])) e))

-- getPatchPlan.
unfoldable pub get_patch_plan : PatchJob → Prog (Result PatchPlan)
get_patch_plan job =
    if is_blank job.spec.patch_plan_ref then ret (err (errorf "patchPlanRef not set")) else do
      got ← ask (get_plan job.spec.patch_plan_ref)
      on_err got
          (λ e.
            ret (err (wrap (concat ("failed to get PatchPlan " ∷ job.spec.patch_plan_ref ∷ [])) e)))
          λ plan. ret (ok plan)

-- drainTimeout.
unfoldable pub drain_timeout_of : PatchPlan → ℤ
drain_timeout_of plan =
    if ltb_ℤ (pos 0) plan.spec.drain_timeout then plan.spec.drain_timeout else default_timeout

module _ (namespace : String) where
  -- getTalosConfig.
  unfoldable pub get_talos_config : PatchJob → Prog (Result ClientConfig)
  get_talos_config job = do
    got ← get_patch_plan job
    on_err got (λ e. ret (err e)) λ plan. resolve_talos_config namespace plan

  -- The part of withTalos after the client is made; the client is closed after it.
  unfoldable pub with_node :
      PatchJob → PatchJob → Client → (Client → Node → String → Prog Outcome) → Prog Outcome
  with_node original job client body = do
    got ← ask (get_node job.spec.node_name)
    on_err got (retry_or_fail original job "failed to get node") λ node.
        on_err (get_node_internal_ip node)
          (retry_or_fail original job "failed to resolve node address")
          λ address. body client node address

  -- withTalos.
  unfoldable pub with_talos :
      PatchJob → PatchJob → (Client → Node → String → Prog Outcome) → Prog Outcome
  with_talos original job body = do
    config ← get_talos_config job
    on_err config (retry_or_fail original job "failed to get Talos config") λ c. do
      made ← ask (new_talos_client c)
      on_err made (fail_job original job "failed to create Talos client") λ client. do
        outcome ← with_node original job client body
        _ ← ask (close_talos_client client)
        ret outcome

-- wantImages of controlPlaneStaticPodsReady.
unfoldable pub want_image : String → String → Option String
want_image version component =
    if same component "kube-apiserver"
    then some (build_api_server_image version)
    else if same component "kube-controller-manager"
    then some (build_controller_manager_image version)
    else if same component "kube-scheduler"
    then some (build_scheduler_image version)
    else none

unfoldable pub runs_image : String → String → ContainerStatus → Bool
runs_image version image cs = (is_blank version || same cs.image image) && cs.ready

-- The component of the pod, if it is wanted and one of its containers runs the image and is ready.
unfoldable pub ready_component : String → Pod → Option String
ready_component version pod = elim (lookup "component" pod.labels) [
  | none ↦ none
  | some component ↦ elim (want_image version component) [
    | none ↦ none
    | some image ↦
        if any (runs_image version image) pod.container_statuses then some component else none
  ]
]

-- `found`, as a list with each component once.
unfoldable pub found_components : String → List Pod → List String → List String
found_components version [] found = found
found_components version (pod ∷ pods) found = elim (ready_component version pod) [
  | none ↦ found_components version pods found
  | some c ↦ found_components version pods (if any (same c) found then found else c ∷ found)
]

-- controlPlaneStaticPodsReady.
unfoldable pub static_pods_ready : String → String → Prog (Result Bool)
static_pods_ready node_name version = do
  listed ← ask (list_pods_in_namespace "kube-system" node_name)
  on_err listed (λ e. ret (err (wrap (concat ("failed to list pods on node " ∷ node_name ∷ [])) e)))
      λ pods. ret (ok (length (found_components version pods []) == 3))
