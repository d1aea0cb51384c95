-- ===== src/Job/Kubernetes.antt =====
-- controllers/patchjob_controller.go: startKubernetesUpgrade and waitForKubernetesUpgrade.
use kangal_patch.Prelude.{
  ℕ, ℤ, pos, sub_ℕ, ◌-ℤ◌, leb_ℤ, not, String, [], ◌∷◌, Option, none, some, same, concat,
  show_duration, if◌then◌else◌,
}
use kangal_patch.Api.Kube.{Node, Result, ok, errorf}
use kangal_patch.Api.Plan.{PatchPlan}
use kangal_patch.Api.Job.{PatchJob, validating_kubernetes, completed}
use kangal_patch.Effect.Request.{Client, now, get_node, patch_kubelet, patch_control_plane}
use kangal_patch.Effect.Prog.{Prog, ret, ask, ◌>>=◌, on_err, Outcome, failed_with, requeue, done}
use kangal_patch.Images.{
  build_kubelet_image, build_api_server_image, build_controller_manager_image,
  build_scheduler_image,
}
use kangal_patch.NodeUtil.{is_control_plane}
use kangal_patch.Job.Common.{
  patch_status, fail_job, retry_or_fail, get_patch_plan, with_talos, static_pods_ready,
  requeue_for_kubernetes_check, default_kubernetes_upgrade_timeout,
}
use kangal_patch.Job.Upgrading.{check_interval}

abbrev pub validation_begun : ℕ → PatchJob → PatchJob
validation_begun t job = record job {
  status = record (job.status) {
    phase = validating_kubernetes;
    message = "kubernetes upgrade patch applied, waiting for rollout";
    kubernetes_upgrade_start_time = some t;
  };
}

abbrev pub with_kubernetes_start : ℕ → PatchJob → PatchJob
with_kubernetes_start t job = record job {
  status = record (job.status) { kubernetes_upgrade_start_time = some t };
}

abbrev pub kubernetes_done : String → PatchJob → PatchJob
kubernetes_done version job = record job {
  status = record (job.status) {
    current_kubernetes_version = version;
    phase = completed;
    message = "kubernetes upgrade completed successfully";
  };
}

-- The control plane patch, on control plane nodes only.
unfoldable pub patch_components : Client → Node → String → String → Prog (Result (Unit {0}))
patch_components client node address version =
    if is_control_plane node
    then ask (
        patch_control_plane client address (build_api_server_image version)
          (build_controller_manager_image version) (build_scheduler_image version))
    else ret (ok tt)

unfoldable pub kubernetes_on_node : PatchJob → Client → Node → String → Prog Outcome
kubernetes_on_node original client node address = do
  let version = original.spec.target.kubernetes_version
  components ← patch_components client node address version
  on_err components (retry_or_fail original original "failed to patch control plane components")
      λ _. do
        kubelet ← ask (patch_kubelet client address (build_kubelet_image version))
        on_err kubelet (retry_or_fail original original "failed to patch kubelet version") λ _. do
          t ← ask now
          patched ← patch_status original (validation_begun t original)
          on_err patched (λ e. ret (failed_with e)) λ _. ret (requeue requeue_for_kubernetes_check)

-- startKubernetesUpgrade.
unfoldable pub start_kubernetes_upgrade : String → PatchJob → Prog Outcome
start_kubernetes_upgrade namespace original =
    with_talos namespace original original (kubernetes_on_node original)

unfoldable pub finish_kubernetes : PatchJob → PatchJob → Prog Outcome
finish_kubernetes original job = do
  patched ← patch_status original (kubernetes_done job.spec.target.kubernetes_version job)
  on_err patched (λ e. ret (failed_with e)) λ _. ret done

-- The kubelet is at the target: a control plane node must have rolled its static pods out too.
unfoldable pub check_components : PatchJob → PatchJob → Node → ℤ → ℤ → Prog Outcome
check_components original job node timeout remaining =
    if not (is_control_plane node) then finish_kubernetes original job else do
      checked ← static_pods_ready job.spec.node_name job.spec.target.kubernetes_version
      on_err checked (retry_or_fail original job "failed to check control plane static pods")
          λ ready.
            if ready
            then finish_kubernetes original job
            else if leb_ℤ remaining (pos 0)
            then fail_job original job "control plane static pods did not roll out" (
                errorf (
                  concat (
                    "not running and ready with "
                    ∷ job.spec.target.kubernetes_version
                    ∷ " images after "
                    ∷ show_duration timeout
                    ∷ [])))
            else ret (requeue (check_interval requeue_for_kubernetes_check remaining))

unfoldable pub check_kubelet : PatchJob → PatchJob → Node → ℤ → ℤ → Prog Outcome
check_kubelet original job node timeout remaining =
    let version = job.spec.target.kubernetes_version in
    if same node.kubelet_version version
    then check_components original job node timeout remaining
    else if leb_ℤ remaining (pos 0)
    then fail_job original job "kubelet did not reach target version" (
        errorf (
          concat (
            "running "
            ∷ node.kubelet_version
            ∷ ", want "
            ∷ version
            ∷ " after "
            ∷ show_duration timeout
            ∷ [])))
    else ret (requeue (check_interval requeue_for_kubernetes_check remaining))

unfoldable pub poll_kubernetes : PatchJob → PatchJob → ℕ → PatchPlan → Prog Outcome
poll_kubernetes original job start plan = do
  t ← ask now
  let timeout =
      if leb_ℤ plan.spec.kubernetes_upgrade_timeout (pos 0)
      then default_kubernetes_upgrade_timeout
      else plan.spec.kubernetes_upgrade_timeout
  let remaining = timeout -ℤ sub_ℕ t start
  got ← ask (get_node job.spec.node_name)
  on_err got (retry_or_fail original job "failed to get node")
      λ node. check_kubelet original job node timeout remaining

-- A job without a start time gets one, which is recorded before the node is read.
unfoldable pub stamp_kubernetes_start : PatchJob → PatchPlan → Option ℕ → Prog Outcome
stamp_kubernetes_start original plan (some start) = poll_kubernetes original original start plan
stamp_kubernetes_start original plan none = do
  t ← ask now
  patched ← patch_status original (with_kubernetes_start t original)
  on_err patched (λ e. ret (failed_with e))
      λ _.
        poll_kubernetes (with_kubernetes_start t original) (with_kubernetes_start t original) t plan

-- waitForKubernetesUpgrade.
unfoldable pub wait_for_kubernetes_upgrade : PatchJob → Prog Outcome
wait_for_kubernetes_upgrade original = do
  got ← get_patch_plan original
  on_err got (retry_or_fail original original "failed to get PatchPlan")
      λ plan. stamp_kubernetes_start original plan original.status.kubernetes_upgrade_start_time
