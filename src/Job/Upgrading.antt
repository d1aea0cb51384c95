-- ===== src/Job/Upgrading.antt =====
-- controllers/patchjob_controller.go: startUpgrade, waitForReboot and nodeUnhealthy.
use kangal_patch.Prelude.{
  ℕ, zero, suc, ◌-◌, ℤ, pos, sub_ℕ, ◌-ℤ◌, leb_ℤ, min_ℤ, max_ℤ, Bool, true, false, ◌&&◌, not, String,
  List, Option, [], ◌∷◌, none, some, same, is_blank, concat, show_duration, if◌then◌else◌,
}
use kangal_patch.Api.Kube.{Node, NodeCondition, Error, Result, ok, err, errorf}
use kangal_patch.Api.Plan.{PatchPlan, TargetSpec}
use kangal_patch.Api.Job.{PatchJob, rebooting, upgrading_kubernetes, completed}
use kangal_patch.Effect.Request.{Client, now, talos_version, talos_schematic_id, talos_upgrade}
use kangal_patch.Effect.Prog.{Prog, ret, ask, ◌>>=◌, on_err, Outcome, failed_with, requeue}
use kangal_patch.Libs.{Libs}
use kangal_patch.Images.{build_installer_image}
use kangal_patch.NodeUtil.{is_control_plane}
use kangal_patch.Drain.{uncordon_node}
use kangal_patch.Job.Common.{
  with_phase, patch_status, fail_job, retry_or_fail, get_patch_plan, with_talos, static_pods_ready,
  requeue_immediate, requeue_for_reboot_check, default_reboot_timeout,
}

-- The job after the upgrade was accepted.
abbrev pub reboot_begun : ℕ → String → PatchJob → PatchJob
reboot_begun t boot_id job = record job {
  status = record (job.status) {
    phase = rebooting;
    message = "upgrade started, waiting for reboot";
    reboot_start_time = some t;
    pre_upgrade_boot_id = boot_id;
  };
}

abbrev pub with_reboot_start : ℕ → PatchJob → PatchJob
with_reboot_start t job = record job { status = record (job.status) { reboot_start_time = some t } }

abbrev pub with_talos_version : String → PatchJob → PatchJob
with_talos_version v job = record job { status = record (job.status) { current_talos_version = v } }

-- retry.OnError over patchStatus, with every error retriable: `more` attempts after a failed one.
unfoldable pub retry_patch_status : ℕ → PatchJob → PatchJob → Prog (Result (Unit {0}))
retry_patch_status zero original modified = patch_status original modified
retry_patch_status (suc more) original modified = do
  patched ← patch_status original modified
  on_err patched (λ _. retry_patch_status more original modified) λ _. ret (ok tt)

-- The schematic that the node runs, asked for only where the target leaves it open.
unfoldable pub open_schematic : TargetSpec → Client → String → Prog (Result String)
open_schematic target client address =
    if same target.source "factory" && is_blank target.schematic_id
    then ask (talos_schematic_id client address)
    else ret (ok "")

module _ (lib : Libs) where
  unfoldable pub upgrade_on_node : PatchJob → Client → Node → String → Prog Outcome
  upgrade_on_node original client node address = do
    detected ← open_schematic original.spec.target client address
    on_err detected (retry_or_fail original original "failed to detect node schematic ID")
        λ schematic.
          on_err (build_installer_image original.spec.target schematic)
            (fail_job original original "failed to build installer image")
            λ image. do
              started ← ask (talos_upgrade client address image)
              on_err started (retry_or_fail original original "failed to start upgrade") λ _. do
                t ← ask now
                patched ←
                    retry_patch_status (lib.retry_steps - 1) original
                      (reboot_begun t node.boot_id original)
                on_err patched (λ e. ret (failed_with e))
                    λ _. ret (requeue requeue_for_reboot_check)

  -- startUpgrade.
  unfoldable pub start_upgrade : String → PatchJob → Prog Outcome
  start_upgrade namespace original =
      with_talos namespace original original (upgrade_on_node original)

-- The last condition of type Ready decides.
unfoldable pub is_ready : List NodeCondition → Bool → Bool
is_ready [] ready = ready
is_ready (c ∷ rest) ready = is_ready rest (if c.is_ready_type then c.is_true else ready)

-- nodeUnhealthy: why the node is not healthy after the reboot, or "".
unfoldable pub node_unhealthy : Node → String → Prog (Result String)
node_unhealthy node pre_upgrade_boot_id =
    if not (is_blank pre_upgrade_boot_id) && same node.boot_id pre_upgrade_boot_id
    then ret (ok "kubelet has not reported since the reboot")
    else if not (is_ready node.conditions false)
    then ret (ok "node is not Ready")
    else if not (is_control_plane node)
    then ret (ok "")
    else do
      checked ← static_pods_ready node.name ""
      on_err checked (λ e. ret (err e))
          λ ready. ret (ok (if ready then "" else "control plane static pods are not all ready"))

unfoldable pub left_cordoned : List String → Error
left_cordoned parts =
    errorf (concat (concat parts ∷ "; node left cordoned, verify it and uncordon manually" ∷ []))

-- The time left of a timeout, and how long to wait for the next check.
abbrev pub check_interval : ℤ → ℤ → ℤ
check_interval longest remaining = min_ℤ longest (max_ℤ remaining requeue_immediate)

-- The job behind a finished Talos upgrade: whether a Kubernetes upgrade is next.
abbrev pub after_reboot : Bool → String → PatchJob → PatchJob
after_reboot true version job =
    with_phase upgrading_kubernetes "talos upgrade completed, ready to upgrade kubernetes"
      (with_talos_version version job)
after_reboot false version job =
    with_phase completed "upgrade completed successfully" (with_talos_version version job)

-- The node is healthy at the target version: give it back, and go on or finish.
unfoldable pub reboot_done : PatchJob → PatchJob → String → Prog Outcome
reboot_done original job version = do
  released ← uncordon_node job.spec.node_name
  on_err released
      (retry_or_fail original (with_talos_version version job) "failed to uncordon node")
      λ _. do
        let target = job.spec.target.kubernetes_version
        patched ← patch_status original (
            after_reboot
              (not (is_blank target) && not (same job.status.current_kubernetes_version target))
              version job)
        on_err patched (λ e. ret (failed_with e)) λ _. ret (requeue requeue_immediate)

-- The node answers with the target version.
unfoldable pub check_health : PatchJob → PatchJob → Node → ℤ → ℤ → String → Prog Outcome
check_health original job node timeout remaining version = do
  checked ← node_unhealthy node job.status.pre_upgrade_boot_id
  on_err checked (retry_or_fail original job "failed to check node health") λ reason.
      if is_blank reason
      then reboot_done original job version
      else if leb_ℤ remaining (pos 0)
      then fail_job original job "node did not become healthy after upgrade"
          (left_cordoned (reason ∷ " after " ∷ show_duration timeout ∷ []))
      else ret (requeue (check_interval requeue_for_reboot_check remaining))

-- The node answers with another version.
unfoldable pub check_rollback : PatchJob → PatchJob → Node → ℤ → ℤ → String → Prog Outcome
check_rollback original job node timeout remaining version =
    let wanted = job.status.target_talos_version in
    if not (is_blank job.status.pre_upgrade_boot_id)
      && not (same node.boot_id job.status.pre_upgrade_boot_id)
    then fail_job original job "upgrade rolled back"
        (left_cordoned ("node rebooted but is running " ∷ version ∷ ", want " ∷ wanted ∷ []))
    else if leb_ℤ remaining (pos 0)
    then fail_job original job "node did not reach target version" (
        left_cordoned
          ("running " ∷ version ∷ ", want " ∷ wanted ∷ " after " ∷ show_duration timeout ∷ []))
    else ret (requeue (check_interval requeue_for_reboot_check remaining))

unfoldable pub silent_node : PatchJob → PatchJob → ℤ → ℤ → Error → Prog Outcome
silent_node original job timeout remaining e =
    if leb_ℤ remaining (pos 0)
    then fail_job original job "node did not come back after reboot" (
        errorf (
          concat (
            "no response within "
            ∷ show_duration timeout
            ∷ " (last error: "
            ∷ e.text
            ∷ "); node left cordoned, verify it and uncordon manually"
            ∷ [])))
    else ret (requeue (check_interval requeue_for_reboot_check remaining))

-- From the time check on; `start` is the reboot start time.
unfoldable pub poll_reboot :
    PatchJob → PatchJob → ℕ → PatchPlan → Client → Node → String → Prog Outcome
poll_reboot original job start plan client node address = do
  t ← ask now
  let timeout =
      if leb_ℤ plan.spec.reboot_timeout (pos 0)
      then default_reboot_timeout
      else plan.spec.reboot_timeout
  let remaining = timeout -ℤ sub_ℕ t start
  got ← ask (talos_version client address)
  on_err got (silent_node original job timeout remaining) λ version.
      if same version job.status.target_talos_version
      then check_health original job node timeout remaining version
      else check_rollback original job node timeout remaining version

-- A job without a start time gets one, which is recorded before the node is asked.
unfoldable pub stamp_reboot_start :
    PatchJob → PatchPlan → Client → Node → String → Option ℕ → Prog Outcome
stamp_reboot_start original plan client node address (some start) =
    poll_reboot original original start plan client node address
stamp_reboot_start original plan client node address none = do
  t ← ask now
  patched ← patch_status original (with_reboot_start t original)
  on_err patched (λ e. ret (failed_with e))
      λ _.
        poll_reboot (with_reboot_start t original) (with_reboot_start t original) t plan client node
          address

-- The body that waitForReboot hands to withTalos.
unfoldable pub reboot_on_node : PatchJob → Client → Node → String → Prog Outcome
reboot_on_node original client node address = do
  got ← get_patch_plan original
  on_err got (retry_or_fail original original "failed to get PatchPlan")
      λ plan. stamp_reboot_start original plan client node address original.status.reboot_start_time

-- waitForReboot.
unfoldable pub wait_for_reboot : String → PatchJob → Prog Outcome
wait_for_reboot namespace original =
    with_talos namespace original original (reboot_on_node original)
