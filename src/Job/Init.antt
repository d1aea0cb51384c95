-- ===== src/Job/Init.antt =====
-- controllers/patchjob_controller.go, initJob: what a new job has to do, and whether it may.
use kangal_patch.Prelude.{
  ℕ, Bool, true, false, ◌&&◌, ◌||◌, not, String, [], ◌∷◌, some, same, is_blank, concat,
  if◌then◌else◌,
}
use kangal_patch.Api.Kube.{Node, Result, ok, err, errorf, Error}
use kangal_patch.Api.Plan.{TargetSpec}
use kangal_patch.Api.Job.{PatchJob, pending, upgrading_kubernetes, completed}
use kangal_patch.Effect.Request.{Client, now, talos_version, talos_schematic_id}
use kangal_patch.Effect.Prog.{Prog, ret, ask, ◌>>=◌, on_err, Outcome, failed_with, done, requeue}
use kangal_patch.Libs.{Libs, is_downgrade}
use kangal_patch.NodeUtil.{is_control_plane}
use kangal_patch.Drain.{uncordon_node}
use kangal_patch.Job.Common.{
  with_phase, patch_status, fail_job, retry_or_fail, with_talos, static_pods_ready,
  requeue_immediate,
}

-- checksSchematic.
unfoldable pub checks_schematic : TargetSpec → Bool
checks_schematic t = same t.source "factory" && not (is_blank t.schematic_id)

-- needsTalosUpgrade.
unfoldable pub needs_talos_upgrade : TargetSpec → String → String → Bool
needs_talos_upgrade t version schematic_id =
    if is_blank t.talos_version
    then false
    else not (same version t.talos_version)
      || (checks_schematic t && not (same schematic_id t.schematic_id))

-- firstNonEmpty.
unfoldable pub first_non_empty : String → String → String
first_non_empty a b = if is_blank a then b else a

abbrev pub with_current_versions : String → String → PatchJob → PatchJob
with_current_versions talos kubernetes job = record job {
  status = record (job.status) {
    current_talos_version = talos;
    current_kubernetes_version = kubernetes;
  };
}

abbrev pub with_target_versions : String → String → PatchJob → PatchJob
with_target_versions talos kubernetes job = record job {
  status = record (job.status) {
    target_talos_version = talos;
    target_kubernetes_version = kubernetes;
  };
}

abbrev pub started_at : ℕ → PatchJob → PatchJob
started_at t job = record job { status = record (job.status) { start_time = some t } }

-- The first phase of work: a Talos upgrade needs a drain, a Kubernetes upgrade alone does not.
abbrev pub first_phase : Bool → PatchJob → PatchJob
first_phase true job = with_phase pending "initialized, ready to drain" job
first_phase false job =
    with_phase upgrading_kubernetes "initialized, ready to upgrade kubernetes" job

-- The last part of initJob: finish at once, or enter the first phase of work.
unfoldable pub enter_first_phase : PatchJob → PatchJob → Bool → Bool → Prog Outcome
enter_first_phase original job talos_needs_upgrade kubernetes_needs_upgrade =
    if not talos_needs_upgrade && not kubernetes_needs_upgrade
    then (do
      _ ← uncordon_node job.spec.node_name
      patched ← patch_status original (with_phase completed "already at target version" job)
      on_err patched (λ e. ret (failed_with e)) λ _. ret done)
    else do
      patched ← patch_status original (first_phase talos_needs_upgrade job)
      on_err patched (λ e. ret (failed_with e)) λ _. ret (requeue requeue_immediate)

unfoldable pub talos_downgrade_error : String → String → Error
talos_downgrade_error current target = errorf (
    concat (
      "node runs " ∷ current ∷ ", target is older (" ∷ target
      ∷ "); set target.allowTalosDowngrade to roll back" ∷ []))

unfoldable pub kubernetes_downgrade_error : String → String → Error
kubernetes_downgrade_error current target =
    errorf (concat ("kubelet runs " ∷ current ∷ ", target is older (" ∷ target ∷ ")" ∷ []))

-- The schematic that the node runs, asked for only where the target pins one.
unfoldable pub detect_schematic : TargetSpec → Client → String → Prog (Result String)
detect_schematic target client address =
    if checks_schematic target then ask (talos_schematic_id client address) else ret (ok "")

-- Whether Kubernetes needs the upgrade: a kubelet at the target is not enough on a control plane
-- node, whose static pods must have rolled out too.
unfoldable pub kubernetes_needs_upgrade_on : Node → String → Prog (Result Bool)
kubernetes_needs_upgrade_on node target =
    let differs = not (same node.kubelet_version target) in
    if is_blank target
    then ret (ok false)
    else if differs
    then ret (ok true)
    else if not (is_control_plane node)
    then ret (ok false)
    else do
      checked ← static_pods_ready node.name target
      on_err checked (λ e. ret (err e)) λ ready. ret (ok (not ready))

module _ (lib : Libs) where
  -- The refusals of downgrades, in the order of the code.
  unfoldable pub decide_upgrade : PatchJob → PatchJob → String → String → Bool → Bool → Prog Outcome
  decide_upgrade original job talos kubernetes talos_needs_upgrade kubernetes_needs_upgrade =
      let target = job.spec.target in
      let seen = with_current_versions talos kubernetes job in
      if talos_needs_upgrade
        && (not target.allow_talos_downgrade && is_downgrade lib talos target.talos_version)
      then fail_job original seen "refusing to downgrade Talos"
          (talos_downgrade_error talos target.talos_version)
      else if not (is_blank target.kubernetes_version)
          && is_downgrade lib kubernetes target.kubernetes_version
      then fail_job original seen "refusing to downgrade Kubernetes"
          (kubernetes_downgrade_error kubernetes target.kubernetes_version)
      else enter_first_phase original
          (with_target_versions (first_non_empty target.talos_version talos)
            (first_non_empty target.kubernetes_version kubernetes) seen)
          talos_needs_upgrade kubernetes_needs_upgrade

  -- The body that initJob hands to withTalos.
  unfoldable pub init_on_node : PatchJob → PatchJob → Client → Node → String → Prog Outcome
  init_on_node original job client node address = do
    got ← ask (talos_version client address)
    on_err got (retry_or_fail original job "failed to get current Talos version") λ talos. do
      detected ← detect_schematic job.spec.target client address
      on_err detected (retry_or_fail original job "failed to detect node schematic ID") λ schematic.
          do
            checked ← kubernetes_needs_upgrade_on node job.spec.target.kubernetes_version
            on_err checked (retry_or_fail original job "failed to check control plane static pods")
                λ kubernetes_needs_upgrade.
                  decide_upgrade original job talos node.kubelet_version
                    (needs_talos_upgrade job.spec.target talos schematic) kubernetes_needs_upgrade

  -- initJob.
  unfoldable pub init_job : String → PatchJob → Prog Outcome
  init_job namespace job = do
    t ← ask now
    with_talos namespace job (started_at t job) (init_on_node job (started_at t job))
