-- ===== src/Plan/KubeProxy.antt =====
-- controllers/patchplan_controller.go, scheduler.go: the rollout of kube-proxy, once the control
-- plane has completed its upgrade.
use kangal_patch.Prelude.{
  ℕ, ◌==◌, ℤ, pos, leb, leb_ℤ, ltb_ℤ, sub_ℕ, Bool, true, false, not, ◌&&◌, ◌||◌, String, List, [],
  ◌∷◌, Option, none, some, Dict, lookup, same, is_blank, is_empty, concat, show_duration,
  if◌then◌else◌,
}
use kangal_patch.Api.Kube.{
  Node, DaemonSet, Error, ErrorKind, not_found, Result, ok, err, errorf, wrap,
}
use kangal_patch.Api.Plan.{PatchPlan}
use kangal_patch.Api.Job.{PatchJob}
use kangal_patch.Effect.Request.{now, get_daemon_set, patch_daemon_set}
use kangal_patch.Effect.Prog.{Prog, ret, ask, ◌>>=◌, on_err}
use kangal_patch.Images.{build_kube_proxy_image}
use kangal_patch.Scheduling.{Rollout, control_plane_nodes}
use kangal_patch.Job.Common.{default_kubernetes_upgrade_timeout}
use kangal_patch.Plan.Status.{requeue_for_next_node, update_status, set_message}
use kangal_patch.Plan.Jobs.{later_of, all_nodes_completed}

abbrev pub kube_proxy_daemon_set_name : String
kube_proxy_daemon_set_name = "kube-proxy"

abbrev pub kube_proxy_namespace : String
kube_proxy_namespace = "kube-system"

unfoldable pub rolled_out : DaemonSet → Bool
rolled_out ds =
    leb ds.generation ds.observed_generation
    && ((ds.updated_scheduled == ds.desired_scheduled) && (ds.number_ready == ds.desired_scheduled))

-- A cluster without kube-proxy has nothing left to do.
unfoldable pub daemon_set_missing : Error → ErrorKind → Result Bool
daemon_set_missing e not_found = ok true
daemon_set_missing e _ = err (wrap "failed to get kube-proxy DaemonSet" e)

-- ensureKubeProxyUpgraded of a DaemonSet, by its containers.
unfoldable pub upgrade_daemon_set : String → DaemonSet → List String → Prog (Result Bool)
upgrade_daemon_set target ds [] = ret (err (errorf "kube-proxy DaemonSet has no containers"))
upgrade_daemon_set target ds (image ∷ others) =
    if same image target then ret (ok (rolled_out ds)) else do
      patched ← ask (patch_daemon_set ds (record ds { container_images = target ∷ others }))
      on_err patched (λ e. ret (err (wrap "failed to update kube-proxy image" e)))
          λ _. ret (ok false)

-- ensureKubeProxyUpgraded.
unfoldable pub ensure_kube_proxy_upgraded : String → Prog (Result Bool)
ensure_kube_proxy_upgraded version = do
  got ← ask (get_daemon_set kube_proxy_namespace kube_proxy_daemon_set_name)
  on_err got (λ e. ret (daemon_set_missing e e.kind))
      λ ds. upgrade_daemon_set (build_kube_proxy_image version) ds ds.container_images

abbrev pub completion_of : Option PatchJob → Option ℕ
completion_of none = none
completion_of (some job) = job.status.completion_time

-- lastCompletion, from the latest so far; 0 is the zero time.
unfoldable pub last_completion : ℕ → List Node → Dict PatchJob → ℕ
last_completion last [] jobs = last
last_completion last (n ∷ ns) jobs =
    last_completion (later_of last (completion_of (lookup n.name jobs))) ns jobs

abbrev pub timeout_of : PatchPlan → ℤ
timeout_of plan =
    if leb_ℤ plan.spec.kubernetes_upgrade_timeout (pos 0)
    then default_kubernetes_upgrade_timeout
    else plan.spec.kubernetes_upgrade_timeout

unfoldable pub rollout_message : ℤ → ℤ → String
rollout_message timeout since =
    if ltb_ℤ timeout since
    then concat (
        "kube-proxy rollout not finished "
        ∷ show_duration timeout
        ∷ " after the control plane completed; check the kube-proxy DaemonSet in "
        ∷ kube_proxy_namespace
        ∷ [])
    else "Waiting for the kube-proxy rollout"

-- How long to wait, with the plan.
abbrev pub Wait : Type 0
Wait = ℤ × PatchPlan

abbrev pub with_wait : ℤ → Result PatchPlan → Result Wait
with_wait d (ok plan) = ok (d, plan)
with_wait d (err e) = err e

-- The branches after ensureKubeProxyUpgraded has answered.
unfoldable pub kube_proxy_done : PatchPlan → List Node → Dict PatchJob → Bool → Prog (Result Wait)
kube_proxy_done plan control_plane jobs true = do
  updated ← update_status plan (record (plan.status) { kube_proxy_upgraded = true })
  ret (with_wait (pos 0) updated)
kube_proxy_done plan control_plane jobs false = do
  t ← ask now
  updated ←
      set_message plan
        (rollout_message (timeout_of plan) (sub_ℕ t (last_completion 0 control_plane jobs)))
  ret (with_wait requeue_for_next_node updated)

-- ensureKubeProxy.
unfoldable pub ensure_kube_proxy : PatchPlan → Rollout → Dict PatchJob → Prog (Result Wait)
ensure_kube_proxy plan rollout jobs =
    let control_plane = control_plane_nodes rollout in
    if is_blank plan.spec.target.kubernetes_version || plan.status.kube_proxy_upgraded
    then ret (ok (pos 0, plan))
    else if is_empty control_plane || not (all_nodes_completed control_plane jobs)
    then ret (ok (pos 0, plan))
    else do
      upgraded ← ensure_kube_proxy_upgraded plan.spec.target.kubernetes_version
      on_err upgraded (λ e. ret (err e))
          λ finished. kube_proxy_done plan control_plane jobs finished
