-- ===== src/Job/Effects/Kubernetes.antt =====
-- controllers/patchjob_controller.go: the requests of startKubernetesUpgrade and
-- waitForKubernetesUpgrade.
use kangal_patch.Prelude.{
  ℕ, ℤ, pos, ◌≡◌, refl, sym, ◌∙◌, ap, inr, false, not, String, Option, none, some, same, leb_ℤ,
}
use kangal_patch.Api.Kube.{Node}
use kangal_patch.Api.Plan.{PatchPlan}
use kangal_patch.Api.Job.{
  PatchJob, PatchJobSpec, upgrading_kubernetes, validating_kubernetes, is_terminal,
}
use kangal_patch.Effect.Request.{Client}
use kangal_patch.Effect.Sat.{Sat, returns, calls, Sat-bind, Sat-if, Sat-on_err, Any}
use kangal_patch.NodeUtil.{is_control_plane}
use kangal_patch.Job.Kubernetes.{
  with_kubernetes_start, patch_components, kubernetes_on_node, start_kubernetes_upgrade,
  finish_kubernetes, check_components, check_kubelet, poll_kubernetes, stamp_kubernetes_start,
  wait_for_kubernetes_upgrade,
}
use kangal_patch.Job.Effects.Allowed.{
  Allowed, SameJob, kubernetes_patched, kubernetes_finished, stays,
}
use kangal_patch.Job.Effects.Shared.{
  patch_status-Allowed, fail_job-Allowed, retry_or_fail-Allowed, get_patch_plan-Allowed,
  with_talos-Allowed, static_pods_ready-Allowed, IsAllowedBody,
}

module _ (namespace : String) (j : PatchJob) (at : j.status.phase ≡ upgrading_kubernetes) where
  patching_live : is_terminal j.status.phase ≡ false
  unfolding is_terminal
  patching_live = rw at

  patch_components-Allowed :
      (client : Client) (node : Node) (address : String)
      → Sat
          (Allowed namespace j)
          Any
          (patch_components client node address j.spec.target.kubernetes_version)
  unfolding patch_components
  patch_components-Allowed client node address =
      Sat-if (is_control_plane node) (λ _. calls (at, refl, refl, refl) λ _. returns tt)
        (λ _. returns tt)

  kubernetes_on_node-Allowed : IsAllowedBody namespace j (kubernetes_on_node j)
  unfolding kubernetes_on_node
  kubernetes_on_node-Allowed client node address =
      Sat-bind (patch_components-Allowed client node address) λ components _.
        Sat-on_err components
          (λ e _.
            retry_or_fail-Allowed namespace j j j _ e (refl, refl) refl (refl, refl) patching_live)
          λ _ _.
            calls (at, refl)
              λ kubelet.
                Sat-on_err kubelet
                  (λ e _.
                    retry_or_fail-Allowed namespace j j j _ e (refl, refl) refl (refl, refl)
                      patching_live)
                  λ _ _. calls tt λ t.
                    Sat-bind
                      (patch_status-Allowed namespace j j _ (refl, refl) refl (refl, refl)
                        (kubernetes_patched at refl))
                      λ patched _. Sat-on_err patched (λ _ _. returns tt) (λ _ _. returns tt)

  pub start_kubernetes_upgrade-Allowed :
      Sat (Allowed namespace j) Any (start_kubernetes_upgrade namespace j)
  unfolding start_kubernetes_upgrade
  start_kubernetes_upgrade-Allowed =
      with_talos-Allowed namespace j j (refl, refl) patching_live (kubernetes_on_node j)
        kubernetes_on_node-Allowed

module _ (namespace : String) (j : PatchJob) (at : j.status.phase ≡ validating_kubernetes) where
  validating_live : is_terminal j.status.phase ≡ false
  unfolding is_terminal
  validating_live = rw at

  module _ (o m : PatchJob) (of_job : SameJob j o) (from : o.status.phase ≡ j.status.phase)
      (same_job : SameJob o m) where
    finish_kubernetes-Allowed : Sat (Allowed namespace j) Any (finish_kubernetes o m)
    unfolding finish_kubernetes
    finish_kubernetes-Allowed =
        Sat-bind
          (patch_status-Allowed namespace j o _ of_job from same_job
            (kubernetes_finished (from ∙ at) refl))
          λ patched _. Sat-on_err patched (λ _ _. returns tt) (λ _ _. returns tt)

    check_components-Allowed :
        (node : Node) (timeout remaining : ℤ)
        → Sat (Allowed namespace j) Any (check_components o m node timeout remaining)
    unfolding check_components
    check_components-Allowed node timeout remaining =
        Sat-if (not (is_control_plane node)) (λ _. finish_kubernetes-Allowed)
          λ _. Sat-bind (static_pods_ready-Allowed namespace j _ _) λ checked _.
            Sat-on_err checked
              (λ e _.
                retry_or_fail-Allowed namespace j o m _ e of_job from same_job validating_live)
              λ ready _.
                Sat-if ready (λ _. finish_kubernetes-Allowed)
                  λ _.
                    Sat-if (leb_ℤ remaining (pos 0))
                      (λ _.
                        fail_job-Allowed namespace j o m _ _ of_job from same_job validating_live)
                      (λ _. returns tt)

    check_kubelet-Allowed :
        (node : Node) (timeout remaining : ℤ)
        → Sat (Allowed namespace j) Any (check_kubelet o m node timeout remaining)
    unfolding check_kubelet
    check_kubelet-Allowed node timeout remaining =
        Sat-if (same node.kubelet_version m.spec.target.kubernetes_version)
          (λ _. check_components-Allowed node timeout remaining)
          λ _.
            Sat-if (leb_ℤ remaining (pos 0))
              (λ _. fail_job-Allowed namespace j o m _ _ of_job from same_job validating_live)
              (λ _. returns tt)

    poll_kubernetes-Allowed :
        (start : ℕ) (plan : PatchPlan)
        → Sat (Allowed namespace j) Any (poll_kubernetes o m start plan)
    unfolding poll_kubernetes
    poll_kubernetes-Allowed start plan = calls tt λ t.
        calls (sym (ap (λ (s : PatchJobSpec). s.node_name) (of_job.1 ∙ same_job.1))) λ got.
          Sat-on_err got
            (λ e _. retry_or_fail-Allowed namespace j o m _ e of_job from same_job validating_live)
            λ node _. check_kubelet-Allowed node _ _

  stamp_kubernetes_start-Allowed :
      (plan : PatchPlan) (began : Option ℕ)
      → Sat (Allowed namespace j) Any (stamp_kubernetes_start j plan began)
  unfolding stamp_kubernetes_start
  stamp_kubernetes_start-Allowed plan (some start) =
      poll_kubernetes-Allowed j j (refl, refl) refl (refl, refl) start plan
  stamp_kubernetes_start-Allowed plan none = calls tt λ t.
      Sat-bind
        (patch_status-Allowed namespace j j (with_kubernetes_start t j) (refl, refl) refl
          (refl, refl) (stays (inr (inr at)) refl))
        λ patched _.
          Sat-on_err patched (λ _ _. returns tt)
            λ _ _.
              poll_kubernetes-Allowed (with_kubernetes_start t j) (with_kubernetes_start t j)
                (refl, refl) refl (refl, refl) t plan

  pub wait_for_kubernetes_upgrade-Allowed :
      Sat (Allowed namespace j) Any (wait_for_kubernetes_upgrade j)
  unfolding wait_for_kubernetes_upgrade
  wait_for_kubernetes_upgrade-Allowed =
      Sat-bind (get_patch_plan-Allowed namespace j j (refl, refl)) λ got _.
        Sat-on_err got
          (λ e _.
            retry_or_fail-Allowed namespace j j j _ e (refl, refl) refl (refl, refl)
              validating_live)
          λ plan _. stamp_kubernetes_start-Allowed plan j.status.kubernetes_upgrade_start_time
