-- ===== src/Job/Progress/Phases.antt =====
-- controllers/patchjob_controller.go: how the handlers of the phases end, those of the reboot aside.
use kangal_patch.Prelude.{
  ℕ, refl, ℤ, pos, leb_ℤ, ltb_ℤ, sub_ℕ, Bool, not, ◌&&◌, String, List, Option, none, some, same,
  is_blank,
}
use kangal_patch.Api.Kube.{Error, ErrorKind, Node, unmanaged_pods}
use kangal_patch.Api.Plan.{PatchPlan}
use kangal_patch.Api.Job.{PatchJob, is_terminal}
use kangal_patch.Effect.Trace.{Event, asks, Trace-if, Trace-on_err}
use kangal_patch.Libs.{Libs, is_downgrade}
use kangal_patch.NodeUtil.{is_control_plane}
use kangal_patch.Drain.{cordon_node, uncordon_node, drain_node, is_drained}
use kangal_patch.Job.Common.{
  patch_status, get_patch_plan, drain_timeout_of, static_pods_ready, requeue_for_kubernetes_check,
}
use kangal_patch.Job.Init.{
  started_at, first_phase, enter_first_phase, detect_schematic, kubernetes_needs_upgrade_on,
  decide_upgrade, init_on_node, init_job,
}
use kangal_patch.Job.Draining.{
  drain_options, stamp_drain_start, drain_blocked, after_drain, drain_failed, drain_cordoned,
  start_drain, drain_overdue, still_draining, wait_for_drain,
}
use kangal_patch.Job.Kubernetes.{
  patch_components, kubernetes_on_node, start_kubernetes_upgrade, finish_kubernetes,
  check_components, check_kubelet, poll_kubernetes, stamp_kubernetes_start,
  wait_for_kubernetes_upgrade, with_kubernetes_start,
}
use kangal_patch.Job.Progress.Ends.{
  Ends, failed-Ends, requeue-Ends, after-Ends, then-Ends, check_interval-later,
}
use kangal_patch.Job.Progress.Shared.{
  recorded-Ends, fail_job-Ends, retry_or_fail-Ends, with_talos-Ends, BodyEnds,
}

enter_first_phase-Ends :
    (h : List Event) (o m : PatchJob) (talos kubernetes : Bool)
    → Ends h (enter_first_phase o m talos kubernetes)
unfolding enter_first_phase is_terminal
enter_first_phase-Ends h o m talos kubernetes =
    Trace-if (not talos && not kubernetes)
      (λ _. after-Ends h (uncordon_node m.spec.node_name) λ h' _. recorded-Ends h' o _ refl)
      (λ _. then-Ends h (patch_status o (first_phase talos m)) _ refl)

module _ (lib : Libs) where
  decide_upgrade-Ends :
      (h : List Event) (o m : PatchJob) (talos kubernetes : String) (a b : Bool)
      → Ends h (decide_upgrade lib o m talos kubernetes a b)
  unfolding decide_upgrade
  decide_upgrade-Ends h o m talos kubernetes a b =
      let target = m.spec.target in
      Trace-if
        (a && (not target.allow_talos_downgrade && is_downgrade lib talos target.talos_version))
        (λ _. fail_job-Ends h o _ _ _)
        λ _.
          Trace-if
            (not (is_blank target.kubernetes_version)
              && is_downgrade lib kubernetes target.kubernetes_version)
            (λ _. fail_job-Ends h o _ _ _) (λ _. enter_first_phase-Ends h o _ a b)

  init_on_node-Ends : (o m : PatchJob) → BodyEnds (init_on_node lib o m)
  unfolding init_on_node
  init_on_node-Ends o m h client node address = asks tt λ got.
      Trace-on_err got (λ e _. retry_or_fail-Ends _ o m _ e)
        λ talos _. after-Ends _ (detect_schematic m.spec.target client address) λ h1 detected.
          Trace-on_err detected (λ e _. retry_or_fail-Ends h1 o m _ e)
            λ schematic _.
              after-Ends h1 (kubernetes_needs_upgrade_on node m.spec.target.kubernetes_version)
                λ h2 checked.
                  Trace-on_err checked (λ e _. retry_or_fail-Ends h2 o m _ e)
                    λ needs _. decide_upgrade-Ends h2 o m _ _ _ needs

  pub init_job-Ends :
      (namespace : String) (h : List Event) (job : PatchJob) → Ends h (init_job lib namespace job)
  unfolding init_job
  init_job-Ends namespace h job = asks tt λ t.
      with_talos-Ends namespace job (started_at t job) (init_on_node lib job (started_at t job))
        (init_on_node-Ends job (started_at t job)) _

drain_blocked-Ends :
    (h : List Event) (o m : PatchJob) (start : ℕ) (timeout : ℤ)
    → Ends h (drain_blocked o m start timeout)
unfolding drain_blocked
drain_blocked-Ends h o m start timeout = asks tt λ t.
    Trace-if (ltb_ℤ timeout (sub_ℕ t start)) (λ _. fail_job-Ends _ o m _ _)
      (λ _. then-Ends _ (patch_status o _) _ refl)

drain_failed-Ends :
    (h : List Event) (o m : PatchJob) (e : Error) (kind : ErrorKind)
    → Ends h (drain_failed o m e kind)
unfolding drain_failed
drain_failed-Ends h o m e unmanaged_pods = fail_job-Ends h o m _ e
drain_failed-Ends h o m e _ = retry_or_fail-Ends h o m _ e

drain_cordoned-Ends :
    (h : List Event) (o : PatchJob) (plan : PatchPlan) (stamped : PatchJob × ℕ)
    → Ends h (drain_cordoned o plan stamped)
unfolding drain_cordoned after_drain
drain_cordoned-Ends h o plan (m, start) =
    after-Ends h (drain_node o.spec.node_name (drain_options plan)) λ h' drained.
      Trace-on_err drained (λ e _. drain_failed-Ends h' o m e e.kind)
        λ blocked _.
          Trace-if blocked (λ _. drain_blocked-Ends h' o m start _)
            (λ _. then-Ends h' (patch_status o _) _ refl)

pub start_drain-Ends : (h : List Event) (o : PatchJob) → Ends h (start_drain o)
unfolding start_drain
start_drain-Ends h o = after-Ends h (get_patch_plan o) λ h1 got.
    Trace-on_err got (λ e _. retry_or_fail-Ends h1 o o _ e)
      λ plan _. after-Ends h1 (cordon_node o.spec.node_name) λ h2 cordon.
        Trace-on_err cordon (λ e _. retry_or_fail-Ends h2 o o _ e)
          λ _ _.
            after-Ends h2 (stamp_drain_start o o.status.drain_start_time)
              λ h3 stamped. drain_cordoned-Ends h3 o plan stamped

drain_overdue-Ends :
    (h : List Event) (o : PatchJob) (plan : PatchPlan) (began : Option ℕ)
    → Ends h (drain_overdue o plan began)
unfolding drain_overdue
drain_overdue-Ends h o plan none = requeue-Ends h _ refl
drain_overdue-Ends h o plan (some start) = asks tt λ t.
    Trace-if (ltb_ℤ (drain_timeout_of plan) (sub_ℕ t start)) (λ _. fail_job-Ends _ o o _ _)
      (λ _. requeue-Ends _ _ refl)

pub wait_for_drain-Ends : (h : List Event) (o : PatchJob) → Ends h (wait_for_drain o)
unfolding wait_for_drain still_draining
wait_for_drain-Ends h o = after-Ends h (is_drained o.spec.node_name) λ h1 checked.
    Trace-on_err checked (λ e _. retry_or_fail-Ends h1 o o _ e)
      λ drained _.
        Trace-if (not drained)
          (λ _. after-Ends h1 (get_patch_plan o) λ h2 got.
            Trace-on_err got (λ e _. retry_or_fail-Ends h2 o o _ e)
              λ plan _. drain_overdue-Ends h2 o plan o.status.drain_start_time)
          (λ _. then-Ends h1 (patch_status o _) _ refl)

kubernetes_on_node-Ends : (o : PatchJob) → BodyEnds (kubernetes_on_node o)
unfolding kubernetes_on_node
kubernetes_on_node-Ends o h client node address =
    after-Ends h (patch_components client node address _) λ h1 components.
      Trace-on_err components (λ e _. retry_or_fail-Ends h1 o o _ e)
        λ _ _. asks tt λ kubelet.
          Trace-on_err kubelet (λ e _. retry_or_fail-Ends _ o o _ e)
            λ _ _. asks tt λ t. then-Ends _ (patch_status o _) _ refl

pub start_kubernetes_upgrade-Ends :
    (namespace : String) (h : List Event) (o : PatchJob)
    → Ends h (start_kubernetes_upgrade namespace o)
unfolding start_kubernetes_upgrade
start_kubernetes_upgrade-Ends namespace h o =
    with_talos-Ends namespace o o (kubernetes_on_node o) (kubernetes_on_node-Ends o) h

module _ (o m : PatchJob) where
  finish_kubernetes-Ends : (h : List Event) → Ends h (finish_kubernetes o m)
  unfolding finish_kubernetes is_terminal
  finish_kubernetes-Ends h = recorded-Ends h o _ refl

  check_components-Ends :
      (h : List Event) (node : Node) (timeout remaining : ℤ)
      → Ends h (check_components o m node timeout remaining)
  unfolding check_components
  check_components-Ends h node timeout remaining =
      Trace-if (not (is_control_plane node)) (λ _. finish_kubernetes-Ends h)
        λ _.
          after-Ends h (static_pods_ready m.spec.node_name m.spec.target.kubernetes_version)
            λ h' checked.
              Trace-on_err checked (λ e _. retry_or_fail-Ends h' o m _ e)
                λ ready _.
                  Trace-if ready (λ _. finish_kubernetes-Ends h')
                    λ _.
                      Trace-if (leb_ℤ remaining (pos 0)) (λ _. fail_job-Ends h' o m _ _)
                        (λ _.
                          requeue-Ends h' _
                            (check_interval-later requeue_for_kubernetes_check remaining refl))

  check_kubelet-Ends :
      (h : List Event) (node : Node) (timeout remaining : ℤ)
      → Ends h (check_kubelet o m node timeout remaining)
  unfolding check_kubelet
  check_kubelet-Ends h node timeout remaining =
      Trace-if (same node.kubelet_version m.spec.target.kubernetes_version)
        (λ _. check_components-Ends h node timeout remaining)
        λ _.
          Trace-if (leb_ℤ remaining (pos 0)) (λ _. fail_job-Ends h o m _ _)
            (λ _.
              requeue-Ends h _ (check_interval-later requeue_for_kubernetes_check remaining refl))

  poll_kubernetes-Ends :
      (h : List Event) (start : ℕ) (plan : PatchPlan) → Ends h (poll_kubernetes o m start plan)
  unfolding poll_kubernetes
  poll_kubernetes-Ends h start plan = asks tt λ t. asks tt λ got.
      Trace-on_err got (λ e _. retry_or_fail-Ends _ o m _ e) λ node _. check_kubelet-Ends _ node _ _

stamp_kubernetes_start-Ends :
    (h : List Event) (o : PatchJob) (plan : PatchPlan) (began : Option ℕ)
    → Ends h (stamp_kubernetes_start o plan began)
unfolding stamp_kubernetes_start
stamp_kubernetes_start-Ends h o plan (some start) = poll_kubernetes-Ends o o h start plan
stamp_kubernetes_start-Ends h o plan none = asks tt λ t.
    after-Ends _ (patch_status o (with_kubernetes_start t o)) λ h' patched.
      Trace-on_err patched (λ e _. failed-Ends h' e) (λ _ _. poll_kubernetes-Ends _ _ h' t plan)

pub wait_for_kubernetes_upgrade-Ends :
    (h : List Event) (o : PatchJob) → Ends h (wait_for_kubernetes_upgrade o)
unfolding wait_for_kubernetes_upgrade
wait_for_kubernetes_upgrade-Ends h o = after-Ends h (get_patch_plan o) λ h1 got.
    Trace-on_err got (λ e _. retry_or_fail-Ends h1 o o _ e)
      λ plan _. stamp_kubernetes_start-Ends h1 o plan o.status.kubernetes_upgrade_start_time
