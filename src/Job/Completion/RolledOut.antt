-- ===== src/Job/Completion/RolledOut.antt =====
-- controllers/patchjob_controller.go: waitForKubernetesUpgrade, up to the rollout on the node.
use kangal_patch.Prelude.{
  ℕ, ◌≡◌, ◌⊎◌, refl, sym, ap, subst, ◌∙◌, inl, inr, ℤ, pos, leb_ℤ, false, not, String, List, ◌∷◌,
  Option, none, some, same, same-eq, not-true, true_apart, if◌then◌else◌,
}
use kangal_patch.Api.Kube.{Node, Error, Result, ok}
use kangal_patch.Api.Plan.{PatchPlan}
use kangal_patch.Api.Job.{
  PatchJob, PatchJobSpec, JobPhase, validating_kubernetes, completed, failed, is_terminal,
}
use kangal_patch.Effect.Request.{Request, get_node, patch_job_status}
use kangal_patch.Effect.Prog.{ret, requeue, on_err}
use kangal_patch.Effect.Trace.{
  Event, event, Answered, just_answered, Answered-Later, Later, Trace, stops, asks, Trace-bind,
  Trace-if, Trace-on_err,
}
use kangal_patch.NodeUtil.{is_control_plane}
use kangal_patch.Job.Common.{releases_cordon, fail_job, retry_or_fail, requeue_for_kubernetes_check}
use kangal_patch.Job.Upgrading.{check_interval}
use kangal_patch.Job.Kubernetes.{
  finish_kubernetes, check_components, check_kubelet, poll_kubernetes, stamp_kubernetes_start,
  with_kubernetes_start, wait_for_kubernetes_upgrade,
}
use kangal_patch.Job.Recovery.Recovered.{ComponentsUp, ComponentsUp-Later}
use kangal_patch.Job.Recovery.Reads.{Quiet, get_patch_plan-Quiet}
use kangal_patch.Job.Recovery.Failing.{
  ResultAny, Lenient, Quiet-Trace, patch_status-Trace, fail_job-Trace, retry_or_fail-Trace,
}
use kangal_patch.Job.Recovery.StaticPods.{static_pods_ready-Listed}

-- The node was read with its kubelet at the target version, and its control plane runs that version.
pub record RolledOut (j : PatchJob) (h : List Event) : Type 0 where
  pub node : Node
  pub read : Answered (get_node j.spec.node_name) (ok node) h
  pub kubelet : node.kubelet_version ≡ j.spec.target.kubernetes_version
  pub components :
      (is_control_plane node ≡ false)
      ⊎ ComponentsUp j.spec.node_name j.spec.target.kubernetes_version h

-- What is asked for is quiet or a status patch, and a job is completed only after the rollout.
abbrev pub Concluding : PatchJob → List Event → Request → Type 0
Concluding j h (patch_job_status o m) = m.status.phase ≡ completed → RolledOut j h
Concluding j h r = Quiet r

not_completed : (p q : JobPhase) → is_terminal q ≡ false → p ≡ q → p ≡ completed → ⊥
unfolding is_terminal
not_completed p q live e c = true_apart (ap is_terminal (sym c ∙ e) ∙ live)

failed_apart : failed ≡ completed → ⊥
failed_apart e = cc

module _ (j : PatchJob) where
  Concluding-Lenient : Lenient (Concluding j)
  Concluding-Lenient = record { reads = reads; failures = failures }
    where
      reads : (h : List Event) (r : Request) → Quiet r → Concluding j h r
      reads h (patch_job_status o m) q = elim q [ ]
      reads h _ q = q

      failures :
          (h : List Event) (o m : PatchJob)
          → m.status.phase ≡ failed
          → Concluding j h (patch_job_status o m)
      failures h o m is e = elim (failed_apart (sym is ∙ e)) [ ]

  keeps_node : (p : JobPhase) → p ≡ validating_kubernetes → releases_cordon p ≡ false
  unfolding releases_cordon
  keeps_node p at = rw at

  module _ (o m : PatchJob) (from : o.status.phase ≡ validating_kubernetes)
      (same_spec : m.spec ≡ j.spec) where
    fail_or_wait-Concluding :
        (h : List Event) (remaining : ℤ) (message : String) (e : Error)
        → Trace (Concluding j) ResultAny h (
            if leb_ℤ remaining (pos 0)
            then fail_job o m message e
            else ret (requeue (check_interval requeue_for_kubernetes_check remaining)))
    fail_or_wait-Concluding h remaining message e =
        Trace-if (leb_ℤ remaining (pos 0))
          (λ _. fail_job-Trace _ Concluding-Lenient o m (keeps_node _ from) message e h)
          (λ _. stops tt)

    finish_kubernetes-Concluding :
        (h : List Event)
        → ((h' : List Event) → Later h h' → RolledOut j h')
        → Trace (Concluding j) ResultAny h (finish_kubernetes o m)
    unfolding finish_kubernetes
    finish_kubernetes-Concluding h out =
        Trace-bind
          (patch_status-Trace _ Concluding-Lenient h o _ (λ h' m' is later e. out h' later))
          λ _ patched _ _. Trace-on_err patched (λ _ _. stops tt) (λ _ _. stops tt)

    check_components-Concluding :
        (h : List Event) (node : Node) (timeout remaining : ℤ)
        → Answered (get_node j.spec.node_name) (ok node) h
        → node.kubelet_version ≡ j.spec.target.kubernetes_version
        → Trace (Concluding j) ResultAny h (check_components o m node timeout remaining)
    unfolding check_components
    check_components-Concluding h node timeout remaining read kubelet =
        Trace-if (not (is_control_plane node))
          (λ worker. finish_kubernetes-Concluding h λ h' later. record {
            node = node;
            read = Answered-Later later read;
            kubelet = kubelet;
            components = inl (not-true _ worker);
          })
          λ _.
            Trace-bind (static_pods_ready-Listed _ Concluding-Lenient h _ _)
              λ h1 checked later listed.
                Trace-on_err checked
                  (λ e _. retry_or_fail-Trace _ Concluding-Lenient o m (keeps_node _ from) _ e h1)
                  λ ready e.
                    Trace-if ready
                      (λ up. finish_kubernetes-Concluding h1 λ h2 later_still. record {
                        node = node;
                        read = Answered-Later later_still (Answered-Later later read);
                        kubelet = kubelet;
                        components = inr (
                            ComponentsUp-Later later_still (
                              subst
                                (λ (s : PatchJobSpec).
                                  ComponentsUp s.node_name s.target.kubernetes_version h1)
                                same_spec (listed (e ∙ ap ok up))));
                      })
                      (λ _. fail_or_wait-Concluding h1 remaining _ _)

    check_kubelet-Concluding :
        (h : List Event) (node : Node) (timeout remaining : ℤ)
        → Answered (get_node j.spec.node_name) (ok node) h
        → Trace (Concluding j) ResultAny h (check_kubelet o m node timeout remaining)
    unfolding check_kubelet
    check_kubelet-Concluding h node timeout remaining read =
        Trace-if (same node.kubelet_version m.spec.target.kubernetes_version)
          (λ eq.
            check_components-Concluding h node timeout remaining read
              (same-eq _ _ eq ∙ ap (λ (s : PatchJobSpec). s.target.kubernetes_version) same_spec))
          (λ _. fail_or_wait-Concluding h remaining _ _)

    read_node-Concluding :
        (h : List Event) (timeout remaining : ℤ) (name : String)
        → name ≡ j.spec.node_name
        → (got : Result Node)
        → Trace (Concluding j) ResultAny (event (get_node name) got ∷ h) (
            on_err got
              (retry_or_fail o m "failed to get node")
              λ node. check_kubelet o m node timeout remaining)
    read_node-Concluding h timeout remaining name named got =
        Trace-on_err got
          (λ e _. retry_or_fail-Trace _ Concluding-Lenient o m (keeps_node _ from) _ e _)
          λ node e. check_kubelet-Concluding _ node timeout remaining (
            subst (λ n. Answered (get_node n) (ok node) (event (get_node name) got ∷ h)) named
              (just_answered got e))

    poll_kubernetes-Concluding :
        (h : List Event) (start : ℕ) (plan : PatchPlan)
        → Trace (Concluding j) ResultAny h (poll_kubernetes o m start plan)
    unfolding poll_kubernetes
    poll_kubernetes-Concluding h start plan = asks tt λ t.
        asks tt
          λ got. read_node-Concluding _ _ _ _ (ap (λ (s : PatchJobSpec). s.node_name) same_spec) got

  module _ (at : j.status.phase ≡ validating_kubernetes) where
    stamp_kubernetes_start-Concluding :
        (h : List Event) (plan : PatchPlan) (began : Option ℕ)
        → Trace (Concluding j) ResultAny h (stamp_kubernetes_start j plan began)
    unfolding stamp_kubernetes_start is_terminal
    stamp_kubernetes_start-Concluding h plan (some start) =
        poll_kubernetes-Concluding j j at refl h start plan
    stamp_kubernetes_start-Concluding h plan none = asks tt λ t.
        Trace-bind
          (patch_status-Trace _ Concluding-Lenient _ j _
            (λ h' m' is later e. elim (not_completed _ _ refl (is ∙ at) e) [ ]))
          λ h' patched _ _.
            Trace-on_err patched (λ _ _. stops tt)
              λ _ _.
                poll_kubernetes-Concluding (with_kubernetes_start t j) (with_kubernetes_start t j)
                  at refl h' t plan

    pub wait_for_kubernetes_upgrade-Concluding :
        (h : List Event) → Trace (Concluding j) ResultAny h (wait_for_kubernetes_upgrade j)
    unfolding wait_for_kubernetes_upgrade
    wait_for_kubernetes_upgrade-Concluding h =
        Trace-bind (Quiet-Trace _ Concluding-Lenient h (get_patch_plan-Quiet j)) λ h' got _ _.
          Trace-on_err got
            (λ e _. retry_or_fail-Trace _ Concluding-Lenient j j (keeps_node _ at) _ e h')
            λ plan _.
              stamp_kubernetes_start-Concluding h' plan j.status.kubernetes_upgrade_start_time
