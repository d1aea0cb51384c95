-- ===== src/Job/Recovery/Reboot.antt =====
-- controllers/patchjob_controller.go: waitForReboot, up to the recovery of the node.
use kangal_patch.Prelude.{
  ℕ, ◌≡◌, refl, sym, ap, ◌∙◌, subst, ℤ, pos, leb_ℤ, false, not, ◌&&◌, String, List, Option, none,
  some, same, same-eq, is_blank, true_apart, if◌then◌else◌, has_key,
}
use kangal_patch.Api.Kube.{Error, Node, ok}
use kangal_patch.Api.Plan.{PatchPlan}
use kangal_patch.Api.Job.{PatchJob, JobPhase, rebooting}
use kangal_patch.Effect.Request.{Client, talos_version}
use kangal_patch.Effect.Prog.{ret, requeue}
use kangal_patch.Effect.Trace.{
  Event, Answered, just_answered, Answered-Later, Later-before, now_or, after, Trace, stops, asks,
  Trace-bind, Trace-if, Trace-on_err,
}
use kangal_patch.Drain.{cordoned_by_annotation, uncordon_node}
use kangal_patch.Job.Common.{fail_job, requeue_for_reboot_check}
use kangal_patch.Job.Upgrading.{
  reboot_done, check_health, check_rollback, silent_node, poll_reboot, stamp_reboot_start,
  with_reboot_start, reboot_on_node, wait_for_reboot, check_interval,
}
use kangal_patch.Job.Recovery.Reached.{Reached, Reached-Later}
use kangal_patch.Job.Recovery.Recovered.{Healthy, Recovered, Recovered-Later, Guarded, unrecovered}
use kangal_patch.Job.Recovery.Shared.{
  patch_status-Guarded, fail_job-Guarded, retry_or_fail-Guarded, get_patch_plan-Guarded,
  with_talos-Guarded, BodyGuarded,
}
use kangal_patch.Job.Recovery.Health.{node_unhealthy-Checked}
use kangal_patch.Job.Recovery.Failing.{ResultAny}

module _ (j : PatchJob) where
  stays_unrecovered : (p : JobPhase) → p ≡ rebooting → unrecovered p ≡ false → ⊥
  stays_unrecovered p is f = true_apart (ap unrecovered (sym is) ∙ f)

  module _ (at : j.status.phase ≡ rebooting) (o m : PatchJob) (from : o.status.phase ≡ rebooting)
      (target : m.status.target_talos_version ≡ j.status.target_talos_version)
      (boot : m.status.pre_upgrade_boot_id ≡ j.status.pre_upgrade_boot_id) where
    fail_or_wait-Guarded :
        (h : List Event) (remaining : ℤ) (message : String) (e : Error)
        → Trace (Guarded j) ResultAny h (
            if leb_ℤ remaining (pos 0)
            then fail_job o m message e
            else ret (requeue (check_interval requeue_for_reboot_check remaining)))
    fail_or_wait-Guarded h remaining message e =
        Trace-if (leb_ℤ remaining (pos 0)) (λ _. fail_job-Guarded j o m from message e h)
          (λ _. stops tt)

    -- The node is given back only after it has recovered.
    uncordon_node-Guarded :
        (h : List Event) (name : String)
        → Recovered j h
        → Trace (Guarded j) ResultAny h (uncordon_node name)
    unfolding uncordon_node
    uncordon_node-Guarded h name recovered = asks tt λ got.
        Trace-on_err got (λ _ _. stops tt)
          λ node _.
            Trace-if (not (has_key cordoned_by_annotation node.annotations)) (λ _. stops tt)
              λ _.
                asks (Recovered-Later (after now_or) recovered)
                  λ patched. Trace-on_err patched (λ _ _. stops tt) (λ _ _. stops tt)

    reboot_done-Guarded :
        (h : List Event) (version : String)
        → Recovered j h
        → Trace (Guarded j) ResultAny h (reboot_done o m version)
    unfolding reboot_done
    reboot_done-Guarded h version recovered =
        Trace-bind (uncordon_node-Guarded h m.spec.node_name recovered) λ h1 released later _.
          Trace-on_err released (λ e _. retry_or_fail-Guarded j o _ from _ e h1)
            λ _ _.
              Trace-bind
                (patch_status-Guarded j h1 o _
                  λ h2 _ later_still. Recovered-Later later_still (Recovered-Later later recovered))
                λ _ patched _ _. Trace-on_err patched (λ _ _. stops tt) (λ _ _. stops tt)

    check_health-Guarded :
        (h : List Event) (client : Client) (address : String) (node : Node) (timeout remaining : ℤ)
        (version : String)
        → Reached j client node address h
        → Answered (talos_version client address) (ok j.status.target_talos_version) h
        → Trace (Guarded j) ResultAny h (check_health o m node timeout remaining version)
    unfolding check_health
    check_health-Guarded h client address node timeout remaining version reached answered =
        Trace-bind (node_unhealthy-Checked j h node m.status.pre_upgrade_boot_id reached.read)
          λ h' checked later healthy.
            Trace-on_err checked (λ e _. retry_or_fail-Guarded j o m from _ e h')
              λ reason e.
                Trace-if (is_blank reason)
                  (λ blank. reboot_done-Guarded h' version (record {
                    client = client;
                    address = address;
                    asked = node;
                    reached = Reached-Later later reached;
                    at_target = Answered-Later later answered;
                    healthy =
                        subst (λ b. Healthy j.spec.node_name b h') boot (healthy reason e blank);
                  }))
                  (λ _. fail_or_wait-Guarded h' remaining _ _)

    check_rollback-Guarded :
        (h : List Event) (node : Node) (timeout remaining : ℤ) (version : String)
        → Trace (Guarded j) ResultAny h (check_rollback o m node timeout remaining version)
    unfolding check_rollback
    check_rollback-Guarded h node timeout remaining version =
        Trace-if
          (not (is_blank m.status.pre_upgrade_boot_id)
            && not (same node.boot_id m.status.pre_upgrade_boot_id))
          (λ _. fail_job-Guarded j o m from _ _ h) (λ _. fail_or_wait-Guarded h remaining _ _)

    silent_node-Guarded :
        (h : List Event) (timeout remaining : ℤ) (e : Error)
        → Trace (Guarded j) ResultAny h (silent_node o m timeout remaining e)
    unfolding silent_node
    silent_node-Guarded h timeout remaining e = fail_or_wait-Guarded h remaining _ _

    poll_reboot-Guarded :
        (h : List Event) (start : ℕ) (plan : PatchPlan) (client : Client) (node : Node)
        (address : String)
        → Reached j client node address h
        → Trace (Guarded j) ResultAny h (poll_reboot o m start plan client node address)
    unfolding poll_reboot
    poll_reboot-Guarded h start plan client node address reached = asks tt λ t. asks tt λ got.
        Trace-on_err got (λ e _. silent_node-Guarded _ _ _ e)
          λ version e.
            Trace-if (same version m.status.target_talos_version)
              (λ eq.
                check_health-Guarded _ client address node _ _ version
                  (Reached-Later (after (after now_or)) reached)
                  (just_answered got (e ∙ ap ok (same-eq _ _ eq ∙ target))))
              (λ _. check_rollback-Guarded _ node _ _ version)

  module _ (at : j.status.phase ≡ rebooting) where
    stamp_reboot_start-Guarded :
        (h : List Event) (plan : PatchPlan) (client : Client) (node : Node) (address : String)
        (began : Option ℕ)
        → Reached j client node address h
        → Trace (Guarded j) ResultAny h (stamp_reboot_start j plan client node address began)
    unfolding stamp_reboot_start
    stamp_reboot_start-Guarded h plan client node address (some start) reached =
        poll_reboot-Guarded at j j at refl refl h start plan client node address reached
    stamp_reboot_start-Guarded h plan client node address none reached = asks tt λ t.
        Trace-bind
          (patch_status-Guarded j _ j _ (λ _ f _. elim (stays_unrecovered j.status.phase at f) [ ]))
          λ h' patched later _.
            Trace-on_err patched (λ _ _. stops tt)
              λ _ _.
                poll_reboot-Guarded at (with_reboot_start t j) (with_reboot_start t j) at refl refl
                  h' t plan client node address (Reached-Later (Later-before later) reached)

    reboot_on_node-Guarded : BodyGuarded j (reboot_on_node j)
    unfolding reboot_on_node
    reboot_on_node-Guarded h client node address reached =
        Trace-bind (get_patch_plan-Guarded j h j) λ h' got later _.
          Trace-on_err got (λ e _. retry_or_fail-Guarded j j j at _ e h')
            λ plan _.
              stamp_reboot_start-Guarded h' plan client node address j.status.reboot_start_time
                (Reached-Later later reached)

    pub wait_for_reboot-Guarded :
        (namespace : String) (h : List Event)
        → Trace (Guarded j) ResultAny h (wait_for_reboot namespace j)
    unfolding wait_for_reboot
    wait_for_reboot-Guarded namespace h =
        with_talos-Guarded j namespace at (reboot_on_node j) reboot_on_node-Guarded h
