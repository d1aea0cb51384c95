-- ===== src/Job/Progress/Reboot.antt =====
-- controllers/patchjob_controller.go: how startUpgrade and waitForReboot end.
use kangal_patch.Prelude.{
  ℕ, refl, ℤ, pos, leb_ℤ, not, ◌&&◌, ◌-◌, String, List, Option, none, some, same, is_blank,
  if◌then◌else◌,
}
use kangal_patch.Api.Kube.{Error, Node}
use kangal_patch.Api.Plan.{PatchPlan}
use kangal_patch.Api.Job.{PatchJob}
use kangal_patch.Effect.Request.{Client}
use kangal_patch.Effect.Trace.{Event, asks, Trace-if, Trace-on_err}
use kangal_patch.Effect.Prog.{ret, requeue}
use kangal_patch.Libs.{Libs}
use kangal_patch.Images.{build_installer_image}
use kangal_patch.Drain.{uncordon_node}
use kangal_patch.Job.Common.{patch_status, fail_job, get_patch_plan, requeue_for_reboot_check}
use kangal_patch.Job.Upgrading.{
  retry_patch_status, open_schematic, upgrade_on_node, start_upgrade, node_unhealthy, reboot_done,
  check_health, check_rollback, silent_node, poll_reboot, stamp_reboot_start, with_reboot_start,
  reboot_on_node, wait_for_reboot, reboot_begun, check_interval,
}
use kangal_patch.Job.Progress.Ends.{
  Ends, failed-Ends, requeue-Ends, after-Ends, then-Ends, check_interval-later,
}
use kangal_patch.Job.Progress.Shared.{fail_job-Ends, retry_or_fail-Ends, with_talos-Ends, BodyEnds}

module _ (lib : Libs) (o : PatchJob) where
  upgrade_on_node-Ends : BodyEnds (upgrade_on_node lib o)
  unfolding upgrade_on_node
  upgrade_on_node-Ends h client node address =
      after-Ends h (open_schematic o.spec.target client address) λ h1 detected.
        Trace-on_err detected (λ e _. retry_or_fail-Ends h1 o o _ e)
          λ schematic _.
            Trace-on_err (build_installer_image o.spec.target schematic)
              (λ e _. fail_job-Ends h1 o o _ e)
              λ image _. asks tt λ started.
                Trace-on_err started (λ e _. retry_or_fail-Ends _ o o _ e)
                  λ _ _. asks tt λ t.
                    then-Ends _
                      (retry_patch_status (lib.retry_steps - 1) o (reboot_begun t node.boot_id o))
                      requeue_for_reboot_check refl

  pub start_upgrade-Ends :
      (namespace : String) (h : List Event) → Ends h (start_upgrade lib namespace o)
  unfolding start_upgrade
  start_upgrade-Ends namespace h =
      with_talos-Ends namespace o o (upgrade_on_node lib o) upgrade_on_node-Ends h

-- The end of a check that may go on: fail once no time is left, wait otherwise.
module _ (o m : PatchJob) where
  wait_or_fail-Ends :
      (h : List Event) (remaining : ℤ) (message : String) (e : Error)
      → Ends h (
          if leb_ℤ remaining (pos 0)
          then fail_job o m message e
          else ret (requeue (check_interval requeue_for_reboot_check remaining)))
  wait_or_fail-Ends h remaining message e =
      Trace-if (leb_ℤ remaining (pos 0)) (λ _. fail_job-Ends h o m message e)
        (λ _. requeue-Ends h _ (check_interval-later requeue_for_reboot_check remaining refl))

  reboot_done-Ends : (h : List Event) (version : String) → Ends h (reboot_done o m version)
  unfolding reboot_done
  reboot_done-Ends h version = after-Ends h (uncordon_node m.spec.node_name) λ h' released.
      Trace-on_err released (λ e _. retry_or_fail-Ends h' o _ _ e)
        (λ _ _. then-Ends h' (patch_status o _) _ refl)

  check_health-Ends :
      (h : List Event) (node : Node) (timeout remaining : ℤ) (version : String)
      → Ends h (check_health o m node timeout remaining version)
  unfolding check_health
  check_health-Ends h node timeout remaining version =
      after-Ends h (node_unhealthy node m.status.pre_upgrade_boot_id) λ h' checked.
        Trace-on_err checked (λ e _. retry_or_fail-Ends h' o m _ e)
          λ reason _.
            Trace-if (is_blank reason) (λ _. reboot_done-Ends h' version)
              (λ _. wait_or_fail-Ends h' remaining _ _)

  check_rollback-Ends :
      (h : List Event) (node : Node) (timeout remaining : ℤ) (version : String)
      → Ends h (check_rollback o m node timeout remaining version)
  unfolding check_rollback
  check_rollback-Ends h node timeout remaining version =
      Trace-if
        (not (is_blank m.status.pre_upgrade_boot_id)
          && not (same node.boot_id m.status.pre_upgrade_boot_id))
        (λ _. fail_job-Ends h o m _ _) (λ _. wait_or_fail-Ends h remaining _ _)

  silent_node-Ends :
      (h : List Event) (timeout remaining : ℤ) (e : Error)
      → Ends h (silent_node o m timeout remaining e)
  unfolding silent_node
  silent_node-Ends h timeout remaining e = wait_or_fail-Ends h remaining _ _

  poll_reboot-Ends :
      (h : List Event) (start : ℕ) (plan : PatchPlan) (client : Client) (node : Node)
      (address : String)
      → Ends h (poll_reboot o m start plan client node address)
  unfolding poll_reboot
  poll_reboot-Ends h start plan client node address = asks tt λ t. asks tt λ got.
      Trace-on_err got (λ e _. silent_node-Ends _ _ _ e)
        λ version _.
          Trace-if (same version m.status.target_talos_version)
            (λ _. check_health-Ends _ node _ _ version)
            (λ _. check_rollback-Ends _ node _ _ version)

stamp_reboot_start-Ends :
    (h : List Event) (o : PatchJob) (plan : PatchPlan) (client : Client) (node : Node)
    (address : String) (began : Option ℕ)
    → Ends h (stamp_reboot_start o plan client node address began)
unfolding stamp_reboot_start
stamp_reboot_start-Ends h o plan client node address (some start) =
    poll_reboot-Ends o o h start plan client node address
stamp_reboot_start-Ends h o plan client node address none = asks tt λ t.
    after-Ends _ (patch_status o (with_reboot_start t o)) λ h' patched.
      Trace-on_err patched (λ e _. failed-Ends h' e)
        (λ _ _. poll_reboot-Ends _ _ h' t plan client node address)

reboot_on_node-Ends : (o : PatchJob) → BodyEnds (reboot_on_node o)
unfolding reboot_on_node
reboot_on_node-Ends o h client node address = after-Ends h (get_patch_plan o) λ h1 got.
    Trace-on_err got (λ e _. retry_or_fail-Ends h1 o o _ e)
      λ plan _. stamp_reboot_start-Ends h1 o plan client node address o.status.reboot_start_time

pub wait_for_reboot-Ends :
    (namespace : String) (h : List Event) (o : PatchJob) → Ends h (wait_for_reboot namespace o)
unfolding wait_for_reboot
wait_for_reboot-Ends namespace h o =
    with_talos-Ends namespace o o (reboot_on_node o) (reboot_on_node-Ends o) h
