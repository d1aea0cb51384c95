-- ===== src/Job/Effects/Upgrading.antt =====
-- controllers/patchjob_controller.go: the requests of startUpgrade and waitForReboot.
use kangal_patch.Prelude.{
  ℕ, zero, suc, ℤ, pos, ◌≡◌, refl, sym, ◌∙◌, ap, inl, inr, Bool, true, false, not, ◌&&◌, String,
  Option, none, some, same, same-eq, is_blank, leb_ℤ, and-true,
}
use kangal_patch.Api.Kube.{Error, Node}
use kangal_patch.Api.Plan.{PatchPlan}
use kangal_patch.Api.Job.{PatchJob, PatchJobSpec, upgrading, rebooting, is_terminal}
use kangal_patch.Effect.Request.{Client}
use kangal_patch.Effect.Sat.{Sat, returns, calls, Sat-bind, Sat-if, Sat-on_err, Any}
use kangal_patch.Libs.{Libs}
use kangal_patch.Images.{build_installer_image}
use kangal_patch.NodeUtil.{is_control_plane}
use kangal_patch.Job.Common.{patch_status, retry_or_fail}
use kangal_patch.Job.Upgrading.{
  reboot_begun, with_reboot_start, with_talos_version, retry_patch_status, open_schematic,
  upgrade_on_node, start_upgrade, is_ready, node_unhealthy, after_reboot, reboot_done, check_health,
  check_rollback, silent_node, poll_reboot, stamp_reboot_start, reboot_on_node, wait_for_reboot,
}
use kangal_patch.Job.Effects.Allowed.{
  Allowed, SameJob, upgrade_begun, rebooted, kubernetes_next, stays,
}
use kangal_patch.Job.Effects.Shared.{
  patch_status-Allowed, uncordon_node-Allowed, fail_job-Allowed, retry_or_fail-Allowed,
  get_patch_plan-Allowed, with_talos-Allowed, static_pods_ready-Allowed, IsAllowedBody,
}

module _ (lib : Libs) (namespace : String) (j : PatchJob) (at : j.status.phase ≡ upgrading) where
  upgrading_live : is_terminal j.status.phase ≡ false
  unfolding is_terminal
  upgrading_live = rw at

  retry_patch_status-Allowed :
      (more : ℕ) (m : PatchJob)
      → SameJob j m
      → m.status.phase ≡ rebooting
      → Sat (Allowed namespace j) Any (retry_patch_status more j m)
  unfolding retry_patch_status
  retry_patch_status-Allowed zero m same next =
      patch_status-Allowed namespace j j m (refl, refl) refl same (upgrade_begun at next)
  retry_patch_status-Allowed (suc more) m same next =
      Sat-bind (patch_status-Allowed namespace j j m (refl, refl) refl same (upgrade_begun at next))
        λ patched _.
          Sat-on_err patched (λ _ _. retry_patch_status-Allowed more m same next)
            (λ _ _. returns tt)

  open_schematic-Allowed :
      (client : Client) (address : String)
      → Sat (Allowed namespace j) Any (open_schematic j.spec.target client address)
  unfolding open_schematic
  open_schematic-Allowed client address =
      Sat-if (same j.spec.target.source "factory" && is_blank j.spec.target.schematic_id)
        (λ h. calls (same-eq _ _ (and-true _ _ h).0) λ _. returns tt) (λ _. returns tt)

  upgrade_on_node-Allowed : IsAllowedBody namespace j (upgrade_on_node lib j)
  unfolding upgrade_on_node
  upgrade_on_node-Allowed client node address =
      Sat-bind (open_schematic-Allowed client address) λ detected _.
        Sat-on_err detected
          (λ e _.
            retry_or_fail-Allowed namespace j j j _ e (refl, refl) refl (refl, refl) upgrading_live)
          λ schematic _.
            Sat-on_err (build_installer_image j.spec.target schematic)
              (λ e _.
                fail_job-Allowed namespace j j j _ e (refl, refl) refl (refl, refl) upgrading_live)
              λ image built.
                calls (at, (schematic, built))
                  λ started.
                    Sat-on_err started
                      (λ e _.
                        retry_or_fail-Allowed namespace j j j _ e (refl, refl) refl (refl, refl)
                          upgrading_live)
                      λ _ _. calls tt λ t.
                        Sat-bind
                          (retry_patch_status-Allowed _ (reboot_begun t node.boot_id j) (refl, refl)
                            refl)
                          λ patched _. Sat-on_err patched (λ _ _. returns tt) (λ _ _. returns tt)

  pub start_upgrade-Allowed : Sat (Allowed namespace j) Any (start_upgrade lib namespace j)
  unfolding start_upgrade
  start_upgrade-Allowed =
      with_talos-Allowed namespace j j (refl, refl) upgrading_live (upgrade_on_node lib j)
        upgrade_on_node-Allowed

module _ (namespace : String) (j : PatchJob) (at : j.status.phase ≡ rebooting) where
  rebooting_live : is_terminal j.status.phase ≡ false
  unfolding is_terminal
  rebooting_live = rw at

  node_unhealthy-Allowed :
      (node : Node) (boot_id : String) → Sat (Allowed namespace j) Any (node_unhealthy node boot_id)
  unfolding node_unhealthy
  node_unhealthy-Allowed node boot_id =
      Sat-if (not (is_blank boot_id) && same node.boot_id boot_id) (λ _. returns tt)
        λ _.
          Sat-if (not (is_ready node.conditions false)) (λ _. returns tt)
            λ _.
              Sat-if (not (is_control_plane node)) (λ _. returns tt)
                λ _.
                  Sat-bind (static_pods_ready-Allowed namespace j node.name "")
                    λ checked _. Sat-on_err checked (λ _ _. returns tt) (λ _ _. returns tt)

  -- The job as it was recorded last, and the job to record: the start time may be new in both.
  module _ (o m : PatchJob) (of_job : SameJob j o) (from : o.status.phase ≡ j.status.phase)
      (same_job : SameJob o m) where
    retry_reboot-Allowed :
        (message : String) (e : Error) (version : String)
        → Sat (Allowed namespace j) Any (retry_or_fail o (with_talos_version version m) message e)
    retry_reboot-Allowed message e version =
        retry_or_fail-Allowed namespace j o _ message e of_job from same_job rebooting_live

    reboot_done-Allowed :
        (version : String) → Sat (Allowed namespace j) Any (reboot_done o m version)
    unfolding reboot_done
    reboot_done-Allowed version =
        let target = m.spec.target.kubernetes_version in
        Sat-bind
          (uncordon_node-Allowed namespace j _
            (sym (ap (λ (s : PatchJobSpec). s.node_name) (of_job.1 ∙ same_job.1))) (inr (inl at)))
          λ released _.
            Sat-on_err released (λ e _. retry_reboot-Allowed _ e version)
              λ _ _.
                Sat-bind
                  (done-Allowed version (
                    not (is_blank target) && not (same m.status.current_kubernetes_version target)))
                  λ patched _. Sat-on_err patched (λ _ _. returns tt) (λ _ _. returns tt)
      where
        done-Allowed :
            (version : String) (more : Bool)
            → Sat (Allowed namespace j) Any (patch_status o (after_reboot more version m))
        done-Allowed version true =
            patch_status-Allowed namespace j o _ of_job from same_job
              (kubernetes_next (from ∙ at) refl)
        done-Allowed version false =
            patch_status-Allowed namespace j o _ of_job from same_job (rebooted (from ∙ at) refl)

    module _ (node : Node) (timeout remaining : ℤ) where
      check_health-Allowed :
          (version : String)
          → Sat (Allowed namespace j) Any (check_health o m node timeout remaining version)
      unfolding check_health
      check_health-Allowed version =
          Sat-bind (node_unhealthy-Allowed node m.status.pre_upgrade_boot_id) λ checked _.
            Sat-on_err checked
              (λ e _. retry_or_fail-Allowed namespace j o m _ e of_job from same_job rebooting_live)
              λ reason _.
                Sat-if (is_blank reason) (λ _. reboot_done-Allowed version)
                  λ _.
                    Sat-if (leb_ℤ remaining (pos 0))
                      (λ _.
                        fail_job-Allowed namespace j o m _ _ of_job from same_job rebooting_live)
                      (λ _. returns tt)

      check_rollback-Allowed :
          (version : String)
          → Sat (Allowed namespace j) Any (check_rollback o m node timeout remaining version)
      unfolding check_rollback
      check_rollback-Allowed version =
          Sat-if
            (not (is_blank m.status.pre_upgrade_boot_id)
              && not (same node.boot_id m.status.pre_upgrade_boot_id))
            (λ _. fail_job-Allowed namespace j o m _ _ of_job from same_job rebooting_live)
            λ _.
              Sat-if (leb_ℤ remaining (pos 0))
                (λ _. fail_job-Allowed namespace j o m _ _ of_job from same_job rebooting_live)
                (λ _. returns tt)

      silent_node-Allowed :
          (e : Error) → Sat (Allowed namespace j) Any (silent_node o m timeout remaining e)
      unfolding silent_node
      silent_node-Allowed e =
          Sat-if (leb_ℤ remaining (pos 0))
            (λ _. fail_job-Allowed namespace j o m _ _ of_job from same_job rebooting_live)
            (λ _. returns tt)

    poll_reboot-Allowed :
        (start : ℕ) (plan : PatchPlan) (client : Client) (node : Node) (address : String)
        → Sat (Allowed namespace j) Any (poll_reboot o m start plan client node address)
    unfolding poll_reboot
    poll_reboot-Allowed start plan client node address = calls tt λ t. calls tt λ got.
        Sat-on_err got (λ e _. silent_node-Allowed node _ _ e)
          λ version _.
            Sat-if (same version m.status.target_talos_version)
              (λ _. check_health-Allowed node _ _ version)
              (λ _. check_rollback-Allowed node _ _ version)

  stamp_reboot_start-Allowed :
      (plan : PatchPlan) (client : Client) (node : Node) (address : String) (began : Option ℕ)
      → Sat (Allowed namespace j) Any (stamp_reboot_start j plan client node address began)
  unfolding stamp_reboot_start
  stamp_reboot_start-Allowed plan client node address (some start) =
      poll_reboot-Allowed j j (refl, refl) refl (refl, refl) start plan client node address
  stamp_reboot_start-Allowed plan client node address none = calls tt λ t.
      Sat-bind
        (patch_status-Allowed namespace j j (with_reboot_start t j) (refl, refl) refl (refl, refl)
          (stays (inr (inl at)) refl))
        λ patched _.
          Sat-on_err patched (λ _ _. returns tt)
            λ _ _.
              poll_reboot-Allowed (with_reboot_start t j) (with_reboot_start t j) (refl, refl) refl
                (refl, refl) t plan client node address

  reboot_on_node-Allowed : IsAllowedBody namespace j (reboot_on_node j)
  unfolding reboot_on_node
  reboot_on_node-Allowed client node address =
      Sat-bind (get_patch_plan-Allowed namespace j j (refl, refl)) λ got _.
        Sat-on_err got
          (λ e _.
            retry_or_fail-Allowed namespace j j j _ e (refl, refl) refl (refl, refl) rebooting_live)
          λ plan _. stamp_reboot_start-Allowed plan client node address j.status.reboot_start_time

  pub wait_for_reboot-Allowed : Sat (Allowed namespace j) Any (wait_for_reboot namespace j)
  unfolding wait_for_reboot
  wait_for_reboot-Allowed =
      with_talos-Allowed namespace j j (refl, refl) rebooting_live (reboot_on_node j)
        reboot_on_node-Allowed
