-- ===== src/Job/Effects/Init.antt =====
-- controllers/patchjob_controller.go: the requests of initJob.
use kangal_patch.Prelude.{
  ℕ, ◌≡◌, refl, sym, ap, inl, Bool, true, false, not, ◌&&◌, String, same, same-eq, is_blank,
  and-true,
}
use kangal_patch.Api.Kube.{Error, Node}
use kangal_patch.Api.Job.{PatchJob, PatchJobSpec, unset, is_terminal}
use kangal_patch.Effect.Request.{Client}
use kangal_patch.Effect.Sat.{Sat, returns, calls, Sat-bind, Sat-if, Sat-on_err, Any}
use kangal_patch.Libs.{Libs, is_downgrade}
use kangal_patch.NodeUtil.{is_control_plane}
use kangal_patch.Job.Common.{patch_status, retry_or_fail}
use kangal_patch.Job.Init.{
  checks_schematic, started_at, first_phase, enter_first_phase, detect_schematic,
  kubernetes_needs_upgrade_on, decide_upgrade, init_on_node, init_job,
}
use kangal_patch.Job.Effects.Allowed.{
  Allowed, SameJob, finished_at_once, needs_drain, needs_no_drain,
}
use kangal_patch.Job.Effects.Shared.{
  patch_status-Allowed, uncordon_node-Allowed, fail_job-Allowed, retry_or_fail-Allowed,
  with_talos-Allowed, static_pods_ready-Allowed, IsAllowedBody,
}

module _ (lib : Libs) (namespace : String) (j : PatchJob) (at : j.status.phase ≡ unset) where
  unset_live : is_terminal j.status.phase ≡ false
  unfolding is_terminal
  unset_live = rw at

  first_phase-Allowed :
      (m : PatchJob) (talos : Bool)
      → SameJob j m
      → Sat (Allowed namespace j) Any (patch_status j (first_phase talos m))
  first_phase-Allowed m true same =
      patch_status-Allowed namespace j j _ (refl, refl) refl same (needs_drain at refl)
  first_phase-Allowed m false same =
      patch_status-Allowed namespace j j _ (refl, refl) refl same (needs_no_drain at refl)

  enter_first_phase-Allowed :
      (m : PatchJob) (talos kubernetes : Bool)
      → SameJob j m
      → Sat (Allowed namespace j) Any (enter_first_phase j m talos kubernetes)
  unfolding enter_first_phase
  enter_first_phase-Allowed m talos kubernetes same_job =
      Sat-if (not talos && not kubernetes)
        (λ _.
          Sat-bind
            (uncordon_node-Allowed namespace j _
              (sym (ap (λ (s : PatchJobSpec). s.node_name) same_job.1)) (inl at))
            λ _ _.
              Sat-bind
                (patch_status-Allowed namespace j j _ (refl, refl) refl same_job
                  (finished_at_once at refl))
                λ patched _. Sat-on_err patched (λ _ _. returns tt) (λ _ _. returns tt))
        λ _.
          Sat-bind (first_phase-Allowed m talos same_job)
            λ patched _. Sat-on_err patched (λ _ _. returns tt) (λ _ _. returns tt)

  detect_schematic-Allowed :
      (client : Client) (address : String)
      → Sat (Allowed namespace j) Any (detect_schematic j.spec.target client address)
  unfolding detect_schematic checks_schematic
  detect_schematic-Allowed client address =
      Sat-if (same j.spec.target.source "factory" && not (is_blank j.spec.target.schematic_id))
        (λ h. calls (same-eq _ _ (and-true _ _ h).0) λ _. returns tt) (λ _. returns tt)

  kubernetes_needs_upgrade_on-Allowed :
      (node : Node) (target : String)
      → Sat (Allowed namespace j) Any (kubernetes_needs_upgrade_on node target)
  unfolding kubernetes_needs_upgrade_on
  kubernetes_needs_upgrade_on-Allowed node target =
      Sat-if (is_blank target) (λ _. returns tt)
        λ _.
          Sat-if (not (same node.kubelet_version target)) (λ _. returns tt)
            λ _.
              Sat-if (not (is_control_plane node)) (λ _. returns tt)
                λ _.
                  Sat-bind (static_pods_ready-Allowed namespace j node.name target)
                    λ checked _. Sat-on_err checked (λ _ _. returns tt) (λ _ _. returns tt)

  decide_upgrade-Allowed :
      (m : PatchJob) (talos kubernetes : String) (needs_talos needs_kubernetes : Bool)
      → SameJob j m
      → Sat
          (Allowed namespace j)
          Any
          (decide_upgrade lib j m talos kubernetes needs_talos needs_kubernetes)
  unfolding decide_upgrade
  decide_upgrade-Allowed m talos kubernetes needs_talos needs_kubernetes same_job =
      let target = m.spec.target in
      Sat-if
        (needs_talos
          && (not target.allow_talos_downgrade && is_downgrade lib talos target.talos_version))
        (λ _. fail_job-Allowed namespace j j _ _ _ (refl, refl) refl same_job unset_live)
        λ _.
          Sat-if
            (not (is_blank target.kubernetes_version)
              && is_downgrade lib kubernetes target.kubernetes_version)
            (λ _. fail_job-Allowed namespace j j _ _ _ (refl, refl) refl same_job unset_live)
            (λ _. enter_first_phase-Allowed _ needs_talos needs_kubernetes same_job)

  init_on_node-Allowed : (t : ℕ) → IsAllowedBody namespace j (init_on_node lib j (started_at t j))
  unfolding init_on_node
  init_on_node-Allowed t client node address = calls tt λ got.
      Sat-on_err got (λ e _. retry t _ e)
        λ talos _. Sat-bind (detect_schematic-Allowed client address) λ detected _.
          Sat-on_err detected (λ e _. retry t _ e)
            λ schematic _.
              Sat-bind (kubernetes_needs_upgrade_on-Allowed node j.spec.target.kubernetes_version)
                λ checked _.
                  Sat-on_err checked (λ e _. retry t _ e)
                    λ needs _. decide_upgrade-Allowed (started_at t j) _ _ _ needs (refl, refl)
    where
      retry :
          (t : ℕ) (message : String) (e : Error)
          → Sat (Allowed namespace j) Any (retry_or_fail j (started_at t j) message e)
      retry t message e =
          retry_or_fail-Allowed namespace j j (started_at t j) message e (refl, refl) refl
            (refl, refl) unset_live

  pub init_job-Allowed : Sat (Allowed namespace j) Any (init_job lib namespace j)
  unfolding init_job
  init_job-Allowed = calls tt λ t.
      with_talos-Allowed namespace j (started_at t j) (refl, refl) unset_live
        (init_on_node lib j (started_at t j)) (init_on_node-Allowed t)
