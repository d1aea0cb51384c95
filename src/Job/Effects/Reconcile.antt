-- ===== src/Job/Effects/Reconcile.antt =====
-- controllers/patchjob_controller.go: the requests of Reconcile.
use kangal_patch.Prelude.{◌≡◌, refl, sym, String, All, Option, none, some}
use kangal_patch.Api.Kube.{Error, ok}
use kangal_patch.Api.Job.{
  PatchJob, JobPhase, unset, pending, draining, upgrading, rebooting, upgrading_kubernetes,
  validating_kubernetes, completed, failed, is_terminal,
}
use kangal_patch.Effect.Request.{get_job}
use kangal_patch.Effect.Prog.{Handler, Outcome, requests}
use kangal_patch.Effect.Sat.{Sat, returns, calls, Sat-bind, Sat-if, Sat-requests, Any}
use kangal_patch.Libs.{Libs}
use kangal_patch.Job.Reconcile.{
  dispatch, reconcile_phase, forget_on_success, reconcile_found, reconcile,
}
use kangal_patch.Job.Effects.Allowed.{Allowed}
use kangal_patch.Job.Effects.Init.{init_job-Allowed}
use kangal_patch.Job.Effects.Draining.{start_drain-Allowed, wait_for_drain-Allowed}
use kangal_patch.Job.Effects.Upgrading.{start_upgrade-Allowed, wait_for_reboot-Allowed}
use kangal_patch.Job.Effects.Kubernetes.{
  start_kubernetes_upgrade-Allowed, wait_for_kubernetes_upgrade-Allowed,
}

module _ (lib : Libs) (namespace : String) (j : PatchJob) where
  dispatch-Allowed :
      (p : JobPhase)
      → j.status.phase ≡ p
      → Sat (Allowed namespace j) Any (dispatch lib namespace p j)
  unfolding dispatch
  dispatch-Allowed unset at = init_job-Allowed lib namespace j at
  dispatch-Allowed pending at = start_drain-Allowed namespace j at
  dispatch-Allowed draining at = wait_for_drain-Allowed namespace j at
  dispatch-Allowed upgrading at = start_upgrade-Allowed lib namespace j at
  dispatch-Allowed rebooting at = wait_for_reboot-Allowed namespace j at
  dispatch-Allowed upgrading_kubernetes at = start_kubernetes_upgrade-Allowed namespace j at
  dispatch-Allowed validating_kubernetes at = wait_for_kubernetes_upgrade-Allowed namespace j at
  dispatch-Allowed completed at = returns tt
  dispatch-Allowed failed at = returns tt

  module _ (key : String) (named : key ≡ j.name) where
    forget_on_success-Allowed :
        (outcome : Outcome) (e : Option Error)
        → Sat (Allowed namespace j) Any (forget_on_success lib namespace key outcome e)
    unfolding forget_on_success
    forget_on_success-Allowed outcome none = calls named λ _. returns tt
    forget_on_success-Allowed outcome (some e) = returns tt

    pub reconcile_found-Allowed :
        Sat (Allowed namespace j) Any (reconcile_found lib namespace key j)
    unfolding reconcile_found reconcile_phase
    reconcile_found-Allowed =
        Sat-if (is_terminal j.status.phase) (λ _. calls named λ _. returns tt)
          λ _.
            Sat-bind (dispatch-Allowed j.status.phase refl)
              λ outcome _. forget_on_success-Allowed outcome outcome.error

module _ {W : Type 0} (h : Handler W) (lib : Libs) (namespace : String) where
  -- In every world, where the job is read under its own name, each request of a reconcile is allowed
  -- for that job: status patches keep its name and its spec, follow the diagram of the phases and date
  -- a terminal phase; nodes are cordoned only if schedulable and released only if marked; pods are
  -- evicted only while Pending and only if they should be; Talos and Kubernetes images are those of
  -- the target, in their phases; Secrets are read in the operator namespace alone.
  pub reconcile-Allowed :
      (w : W) (key : String) (job : PatchJob)
      → (h w (get_job key)).0 ≡ ok job
      → job.name ≡ key
      → All (Allowed namespace job) (requests h w (reconcile lib namespace key))
  unfolding reconcile requests
  reconcile-Allowed w key job read named = (
    sym named,
    rw read (Sat-requests h _ (reconcile_found-Allowed lib namespace job key (sym named))),
  )
