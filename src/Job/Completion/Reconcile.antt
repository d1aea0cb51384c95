-- ===== src/Job/Completion/Reconcile.antt =====
-- controllers/patchjob_controller.go: Reconcile of a job that validates its Kubernetes upgrade.
use kangal_patch.Prelude.{◌≡◌, sym, subst, String, List, [], Option, none, some}
use kangal_patch.Api.Kube.{Error, ok}
use kangal_patch.Api.Job.{PatchJob, validating_kubernetes, is_terminal}
use kangal_patch.Effect.Request.{get_job}
use kangal_patch.Effect.Prog.{Handler, Outcome}
use kangal_patch.Effect.Trace.{
  Event, Trace, stops, asks, Trace-bind, Trace-if, Trace-history_after, Throughout, at_first,
  history,
}
use kangal_patch.Libs.{Libs}
use kangal_patch.Job.Reconcile.{
  dispatch, reconcile_phase, forget_on_success, reconcile_found, reconcile,
}
use kangal_patch.Job.Completion.RolledOut.{Concluding, wait_for_kubernetes_upgrade-Concluding}
use kangal_patch.Job.Recovery.Failing.{ResultAny}

module _ (lib : Libs) (namespace : String) (j : PatchJob)
    (at : j.status.phase ≡ validating_kubernetes) where
  dispatch-Concluding :
      (h : List Event)
      → Trace (Concluding j) ResultAny h (dispatch lib namespace validating_kubernetes j)
  unfolding dispatch
  dispatch-Concluding h = wait_for_kubernetes_upgrade-Concluding j at h

  forget_on_success-Concluding :
      (h : List Event) (key : String) (outcome : Outcome) (e : Option Error)
      → Trace (Concluding j) ResultAny h (forget_on_success lib namespace key outcome e)
  unfolding forget_on_success
  forget_on_success-Concluding h key outcome none = asks tt λ _. stops tt
  forget_on_success-Concluding h key outcome (some e) = stops tt

  reconcile_found-Concluding :
      (h : List Event) (key : String)
      → Trace (Concluding j) ResultAny h (reconcile_found lib namespace key j)
  unfolding reconcile_found reconcile_phase
  reconcile_found-Concluding h key =
      Trace-if (is_terminal j.status.phase) (λ _. asks tt λ _. stops tt)
        λ _.
          Trace-bind
            (subst (λ p. Trace (Concluding j) ResultAny h (dispatch lib namespace p j)) (sym at)
              (dispatch-Concluding h))
            λ h' outcome _ _. forget_on_success-Concluding h' key outcome outcome.error

module _ {W : Type 0} (world : Handler W) (lib : Libs) (namespace : String) where
  -- In every world, a reconcile of a job in ValidatingKubernetes asks for nothing but reads, the clock,
  -- the map of transient errors, sessions with Talos and status patches, and completes the job only
  -- after the node was read with its kubelet at the target version and, on a control plane, with its
  -- static pods ready at that version.
  pub reconcile-Concluding :
      (w : W) (key : String) (job : PatchJob)
      → (world w (get_job key)).0 ≡ ok job
      → job.status.phase ≡ validating_kubernetes
      → Throughout (Concluding job) (history world w [] (reconcile lib namespace key))
  unfolding reconcile
  reconcile-Concluding w key job read at =
      Trace-history_after world w _ (ok job) read at_first tt
        (reconcile_found-Concluding lib namespace job at _ key)
