-- ===== src/Job/Recovery/Reconcile.antt =====
-- controllers/patchjob_controller.go: Reconcile of a job that is Rebooting.
use kangal_patch.Prelude.{◌≡◌, sym, subst, String, List, [], Option, none, some}
use kangal_patch.Api.Kube.{Error, ok}
use kangal_patch.Api.Job.{PatchJob, rebooting, is_terminal}
use kangal_patch.Effect.Request.{get_job}
use kangal_patch.Effect.Prog.{Handler, Outcome}
use kangal_patch.Effect.Trace.{
  Event, Trace, stops, asks, Trace-bind, Trace-if, Trace-history_after, Throughout, at_first,
  history,
}
use kangal_patch.Libs.{Libs}
use kangal_patch.Job.Reconcile.{
  dispatch, reconcile_phase, forget_on_success, reconcile_found, reconcile,
}
use kangal_patch.Job.Recovery.Recovered.{Guarded}
use kangal_patch.Job.Recovery.Reboot.{wait_for_reboot-Guarded}
use kangal_patch.Job.Recovery.Failing.{ResultAny}

module _ (lib : Libs) (namespace : String) (j : PatchJob) (at : j.status.phase ≡ rebooting) where
  dispatch-Guarded :
      (h : List Event) → Trace (Guarded j) ResultAny h (dispatch lib namespace rebooting j)
  unfolding dispatch
  dispatch-Guarded h = wait_for_reboot-Guarded j at namespace h

  forget_on_success-Guarded :
      (h : List Event) (key : String) (outcome : Outcome) (e : Option Error)
      → Trace (Guarded j) ResultAny h (forget_on_success lib namespace key outcome e)
  unfolding forget_on_success
  forget_on_success-Guarded h key outcome none = asks tt λ _. stops tt
  forget_on_success-Guarded h key outcome (some e) = stops tt

  reconcile_found-Guarded :
      (h : List Event) (key : String)
      → Trace (Guarded j) ResultAny h (reconcile_found lib namespace key j)
  unfolding reconcile_found reconcile_phase
  reconcile_found-Guarded h key =
      Trace-if (is_terminal j.status.phase) (λ _. asks tt λ _. stops tt)
        λ _.
          Trace-bind
            (subst (λ p. Trace (Guarded j) ResultAny h (dispatch lib namespace p j)) (sym at)
              (dispatch-Guarded h))
            λ h' outcome _ _. forget_on_success-Guarded h' key outcome outcome.error

module _ {W : Type 0} (world : Handler W) (lib : Libs) (namespace : String) where
  -- In every world, a reconcile of a job in Rebooting writes to the node, and records the job in a
  -- phase other than Rebooting and Failed, only after the node, asked at its own address by a Talos
  -- client made from the Secret of the job's plan, has answered with the target version of Talos and
  -- was read healthy: ready, with a new boot id where the old one is known, and with its static pods
  -- up on a control plane.
  pub reconcile-Guarded :
      (w : W) (key : String) (job : PatchJob)
      → (world w (get_job key)).0 ≡ ok job
      → job.status.phase ≡ rebooting
      → Throughout (Guarded job) (history world w [] (reconcile lib namespace key))
  unfolding reconcile
  reconcile-Guarded w key job read at =
      Trace-history_after world w _ (ok job) read at_first tt
        (reconcile_found-Guarded lib namespace job at _ key)
