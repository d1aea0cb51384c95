-- ===== src/Job/Progress/Reconcile.antt =====
-- controllers/patchjob_controller.go: how Reconcile ends.
use kangal_patch.Prelude.{◌≡◌, refl, false, true_apart, String, List, [], ◌∷◌, Option, none, some}
use kangal_patch.Api.Kube.{Error, ErrorKind, Result, ok, err, not_found}
use kangal_patch.Api.Job.{
  PatchJob, JobPhase, unset, pending, draining, upgrading, rebooting, upgrading_kubernetes,
  validating_kubernetes, completed, failed, is_terminal,
}
use kangal_patch.Effect.Request.{get_job}
use kangal_patch.Effect.Prog.{Handler, Outcome, run, on_err}
use kangal_patch.Effect.Trace.{Event, event, stops, asks, Trace-bind, Trace-if, Trace-run, history}
use kangal_patch.Libs.{Libs}
use kangal_patch.Job.Reconcile.{
  dispatch, reconcile_phase, forget_on_success, job_missing, reconcile_found, reconcile,
}
use kangal_patch.Job.Progress.Ends.{
  over, over_after, is_gone, Continues, retries, requeues, finishes, Ends, failed-Ends,
}
use kangal_patch.Job.Progress.Phases.{
  init_job-Ends, start_drain-Ends, wait_for_drain-Ends, start_kubernetes_upgrade-Ends,
  wait_for_kubernetes_upgrade-Ends,
}
use kangal_patch.Job.Progress.Reboot.{start_upgrade-Ends, wait_for_reboot-Ends}

module _ (lib : Libs) (namespace : String) where
  dispatch-Ends :
      (h : List Event) (p : JobPhase) (job : PatchJob)
      → is_terminal p ≡ false
      → Ends h (dispatch lib namespace p job)
  unfolding dispatch is_terminal
  dispatch-Ends h unset job live = init_job-Ends lib namespace h job
  dispatch-Ends h pending job live = start_drain-Ends h job
  dispatch-Ends h draining job live = wait_for_drain-Ends h job
  dispatch-Ends h upgrading job live = start_upgrade-Ends lib job namespace h
  dispatch-Ends h rebooting job live = wait_for_reboot-Ends namespace h job
  dispatch-Ends h upgrading_kubernetes job live = start_kubernetes_upgrade-Ends namespace h job
  dispatch-Ends h validating_kubernetes job live = wait_for_kubernetes_upgrade-Ends h job
  dispatch-Ends h completed job live = elim (true_apart live) [ ]
  dispatch-Ends h failed job live = elim (true_apart live) [ ]

  -- Closing the window of transient errors changes nothing about the job.
  forget_on_success-Ends :
      (h : List Event) (key : String) (outcome : Outcome) (e : Option Error)
      → Continues h outcome
      → Ends h (forget_on_success lib namespace key outcome e)
  unfolding forget_on_success over over_after
  forget_on_success-Ends h key outcome (some e) c = stops c
  forget_on_success-Ends h key outcome none (retries e) = asks tt λ x. stops (retries e)
  forget_on_success-Ends h key outcome none (requeues e) = asks tt λ x. stops (requeues e)
  forget_on_success-Ends h key outcome none (finishes e) = asks tt λ x. stops (finishes e)

  -- `h` ends with the failed read.
  job_missing-Ends :
      (h : List Event) (key : String) (e : Error) (kind : ErrorKind)
      → e.kind ≡ kind
      → Ends (event (get_job key) (err e) ∷ h) (job_missing lib namespace key e kind)
  unfolding job_missing over over_after is_gone
  job_missing-Ends h key e not_found is = asks tt λ _. stops (finishes (rw is))
  job_missing-Ends h key e _ is = failed-Ends _ e

  reconcile_found-Ends :
      (h : List Event) (key : String) (job : PatchJob)
      → Ends (event (get_job key) (ok job) ∷ h) (reconcile_found lib namespace key job)
  unfolding reconcile_found reconcile_phase over over_after
  reconcile_found-Ends h key job =
      Trace-if (is_terminal job.status.phase) (λ e. asks tt λ _. stops (finishes e))
        λ live.
          Trace-bind (dispatch-Ends _ job.status.phase job live)
            λ h' outcome _ c. forget_on_success-Ends h' key outcome outcome.error c

  read-Ends :
      (h : List Event) (key : String) (got : Result PatchJob)
      → Ends (event (get_job key) got ∷ h) (
          on_err got
            (λ e. job_missing lib namespace key e e.kind)
            (λ job. reconcile_found lib namespace key job))
  read-Ends h key (ok job) = reconcile_found-Ends h key job
  read-Ends h key (err e) = job_missing-Ends h key e e.kind refl

  reconcile-Ends : (h : List Event) (key : String) → Ends h (reconcile lib namespace key)
  unfolding reconcile
  reconcile-Ends h key = asks tt λ got. read-Ends h key got

module _ {W : Type 0} (world : Handler W) (lib : Libs) (namespace : String) where
  -- In every world, a reconcile ends with an error or a positive requeue, unless the job was last
  -- read or recorded in a terminal phase or is gone: none is left behind.
  pub reconcile-Continues :
      (w : W) (key : String)
      → Continues
          (history world w [] (reconcile lib namespace key))
          (run world w (reconcile lib namespace key)).0
  reconcile-Continues w key = Trace-run world w (reconcile-Ends lib namespace [] key)
