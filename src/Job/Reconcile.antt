-- ===== src/Job/Reconcile.antt =====
-- controllers/patchjob_controller.go: Reconcile and reconcilePhase.
use kangal_patch.Prelude.{Option, String, none, some, if◌then◌else◌}
use kangal_patch.Api.Kube.{Error, ErrorKind, not_found}
use kangal_patch.Api.Job.{
  PatchJob, JobPhase, unset, pending, draining, upgrading, rebooting, upgrading_kubernetes,
  validating_kubernetes, completed, failed, is_terminal,
}
use kangal_patch.Effect.Request.{get_job, forget}
use kangal_patch.Effect.Prog.{Prog, ret, ask, ◌>>=◌, on_err, Outcome, failed_with, done}
use kangal_patch.Libs.{Libs}
use kangal_patch.Job.Init.{init_job}
use kangal_patch.Job.Draining.{start_drain, wait_for_drain}
use kangal_patch.Job.Upgrading.{start_upgrade, wait_for_reboot}
use kangal_patch.Job.Kubernetes.{start_kubernetes_upgrade, wait_for_kubernetes_upgrade}

module _ (lib : Libs) (namespace : String) where
  unfoldable pub dispatch : JobPhase → PatchJob → Prog Outcome
  dispatch unset job = init_job lib namespace job
  dispatch pending job = start_drain job
  dispatch draining job = wait_for_drain job
  dispatch upgrading job = start_upgrade lib namespace job
  dispatch rebooting job = wait_for_reboot namespace job
  dispatch upgrading_kubernetes job = start_kubernetes_upgrade namespace job
  dispatch validating_kubernetes job = wait_for_kubernetes_upgrade job
  dispatch completed job = ret done
  dispatch failed job = ret done

  -- reconcilePhase.
  unfoldable pub reconcile_phase : PatchJob → Prog Outcome
  reconcile_phase job = dispatch job.status.phase job

  -- A run that ends with no error closes the window of transient errors.
  unfoldable pub forget_on_success : String → Outcome → Option Error → Prog Outcome
  forget_on_success key outcome (some _) = ret outcome
  forget_on_success key outcome none = do _ ← ask (forget key); ret outcome

  -- The error branches of the first read.
  unfoldable pub job_missing : String → Error → ErrorKind → Prog Outcome
  job_missing key e not_found = do _ ← ask (forget key); ret done
  job_missing key e _ = ret (failed_with e)

  unfoldable pub reconcile_found : String → PatchJob → Prog Outcome
  reconcile_found key job =
      if is_terminal job.status.phase
      then (do _ ← ask (forget key); ret done)
      else do outcome ← reconcile_phase job; forget_on_success key outcome outcome.error

  -- PatchJobReconciler.Reconcile.
  unfoldable pub reconcile : String → Prog Outcome
  reconcile key = do
    got ← ask (get_job key)
    on_err got (λ e. job_missing key e e.kind) λ job. reconcile_found key job
