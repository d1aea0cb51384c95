-- ===== src/Job/Progress/Shared.antt =====
-- controllers/patchjob_controller.go: how what the phases share ends.
use kangal_patch.Prelude.{◌≡◌, refl, true, not, ◌&&◌, String, List, ◌∷◌, ltb_ℤ, sub_ℕ, is_some}
use kangal_patch.Api.Kube.{Error, Node, Result, ok, err, err-ne-ok}
use kangal_patch.Api.Job.{PatchJob, is_terminal}
use kangal_patch.Effect.Request.{Response, Client, patch_job_status, close_talos_client}
use kangal_patch.Effect.Prog.{Prog, ret, ◌>>=◌, on_err, Outcome, failed_with, done}
use kangal_patch.Effect.Trace.{
  Event, event, Trace, stops, asks, Trace-bind, Trace-if, Trace-on_err, Anything,
}
use kangal_patch.NodeUtil.{get_node_internal_ip}
use kangal_patch.Drain.{uncordon_node}
use kangal_patch.Job.Common.{
  transient_error_deadline, patch_status, releases_cordon, record_failure, fail_job, retry_or_fail,
  get_talos_config, with_node, with_talos,
}
use kangal_patch.Job.Progress.Ends.{
  over, over_after, Continues, retries, requeues, finishes, Ends, failed-Ends, after-Ends,
}

-- After a terminal phase is recorded, the job is over.
abbrev Records : List Event → Result (Unit {0}) → Type 0
Records h x = x ≡ ok tt → over h ≡ true

patch_job_status-Records :
    (h : List Event) (o m : PatchJob) (x : Result (Unit {0}))
    → is_terminal m.status.phase ≡ true
    → Records (event (patch_job_status o m) x ∷ h) x
unfolding over over_after
patch_job_status-Records h o m (ok y) terminal e = terminal
patch_job_status-Records h o m (err f) terminal e = elim (err-ne-ok e) [ ]

patch_status-Records :
    (h : List Event) (o m : PatchJob)
    → is_terminal m.status.phase ≡ true
    → Trace Anything Records h (patch_status o m)
unfolding patch_status
patch_status-Records h o m terminal =
    Trace-if (not (is_terminal m.status.phase && not (is_some m.status.completion_time)))
      (λ _. asks tt λ x. stops (patch_job_status-Records h o m x terminal))
      (λ _. asks tt λ t. asks tt λ x. stops (patch_job_status-Records _ o _ x terminal))

pub recorded-Ends :
    (h : List Event) (o m : PatchJob)
    → is_terminal m.status.phase ≡ true
    → Ends h
        (patch_status o m >>= λ patched. on_err patched (λ e. ret (failed_with e)) (λ _. ret done))
recorded-Ends h o m terminal = Trace-bind (patch_status-Records h o m terminal) λ h' x _ recorded.
    Trace-on_err x (λ e _. failed-Ends h' e) (λ _ e. stops (finishes (recorded e)))

record_failure-Ends :
    (h : List Event) (o m : PatchJob) (message : String) (e : Error)
    → Ends h (record_failure o m message e)
unfolding record_failure is_terminal
record_failure-Ends h o m message e = recorded-Ends h o _ refl

pub fail_job-Ends :
    (h : List Event) (o m : PatchJob) (message : String) (e : Error)
    → Ends h (fail_job o m message e)
unfolding fail_job
fail_job-Ends h o m message e =
    Trace-if (not (releases_cordon o.status.phase)) (λ _. record_failure-Ends h o m message e)
      (λ _.
        after-Ends h (uncordon_node m.spec.node_name)
          (λ h' _. record_failure-Ends h' o m message e))

pub retry_or_fail-Ends :
    (h : List Event) (o m : PatchJob) (message : String) (e : Error)
    → Ends h (retry_or_fail o m message e)
unfolding retry_or_fail
retry_or_fail-Ends h o m message e = asks tt λ t. asks tt λ since. asks tt λ later.
    Trace-if (ltb_ℤ transient_error_deadline (sub_ℕ later since))
      (λ _. fail_job-Ends _ o m message e) (λ _. failed-Ends _ _)

-- The body of a Talos session, whatever came before it.
abbrev pub BodyEnds : (Client → Node → String → Prog Outcome) → Type 0
BodyEnds body =
    (h : List Event) (client : Client) (node : Node) (address : String)
    → Ends h (body client node address)

module _ (namespace : String) (o m : PatchJob) (body : Client → Node → String → Prog Outcome)
    (inside : BodyEnds body) where
  with_node-Ends : (h : List Event) (client : Client) → Ends h (with_node namespace o m client body)
  unfolding with_node
  with_node-Ends h client = asks tt λ got.
      Trace-on_err got (λ e _. retry_or_fail-Ends _ o m _ e)
        λ node _.
          Trace-on_err (get_node_internal_ip node) (λ e _. retry_or_fail-Ends _ o m _ e)
            λ address _. inside _ client node address

  -- Closing the client changes nothing about the job.
  closed-Continues :
      (h : List Event) (client : Client) (x : Response (close_talos_client client))
      (outcome : Outcome)
      → Continues h outcome
      → Continues (event (close_talos_client client) x ∷ h) outcome
  unfolding over over_after
  closed-Continues h client x outcome (retries e) = retries e
  closed-Continues h client x outcome (requeues e) = requeues e
  closed-Continues h client x outcome (finishes e) = finishes e

  pub with_talos-Ends : (h : List Event) → Ends h (with_talos namespace o m body)
  unfolding with_talos
  with_talos-Ends h = after-Ends h (get_talos_config namespace m) λ h' config.
      Trace-on_err config (λ e _. retry_or_fail-Ends h' o m _ e)
        λ c _. asks tt λ made.
          Trace-on_err made (λ e _. fail_job-Ends _ o m _ e)
            λ client _.
              Trace-bind (with_node-Ends _ client) λ h'' outcome _ ends.
                asks tt λ x. stops (closed-Continues h'' client x outcome ends)
