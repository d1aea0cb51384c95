-- ===== src/Job/Recovery/Shared.antt =====
-- controllers/patchjob_controller.go: what the phases share, while the node is still to recover.
use kangal_patch.Prelude.{◌≡◌, sym, ap, ◌∙◌, false, String, List, ◌∷◌, true_apart}
use kangal_patch.Api.Kube.{Error, Node, Result, ok, err}
use kangal_patch.Api.Job.{PatchJob, JobPhase, rebooting, failed}
use kangal_patch.Effect.Request.{
  Request, Client, patch_node, patch_job_status, get_node, new_talos_client, ClientConfig,
}
use kangal_patch.Effect.Prog.{Prog, Outcome, on_err}
use kangal_patch.Effect.Trace.{
  Event, event, Answered, latest, earlier, just_answered, Later, now_or, after, Trace, stops, asks,
  Trace-bind, Trace-on_err,
}
use kangal_patch.NodeUtil.{get_node_internal_ip}
use kangal_patch.Job.Common.{
  patch_status, releases_cordon, fail_job, retry_or_fail, get_patch_plan, with_node, with_talos,
}
use kangal_patch.Job.Recovery.Reached.{
  Configured, Configured-Later, Reached, get_talos_config-Configures,
}
use kangal_patch.Job.Recovery.Recovered.{Recovered, Guarded, unrecovered}
use kangal_patch.Job.Recovery.Reads.{Quiet, get_patch_plan-Quiet}
use kangal_patch.Job.Recovery.Failing.{
  ResultAny, Lenient, Quiet-Trace, patch_status-Trace, fail_job-Trace, retry_or_fail-Trace,
}

module _ (j : PatchJob) where
  pub Guarded-Lenient : Lenient (Guarded j)
  Guarded-Lenient = record { reads = reads; failures = failures }
    where
      reads : (h : List Event) (r : Request) → Quiet r → Guarded j h r
      reads h (patch_node a b) q = elim q [ ]
      reads h (patch_job_status o m) q = elim q [ ]
      reads h _ q = tt

      failures :
          (h : List Event) (o m : PatchJob)
          → m.status.phase ≡ failed
          → Guarded j h (patch_job_status o m)
      failures h o m is f = elim (true_apart (ap unrecovered (sym is) ∙ f)) [ ]

  keeps_node : (p : JobPhase) → p ≡ rebooting → releases_cordon p ≡ false
  unfolding releases_cordon
  keeps_node p at = rw at

  pub get_patch_plan-Guarded :
      (h : List Event) (job : PatchJob) → Trace (Guarded j) ResultAny h (get_patch_plan job)
  get_patch_plan-Guarded h job = Quiet-Trace _ Guarded-Lenient h (get_patch_plan-Quiet job)

  -- A status patch is guarded if it is either no end of the recovery, or after it.
  pub patch_status-Guarded :
      (h : List Event) (o m : PatchJob)
      → ((h' : List Event) → unrecovered m.status.phase ≡ false → Later h h' → Recovered j h')
      → Trace (Guarded j) ResultAny h (patch_status o m)
  patch_status-Guarded h o m recovered =
      patch_status-Trace _ Guarded-Lenient h o m
        λ h' m' is later f. recovered h' (ap unrecovered (sym is) ∙ f) later

  module _ (o m : PatchJob) (at : o.status.phase ≡ rebooting) (message : String) (e : Error)
      (h : List Event) where
    pub fail_job-Guarded : Trace (Guarded j) ResultAny h (fail_job o m message e)
    fail_job-Guarded = fail_job-Trace _ Guarded-Lenient o m (keeps_node _ at) message e h

    pub retry_or_fail-Guarded : Trace (Guarded j) ResultAny h (retry_or_fail o m message e)
    retry_or_fail-Guarded = retry_or_fail-Trace _ Guarded-Lenient o m (keeps_node _ at) message e h

  -- The body of a Talos session: its client was made for the job's plan, its node was read, and its
  -- address is that node's.
  abbrev pub BodyGuarded : (Client → Node → String → Prog Outcome) → Type 0
  BodyGuarded body =
      (h : List Event) (client : Client) (node : Node) (address : String)
      → Reached j client node address h
      → Trace (Guarded j) ResultAny h (body client node address)

  module _ (namespace : String) (at : j.status.phase ≡ rebooting)
      (body : Client → Node → String → Prog Outcome) (inside : BodyGuarded body) where
    read_node-Guarded :
        (h : List Event) (client : Client) (c : ClientConfig) (got : Result Node)
        → Configured j c h
        → Answered (new_talos_client c) (ok client) h
        → Trace (Guarded j) ResultAny (event (get_node j.spec.node_name) got ∷ h) (
            on_err got (retry_or_fail j j "failed to get node") λ node.
              on_err
                (get_node_internal_ip node)
                (retry_or_fail j j "failed to resolve node address")
                λ address. body client node address)
    read_node-Guarded h client c (err e) configured opened = retry_or_fail-Guarded j j at _ e _
    read_node-Guarded h client c (ok node) configured opened =
        Trace-on_err (get_node_internal_ip node) (λ e _. retry_or_fail-Guarded j j at _ e _)
          λ address is. inside _ client node address (record {
            config = c;
            configured = Configured-Later (after now_or) configured;
            opened = earlier opened;
            read = latest;
            is_address = is;
          })

    pub with_talos-Guarded :
        (h : List Event) → Trace (Guarded j) ResultAny h (with_talos namespace j j body)
    unfolding with_talos with_node
    with_talos-Guarded h =
        Trace-bind (get_talos_config-Configures _ Guarded-Lenient j namespace h)
          λ h' config _ configured.
            Trace-on_err config (λ e _. retry_or_fail-Guarded j j at _ e h')
              λ c is. asks tt λ made.
                Trace-on_err made (λ e _. fail_job-Guarded j j at _ e _)
                  λ client made_ok.
                    Trace-bind
                      (asks tt λ got.
                        read_node-Guarded _ client c got
                          (Configured-Later (after now_or) (configured c is))
                          (just_answered made made_ok))
                      λ _ outcome _ _. asks tt λ _. stops tt
