-- ===== src/Job/Effects/Shared.antt =====
-- controllers/patchjob_controller.go: the requests of what the phases share.
use kangal_patch.Prelude.{
  ◌≡◌, refl, sym, ◌∙◌, inl, inr, Bool, true, false, not, ◌&&◌, String, ap, subst, ltb_ℤ, sub_ℕ,
  is_blank, same, same-eq, not-false, Option-cases, is_some, has_key, arith,
}
use kangal_patch.Api.Kube.{Error, Node}
use kangal_patch.Api.Job.{PatchJob, PatchJobSpec, JobPhase, is_terminal}
use kangal_patch.Effect.Prog.{Prog, Outcome}
use kangal_patch.Effect.Sat.{Sat, returns, calls, Sat-bind, Sat-if, Sat-on_err, Any}
use kangal_patch.Talos.{read_secret, resolve_talos_config}
use kangal_patch.NodeUtil.{get_node_internal_ip}
use kangal_patch.Effect.Request.{Client}
use kangal_patch.Api.Plan.{PatchPlan, SecretReference}
use kangal_patch.Drain.{cordoned_by_annotation, uncordon_node}
use kangal_patch.Job.Common.{
  transient_error_deadline, patch_status, releases_cordon, record_failure, fail_job, retry_or_fail,
  get_patch_plan, get_talos_config, with_node, with_talos, static_pods_ready,
}
use kangal_patch.Job.Effects.Allowed.{Allowed, SameJob, Moves, gave_up, MayRelease, releases}

dated_test : (a b : Bool) → not (a && not b) ≡ true → a ≡ true → b ≡ true
dated_test a b h e = ground arith

releases_cordon-MayRelease : (p : JobPhase) → not (releases_cordon p) ≡ false → MayRelease p
unfolding releases_cordon
releases_cordon-MayRelease p h = ground arith

module _ (namespace : String) (j : PatchJob) where
  pub patch_status-Allowed :
      (o m : PatchJob)
      → SameJob j o
      → o.status.phase ≡ j.status.phase
      → SameJob o m
      → Moves o.status.phase m.status.phase
      → Sat (Allowed namespace j) Any (patch_status o m)
  unfolding patch_status
  patch_status-Allowed o m same from keeps moves =
      Sat-if (not (is_terminal m.status.phase && not (is_some m.status.completion_time)))
        (λ e.
          calls
            (record {
              of_job = same;
              from = from;
              keeps = keeps;
              moves = moves;
              dated = dated_test (is_terminal m.status.phase) (is_some m.status.completion_time) e;
            })
            (λ x. returns tt))
        (λ e. calls tt (λ t.
          calls
            (record { of_job = same; from = from; keeps = keeps; moves = moves; dated = λ _. refl })
            (λ x. returns tt)))

  pub uncordon_node-Allowed :
      (n : String)
      → n ≡ j.spec.node_name
      → MayRelease j.status.phase
      → Sat (Allowed namespace j) Any (uncordon_node n)
  unfolding uncordon_node
  uncordon_node-Allowed n same may = calls same λ got.
      Sat-on_err got (λ e _. returns tt)
        λ node _.
          Sat-if (not (has_key cordoned_by_annotation node.annotations)) (λ _. returns tt)
            λ ours.
              calls (releases may (not-false _ ours) refl)
                λ patched. Sat-on_err patched (λ e _. returns tt) (λ _ _. returns tt)

  pub record_failure-Allowed :
      (o m : PatchJob) (message : String) (e : Error)
      → SameJob j o
      → o.status.phase ≡ j.status.phase
      → SameJob o m
      → is_terminal j.status.phase ≡ false
      → Sat (Allowed namespace j) Any (record_failure o m message e)
  unfolding record_failure
  record_failure-Allowed o m message e same from keeps live =
      Sat-bind
        (patch_status-Allowed o _ same from keeps (gave_up (ap is_terminal from ∙ live) refl))
        λ patched _. Sat-on_err patched (λ f _. returns tt) (λ _ _. returns tt)

  pub fail_job-Allowed :
      (o m : PatchJob) (message : String) (e : Error)
      → SameJob j o
      → o.status.phase ≡ j.status.phase
      → SameJob o m
      → is_terminal j.status.phase ≡ false
      → Sat (Allowed namespace j) Any (fail_job o m message e)
  unfolding fail_job
  fail_job-Allowed o m message e same from keeps live =
      let failure = record_failure-Allowed o m message e same from keeps live in
      Sat-if (not (releases_cordon o.status.phase)) (λ _. failure)
        λ may.
          Sat-bind
            (uncordon_node-Allowed _
              (sym (ap (λ (s : PatchJobSpec). s.node_name) (same.1 ∙ keeps.1)))
              (subst MayRelease from (releases_cordon-MayRelease _ may)))
            (λ _ _. failure)

  pub retry_or_fail-Allowed :
      (o m : PatchJob) (message : String) (e : Error)
      → SameJob j o
      → o.status.phase ≡ j.status.phase
      → SameJob o m
      → is_terminal j.status.phase ≡ false
      → Sat (Allowed namespace j) Any (retry_or_fail o m message e)
  unfolding retry_or_fail
  retry_or_fail-Allowed o m message e same from keeps live = calls tt λ t.
      calls (sym (same.0 ∙ keeps.0)) λ since. calls tt λ later.
        Sat-if (ltb_ℤ transient_error_deadline (sub_ℕ later since))
          (λ _. fail_job-Allowed o m message e same from keeps live) (λ _. returns tt)

  pub get_patch_plan-Allowed :
      (job : PatchJob) → SameJob j job → Sat (Allowed namespace j) Any (get_patch_plan job)
  unfolding get_patch_plan
  get_patch_plan-Allowed job same =
      Sat-if (is_blank job.spec.patch_plan_ref) (λ _. returns tt)
        λ _.
          calls (sym (ap (λ (s : PatchJobSpec). s.patch_plan_ref) same.1))
            λ got. Sat-on_err got (λ _ _. returns tt) (λ _ _. returns tt)

  read_secret-Allowed :
      (plan : PatchPlan) (ref : SecretReference)
      → Sat (Allowed namespace j) Any (read_secret namespace plan ref)
  unfolding read_secret
  read_secret-Allowed plan ref =
      Sat-if (is_blank ref.namespace) (λ _. returns tt)
        λ _.
          Sat-if (not (same ref.namespace namespace)) (λ _. returns tt)
            λ own.
              calls (same-eq ref.namespace namespace (not-false _ own))
                λ got. Sat-on_err got (λ _ _. returns tt) (λ _ _. returns tt)

  resolve_talos_config-Allowed :
      (plan : PatchPlan) → Sat (Allowed namespace j) Any (resolve_talos_config namespace plan)
  unfolding resolve_talos_config
  resolve_talos_config-Allowed plan = elim (Option-cases plan.spec.talos_config.secret_ref) [
    | inl e ↦ rw (e, resolve_talos_config) (returns tt)
    | inr (ref, e) ↦ rw (e, resolve_talos_config) (read_secret-Allowed plan ref)
  ]

  get_talos_config-Allowed :
      (job : PatchJob)
      → SameJob j job
      → Sat (Allowed namespace j) Any (get_talos_config namespace job)
  unfolding get_talos_config
  get_talos_config-Allowed job same =
      Sat-bind (get_patch_plan-Allowed job same)
        λ got _. Sat-on_err got (λ _ _. returns tt) (λ plan _. resolve_talos_config-Allowed plan)

  -- The body of a Talos session, whatever client, node and address it is given.
  abbrev pub IsAllowedBody : (Client → Node → String → Prog Outcome) → Type 0
  IsAllowedBody body =
      (c : Client) (n : Node) (a : String) → Sat (Allowed namespace j) Any (body c n a)

  module _ (job : PatchJob) (same : SameJob j job) (live : is_terminal j.status.phase ≡ false)
      (body : Client → Node → String → Prog Outcome) (inside : IsAllowedBody body) where
    with_node-Allowed :
        (client : Client) → Sat (Allowed namespace j) Any (with_node namespace j job client body)
    unfolding with_node
    with_node-Allowed client = calls (sym (ap (λ (s : PatchJobSpec). s.node_name) same.1)) λ got.
        Sat-on_err got (λ e _. retry_or_fail-Allowed j job _ e (refl, refl) refl same live)
          λ node _.
            Sat-on_err (get_node_internal_ip node)
              (λ e _. retry_or_fail-Allowed j job _ e (refl, refl) refl same live)
              λ address _. inside client node address

    pub with_talos-Allowed : Sat (Allowed namespace j) Any (with_talos namespace j job body)
    unfolding with_talos
    with_talos-Allowed = Sat-bind (get_talos_config-Allowed job same) λ config _.
        Sat-on_err config (λ e _. retry_or_fail-Allowed j job _ e (refl, refl) refl same live)
          λ c _. calls tt λ made.
            Sat-on_err made (λ e _. fail_job-Allowed j job _ e (refl, refl) refl same live)
              λ client _. Sat-bind (with_node-Allowed client) λ outcome _. calls tt λ _. returns tt

  pub static_pods_ready-Allowed :
      (name version : String) → Sat (Allowed namespace j) Any (static_pods_ready name version)
  unfolding static_pods_ready
  static_pods_ready-Allowed name version =
      calls refl λ listed. Sat-on_err listed (λ _ _. returns tt) (λ _ _. returns tt)
