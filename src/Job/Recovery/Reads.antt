-- ===== src/Job/Recovery/Reads.antt =====
-- controllers/patchjob_controller.go: reads, which change nothing.
use kangal_patch.Prelude.{inl, inr, not, String, Option-cases, is_blank, same}
use kangal_patch.Api.Plan.{PatchPlan, SecretReference}
use kangal_patch.Api.Job.{PatchJob}
use kangal_patch.Effect.Request.{
  Request, now, load_or_store, forget, get_job, get_plan, get_node, get_secret,
  list_pods_in_namespace, new_talos_client, close_talos_client, talos_version,
}
use kangal_patch.Effect.Sat.{Sat, returns, calls, Sat-bind, Sat-if, Sat-on_err, Any}
use kangal_patch.Talos.{read_secret, resolve_talos_config}
use kangal_patch.Job.Common.{get_patch_plan, get_talos_config}

-- Reads, the clock, the map of the controller and the session of Talos.
abbrev pub Quiet : Request → Type 0
Quiet now = Unit
Quiet (load_or_store k t) = Unit
Quiet (forget k) = Unit
Quiet (get_job n) = Unit
Quiet (get_plan n) = Unit
Quiet (get_node n) = Unit
Quiet (get_secret ns n) = Unit
Quiet (list_pods_in_namespace ns n) = Unit
Quiet (new_talos_client c) = Unit
Quiet (close_talos_client c) = Unit
Quiet (talos_version c a) = Unit
Quiet _ = ⊥

pub get_patch_plan-Quiet : (job : PatchJob) → Sat Quiet Any (get_patch_plan job)
unfolding get_patch_plan
get_patch_plan-Quiet job =
    Sat-if (is_blank job.spec.patch_plan_ref) (λ _. returns tt)
      λ _. calls tt λ got. Sat-on_err got (λ _ _. returns tt) (λ _ _. returns tt)

-- The configuration of a plan is made of one read.
module _ {P : Request → Type 0} (may_read : (ns n : String) → P (get_secret ns n))
    (namespace : String) (plan : PatchPlan) where
  read_secret-Sat : (ref : SecretReference) → Sat P Any (read_secret namespace plan ref)
  unfolding read_secret
  read_secret-Sat ref =
      Sat-if (is_blank ref.namespace) (λ _. returns tt)
        λ _.
          Sat-if (not (same ref.namespace namespace)) (λ _. returns tt)
            λ _. calls (may_read _ _) λ got. Sat-on_err got (λ _ _. returns tt) (λ _ _. returns tt)

  pub resolve_talos_config-Sat : Sat P Any (resolve_talos_config namespace plan)
  unfolding resolve_talos_config
  resolve_talos_config-Sat = elim (Option-cases plan.spec.talos_config.secret_ref) [
    | inl e ↦ rw (e, resolve_talos_config) (returns tt)
    | inr (ref, e) ↦ rw (e, resolve_talos_config) (read_secret-Sat ref)
  ]

pub get_talos_config-Quiet :
    (namespace : String) (job : PatchJob) → Sat Quiet Any (get_talos_config namespace job)
unfolding get_talos_config
get_talos_config-Quiet namespace job = Sat-bind (get_patch_plan-Quiet job) λ got _.
    Sat-on_err got (λ _ _. returns tt)
      (λ plan _. resolve_talos_config-Sat (λ _ _. tt) namespace plan)
