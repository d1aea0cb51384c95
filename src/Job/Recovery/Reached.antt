-- ===== src/Job/Recovery/Reached.antt =====
-- controllers/patchjob_controller.go, withTalos: whom a client of Talos asks, and at which address.
use kangal_patch.Prelude.{◌≡◌, ◌∙◌, not, String, List, some, Option-cases, inl, inr, is_blank, same}
use kangal_patch.Api.Kube.{Node, Secret, Result, ok, err-ne-ok}
use kangal_patch.Api.Plan.{PatchPlan, SecretReference}
use kangal_patch.Api.Job.{PatchJob}
use kangal_patch.Effect.Request.{
  Request, Client, ClientConfig, get_plan, get_node, get_secret, new_talos_client,
}
use kangal_patch.Effect.Trace.{
  Event, Answered, Answered-Later, Later, now_or, after, just_answered, Trace, stops, asks,
  Trace-bind, Trace-if, Trace-on_err,
}
use kangal_patch.NodeUtil.{get_node_internal_ip}
use kangal_patch.Talos.{config_of, read_secret, resolve_talos_config}
use kangal_patch.Job.Common.{get_patch_plan, get_talos_config}
use kangal_patch.Job.Recovery.Failing.{Lenient}

-- The configuration is that of the job's plan, from the Secret that the plan names.
pub record Configured (j : PatchJob) (c : ClientConfig) (h : List Event) : Type 0 where
  pub plan : PatchPlan
  pub read_plan : Answered (get_plan j.spec.patch_plan_ref) (ok plan) h
  pub ref : SecretReference
  pub named : plan.spec.talos_config.secret_ref ≡ some ref
  pub secret : Secret
  pub read_secret : Answered (get_secret ref.namespace ref.name) (ok secret) h
  pub is_config : config_of plan ref secret ≡ ok c

pub Configured-Later :
    {j : PatchJob} {c : ClientConfig} {h h' : List Event}
    → Later h h'
    → Configured j c h
    → Configured j c h'
Configured-Later l k = record {
  plan = k.plan;
  read_plan = Answered-Later l k.read_plan;
  ref = k.ref;
  named = k.named;
  secret = k.secret;
  read_secret = Answered-Later l k.read_secret;
  is_config = k.is_config;
}

-- The client was made for the job's plan, the job's node was read, and the address is that node's.
pub record Reached (j : PatchJob) (client : Client) (node : Node) (address : String)
    (h : List Event) : Type 0 where
  pub config : ClientConfig
  pub configured : Configured j config h
  pub opened : Answered (new_talos_client config) (ok client) h
  pub read : Answered (get_node j.spec.node_name) (ok node) h
  pub is_address : get_node_internal_ip node ≡ ok address

pub Reached-Later :
    {j : PatchJob} {client : Client} {node : Node} {address : String} {h h' : List Event}
    → Later h h'
    → Reached j client node address h
    → Reached j client node address h'
Reached-Later l r = record {
  config = r.config;
  configured = Configured-Later l r.configured;
  opened = Answered-Later l r.opened;
  read = Answered-Later l r.read;
  is_address = r.is_address;
}

module _ (P : List Event → Request → Type 0) (lenient : Lenient P) (j : PatchJob) where
  -- A configuration is only returned if it is the plan's.
  abbrev pub Configures : List Event → Result ClientConfig → Type 0
  Configures h r = (c : ClientConfig) → r ≡ ok c → Configured j c h

  module _ (namespace : String) (plan : PatchPlan) (h : List Event)
      (read : Answered (get_plan j.spec.patch_plan_ref) (ok plan) h) where
    read_secret-Configures :
        (ref : SecretReference)
        → plan.spec.talos_config.secret_ref ≡ some ref
        → Trace P Configures h (read_secret namespace plan ref)
    unfolding read_secret
    read_secret-Configures ref named =
        Trace-if (is_blank ref.namespace) (λ _. stops λ c e. elim (err-ne-ok e) [ ])
          λ _.
            Trace-if (not (same ref.namespace namespace)) (λ _. stops λ c e. elim (err-ne-ok e) [ ])
              λ _. asks (lenient.reads h (get_secret ref.namespace ref.name) tt) λ got.
                Trace-on_err got (λ _ _. stops λ c e. elim (err-ne-ok e) [ ])
                  λ secret is. stops λ c e. record {
                    plan = plan;
                    read_plan = Answered-Later (after now_or) read;
                    ref = ref;
                    named = named;
                    secret = secret;
                    read_secret = just_answered got is;
                    is_config = e;
                  }

    resolve_talos_config-Configures : Trace P Configures h (resolve_talos_config namespace plan)
    unfolding resolve_talos_config
    resolve_talos_config-Configures = elim (Option-cases plan.spec.talos_config.secret_ref) [
      | inl e ↦ rw (e, resolve_talos_config) (stops λ c f. elim (err-ne-ok f) [ ])
      | inr (ref, e) ↦ rw (e, resolve_talos_config) (read_secret-Configures ref e)
    ]

  -- A plan is only returned if it was read.
  get_patch_plan-read :
      (h : List Event)
      → Trace P
          (λ h' r.
            (plan : PatchPlan)
            → r ≡ ok plan
            → Answered (get_plan j.spec.patch_plan_ref) (ok plan) h')
          h
          (get_patch_plan j)
  unfolding get_patch_plan
  get_patch_plan-read h =
      Trace-if (is_blank j.spec.patch_plan_ref) (λ _. stops λ p e. elim (err-ne-ok e) [ ])
        λ _. asks (lenient.reads h (get_plan j.spec.patch_plan_ref) tt) λ got.
          Trace-on_err got (λ _ _. stops λ p e. elim (err-ne-ok e) [ ])
            (λ plan is. stops λ p e. just_answered got (is ∙ e))

  pub get_talos_config-Configures :
      (namespace : String) (h : List Event) → Trace P Configures h (get_talos_config namespace j)
  unfolding get_talos_config
  get_talos_config-Configures namespace h = Trace-bind (get_patch_plan-read h) λ h' got _ read.
      Trace-on_err got (λ _ _. stops λ c e. elim (err-ne-ok e) [ ])
        (λ plan is. resolve_talos_config-Configures namespace plan h' (read plan is))
