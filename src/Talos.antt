-- ===== src/Talos.antt =====
-- controllers/talosconfig.go: the Talos connection of a plan, from the Secret that it names.
use kangal_patch.Prelude.{
  String, List, [], ◌∷◌, Option, none, some, lookup, has_key, same, is_blank, not, concat,
  if◌then◌else◌,
}
use kangal_patch.Api.Kube.{Secret, Result, ok, err, errorf, wrap}
use kangal_patch.Api.Plan.{PatchPlan, SecretReference}
use kangal_patch.Effect.Request.{Client, ClientConfig, get_secret, new_talos_client}
use kangal_patch.Effect.Prog.{Prog, ret, ask, ◌>>=◌, on_err}

-- The Secret keys that must be there, in the order in which they are looked for.
unfoldable pub first_missing_key : List String → Secret → Option String
first_missing_key [] secret = none
first_missing_key (k ∷ ks) secret =
    let rest = first_missing_key ks secret in if has_key k secret.content then rest else some k

unfoldable pub value_of : String → Secret → String
value_of k secret = elim (lookup k secret.content) [ none ↦ "" | some v ↦ v ]

unfoldable pub config_of : PatchPlan → SecretReference → Secret → Result ClientConfig
config_of plan ref secret =
    elim (first_missing_key ("ca.crt" ∷ "tls.crt" ∷ "tls.key" ∷ []) secret) [
      | some key ↦ err (
          errorf (
            concat
              ("secret " ∷ ref.namespace ∷ "/" ∷ ref.name ∷ " missing required key: " ∷ key ∷ [])))
      | none ↦ ok (record {
        endpoints = plan.spec.talos_config.endpoints;
        ca_cert = value_of "ca.crt" secret;
        client_cert = value_of "tls.crt" secret;
        client_key = value_of "tls.key" secret;
      })
    ]

-- The checks of the reference come before any read, so that they reveal no foreign Secret.
unfoldable pub read_secret : String → PatchPlan → SecretReference → Prog (Result ClientConfig)
read_secret operator_namespace plan ref =
    if is_blank ref.namespace
    then ret (err (errorf "secretRef.namespace must be specified"))
    else if not (same ref.namespace operator_namespace)
    then ret (
        err (
          errorf (
            concat (
              "secretRef.namespace must be the operator namespace \"" ∷ operator_namespace ∷ "\""
              ∷ []))))
    else do
      got ← ask (get_secret ref.namespace ref.name)
      on_err got
          (λ e.
            ret (
              err
                (wrap (concat ("failed to get secret " ∷ ref.namespace ∷ "/" ∷ ref.name ∷ [])) e)))
          λ secret. ret (config_of plan ref secret)

-- resolveTalosConfig.
unfoldable pub resolve_talos_config : String → PatchPlan → Prog (Result ClientConfig)
resolve_talos_config operator_namespace plan = elim plan.spec.talos_config.secret_ref [
  | none ↦ ret (err (errorf "talosConfig.secretRef must be specified"))
  | some ref ↦ read_secret operator_namespace plan ref
]

-- openTalos. The client is closed by the code that opened it.
unfoldable pub open_talos : String → PatchPlan → Prog (Result Client)
open_talos operator_namespace plan = do
  config ← resolve_talos_config operator_namespace plan
  on_err config (λ e. ret (err e))
      λ c. do
        made ← ask (new_talos_client c)
        on_err made (λ e. ret (err (wrap "failed to create Talos client" e)))
            λ client. ret (ok client)
