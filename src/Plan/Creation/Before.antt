-- ===== src/Plan/Creation/Before.antt =====
-- controllers: the steps of a reconcile that keep the plan, from the leases to kube-proxy.
use kangal_patch.Prelude.{
  ℕ, ◌≡◌, refl, ℤ, Bool, true, false, not, ◌||◌, List, [], ◌∷◌, Option, none, some, Dict, String,
  all, is_blank, is_empty, ltb_ℤ, sub_ℕ, same,
}
use kangal_patch.Api.Kube.{Node, LabelSelector, DaemonSet, Error, Result, ok, err}
use kangal_patch.Api.Plan.{PatchPlan, history_retention}
use kangal_patch.Api.Job.{PatchJob, is_terminal}
use kangal_patch.Effect.Sat.{Sat, returns, calls, Sat-bind, Sat-if, Sat-on_err, Any}
use kangal_patch.Drain.{ignore_not_found}
use kangal_patch.NodeUtil.{list_selected, list_matching_nodes}
use kangal_patch.Images.{build_kube_proxy_image}
use kangal_patch.Scheduling.{Rollout, control_plane_nodes}
use kangal_patch.Plan.Jobs.{all_nodes_completed}
use kangal_patch.Plan.Retention.{
  is_finished_phase, result_after, terminal_result, delete_jobs, purge, retain_after,
  apply_retention,
}
use kangal_patch.Plan.KubeProxy.{
  Wait, with_wait, upgrade_daemon_set, ensure_kube_proxy_upgraded, kube_proxy_done,
  ensure_kube_proxy,
}
use kangal_patch.Plan.Creation.Starts.{creation_of}
use kangal_patch.Plan.Creation.Kept.{CreatesNothing}
use kangal_patch.Plan.Creation.Steady.{
  Steady, IfOk, ok-IfOk, err-IfOk, GoesOn, stopped-GoesOn, going-GoesOn, update_status-Steady,
  update_status-Sat, set_message-Steady,
}

result_after-Sat : (p : PatchPlan) (o : Option ℕ) → Sat CreatesNothing Any (result_after p o)
unfolding result_after creation_of
result_after-Sat p none = returns tt
result_after-Sat p (some t) = calls refl (λ _. returns tt)

pub terminal_result-Sat : (p : PatchPlan) → Sat CreatesNothing Any (terminal_result p)
unfolding terminal_result
terminal_result-Sat p = result_after-Sat p p.status.completion_time

delete_jobs-Sat : (jobs : List PatchJob) → Sat CreatesNothing Any (delete_jobs jobs)
unfolding delete_jobs creation_of
delete_jobs-Sat [] = returns tt
delete_jobs-Sat (j ∷ js) =
    calls refl λ x. Sat-on_err (ignore_not_found x) (λ _ _. returns tt) (λ _ _. delete_jobs-Sat js)

module _ (plan : PatchPlan) where
  -- A plan that is not purged is kept.
  purge-GoesOn :
      (jobs : List PatchJob) → Sat CreatesNothing (GoesOn (λ q. plan ≡ q)) (purge plan jobs)
  unfolding purge
  purge-GoesOn jobs =
      Sat-if (not (all (λ j. is_terminal j.status.phase) jobs))
        (λ _. returns (going-GoesOn _ plan refl))
        λ _. Sat-bind (delete_jobs-Sat jobs) λ x _.
          Sat-on_err x (λ e _. returns (err-IfOk _ e))
            λ _ _. Sat-bind (update_status-Sat plan plan _) λ y _.
              Sat-on_err y (λ e _. returns (err-IfOk _ e)) (λ q _. returns (stopped-GoesOn _ q))

  retain_after-GoesOn :
      (o : Option ℕ) → Sat CreatesNothing (GoesOn (λ q. plan ≡ q)) (retain_after plan o)
  unfolding retain_after creation_of
  retain_after-GoesOn none = returns (going-GoesOn _ plan refl)
  retain_after-GoesOn (some t) =
      Sat-if plan.status.history_purged (λ _. returns (stopped-GoesOn _ plan))
        λ _. calls refl λ u.
          Sat-if (ltb_ℤ (sub_ℕ u t) (history_retention plan))
            (λ _. returns (going-GoesOn _ plan refl))
            λ _.
              calls refl
                λ x. Sat-on_err x (λ e _. returns (err-IfOk _ e)) (λ jobs _. purge-GoesOn jobs)

  pub apply_retention-GoesOn : Sat CreatesNothing (GoesOn (λ q. plan ≡ q)) (apply_retention plan)
  unfolding apply_retention
  apply_retention-GoesOn =
      Sat-if (not (is_finished_phase plan.status.phase)) (λ _. returns (going-GoesOn _ plan refl))
        (λ _. retain_after-GoesOn plan.status.completion_time)

list_selected-Sat :
    (wanted : LabelSelector) (o : Option Error) → Sat CreatesNothing Any (list_selected wanted o)
unfolding list_selected creation_of
list_selected-Sat wanted none = calls refl (λ _. returns tt)
list_selected-Sat wanted (some e) = returns tt

pub list_matching_nodes-Sat :
    (invalid : LabelSelector → Option Error) (o : Option LabelSelector)
    → Sat CreatesNothing Any (list_matching_nodes invalid o)
unfolding list_matching_nodes
list_matching_nodes-Sat invalid o = list_selected-Sat _ _

upgrade_daemon_set-Sat :
    (target : String) (ds : DaemonSet) (images : List String)
    → Sat CreatesNothing Any (upgrade_daemon_set target ds images)
unfolding upgrade_daemon_set creation_of
upgrade_daemon_set-Sat target ds [] = returns tt
upgrade_daemon_set-Sat target ds (i ∷ is) =
    Sat-if (same i target) (λ _. returns tt)
      λ _. calls refl λ x. Sat-on_err x (λ _ _. returns tt) (λ _ _. returns tt)

ensure_kube_proxy_upgraded-Sat :
    (version : String) → Sat CreatesNothing Any (ensure_kube_proxy_upgraded version)
unfolding ensure_kube_proxy_upgraded creation_of
ensure_kube_proxy_upgraded-Sat version = calls refl λ x.
    Sat-on_err x (λ _ _. returns tt)
      (λ ds _. upgrade_daemon_set-Sat (build_kube_proxy_image version) ds ds.container_images)

module _ (plan p : PatchPlan) (steady : Steady plan p) where
  -- The plan beside a wait.
  abbrev pub Waits : Result Wait → Type 0
  Waits r = IfOk (λ (w : Wait). Steady plan w.1) r

  with_wait-Waits : (d : ℤ) (r : Result PatchPlan) → IfOk (Steady plan) r → Waits (with_wait d r)
  with_wait-Waits d (ok q) h = ok-IfOk _ _ (h q refl)
  with_wait-Waits d (err e) h = err-IfOk _ e

  kube_proxy_done-Waits :
      (ns : List Node) (jobs : Dict PatchJob) (finished : Bool)
      → Sat CreatesNothing Waits (kube_proxy_done p ns jobs finished)
  unfolding kube_proxy_done creation_of
  kube_proxy_done-Waits ns jobs true =
      Sat-bind (update_status-Steady plan p _ steady refl refl)
        (λ r h. returns (with_wait-Waits _ r h))
  kube_proxy_done-Waits ns jobs false =
      calls refl
        λ t. Sat-bind (set_message-Steady plan p _ steady) (λ r h. returns (with_wait-Waits _ r h))

  pub ensure_kube_proxy-Waits :
      (rollout : Rollout) (jobs : Dict PatchJob)
      → Sat CreatesNothing Waits (ensure_kube_proxy p rollout jobs)
  unfolding ensure_kube_proxy
  ensure_kube_proxy-Waits rollout jobs =
      Sat-if (is_blank p.spec.target.kubernetes_version || p.status.kube_proxy_upgraded)
        (λ _. returns (ok-IfOk _ _ steady))
        λ _.
          Sat-if
            (is_empty (control_plane_nodes rollout)
              || not (all_nodes_completed (control_plane_nodes rollout) jobs))
            (λ _. returns (ok-IfOk _ _ steady))
            λ _. Sat-bind (ensure_kube_proxy_upgraded-Sat p.spec.target.kubernetes_version) λ x _.
              Sat-on_err x (λ e _. returns (err-IfOk _ e))
                (λ finished _. kube_proxy_done-Waits (control_plane_nodes rollout) jobs finished)
