-- ===== src/Plan/Reconcile.antt =====
-- controllers/patchplan_controller.go: Reconcile.
use kangal_patch.Prelude.{
  ℕ, ◌==◌, pos, sub_ℕ, ltb_ℤ, max_ℤ, minutes, seconds, Bool, true, false, not, ◌&&◌, String, List,
  [], ◌∷◌, Option, none, some, Dict, same, concat, if◌then◌else◌,
}
use kangal_patch.Api.Kube.{Node, Error, ErrorKind, not_found, Result, ok, err}
use kangal_patch.Api.Plan.{PatchPlan, PatchPlanStatus, GroupStatus, AutoUpdateSpec}
use kangal_patch.Api.Job.{PatchJob}
use kangal_patch.Effect.Request.{now, get_plan, list_jobs_of_plan}
use kangal_patch.Effect.Prog.{Prog, ret, ask, ◌>>=◌, on_err, Outcome, done, failed_with, requeue}
use kangal_patch.Libs.{Libs}
use kangal_patch.Calendar.{rfc3339_text}
use kangal_patch.Maintenance.{is_in_maintenance_window, next_maintenance_window}
use kangal_patch.NodeUtil.{list_matching_nodes}
use kangal_patch.Scheduling.{Rollout, resolve, total_of}
use kangal_patch.Plan.Status.{
  requeue_when_paused, requeue_when_preflight_failed, update_status, set_message,
}
use kangal_patch.Plan.Jobs.{index_by_node}
use kangal_patch.Plan.Leases.{sync_leases}
use kangal_patch.Plan.Retention.{apply_retention, terminal_result}
use kangal_patch.Plan.Summary.{JobCounts, observe}
use kangal_patch.Plan.Policy.{
  ensure_cancelled_state, ensure_pause_state, failure_budget_exceeded, all_nodes_processed,
}
use kangal_patch.Plan.KubeProxy.{ensure_kube_proxy}
use kangal_patch.Plan.Schedule.{schedule_nodes, fail_invalid_strategy}
use kangal_patch.Plan.Preflight.Run.{ensure_preflight}
use kangal_patch.Plan.AutoUpdate.Reconcile.{reconcile_auto_update}

abbrev same_group : GroupStatus → GroupStatus → Bool
same_group a b =
    same a.name b.name
    && ((a.concurrency == b.concurrency)
        && ((a.active == b.active)
            && ((a.total == b.total)
                && ((a.pending == b.pending)
                    && ((a.running == b.running)
                        && ((a.completed == b.completed) && (a.failed == b.failed)))))))

abbrev same_groups : List GroupStatus → List GroupStatus → Bool
same_groups [] [] = true
same_groups [] (h ∷ hs) = false
same_groups (g ∷ gs) [] = false
same_groups (g ∷ gs) (h ∷ hs) = let rest = same_groups gs hs in same_group g h && rest

-- equality.Semantic.DeepEqual, of the fields that the counting sets.
unfoldable pub status_unchanged : PatchPlanStatus → PatchPlanStatus → Bool
status_unchanged a b =
    same a.target_talos_version b.target_talos_version
    && (same a.target_kubernetes_version b.target_kubernetes_version
        && ((a.total_nodes == b.total_nodes)
            && ((a.pending_nodes == b.pending_nodes)
                && ((a.running_nodes == b.running_nodes)
                    && ((a.completed_nodes == b.completed_nodes)
                        && ((a.failed_nodes == b.failed_nodes)
                            && ((a.failures_acknowledged == b.failures_acknowledged)
                                && same_groups a.groups b.groups)))))))

unfoldable pub record_counts : PatchPlan → PatchPlanStatus → Prog (Result PatchPlan)
record_counts plan s =
    if status_unchanged plan.status s then ret (ok plan) else update_status plan s

-- Outside of the maintenance windows, by the next opening.
unfoldable pub wait_for_window : PatchPlan → Result ℕ → Prog Outcome
wait_for_window plan (err e) = do
  updated ←
      set_message plan (concat ("Outside maintenance window and no window found: " ∷ e.text ∷ []))
  on_err updated (λ f. ret (failed_with f)) λ _. ret (requeue (minutes 15))
wait_for_window plan (ok next) = do
  updated ←
      set_message plan
        (concat ("Waiting for maintenance window opening at " ∷ rfc3339_text next ∷ []))
  on_err updated (λ f. ret (failed_with f))
      λ _. do t ← ask now; ret (requeue (max_ℤ (sub_ℕ next t) (seconds 1)))

module _ (lib : Libs) (namespace : String) (discovery : Bool) where
  -- From the maintenance windows on.
  unfoldable pub schedule_in_window : PatchPlan → Rollout → Dict PatchJob → Dict ℕ → Prog Outcome
  schedule_in_window plan rollout jobs active = do
    t ← ask now
    if (is_in_maintenance_window plan.spec.maintenance t).0
        then schedule_nodes namespace plan rollout jobs active
        else do
          later ← ask now
          wait_for_window plan (next_maintenance_window plan.spec.maintenance later)

  -- From the failure policy on.
  unfoldable pub reconcile_progress :
      PatchPlan → Rollout → Dict PatchJob → Dict ℕ → JobCounts → Prog Outcome
  reconcile_progress plan rollout jobs active counts = do
    exceeded ← failure_budget_exceeded plan counts.failed
    on_err exceeded (λ e. ret (failed_with e))
        λ s. if s.0 then terminal_result s.1 else do
          processed ← all_nodes_processed s.1 counts (total_of rollout.groups)
          on_err processed (λ e. ret (failed_with e))
              λ p. if p.0 then terminal_result p.1 else schedule_in_window p.1 rollout jobs active

  -- From the preflight checks on.
  unfoldable pub reconcile_checked :
      PatchPlan → Rollout → Dict PatchJob → Dict ℕ → JobCounts → Prog Outcome
  reconcile_checked plan rollout jobs active counts = do
    checked ← ensure_preflight lib namespace discovery plan rollout jobs
    on_err checked (λ e. ret (failed_with e))
        λ c. if not c.0 then ret (requeue requeue_when_preflight_failed) else do
          proxied ← ensure_kube_proxy c.1 rollout jobs
          on_err proxied (λ e. ret (failed_with e))
              λ w.
                if ltb_ℤ (pos 0) w.0
                then ret (requeue w.0)
                else reconcile_progress w.1 rollout jobs active counts

  -- From the cancellation on.
  unfoldable pub reconcile_counted :
      PatchPlan → Rollout → Dict PatchJob → Dict ℕ → JobCounts → Prog Outcome
  reconcile_counted plan rollout jobs active counts = do
    cancelled ← ensure_cancelled_state plan
    on_err cancelled (λ e. ret (failed_with e))
        λ s. if s.0 then terminal_result s.1 else do
          paused ← ensure_pause_state s.1 counts.failed
          on_err paused (λ e. ret (failed_with e))
              λ p.
                if p.0
                then ret (requeue requeue_when_paused)
                else reconcile_checked p.1 rollout jobs active counts

  -- From the list of jobs on.
  unfoldable pub reconcile_jobs : PatchPlan → Rollout → List PatchJob → Prog Outcome
  reconcile_jobs plan rollout jobs = do
    synced ← sync_leases namespace plan rollout jobs
    on_err synced (λ e. ret (failed_with e))
        λ active. do
          let by_node = index_by_node jobs
          let counted = observe plan rollout by_node active
          recorded ← record_counts plan counted.1
          on_err recorded (λ e. ret (failed_with e))
              λ plan'. reconcile_counted plan' rollout by_node active counted.0

  -- From the nodes on.
  unfoldable pub reconcile_nodes : PatchPlan → List Node → Prog Outcome
  reconcile_nodes plan nodes =
      on_err (resolve lib nodes plan.spec) (λ e. fail_invalid_strategy plan e)
        λ rollout. do
          listed ← ask (list_jobs_of_plan plan.name)
          on_err listed (λ e. ret (failed_with e)) λ jobs. reconcile_jobs plan rollout jobs

  -- A plan that is no template.
  unfoldable pub reconcile_plan : PatchPlan → Prog Outcome
  reconcile_plan plan = do
    retained ← apply_retention plan
    on_err retained (λ e. ret (failed_with e))
        λ p. if p.0 then ret done else do
          listed ← list_matching_nodes lib.selector_error p.1.spec.node_selector
          on_err listed (λ e. ret (failed_with e)) λ nodes. reconcile_nodes p.1 nodes

  -- The branch on IsAutoUpdateTemplate, with the spec that makes the plan a template.
  unfoldable pub reconcile_kind : PatchPlan → Option AutoUpdateSpec → Prog Outcome
  reconcile_kind plan none = reconcile_plan plan
  reconcile_kind plan (some a) =
      if a.enabled then reconcile_auto_update lib namespace plan a else reconcile_plan plan

  unfoldable pub plan_missing : Error → ErrorKind → Outcome
  plan_missing e not_found = done
  plan_missing e _ = failed_with e

  -- PatchPlanReconciler.Reconcile.
  unfoldable pub reconcile : String → Prog Outcome
  reconcile name = do
    got ← ask (get_plan name)
    on_err got (λ e. ret (plan_missing e e.kind))
        λ plan. reconcile_kind plan plan.spec.target.auto_update
