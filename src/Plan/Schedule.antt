-- ===== src/Plan/Schedule.antt =====
-- controllers/scheduler.go: the creation of the jobs of a plan.
use kangal_patch.Prelude.{
  ℕ, suc, ◌-◌, ◌==◌, ℤ, pos, leb, min_nat, ltb_ℤ, sub_ℕ, add_duration, Bool, true, false, not, ◌||◌,
  String, List, [], ◌∷◌, Option, none, some, Dict, lookup, is_some, is_blank, is_empty, concat,
  take, length, if◌then◌else◌,
}
use kangal_patch.Api.Kube.{Node, Error, ErrorKind, already_exists, Result, ok, err}
use kangal_patch.Api.Plan
use kangal_patch.Api.Plan.{PatchPlan, PatchPhase}
use kangal_patch.Api.Job
use kangal_patch.Api.Job.{PatchJob, JobPhase, is_terminal}
use kangal_patch.Effect.Request.{now, create_job, set_controller_reference}
use kangal_patch.Effect.Prog.{Prog, ret, ask, ◌>>=◌, on_err, Outcome, requeue, failed_with}
use kangal_patch.NodeUtil.{is_control_plane}
use kangal_patch.Scheduling.{Group, Rollout, control_plane_nodes}
use kangal_patch.Plan.Status.{
  requeue_when_at_max_concurrency, requeue_for_next_node, requeue_when_jobs_in_progress,
  requeue_when_preflight_failed, update_status, set_message,
}
use kangal_patch.Plan.Jobs.{count_of, later_of, all_nodes_completed}
use kangal_patch.Plan.Leases.{label_patch_plan, label_group, label_node, acquire_lease}
use kangal_patch.Plan.KubeProxy.{Wait, with_wait}

-- The inner loop of scheduleNodes: the nodes without a job, and whether every node has a job that is
-- terminal.
abbrev pub is_finished : Option PatchJob → Bool
is_finished none = false
is_finished (some job) = is_terminal job.status.phase

unfoldable pub pending_nodes : Dict PatchJob → List Node → List Node
pending_nodes jobs [] = []
pending_nodes jobs (n ∷ ns) =
    let rest = pending_nodes jobs ns in if is_some (lookup n.name jobs) then rest else n ∷ rest

unfoldable pub all_finished : Dict PatchJob → List Node → Bool
all_finished jobs [] = true
all_finished jobs (n ∷ ns) =
    let rest = all_finished jobs ns in if is_finished (lookup n.name jobs) then rest else false

-- The latest completion of a job, or `last`.
unfoldable pub latest_completion : ℕ → Dict PatchJob → ℕ
latest_completion last [] = last
latest_completion last ((k, job) ∷ rest) =
    latest_completion (later_of last job.status.completion_time) rest

-- delayRemaining.
unfoldable pub delay_remaining : PatchPlan → Dict PatchJob → Prog ℤ
delay_remaining plan jobs =
    let last = latest_completion (later_of 0 plan.status.last_node_scheduled_at) jobs in
    if last == 0
    then ret (pos 0)
    else do t ← ask now; ret (sub_ℕ (add_duration last plan.spec.delay_between_nodes) t)

-- The phases that markInProgress leaves.
unfoldable pub is_resting : PatchPhase → Bool
is_resting Plan.pending = true
is_resting Plan.failed = true
is_resting Plan.completed = true
is_resting Plan.cancelled = true
is_resting Plan.unset = true
is_resting _ = false

-- The start time that markInProgress keeps or sets.
unfoldable pub started : Option ℕ → Prog (Option ℕ)
started (some t) = ret (some t)
started none = do t ← ask now; ret (some t)

-- markInProgress.
unfoldable pub mark_in_progress : PatchPlan → Prog (Result PatchPlan)
mark_in_progress plan = if not (is_resting plan.status.phase) then ret (ok plan) else do
  start ← started plan.status.start_time
  update_status plan (record (plan.status) {
    phase = Plan.in_progress;
    start_time = start;
    completion_time = none;
  })

abbrev pub failed_phase : JobPhase → Bool
failed_phase Job.failed = true
failed_phase _ = false

abbrev pub has_failed : Option PatchJob → Bool
has_failed none = false
has_failed (some job) = failed_phase job.status.phase

unfoldable pub first_failed : List Node → Dict PatchJob → Option String
first_failed [] jobs = none
first_failed (n ∷ ns) jobs =
    let rest = first_failed ns jobs in if has_failed (lookup n.name jobs) then some n.name else rest

unfoldable pub wait_for_nodes : PatchPlan → Option String → Prog (Result Wait)
wait_for_nodes plan none = ret (ok (requeue_when_jobs_in_progress, plan))
wait_for_nodes plan (some name) = do
  updated ←
      set_message plan
        (concat ("worker rollout blocked: control plane node " ∷ name ∷ " failed" ∷ []))
  ret (with_wait requeue_when_jobs_in_progress updated)

-- waitForControlPlane.
unfoldable pub wait_for_control_plane :
    PatchPlan → Rollout → Dict PatchJob → Node → Prog (Result Wait)
wait_for_control_plane plan rollout jobs node =
    let control_plane = control_plane_nodes rollout in
    if is_blank plan.spec.target.kubernetes_version || is_control_plane node
    then ret (ok (pos 0, plan))
    else if is_empty control_plane || all_nodes_completed control_plane jobs
    then ret (ok (pos 0, plan))
    else wait_for_nodes plan (first_failed control_plane jobs)

-- The PatchJob of a node.
unfoldable pub job_for : PatchPlan → Node → String → PatchJob
job_for plan node group = record {
  name = concat (plan.name ∷ "-" ∷ node.name ∷ []);
  deletion_timestamp = none;
  labels = (label_patch_plan, plan.name) ∷ (label_group, group) ∷ (label_node, node.name) ∷ [];
  spec = record {
    node_name = node.name;
    target = plan.spec.target;
    patch_plan_ref = plan.name;
    group = group;
  };
  status = record {
    phase = Job.unset;
    message = "";
    start_time = none;
    completion_time = none;
    drain_start_time = none;
    reboot_start_time = none;
    kubernetes_upgrade_start_time = none;
    pre_upgrade_boot_id = "";
    current_talos_version = "";
    target_talos_version = "";
    current_kubernetes_version = "";
    target_kubernetes_version = "";
  };
}

-- A job that exists is missing from a lagging cache, and not an error.
unfoldable pub job_refused : PatchPlan → Error → ErrorKind → Result PatchPlan
job_refused plan e already_exists = ok plan
job_refused plan e _ = err e

module _ (namespace : String) where
  unfoldable pub job_created : PatchPlan → Node → String → Prog (Result PatchPlan)
  job_created plan node group = do
    acquired ← acquire_lease namespace (job_for plan node group) group
    on_err acquired (λ e. ret (err e))
        λ _. do
          t ← ask now
          update_status plan (record (plan.status) {
            last_node_scheduled_at = some t;
            message = concat ("Patching node " ∷ node.name ∷ " (group " ∷ group ∷ ")" ∷ []);
          })

  -- createPatchJob.
  unfoldable pub create_patch_job : PatchPlan → Node → String → Prog (Result PatchPlan)
  create_patch_job plan node group = do
    owned ← ask (set_controller_reference plan.name (job_for plan node group).name)
    on_err owned (λ e. ret (err e))
        λ _. do
          created ← ask (create_job (job_for plan node group))
          on_err created (λ e. ret (job_refused plan e e.kind)) λ _. job_created plan node group

  -- The loop of scheduleNodes over the nodes that are free to start. The source also counts the new
  -- leases in activeLeases, which is not read again.
  unfoldable pub create_jobs :
      PatchPlan → Rollout → Dict PatchJob → String → ℕ → List Node → Prog Outcome
  create_jobs plan rollout jobs group created [] = ret (requeue requeue_for_next_node)
  create_jobs plan rollout jobs group created (n ∷ ns) = do
    waited ← wait_for_control_plane plan rollout jobs n
    on_err waited (λ e. ret (failed_with e))
        λ w.
          if ltb_ℤ (pos 0) w.0
          then ret (requeue (if created == 0 then w.0 else requeue_for_next_node))
          else do
            made ← create_patch_job w.1 n group
            on_err made (λ e. ret (failed_with e))
                λ plan'. create_jobs plan' rollout jobs group (suc created) ns

  -- The body of the outer loop for a group with work left.
  unfoldable pub schedule_group :
      PatchPlan → Rollout → Dict PatchJob → Dict ℕ → Group → List Node → Prog Outcome
  schedule_group plan rollout jobs active g pending =
      if is_empty pending
      then ret (requeue requeue_when_jobs_in_progress)
      else if leb g.concurrency (count_of g.name active)
      then ret (requeue requeue_when_at_max_concurrency)
      else do
        wait ← delay_remaining plan jobs
        if ltb_ℤ (pos 0) wait then ret (requeue wait) else do
          marked ← mark_in_progress plan
          on_err marked (λ e. ret (failed_with e))
              λ plan'.
                create_jobs plan' rollout jobs g.name 0
                  (take (min_nat (g.concurrency - count_of g.name active) (length pending)) pending)

  unfoldable pub schedule_groups :
      PatchPlan → Rollout → Dict PatchJob → Dict ℕ → List Group → Prog Outcome
  schedule_groups plan rollout jobs active [] = ret (requeue requeue_when_jobs_in_progress)
  schedule_groups plan rollout jobs active (g ∷ gs) =
      let rest = schedule_groups plan rollout jobs active gs in
      if all_finished jobs g.nodes
      then rest
      else schedule_group plan rollout jobs active g (pending_nodes jobs g.nodes)

  -- scheduleNodes.
  unfoldable pub schedule_nodes : PatchPlan → Rollout → Dict PatchJob → Dict ℕ → Prog Outcome
  schedule_nodes plan rollout jobs active = schedule_groups plan rollout jobs active rollout.groups

-- failInvalidStrategy. The transition time of a condition is not modelled.
unfoldable pub fail_invalid_strategy : PatchPlan → Error → Prog Outcome
fail_invalid_strategy plan cause = do
  updated ← update_status plan (record (plan.status) {
    phase = Plan.failed;
    message = concat ("Invalid strategy: " ∷ cause.text ∷ []);
    preflight_condition = some (record {
      status = false;
      reason = "InvalidStrategy";
      message = cause.text;
      observed_generation = plan.generation;
    });
  })
  on_err updated (λ e. ret (failed_with e)) λ _. ret (requeue requeue_when_preflight_failed)
