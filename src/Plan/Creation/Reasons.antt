-- ===== src/Plan/Creation/Reasons.antt =====
-- controllers/patchplan_controller.go: why a reconcile creates a job.
use kangal_patch.Prelude.{
  ℕ, ◌-◌, ◌&&◌, ◌≡◌, pos, min_nat, leb_ℤ, max_ℤ, Bool, if◌then◌else◌, true, false, String, List,
  some, Dict,
}
use kangal_patch.Api.Kube.{Node, ok}
use kangal_patch.Api.Plan.{PatchPlan, FailurePolicySpec, is_auto_update_template}
use kangal_patch.Api.Job.{PatchJob}
use kangal_patch.Effect.Request.{Request, now, get_plan, list_nodes, list_jobs_of_plan}
use kangal_patch.Effect.Trace.{Event, Answered, Answered-Later, Later}
use kangal_patch.Libs.{Libs}
use kangal_patch.Maintenance.{is_in_maintenance_window}
use kangal_patch.NodeUtil.{selector_or_all}
use kangal_patch.Scheduling.{Rollout, resolve, rollout_nodes}
use kangal_patch.Plan.Jobs.{index_by_node}
use kangal_patch.Plan.Policy.{is_paused, pauses}
use kangal_patch.Plan.Schedule.{has_failed}
use kangal_patch.Plan.Totals.{number_of}
use kangal_patch.Plan.Creation.Starts.{creation_of, Starts}
use kangal_patch.Plan.Creation.Steady.{Steady}
use kangal_patch.Plan.Creation.Slots.{Slots}
use kangal_patch.Plan.Creation.Policies.{accepting}

-- What a reconcile has read of the plan: no template of auto-update, its nodes with the rollout that
-- they resolve to, and its jobs.
pub record Known (lib : Libs) (name : String) (h : List Event) : Type 0 where
  pub plan : PatchPlan
  pub read_plan : Answered (get_plan name) (ok plan) h
  pub no_template : is_auto_update_template plan ≡ false
  pub nodes : List Node
  pub read_nodes : Answered (list_nodes (selector_or_all plan.spec.node_selector)) (ok nodes) h
  pub rollout : Rollout
  pub resolved : resolve lib nodes plan.spec ≡ ok rollout
  pub jobs : List PatchJob
  pub read_jobs : Answered (list_jobs_of_plan plan.name) (ok jobs) h

abbrev pub Known-Later :
    {lib : Libs} {name : String} {h h' : List Event}
    → Later h h'
    → Known lib name h
    → Known lib name h'
Known-Later l k = record {
  plan = k.plan;
  read_plan = Answered-Later l k.read_plan;
  no_template = k.no_template;
  nodes = k.nodes;
  read_nodes = Answered-Later l k.read_nodes;
  rollout = k.rollout;
  resolved = k.resolved;
  jobs = k.jobs;
  read_jobs = Answered-Later l k.read_jobs;
}

-- How many nodes of the plan have a failed job.
abbrev pub failed_in : {lib : Libs} {name : String} {h : List Event} → Known lib name h → ℕ
failed_in k = number_of has_failed (index_by_node k.jobs) (rollout_nodes k.rollout)

-- A failure policy allows fewer failures than maxFailures, which is 1 at least.
abbrev pub too_many : FailurePolicySpec → ℕ → Bool
too_many policy n = leb_ℤ (max_ℤ policy.max_failures (pos 1)) (pos n)

-- The failures that count no more: those that were acknowledged, as far as they are still there; and,
-- where a plan goes on that was Paused with more of the others than its Pause policy allows, all of
-- them.
abbrev pub accepted_failures : PatchPlan → ℕ → ℕ
accepted_failures plan failed =
    let old = min_nat plan.status.failures_acknowledged failed in
    if is_paused plan.status.phase
      && (pauses plan.spec.failure_policy.type && too_many plan.spec.failure_policy (failed - old))
    then failed
    else old

-- The plan with these failures accepted.
abbrev pub accepted_plan :
    {lib : Libs} {name : String} {h : List Event} → Known lib name h → PatchPlan
accepted_plan k = accepting (accepted_failures k.plan (failed_in k)) k.plan

-- Why the job `j` is created after the history `h`: the plan is neither cancelled nor paused, no more
-- nodes have failed, the accepted ones aside, than its policy allows, the clock was read inside of a
-- maintenance window, and the scheduler has its own reasons, by the slots that the leases listed and
-- the jobs occupy. `current` is the plan with its status of that moment.
pub record Reason (lib : Libs) (namespace name : String) (h : List Event) (j : PatchJob)
    : Type 0 where
  pub known : Known lib name h
  pub not_cancelled : known.plan.spec.cancelled ≡ false
  pub not_paused : known.plan.spec.paused ≡ false
  pub within_budget :
      too_many known.plan.spec.failure_policy
        (failed_in known - accepted_failures known.plan (failed_in known))
      ≡ false
  pub clock : ℕ
  pub read_clock : Answered now clock h
  pub in_window : (is_in_maintenance_window known.plan.spec.maintenance clock).0 ≡ true
  pub active : Dict ℕ
  pub slots : Slots namespace known.plan known.rollout known.jobs active h
  pub current : PatchPlan
  pub kept : Steady (accepted_plan known) current
  pub starts : Starts current known.rollout (index_by_node known.jobs) active h j

abbrev pub Reasoned : Libs → String → String → List Event → Request → Type 0
Reasoned lib namespace name h r =
    (j : PatchJob) → creation_of r ≡ some j → Reason lib namespace name h j
