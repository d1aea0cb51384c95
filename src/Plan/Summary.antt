-- ===== src/Plan/Summary.antt =====
-- controllers/patchplan_controller.go: summarize, and the status that a reconcile records first.
use kangal_patch.Prelude.{
  ℕ, suc, ◌+◌, min_nat, List, [], ◌∷◌, Option, none, some, Dict, lookup, length,
}
use kangal_patch.Api.Kube.{Node}
use kangal_patch.Api.Plan.{PatchPlan, PatchPlanStatus, GroupStatus}
use kangal_patch.Api.Job
use kangal_patch.Api.Job.{PatchJob, JobPhase}
use kangal_patch.Scheduling.{Group, Rollout, total_of}
use kangal_patch.Plan.Jobs.{count_of}

pub record JobCounts : Type 0 where
  pub completed : ℕ
  pub failed : ℕ
  pub running : ℕ
  pub pending : ℕ

abbrev pub no_counts : JobCounts
no_counts = record { completed = 0; failed = 0; running = 0; pending = 0 }

abbrev pub add_counts : JobCounts → JobCounts → JobCounts
add_counts a b = record {
  completed = a.completed + b.completed;
  failed = a.failed + b.failed;
  running = a.running + b.running;
  pending = a.pending + b.pending;
}

-- The switch of the inner loop, for a node with a job.
unfoldable pub count_phase : JobPhase → JobCounts → JobCounts
count_phase Job.completed c = record c { completed = suc c.completed }
count_phase Job.failed c = record c { failed = suc c.failed }
count_phase _ c = record c { running = suc c.running }

unfoldable pub count_node : Option PatchJob → JobCounts → JobCounts
count_node none c = record c { pending = suc c.pending }
count_node (some job) c = count_phase job.status.phase c

unfoldable pub count_nodes : Dict PatchJob → List Node → JobCounts
count_nodes jobs [] = no_counts
count_nodes jobs (n ∷ ns) = count_node (lookup n.name jobs) (count_nodes jobs ns)

-- The totals, and the status of each group.
unfoldable pub count_groups : Dict PatchJob → Dict ℕ → List Group → JobCounts × List GroupStatus
count_groups jobs active [] = (no_counts, [])
count_groups jobs active (g ∷ gs) =
    let c = count_nodes jobs g.nodes in
    let (total, rest) = count_groups jobs active gs in
    (
      add_counts c total,
      (record {
        name = g.name;
        concurrency = g.concurrency;
        active = count_of g.name active;
        total = length g.nodes;
        pending = c.pending;
        running = c.running;
        completed = c.completed;
        failed = c.failed;
      })
          ∷ rest,
    )

-- summarize.
unfoldable pub summarize :
    PatchPlanStatus → Rollout → Dict PatchJob → Dict ℕ → JobCounts × PatchPlanStatus
summarize s rollout jobs active =
    let (total, groups) = count_groups jobs active rollout.groups in
    (
      total,
      record s {
        total_nodes = total_of rollout.groups;
        completed_nodes = total.completed;
        failed_nodes = total.failed;
        running_nodes = total.running;
        pending_nodes = total.pending;
        groups = groups;
      },
    )

-- The counts with the plan whose status Reconcile records before anything else.
unfoldable pub observe : PatchPlan → Rollout → Dict PatchJob → Dict ℕ → JobCounts × PatchPlanStatus
observe plan rollout jobs active =
    let (total, s) = summarize plan.status rollout jobs active in
    (
      total,
      record s {
        failures_acknowledged = min_nat s.failures_acknowledged total.failed;
        target_talos_version = plan.spec.target.talos_version;
        target_kubernetes_version = plan.spec.target.kubernetes_version;
      },
    )
