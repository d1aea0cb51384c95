-- ===== src/Plan/Creation/Starts.antt =====
-- controllers/scheduler.go: what must hold when the scheduler creates a job.
use mathlib.Core.List.{Mem}
use kangal_patch.Prelude.{
  ℕ, ◌+◌, ◌≤◌, ◌<◌, ◌≡◌, ◌⊎◌, true, List, [], ◌∷◌, ◌++◌, Option, none, some, Dict, lookup, is_blank,
  All, add_duration,
}
use kangal_patch.Api.Kube.{Node}
use kangal_patch.Api.Plan.{PatchPlan}
use kangal_patch.Api.Job.{PatchJob, completed, is_terminal}
use kangal_patch.Effect.Request.{Request, now, create_job}
use kangal_patch.Effect.Trace.{Event, event, Answered}
use kangal_patch.NodeUtil.{is_control_plane}
use kangal_patch.Scheduling.{Group, Rollout, control_plane_nodes}
use kangal_patch.Plan.Jobs.{later_of, count_of}
use kangal_patch.Plan.Schedule.{latest_completion, job_for}

-- The job that a request creates, and how many jobs a history has created.
unfoldable pub creation_of : Request → Option PatchJob
creation_of (create_job j) = some j
creation_of _ = none

abbrev pub one_if_some : Option PatchJob → ℕ
one_if_some none = 0
one_if_some (some j) = 1

unfoldable pub created_in : List Event → ℕ
created_in [] = 0
created_in (event r x ∷ h) = one_if_some (creation_of r) + created_in h

-- The node has a job that is terminal, or one that is completed.
abbrev pub IsDone : Dict PatchJob → Node → Type 0
IsDone jobs n =
    (job : PatchJob) × (lookup n.name jobs ≡ some job) × (is_terminal job.status.phase ≡ true)

abbrev pub IsUpgraded : Dict PatchJob → Node → Type 0
IsUpgraded jobs n =
    (job : PatchJob) × (lookup n.name jobs ≡ some job) × (job.status.phase ≡ completed)

-- The latest scheduling of a node or completion of a job, 0 if there was none.
abbrev pub last_activity : PatchPlan → Dict PatchJob → ℕ
last_activity plan jobs = latest_completion (later_of 0 plan.status.last_node_scheduled_at) jobs

-- The clock was read when the delay between two nodes was over.
abbrev pub IsPaced : PatchPlan → Dict PatchJob → List Event → Type 0
IsPaced plan jobs h =
    (last_activity plan jobs ≡ 0)
    ⊎ ((t : ℕ) × Answered now t h
        × (add_duration (last_activity plan jobs) plan.spec.delay_between_nodes ≤ t))

-- A node of the plan may start.
abbrev pub MayStart : PatchPlan → Rollout → Dict PatchJob → Node → Type 0
MayStart plan rollout jobs n =
    (is_blank plan.spec.target.kubernetes_version ≡ true)
    ⊎ ((is_control_plane n ≡ true) ⊎ All (IsUpgraded jobs) (control_plane_nodes rollout))

-- Why the job `j` is created after the history `h`: a group that all groups before it in the order
-- have made way for has room for one more, and a node without a job, which may start.
pub record Starts (plan : PatchPlan) (rollout : Rollout) (jobs : Dict PatchJob) (active : Dict ℕ)
    (h : List Event) (j : PatchJob) : Type 0 where
  pub before : List Group
  pub group : Group
  pub after : List Group
  pub order : rollout.groups ≡ before ++ group ∷ after
  pub done_before : All (λ g. All (IsDone jobs) g.nodes) before
  pub node : Node
  pub of_group : Mem node group.nodes
  pub without_job : lookup node.name jobs ≡ none
  pub is_job : j ≡ job_for plan node group.name
  pub room : created_in h + count_of group.name active < group.concurrency
  pub may_start : MayStart plan rollout jobs node
  pub paced : IsPaced plan jobs h

-- A job is created only for a reason; any other request may be made.
abbrev pub Scheduled : PatchPlan → Rollout → Dict PatchJob → Dict ℕ → List Event → Request → Type 0
Scheduled plan rollout jobs active h r =
    (j : PatchJob) → creation_of r ≡ some j → Starts plan rollout jobs active h j
