-- ===== src/Plan/Totals.antt =====
-- controllers/patchplan_controller.go, summarize: what the counts of a plan count.
use kangal_patch.Prelude.{
  ℕ, ◌+◌, ◌≤◌, ◌≡◌, refl, Bool, true, false, not, ◌&&◌, List, [], ◌∷◌, ◌++◌, Option, none, some,
  Dict, lookup, is_some, keep, length, length-append, Bool-cases, inl, inr, arith,
}
use kangal_patch.Api.Kube.{Node}
use kangal_patch.Api.Plan.{PatchPlan, PatchPlanStatus}
use kangal_patch.Api.Job
use kangal_patch.Api.Job.{PatchJob, JobPhase}
use kangal_patch.Scheduling.{Group, Rollout, group_nodes, rollout_nodes, total_of}
use kangal_patch.Plan.Jobs.{is_completed, completed_job}
use kangal_patch.Plan.Schedule.{failed_phase, has_failed}
use kangal_patch.Plan.Summary.{
  JobCounts, count_phase, count_node, count_nodes, count_groups, summarize, observe,
}

-- The job of the node is under way.
abbrev pub is_running : Option PatchJob → Bool
is_running none = false
is_running (some job) = not (completed_job (some job)) && not (has_failed (some job))

-- How many of the nodes have a job of that kind.
abbrev pub number_of : (Option PatchJob → Bool) → Dict PatchJob → List Node → ℕ
number_of p jobs ns = length (keep (λ n. p (lookup n.name jobs)) ns)

-- The counts of the nodes, each by its own definition.
pub record Counts (jobs : Dict PatchJob) (ns : List Node) (c : JobCounts) : Type 0 where
  pub completed : c.completed ≡ number_of completed_job jobs ns
  pub failed : c.failed ≡ number_of has_failed jobs ns
  pub running : c.running ≡ number_of is_running jobs ns
  pub pending : c.pending ≡ number_of (λ o. not (is_some o)) jobs ns

abbrev one_if : Bool → ℕ
one_if true = 1
one_if false = 0

number_of-cons :
    (p : Option PatchJob → Bool) (jobs : Dict PatchJob) (n : Node) (ns : List Node)
    → number_of p jobs (n ∷ ns) ≡ one_if (p (lookup n.name jobs)) + number_of p jobs ns
number_of-cons p jobs n ns = elim (Bool-cases (p (lookup n.name jobs))) [
  | inl e ↦ rw e (omega arith)
  | inr e ↦ rw e (omega arith)
]

-- One more node adds one to the count of its kind.
abbrev Adds : Bool → Bool → Bool → Bool → JobCounts → JobCounts → Type 0
Adds is_completed is_failed is_under_way is_pending c d =
    (d.completed ≡ one_if is_completed + c.completed)
    × (d.failed ≡ one_if is_failed + c.failed)
    × (d.running ≡ one_if is_under_way + c.running)
    × (d.pending ≡ one_if is_pending + c.pending)

count_phase-Adds :
    (p : JobPhase) (c : JobCounts)
    → Adds
        (is_completed p)
        (failed_phase p)
        (not (is_completed p) && not (failed_phase p))
        false
        c
        (count_phase p c)
unfolding count_phase
count_phase-Adds Job.unset c = (omega arith, omega arith, omega arith, omega arith)
count_phase-Adds Job.pending c = (omega arith, omega arith, omega arith, omega arith)
count_phase-Adds Job.draining c = (omega arith, omega arith, omega arith, omega arith)
count_phase-Adds Job.upgrading c = (omega arith, omega arith, omega arith, omega arith)
count_phase-Adds Job.rebooting c = (omega arith, omega arith, omega arith, omega arith)
count_phase-Adds Job.upgrading_kubernetes c = (omega arith, omega arith, omega arith, omega arith)
count_phase-Adds Job.validating_kubernetes c = (omega arith, omega arith, omega arith, omega arith)
count_phase-Adds Job.completed c = (omega arith, omega arith, omega arith, omega arith)
count_phase-Adds Job.failed c = (omega arith, omega arith, omega arith, omega arith)

count_node-Adds :
    (o : Option PatchJob) (c : JobCounts)
    → Adds (completed_job o) (has_failed o) (is_running o) (not (is_some o)) c (count_node o c)
unfolding count_node
count_node-Adds none c = (omega arith, omega arith, omega arith, omega arith)
count_node-Adds (some job) c = count_phase-Adds job.status.phase c

count_nodes-Counts : (jobs : Dict PatchJob) (ns : List Node) → Counts jobs ns (count_nodes jobs ns)
unfolding count_nodes
count_nodes-Counts jobs [] = record {
  completed = refl;
  failed = refl;
  running = refl;
  pending = refl;
}
count_nodes-Counts jobs (n ∷ ns) =
    let rest = count_nodes-Counts jobs ns in
    let (completed, failed, running, pending) =
      count_node-Adds (lookup n.name jobs) (count_nodes jobs ns) in
    record {
      completed = omega (arith, completed, rest.completed, number_of-cons completed_job jobs n ns);
      failed = omega (arith, failed, rest.failed, number_of-cons has_failed jobs n ns);
      running = omega (arith, running, rest.running, number_of-cons is_running jobs n ns);
      pending =
          omega (arith, pending, rest.pending, number_of-cons (λ o. not (is_some o)) jobs n ns);
    }

number_of-append :
    (p : Option PatchJob → Bool) (jobs : Dict PatchJob) (ns ms : List Node)
    → number_of p jobs (ns ++ ms) ≡ number_of p jobs ns + number_of p jobs ms
number_of-append p jobs [] ms = omega arith
number_of-append p jobs (n ∷ ns) ms = omega (
  arith,
  number_of-cons p jobs n (ns ++ ms),
  number_of-cons p jobs n ns,
  number_of-append p jobs ns ms,
)

count_groups-Counts :
    (jobs : Dict PatchJob) (active : Dict ℕ) (gs : List Group)
    → Counts jobs (group_nodes gs) (count_groups jobs active gs).0
unfolding count_groups group_nodes
count_groups-Counts jobs active [] = record {
  completed = refl;
  failed = refl;
  running = refl;
  pending = refl;
}
count_groups-Counts jobs active (g ∷ gs) =
    let first = count_nodes-Counts jobs g.nodes in
    let rest = count_groups-Counts jobs active gs in
    let both = λ (p : Option PatchJob → Bool). number_of-append p jobs g.nodes (group_nodes gs) in
    record {
      completed = omega (arith, first.completed, rest.completed, both completed_job);
      failed = omega (arith, first.failed, rest.failed, both has_failed);
      running = omega (arith, first.running, rest.running, both is_running);
      pending = omega (arith, first.pending, rest.pending, both (λ o. not (is_some o)));
    }

-- The failed nodes that Reconcile counts.
pub observe-failed :
    (plan : PatchPlan) (rollout : Rollout) (jobs : Dict PatchJob) (active : Dict ℕ)
    → (observe plan rollout jobs active).0.failed
      ≡ number_of has_failed jobs (rollout_nodes rollout)
unfolding observe summarize rollout_nodes
observe-failed plan rollout jobs active = (count_groups-Counts jobs active rollout.groups).failed

total_of-length : (gs : List Group) → total_of gs ≡ length (group_nodes gs)
unfolding total_of group_nodes
total_of-length [] = refl
total_of-length (g ∷ gs) = omega (arith, total_of-length gs, length-append g.nodes (group_nodes gs))

of_phase :
    (p : JobPhase)
    → one_if (is_completed p)
        + one_if (failed_phase p)
        + one_if (not (is_completed p) && not (failed_phase p))
        + 0
      ≡ 1
of_phase Job.unset = refl
of_phase Job.pending = refl
of_phase Job.draining = refl
of_phase Job.upgrading = refl
of_phase Job.rebooting = refl
of_phase Job.upgrading_kubernetes = refl
of_phase Job.validating_kubernetes = refl
of_phase Job.completed = refl
of_phase Job.failed = refl

-- Every node is of one kind.
kinds :
    (jobs : Dict PatchJob) (ns : List Node)
    → length ns
      ≡ number_of completed_job jobs ns
        + number_of has_failed jobs ns
        + number_of is_running jobs ns
        + number_of (λ o. not (is_some o)) jobs ns
kinds jobs [] = refl
kinds jobs (n ∷ ns) = omega (
  arith,
  kinds jobs ns,
  one_kind (lookup n.name jobs),
  number_of-cons completed_job jobs n ns,
  number_of-cons has_failed jobs n ns,
  number_of-cons is_running jobs n ns,
  number_of-cons (λ o. not (is_some o)) jobs n ns,
)
  where
    one_kind :
        (o : Option PatchJob)
        → one_if (completed_job o)
            + one_if (has_failed o)
            + one_if (is_running o)
            + one_if (not (is_some o))
          ≡ 1
    one_kind none = refl
    one_kind (some job) = of_phase job.status.phase

-- The counts of a status are those of the nodes with their jobs.
pub record Tallies (jobs : Dict PatchJob) (nodes : List Node) (s : PatchPlanStatus) : Type 0 where
  pub completed : s.completed_nodes ≡ number_of completed_job jobs nodes
  pub failed : s.failed_nodes ≡ number_of has_failed jobs nodes
  pub running : s.running_nodes ≡ number_of is_running jobs nodes
  pub pending : s.pending_nodes ≡ number_of (λ o. not (is_some o)) jobs nodes
  pub total : s.total_nodes ≡ length nodes
  pub parts : s.total_nodes ≡ s.completed_nodes + s.failed_nodes + s.running_nodes + s.pending_nodes
  pub acknowledged : s.failures_acknowledged ≤ s.failed_nodes

-- The status that a reconcile records counts the nodes of the rollout: each of its counts is the
-- number of nodes with a job of that kind, or with none; together they are the number of nodes; and no
-- more failures are acknowledged than nodes have failed.
pub observe-Tallies :
    (plan : PatchPlan) (rollout : Rollout) (jobs : Dict PatchJob) (active : Dict ℕ)
    → Tallies jobs (rollout_nodes rollout) (observe plan rollout jobs active).1
unfolding observe summarize rollout_nodes
observe-Tallies plan rollout jobs active =
    let counts = count_groups-Counts jobs active rollout.groups in
    let total = total_of-length rollout.groups in
    record {
      completed = counts.completed;
      failed = counts.failed;
      running = counts.running;
      pending = counts.pending;
      total = total;
      parts = omega (
        arith,
        total,
        kinds jobs (group_nodes rollout.groups),
        counts.completed,
        counts.failed,
        counts.running,
        counts.pending,
      );
      acknowledged = ground arith;
    }
