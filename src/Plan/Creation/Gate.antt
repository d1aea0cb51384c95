-- ===== src/Plan/Creation/Gate.antt =====
-- controllers/scheduler.go: waitForControlPlane.
use kangal_patch.Prelude.{
  ◌≡◌, ◌⊎◌, refl, sym, ap, ◌∙◌, subst, inl, inr, pos, ltb_ℤ, Bool, true, false, ◌||◌, String, List,
  [], ◌∷◌, Option, none, some, Dict, lookup, is_blank, is_empty, All, both_hold, Option-cases,
  true_apart, arith,
}
use kangal_patch.Api.Kube.{Node, Result, ok, err, ok-injective, err-ne-ok}
use kangal_patch.Api.Plan.{PatchPlan, PatchPlanSpec}
use kangal_patch.Api.Job
use kangal_patch.Api.Job.{PatchJob, JobPhase}
use kangal_patch.Effect.Sat.{Sat, returns, Sat-bind, Sat-if}
use kangal_patch.NodeUtil.{is_control_plane}
use kangal_patch.Scheduling.{Rollout, control_plane_nodes}
use kangal_patch.Plan.Status.{requeue_when_jobs_in_progress}
use kangal_patch.Plan.Jobs.{is_completed, completed_job, all_nodes_completed}
use kangal_patch.Plan.KubeProxy.{Wait, with_wait}
use kangal_patch.Plan.Schedule.{wait_for_nodes, wait_for_control_plane}
use kangal_patch.Plan.Creation.Starts.{IsUpgraded, MayStart}
use kangal_patch.Plan.Creation.Kept.{SamePlan, CreatesNothing, Keeps, set_message-Keeps}

is_completed-eq : (p : JobPhase) → is_completed p ≡ true → p ≡ Job.completed
is_completed-eq Job.completed e = refl
is_completed-eq Job.unset e = elim (true_apart (sym e)) [ ]
is_completed-eq Job.pending e = elim (true_apart (sym e)) [ ]
is_completed-eq Job.draining e = elim (true_apart (sym e)) [ ]
is_completed-eq Job.upgrading e = elim (true_apart (sym e)) [ ]
is_completed-eq Job.rebooting e = elim (true_apart (sym e)) [ ]
is_completed-eq Job.upgrading_kubernetes e = elim (true_apart (sym e)) [ ]
is_completed-eq Job.validating_kubernetes e = elim (true_apart (sym e)) [ ]
is_completed-eq Job.failed e = elim (true_apart (sym e)) [ ]

completed_job-IsUpgraded :
    (jobs : Dict PatchJob) (n : Node)
    → completed_job (lookup n.name jobs) ≡ true
    → IsUpgraded jobs n
completed_job-IsUpgraded jobs n e = elim (Option-cases (lookup n.name jobs)) [
  | inl f ↦ elim (true_apart (sym e ∙ ap completed_job f)) [ ]
  | inr (job, f) ↦ (job, f, is_completed-eq _ (sym (ap completed_job f) ∙ e))
]

pub all_nodes_completed-IsUpgraded :
    (ns : List Node) (jobs : Dict PatchJob)
    → all_nodes_completed ns jobs ≡ true
    → All (IsUpgraded jobs) ns
unfolding all_nodes_completed
all_nodes_completed-IsUpgraded [] jobs e = tt
all_nodes_completed-IsUpgraded (n ∷ ns) jobs e =
    let (first, rest) = both_hold (completed_job (lookup n.name jobs)) _ e in
    (completed_job-IsUpgraded jobs n first, all_nodes_completed-IsUpgraded ns jobs rest)

either_true : (a b : Bool) → (a || b) ≡ true → (a ≡ true) ⊎ (b ≡ true)
either_true a b h = ground arith

module _ (plan : PatchPlan) (rollout : Rollout) (jobs : Dict PatchJob) where
  -- What waitForControlPlane says of a node: the plan is kept, and without a wait it may start.
  abbrev pub Waited : Node → Result Wait → Type 0
  Waited n r =
      (w : Wait)
      → r ≡ ok w
      → SamePlan plan w.1 × (ltb_ℤ (pos 0) w.0 ≡ false → MayStart plan rollout jobs n)

  goes-Waited :
      (n : Node) (p : PatchPlan)
      → SamePlan plan p
      → MayStart plan rollout jobs n
      → Waited n (ok (pos 0, p))
  goes-Waited n p kept may w e =
      (subst (λ (v : Wait). SamePlan plan v.1) (ok-injective e) kept, λ _. may)

  waits-Waited :
      (n : Node) (r : Result PatchPlan)
      → Keeps plan r
      → Waited n (with_wait requeue_when_jobs_in_progress r)
  waits-Waited n (ok p) kept w e = (
    subst (λ (v : Wait). SamePlan plan v.1) (ok-injective e) (kept p refl),
    λ short. elim (true_apart (ap (λ (v : Wait). ltb_ℤ (pos 0) v.0) (ok-injective e) ∙ short)) [ ],
  )
  waits-Waited n (err x) kept w e = elim (err-ne-ok e) [ ]

  wait_for_nodes-Waited :
      (n : Node) (p : PatchPlan) (o : Option String)
      → SamePlan plan p
      → Sat CreatesNothing (Waited n) (wait_for_nodes p o)
  unfolding wait_for_nodes
  wait_for_nodes-Waited n p none kept =
      returns (waits-Waited n (ok p) (λ q e. subst (SamePlan plan) (ok-injective e) kept))
  wait_for_nodes-Waited n p (some name) kept =
      Sat-bind (set_message-Keeps plan p _ kept) λ r k. returns (waits-Waited n r k)

  no_control_plane : (ns : List Node) → is_empty ns ≡ true → All (IsUpgraded jobs) ns
  no_control_plane [] e = tt
  no_control_plane (n ∷ ns) e = elim (true_apart (sym e)) [ ]

  upgraded :
      (ns : List Node)
      → (is_empty ns || all_nodes_completed ns jobs) ≡ true
      → All (IsUpgraded jobs) ns
  upgraded ns e = elim (either_true _ _ e) [
    | inl f ↦ no_control_plane ns f
    | inr f ↦ all_nodes_completed-IsUpgraded ns jobs f
  ]

  free_to_start :
      (n : Node) (p : PatchPlan)
      → SamePlan plan p
      → (is_blank p.spec.target.kubernetes_version || is_control_plane n) ≡ true
      → MayStart plan rollout jobs n
  free_to_start n p kept e = elim (either_true _ _ e) [
    | inl f ↦ inl (ap (λ (s : PatchPlanSpec). is_blank s.target.kubernetes_version) kept.1 ∙ f)
    | inr f ↦ inr (inl f)
  ]

  pub wait_for_control_plane-Waited :
      (n : Node) (p : PatchPlan)
      → SamePlan plan p
      → Sat CreatesNothing (Waited n) (wait_for_control_plane p rollout jobs n)
  unfolding wait_for_control_plane
  wait_for_control_plane-Waited n p kept =
      Sat-if (is_blank p.spec.target.kubernetes_version || is_control_plane n)
        (λ e. returns (goes-Waited n p kept (free_to_start n p kept e)))
        λ _.
          Sat-if
            (is_empty (control_plane_nodes rollout)
              || all_nodes_completed (control_plane_nodes rollout) jobs)
            (λ e. returns (goes-Waited n p kept (inr (inr (upgraded _ e)))))
            (λ _. wait_for_nodes-Waited n p _ kept)
