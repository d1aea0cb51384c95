-- ===== src/Plan/Creation/Budget.antt =====
-- controllers/patchplan_controller.go: the failures that the policy counts.
use kangal_patch.Prelude.{
  ℕ, ◌-◌, ◌&&◌, ◌≡◌, refl, sym, ap, ◌∙◌, min_nat, Bool, true, false, String, List, Dict,
  if◌then◌else◌,
}
use kangal_patch.Api.Plan.{PatchPlan, PatchPlanSpec, exceeded}
use kangal_patch.Effect.Trace.{Event}
use kangal_patch.Libs.{Libs}
use kangal_patch.Plan.Jobs.{index_by_node}
use kangal_patch.Plan.Summary.{observe}
use kangal_patch.Plan.Totals.{observe-failed}
use kangal_patch.Plan.Policy.{acknowledged, is_paused, pauses, new_failures}
use kangal_patch.Plan.Creation.Steady.{Steady}
use kangal_patch.Plan.Creation.Policies.{WithinBudget, accepting, after_pause}
use kangal_patch.Plan.Creation.Reasons.{
  Known, failed_in, too_many, accepted_failures, accepted_plan,
}

abbrev pub counts_at : {lib : Libs} {name : String} {h : List Event} → Known lib name h → Dict ℕ → ℕ
counts_at k active = (observe k.plan k.rollout (index_by_node k.jobs) active).0.failed

-- The plan as its counts are recorded.
abbrev pub counted_plan :
    {lib : Libs} {name : String} {h : List Event} → Known lib name h → PatchPlan
counted_plan k = accepting (min_nat k.plan.status.failures_acknowledged (failed_in k)) k.plan

module _ {lib : Libs} {name : String} {h : List Event} (k : Known lib name h) (active : Dict ℕ)
    (p : PatchPlan) where
  failed_counts : counts_at k active ≡ failed_in k
  failed_counts = observe-failed k.plan k.rollout (index_by_node k.jobs) active

  pub within_budget :
      Steady (accepted_plan k) p
      → WithinBudget (counts_at k active) p
      → too_many k.plan.spec.failure_policy (failed_in k - accepted_failures k.plan (failed_in k))
        ≡ false
  unfolding exceeded new_failures
  within_budget steady budget =
      ap
        (λ (s : PatchPlanSpec).
          too_many s.failure_policy (failed_in k - accepted_failures k.plan (failed_in k)))
        steady.1
      ∙ ap (λ n. too_many p.spec.failure_policy (failed_in k - n)) steady.3
      ∙ ap (λ n. too_many p.spec.failure_policy (n - p.status.failures_acknowledged))
          (sym failed_counts)
      ∙ budget

  resumed : Bool → PatchPlanSpec → ℕ → ℕ → ℕ
  resumed was_paused spec old failed =
      if was_paused
      then (if pauses spec.failure_policy.type && too_many spec.failure_policy (failed - old)
          then failed
          else old)
      else old

  both_tests :
      (a b : Bool) (m n : ℕ) → (if a then (if b then m else n) else n) ≡ (if a && b then m else n)
  both_tests true b m n = refl
  both_tests false b m n = refl

  pub after_pause-accepted :
      Steady (counted_plan k) p
      → p.status.phase ≡ k.plan.status.phase
      → after_pause p (counts_at k active) ≡ accepted_failures k.plan (failed_in k)
  unfolding exceeded new_failures acknowledged resumed
  after_pause-accepted steady phase =
      let old = min_nat k.plan.status.failures_acknowledged (failed_in k) in
      ap (λ f. resumed (is_paused f) p.spec p.status.failures_acknowledged (counts_at k active))
        phase
      ∙ ap
          (λ s.
            resumed (is_paused k.plan.status.phase) s p.status.failures_acknowledged
              (counts_at k active))
          (sym steady.1)
      ∙ ap (λ n. resumed (is_paused k.plan.status.phase) k.plan.spec n (counts_at k active))
          (sym steady.3)
      ∙ ap (λ n. resumed (is_paused k.plan.status.phase) k.plan.spec old n) failed_counts
      ∙ both_tests (is_paused k.plan.status.phase)
          (pauses k.plan.spec.failure_policy.type
            && too_many k.plan.spec.failure_policy (failed_in k - old))
          (failed_in k) old
