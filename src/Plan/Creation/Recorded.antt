-- ===== src/Plan/Creation/Recorded.antt =====
-- controllers/patchplan_controller.go: the counts that Reconcile records before it goes on.
use kangal_patch.Prelude.{ℕ, ◌≡◌, refl, sym, ap, ◌∙◌, min_nat, true, String, List, Dict, arith}
use kangal_patch.Api.Plan.{PatchPlanStatus}
use kangal_patch.Effect.Sat.{Sat, returns, Sat-if}
use kangal_patch.Effect.Trace.{Event}
use kangal_patch.Libs.{Libs}
use kangal_patch.Plan.Jobs.{index_by_node}
use kangal_patch.Plan.Summary.{summarize, observe}
use kangal_patch.Plan.Reconcile.{status_unchanged, record_counts}
use kangal_patch.Plan.Creation.Kept.{CreatesNothing}
use kangal_patch.Plan.Creation.Steady.{Steady, IfOk, ok-IfOk, update_status-IfOk}
use kangal_patch.Plan.Creation.Budget.{counted_plan}
use kangal_patch.Plan.Totals.{observe-failed}
use kangal_patch.Plan.Creation.Reasons.{failed_in, Known}

same_acknowledged :
    (a b : PatchPlanStatus)
    → status_unchanged a b ≡ true
    → a.failures_acknowledged ≡ b.failures_acknowledged
unfolding status_unchanged
same_acknowledged a b e = ground (arith, e)

-- The counts are recorded in the status alone.
pub record_counts-Counted :
    {lib : Libs} {name : String} {h : List Event} (k : Known lib name h) (active : Dict ℕ)
    → Sat CreatesNothing
        (IfOk (λ p. Steady (counted_plan k) p × (p.status.phase ≡ k.plan.status.phase)))
        (record_counts k.plan (observe k.plan k.rollout (index_by_node k.jobs) active).1)
unfolding record_counts observe summarize
record_counts-Counted k active =
    let recorded = (observe k.plan k.rollout (index_by_node k.jobs) active).1 in
    let accepted : min_nat k.plan.status.failures_acknowledged (failed_in k)
        ≡ recorded.failures_acknowledged =
      ap (min_nat k.plan.status.failures_acknowledged)
        (sym (observe-failed k.plan k.rollout (index_by_node k.jobs) active)) in
    Sat-if (status_unchanged k.plan.status recorded)
      (λ e. returns (
        ok-IfOk _ k.plan
          ((refl, refl, refl, accepted ∙ sym (same_acknowledged k.plan.status recorded e)), refl)))
      (λ _. update_status-IfOk _ k.plan recorded ((refl, refl, refl, accepted), refl))
