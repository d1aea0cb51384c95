-- ===== src/Plan/Creation/Policies.antt =====
-- controllers/patchplan_controller.go: the steps that may stop a reconcile before it schedules.
use kangal_patch.Prelude.{
  ℕ, ◌+◌, ◌≡◌, refl, ap, ◌∙◌, pos, ltb, if◌then◌else◌, true, false, not, not-true,
}
use kangal_patch.Api.Plan.{PatchPlan, PatchPlanSpec, exceeded}
use kangal_patch.Effect.Sat.{Sat, returns, calls, Sat-bind, Sat-if, Sat-on_err, Any}
use kangal_patch.Plan.Summary.{JobCounts}
use kangal_patch.Plan.Policy.{
  is_cancelled, is_paused, is_complete, is_failed, new_failures, pauses, failure_budget_exceeded,
  pause_on_failures, halt_on_failures, with_paused, ensure_cancelled_state, pause_by_user, resume,
  acknowledged, ensure_pause_state, all_nodes_processed,
}
use kangal_patch.Plan.Creation.Starts.{creation_of}
use kangal_patch.Plan.Creation.Kept.{CreatesNothing}
use kangal_patch.Plan.Creation.Steady.{
  Steady, GoesOn, go-GoesOn, stopped-GoesOn, going-GoesOn, update_status-IfOk, update_status-Sat,
  then_stop,
}

-- No more failures than the policy allows.
abbrev pub WithinBudget : ℕ → PatchPlan → Type 0
WithinBudget failed p = exceeded p.spec.failure_policy (pos (new_failures p failed)) ≡ false

-- The plan with that many failures accepted.
abbrev pub accepting : ℕ → PatchPlan → PatchPlan
accepting n plan = record plan { status = record (plan.status) { failures_acknowledged = n } }

-- The failures that are accepted once a plan that was not cancelled, nor is paused by its spec, goes on.
abbrev pub after_pause : PatchPlan → ℕ → ℕ
after_pause p failed =
    if is_paused p.status.phase then acknowledged p failed else p.status.failures_acknowledged

module _ (plan p : PatchPlan) (steady : Steady plan p) where
  pub ensure_cancelled_state-GoesOn :
      Sat CreatesNothing
        (GoesOn (λ q. (p ≡ q) × (plan.spec.cancelled ≡ false)))
        (ensure_cancelled_state p)
  unfolding ensure_cancelled_state creation_of
  ensure_cancelled_state-GoesOn =
      Sat-if (not p.spec.cancelled)
        (λ e. returns (
          going-GoesOn _ p (refl, ap (λ (s : PatchPlanSpec). s.cancelled) steady.1 ∙ not-true _ e)))
        λ _.
          Sat-if (is_cancelled p.status.phase) (λ _. returns (stopped-GoesOn _ p))
            (λ _. calls refl (λ t. then_stop plan _ (update_status-Sat plan p _)))

  pause_by_user-GoesOn : (P : PatchPlan → Type 0) → Sat CreatesNothing (GoesOn P) (pause_by_user p)
  unfolding pause_by_user
  pause_by_user-GoesOn P =
      Sat-if (is_paused p.status.phase) (λ _. returns (stopped-GoesOn P p))
        (λ _. then_stop plan P (update_status-Sat plan p _))

  resume-Steady :
      (failed : ℕ)
      → plan.spec.paused ≡ false
      → is_paused p.status.phase ≡ true
      → Sat CreatesNothing
          (GoesOn
            (λ q. Steady (accepting (after_pause p failed) plan) q × (plan.spec.paused ≡ false)))
          (resume p failed)
  unfolding resume
  resume-Steady failed running f =
      Sat-bind
        (update_status-IfOk (Steady (accepting (after_pause p failed) plan)) p _
          (steady.0, steady.1, steady.2, rw f refl))
        (λ r h. returns (go-GoesOn _ r (λ q e. (h q e, running))))

  pub ensure_pause_state-GoesOn :
      (failed : ℕ)
      → Sat CreatesNothing
          (GoesOn
            (λ q. Steady (accepting (after_pause p failed) plan) q × (plan.spec.paused ≡ false)))
          (ensure_pause_state p failed)
  unfolding ensure_pause_state
  ensure_pause_state-GoesOn failed =
      Sat-if p.spec.paused (λ _. pause_by_user-GoesOn _)
        λ e.
          let running : plan.spec.paused ≡ false =
            ap (λ (s : PatchPlanSpec). s.paused) steady.1 ∙ e in
          Sat-if (is_paused p.status.phase) (resume-Steady failed running)
            (λ f. returns (going-GoesOn _ p ((steady.0, steady.1, steady.2, rw f refl), running)))

  pause_on_failures-Sat : (failed : ℕ) → Sat CreatesNothing Any (pause_on_failures p failed)
  unfolding pause_on_failures creation_of
  pause_on_failures-Sat failed =
      Sat-if p.spec.paused (λ _. update_status-Sat plan p _)
        λ _.
          calls refl
            λ x. Sat-on_err x (λ _ _. returns tt) (λ _ _. update_status-Sat plan (with_paused p) _)

  halt_on_failures-Sat : (failed : ℕ) → Sat CreatesNothing Any (halt_on_failures p failed)
  unfolding halt_on_failures creation_of
  halt_on_failures-Sat failed =
      Sat-if (is_failed p.status.phase) (λ _. returns tt)
        (λ _. calls refl (λ t. update_status-Sat plan p _))

  pub failure_budget_exceeded-GoesOn :
      (failed : ℕ)
      → Sat CreatesNothing
          (GoesOn (λ q. Steady plan q × WithinBudget failed q))
          (failure_budget_exceeded p failed)
  unfolding failure_budget_exceeded
  failure_budget_exceeded-GoesOn failed =
      Sat-if (not (exceeded p.spec.failure_policy (pos (new_failures p failed))))
        (λ e. returns (going-GoesOn _ p (steady, not-true _ e)))
        (λ _. then_stop plan _ (
          Sat-if (pauses p.spec.failure_policy.type) (λ _. pause_on_failures-Sat failed)
            (λ _. halt_on_failures-Sat failed)))

  pub all_nodes_processed-GoesOn :
      (P : PatchPlan → Type 0) (counts : JobCounts) (total : ℕ)
      → P p
      → Sat CreatesNothing (GoesOn P) (all_nodes_processed p counts total)
  unfolding all_nodes_processed creation_of
  all_nodes_processed-GoesOn P counts total holds =
      Sat-if (ltb (counts.completed + counts.failed) total) (λ _. returns (going-GoesOn P p holds))
        λ _.
          Sat-if (is_complete p.status.phase) (λ _. returns (stopped-GoesOn P p))
            (λ _. calls refl (λ t. then_stop plan P (update_status-Sat plan p _)))
