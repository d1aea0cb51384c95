-- ===== src/Plan/Creation/Going.antt =====
-- controllers/patchplan_controller.go: the steps of Reconcile after the counts.
use mathlib.Core.Option.{none-ne-some}
use kangal_patch.Prelude.{
  ℕ, ◌≤◌, ◌≡◌, subst, Dict, refl, sym, ap, ◌∙◌, pos, ltb_ℤ, Bool, false, String, List, not, arith,
}
use kangal_patch.Api.Kube.{Result, ok, err}
use kangal_patch.Api.Plan.{PatchPlan, PatchPlanSpec}
use kangal_patch.Effect.Request.{Request, now}
use kangal_patch.Effect.Prog.{Prog}
use kangal_patch.Effect.Sat.{Sat, returns, calls, Sat-bind, Sat-on_err, Any}
use kangal_patch.Effect.Trace.{
  Event, Answered-Later, Later-before, latest, Trace, stops, asks, Trace-bind, Trace-if,
  Trace-on_err, Trace-imp, Sat-Trace,
}
use kangal_patch.Libs.{Libs}
use kangal_patch.Maintenance.{is_in_maintenance_window}
use kangal_patch.Job.Recovery.Failing.{ResultAny}
use kangal_patch.Plan.Jobs.{index_by_node}
use kangal_patch.Plan.Summary.{observe}
use kangal_patch.Plan.Reconcile.{
  wait_for_window, schedule_in_window, reconcile_progress, reconcile_checked, reconcile_counted,
}
use kangal_patch.Plan.Creation.Starts.{creation_of, created_in}
use kangal_patch.Plan.Creation.Kept.{CreatesNothing, Uncounted}
use kangal_patch.Plan.Creation.Nodes.{schedule_nodes-Trace}
use kangal_patch.Plan.Creation.Steady.{Steady, set_message-Steady}
use kangal_patch.Plan.Creation.Policies.{
  WithinBudget, accepting, ensure_cancelled_state-GoesOn, ensure_pause_state-GoesOn,
  failure_budget_exceeded-GoesOn, all_nodes_processed-GoesOn,
}
use kangal_patch.Plan.Creation.Before.{terminal_result-Sat, ensure_kube_proxy-Waits}
use kangal_patch.Plan.Creation.Preflight.{ensure_preflight-Checked}
use kangal_patch.Plan.Creation.Reasons.{Known, Known-Later, Reasoned, accepted_plan}
use kangal_patch.Plan.Creation.Budget.{counts_at, counted_plan, within_budget, after_pause-accepted}
use kangal_patch.Plan.Creation.Slots.{Slots, Slots-Later}

wait_for_window-Sat : (p : PatchPlan) (r : Result ℕ) → Sat CreatesNothing Any (wait_for_window p r)
unfolding wait_for_window creation_of
wait_for_window-Sat p (err e) =
    Sat-bind (set_message-Steady p p _ (refl, refl, refl, refl))
      λ x _. Sat-on_err x (λ _ _. returns tt) (λ _ _. returns tt)
wait_for_window-Sat p (ok t) =
    Sat-bind (set_message-Steady p p _ (refl, refl, refl, refl))
      λ x _. Sat-on_err x (λ _ _. returns tt) (λ _ _. calls refl (λ _. returns tt))

module _ (lib : Libs) (namespace : String) (discovery : Bool) (name : String) where
  pub lenient : (h : List Event) (r : Request) → CreatesNothing r → Reasoned lib namespace name h r
  lenient h r e j f = elim (none-ne-some j (sym e ∙ f)) [ ]

  -- A step that creates nothing may come at any time.
  pub idle :
      {A : Type 0} {m : Prog A} (h : List Event)
      → Sat CreatesNothing Any m
      → Trace (Reasoned lib namespace name) ResultAny h m
  idle h s = Sat-Trace lenient (λ _ _ _. tt) h s

  -- A step that creates nothing, before any job is created.
  pub step :
      {A : Type 0} {Q : A → Type 0} {m : Prog A} (h : List Event)
      → created_in h ≤ 0
      → Sat CreatesNothing Q m
      → Trace (Reasoned lib namespace name) (λ h' a. (created_in h' ≤ 0) × Q a) h m
  step h zero s = Uncounted lenient h 0 zero s

  -- What is known at `h`, and why the plan is not stopped.
  record Going (h : List Event) (p : PatchPlan) : Type 0 where
    known : Known lib name h
    not_cancelled : known.plan.spec.cancelled ≡ false
    not_paused : known.plan.spec.paused ≡ false
    active : Dict ℕ
    slots : Slots namespace known.plan known.rollout known.jobs active h
    steady : Steady (accepted_plan known) p
    none_yet : created_in h ≤ 0

  schedule_in_window-Trace :
      (h : List Event) (p : PatchPlan) (g : Going h p)
      → WithinBudget (counts_at g.known g.active) p
      → Trace (Reasoned lib namespace name) ResultAny h (
          schedule_in_window lib namespace discovery p g.known.rollout
            (index_by_node g.known.jobs)
            g.active)
  unfolding schedule_in_window creation_of created_in
  schedule_in_window-Trace h p g budget = asks (lenient h now refl) λ t.
      Trace-if (is_in_maintenance_window p.spec.maintenance t).0
        (λ inside.
          Trace-imp
            (λ h' r l scheduled j is. record {
              known = Known-Later (Later-before l) g.known;
              not_cancelled = g.not_cancelled;
              not_paused = g.not_paused;
              within_budget = within_budget g.known g.active p g.steady budget;
              clock = t;
              read_clock = Answered-Later l latest;
              in_window =
                  ap (λ (s : PatchPlanSpec). (is_in_maintenance_window s.maintenance t).0)
                    g.steady.1
                  ∙ inside;
              active = g.active;
              slots = Slots-Later (Later-before l) g.slots;
              current = p;
              kept = g.steady;
              starts = scheduled j is;
            })
            (schedule_nodes-Trace p g.known.rollout (index_by_node g.known.jobs) g.active namespace
              _ (omega (arith, g.none_yet))))
        λ _. asks (lenient _ now refl) λ u. idle _ (wait_for_window-Sat p _)

  reconcile_progress-Trace :
      (h : List Event) (p : PatchPlan) (g : Going h p)
      → Trace (Reasoned lib namespace name) ResultAny h (
          reconcile_progress lib namespace discovery p g.known.rollout
            (index_by_node g.known.jobs)
            g.active
            (observe g.known.plan g.known.rollout (index_by_node g.known.jobs) g.active).0)
  unfolding reconcile_progress
  reconcile_progress-Trace h p g =
      Trace-bind
        (step h g.none_yet (
          failure_budget_exceeded-GoesOn (accepted_plan g.known) p g.steady
            (counts_at g.known g.active)))
        λ h' x l (zero, goes).
          Trace-on_err x (λ _ _. stops tt)
            λ s is.
              Trace-if s.0 (λ _. idle h' (terminal_result-Sat s.1))
                λ on.
                  let (steady, budget) = goes s is on in
                  Trace-bind
                    (step h' zero (
                      all_nodes_processed-GoesOn (accepted_plan g.known) s.1 steady
                        (λ q.
                          Steady (accepted_plan g.known) q
                          × WithinBudget (counts_at g.known g.active) q)
                        _ _ (steady, budget)))
                    λ h'' y l' (zero', goes').
                      Trace-on_err y (λ _ _. stops tt)
                        λ t is'.
                          Trace-if t.0 (λ _. idle h'' (terminal_result-Sat t.1))
                            λ on'.
                              let (steady', budget') = goes' t is' on' in
                              schedule_in_window-Trace h'' t.1
                                (record {
                                  known = Known-Later l' (Known-Later l g.known);
                                  active = g.active;
                                  slots = Slots-Later l' (Slots-Later l g.slots);
                                  not_cancelled = g.not_cancelled;
                                  not_paused = g.not_paused;
                                  steady = steady';
                                  none_yet = zero';
                                })
                                budget'

  reconcile_checked-Trace :
      (h : List Event) (p : PatchPlan) (g : Going h p)
      → Trace (Reasoned lib namespace name) ResultAny h (
          reconcile_checked lib namespace discovery p g.known.rollout
            (index_by_node g.known.jobs)
            g.active
            (observe g.known.plan g.known.rollout (index_by_node g.known.jobs) g.active).0)
  unfolding reconcile_checked
  reconcile_checked-Trace h p g =
      Trace-bind
        (step h g.none_yet (
          ensure_preflight-Checked lib namespace discovery (accepted_plan g.known) p g.known.rollout
            (index_by_node g.known.jobs) g.steady))
        λ h' x l (zero, checked).
          Trace-on_err x (λ _ _. stops tt)
            λ c is.
              Trace-if (not c.0) (λ _. stops tt)
                λ _.
                  Trace-bind
                    (step h' zero (
                      ensure_kube_proxy-Waits (accepted_plan g.known) c.1 (checked c is)
                        g.known.rollout (index_by_node g.known.jobs)))
                    λ h'' y l' (zero', waits).
                      Trace-on_err y (λ _ _. stops tt)
                        λ w is'.
                          Trace-if (ltb_ℤ (pos 0) w.0) (λ _. stops tt)
                            λ _. reconcile_progress-Trace h'' w.1 (record {
                              known = Known-Later l' (Known-Later l g.known);
                              active = g.active;
                              slots = Slots-Later l' (Slots-Later l g.slots);
                              not_cancelled = g.not_cancelled;
                              not_paused = g.not_paused;
                              steady = waits w is';
                              none_yet = zero';
                            })

  pub reconcile_counted-Trace :
      (h : List Event) (k : Known lib name h) (active : Dict ℕ) (p : PatchPlan)
      → Slots namespace k.plan k.rollout k.jobs active h
      → Steady (counted_plan k) p
      → p.status.phase ≡ k.plan.status.phase
      → created_in h ≤ 0
      → Trace (Reasoned lib namespace name) ResultAny h (
          reconcile_counted lib namespace discovery p k.rollout
            (index_by_node k.jobs)
            active
            (observe k.plan k.rollout (index_by_node k.jobs) active).0)
  unfolding reconcile_counted
  reconcile_counted-Trace h k active p slots steady phase zero =
      Trace-bind (step h zero (ensure_cancelled_state-GoesOn (counted_plan k) p steady))
        λ h' x l (zero', goes).
          Trace-on_err x (λ _ _. stops tt)
            λ s is.
              Trace-if s.0 (λ _. idle h' (terminal_result-Sat s.1))
                λ on.
                  let (same_plan, not_cancelled) = goes s is on in
                  let steady' = subst (Steady (counted_plan k)) same_plan steady in
                  let phase' : s.1.status.phase ≡ k.plan.status.phase =
                    sym (ap (λ (q : PatchPlan). q.status.phase) same_plan) ∙ phase in
                  Trace-bind
                    (step h' zero'
                      (ensure_pause_state-GoesOn (counted_plan k) s.1 steady' (counts_at k active)))
                    λ h'' y l' (zero'', goes').
                      Trace-on_err y (λ _ _. stops tt)
                        λ t is'.
                          Trace-if t.0 (λ _. stops tt)
                            λ on'.
                              let (steady'', not_paused) = goes' t is' on' in
                              reconcile_checked-Trace h'' t.1 (record {
                                known = Known-Later l' (Known-Later l k);
                                not_cancelled = not_cancelled;
                                not_paused = not_paused;
                                active = active;
                                slots = Slots-Later l' (Slots-Later l slots);
                                steady =
                                    subst (λ n. Steady (accepting n k.plan) t.1)
                                      (after_pause-accepted k active s.1 steady' phase') steady'';
                                none_yet = zero'';
                              })
