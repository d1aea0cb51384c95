-- ===== src/Plan/Creation/Reconcile.antt =====
-- controllers/patchplan_controller.go: Reconcile creates a job only for a reason.
use kangal_patch.Prelude.{
  ◌≤◌, ◌≡◌, refl, subst, Bool, false, String, List, [], Option, none, some, arith,
}
use kangal_patch.Api.Kube.{Node, LabelSelector, Error, ok, err-ne-ok}
use kangal_patch.Api.Plan.{PatchPlan, AutoUpdateSpec, is_auto_update_template}
use kangal_patch.Effect.Request.{get_plan, list_nodes, list_jobs_of_plan}
use kangal_patch.Effect.Prog.{ret, ◌>>=◌, on_err, Handler, failed_with}
use kangal_patch.Effect.Sat.{Sat, returns, Sat-bind, Sat-on_err, Any}
use kangal_patch.Effect.Trace.{
  Event, Answered, Answered-Later, earlier, just_answered, Trace, stops, asks, Trace-bind, Trace-if,
  Trace-on_err, Throughout, at_first, history, Trace-history,
}
use kangal_patch.Libs.{Libs}
use kangal_patch.NodeUtil.{list_selected, selector_or_all, list_matching_nodes}
use kangal_patch.Scheduling.{resolve}
use kangal_patch.Job.Recovery.Failing.{ResultAny}
use kangal_patch.Plan.Schedule.{fail_invalid_strategy}
use kangal_patch.Plan.Reconcile.{
  reconcile_jobs, reconcile_nodes, reconcile_plan, reconcile_kind, reconcile,
}
use kangal_patch.Plan.Creation.Starts.{creation_of, created_in}
use kangal_patch.Plan.Creation.Kept.{CreatesNothing}
use kangal_patch.Plan.Creation.Steady.{update_status-Sat}
use kangal_patch.Plan.Creation.Before.{apply_retention-GoesOn}
use kangal_patch.Plan.Creation.Templates.{reconcile_auto_update-Sat}
use kangal_patch.Plan.Creation.Going
use kangal_patch.Plan.Creation.Recorded.{record_counts-Counted}
use kangal_patch.Plan.Creation.Slots.{Slots-Later}
use kangal_patch.Plan.Creation.Counting.{sync_leases-Slots}
use kangal_patch.Plan.Creation.Reasons.{Known, Known-Later, Reasoned}

fail_invalid_strategy-Sat :
    (p : PatchPlan) (e : Error) → Sat CreatesNothing Any (fail_invalid_strategy p e)
unfolding fail_invalid_strategy
fail_invalid_strategy-Sat p e =
    Sat-bind (update_status-Sat p p _) λ x _. Sat-on_err x (λ _ _. returns tt) (λ _ _. returns tt)

module _ (lib : Libs) (namespace : String) (discovery : Bool) (name : String) where
  reconcile_jobs-Trace :
      (h : List Event) (k : Known lib name h)
      → created_in h ≤ 0
      → Trace
          (Reasoned lib namespace name)
          ResultAny
          h
          (reconcile_jobs lib namespace discovery k.plan k.rollout k.jobs)
  unfolding reconcile_jobs
  reconcile_jobs-Trace h k zero =
      Trace-bind
        (sync_leases-Slots (Going.lenient lib namespace discovery name) namespace k.plan k.rollout
          k.jobs h zero)
        λ h' x l (zero', counts).
          Trace-on_err x (λ _ _. stops tt)
            λ active is.
              Trace-bind
                (Going.step lib namespace discovery name h' zero'
                  (record_counts-Counted (Known-Later l k) active))
                λ h'' y l' (zero'', keeps).
                  Trace-on_err y (λ _ _. stops tt)
                    λ p is'.
                      let (steady, phase) = keeps p is' in
                      Going.reconcile_counted-Trace lib namespace discovery name h''
                        (Known-Later l' (Known-Later l k)) active p
                        (Slots-Later l' (counts active is)) steady phase zero''

  reconcile_nodes-Trace :
      (h : List Event) (plan : PatchPlan) (nodes : List Node)
      → Answered (get_plan name) (ok plan) h
      → is_auto_update_template plan ≡ false
      → Answered (list_nodes (selector_or_all plan.spec.node_selector)) (ok nodes) h
      → created_in h ≤ 0
      → Trace
          (Reasoned lib namespace name)
          ResultAny
          h
          (reconcile_nodes lib namespace discovery plan nodes)
  unfolding reconcile_nodes created_in creation_of
  reconcile_nodes-Trace h plan nodes read plain listed zero =
      Trace-on_err (resolve lib nodes plan.spec)
        (λ e _. Going.idle lib namespace discovery name h (fail_invalid_strategy-Sat plan e))
        λ rollout is.
          asks (Going.lenient lib namespace discovery name h (list_jobs_of_plan plan.name) refl)
            λ x.
              Trace-on_err x (λ _ _. stops tt)
                λ jobs is'.
                  reconcile_jobs-Trace _
                    (record {
                      plan = plan;
                      read_plan = earlier read;
                      no_template = plain;
                      nodes = nodes;
                      read_nodes = earlier listed;
                      rollout = rollout;
                      resolved = is;
                      jobs = jobs;
                      read_jobs = just_answered x is';
                    })
                    (omega (arith, zero))

  -- The list of nodes that list_matching_nodes returns is the answer to its request.
  list_selected-Trace :
      (h : List Event) (wanted : LabelSelector) (o : Option Error)
      → created_in h ≤ 0
      → Trace
          (Reasoned lib namespace name)
          (λ h' r.
            (created_in h' ≤ 0)
            × ((nodes : List Node) → r ≡ ok nodes → Answered (list_nodes wanted) (ok nodes) h'))
          h
          (list_selected wanted o)
  unfolding list_selected created_in creation_of
  list_selected-Trace h wanted none zero =
      asks (Going.lenient lib namespace discovery name h (list_nodes wanted) refl)
        (λ x. stops (omega (arith, zero), λ nodes e. just_answered x e))
  list_selected-Trace h wanted (some e) zero = stops (zero, λ nodes f. elim (err-ne-ok f) [ ])

  reconcile_plan-Trace :
      (h : List Event) (plan : PatchPlan)
      → Answered (get_plan name) (ok plan) h
      → is_auto_update_template plan ≡ false
      → created_in h ≤ 0
      → Trace
          (Reasoned lib namespace name)
          ResultAny
          h
          (reconcile_plan lib namespace discovery plan)
  unfolding reconcile_plan list_matching_nodes
  reconcile_plan-Trace h plan read plain zero =
      Trace-bind (Going.step lib namespace discovery name h zero (apply_retention-GoesOn plan))
        λ h' x l (zero', goes).
          Trace-on_err x (λ _ _. stops tt)
            λ s is.
              Trace-if s.0 (λ _. stops tt)
                λ on.
                  subst
                    (λ (q : PatchPlan). Trace (Reasoned lib namespace name) ResultAny h' (
                      list_matching_nodes lib.selector_error q.spec.node_selector >>= λ listed.
                      on_err listed (λ e. ret (failed_with e))
                        λ nodes. reconcile_nodes lib namespace discovery q nodes))
                    (goes s is on)
                    (Trace-bind (list_selected-Trace h' _ _ zero') λ h'' y l' (zero'', answers).
                      Trace-on_err y (λ _ _. stops tt)
                        λ nodes is'.
                          reconcile_nodes-Trace h'' plan nodes
                            (Answered-Later l' (Answered-Later l read)) plain (answers nodes is')
                            zero'')

  plain_if_none :
      (plan : PatchPlan)
      → plan.spec.target.auto_update ≡ none
      → is_auto_update_template plan ≡ false
  unfolding is_auto_update_template
  plain_if_none plan e = rw e refl

  plain_if_disabled :
      (plan : PatchPlan) (a : AutoUpdateSpec)
      → plan.spec.target.auto_update ≡ some a
      → a.enabled ≡ false
      → is_auto_update_template plan ≡ false
  unfolding is_auto_update_template
  plain_if_disabled plan a e f = rw e f

  reconcile_kind-Trace :
      (h : List Event) (plan : PatchPlan) (o : Option AutoUpdateSpec)
      → plan.spec.target.auto_update ≡ o
      → Answered (get_plan name) (ok plan) h
      → created_in h ≤ 0
      → Trace
          (Reasoned lib namespace name)
          ResultAny
          h
          (reconcile_kind lib namespace discovery plan o)
  unfolding reconcile_kind
  reconcile_kind-Trace h plan none e read zero =
      reconcile_plan-Trace h plan read (plain_if_none plan e) zero
  reconcile_kind-Trace h plan (some a) e read zero =
      Trace-if a.enabled
        (λ _.
          Going.idle lib namespace discovery name h
            (reconcile_auto_update-Sat lib namespace plan a))
        (λ f. reconcile_plan-Trace h plan read (plain_if_disabled plan a e f) zero)

  reconcile-Trace :
      Trace (Reasoned lib namespace name) ResultAny [] (reconcile lib namespace discovery name)
  unfolding reconcile created_in creation_of
  reconcile-Trace = asks (Going.lenient lib namespace discovery name [] (get_plan name) refl) λ x.
      Trace-on_err x (λ _ _. stops tt)
        λ plan is. reconcile_kind-Trace _ plan _ refl (just_answered x is) (omega arith)

module _ {W : Type 0} (world : Handler W) (lib : Libs) (namespace : String) (discovery : Bool) where
  -- In every world, a reconcile creates a job only for a plan that it has read, that is no template and
  -- neither cancelled nor paused; with fewer failed nodes than maxFailures, or than 1 if that is more,
  -- not counting the failures that are acknowledged, nor any where a plan goes on that was Paused with
  -- more failures than its Pause policy allows; after it has read the clock inside of a maintenance
  -- window; and only for a node that has no job, in a group of the rollout of the nodes it has read,
  -- with fewer occupied slots and new jobs together than the group's concurrency, when every node of
  -- each earlier group has a job in a terminal phase, the delay between nodes is over, and, for a
  -- worker in a Kubernetes upgrade, all control plane jobs are Completed. A slot of a group is occupied
  -- by a listed lease whose job is listed and not terminal, or by a job without such a lease that is
  -- neither terminal nor deleted.
  pub reconcile-Reasoned :
      (w : W) (name : String)
      → Throughout
          (Reasoned lib namespace name)
          (history world w [] (reconcile lib namespace discovery name))
  reconcile-Reasoned w name =
      Trace-history world w at_first (reconcile-Trace lib namespace discovery name)
