-- ===== src/Witnesses/Plans.antt =====
-- The theorems of the PatchPlan controller, in a world where the plan has a node and no job, at two
-- nodes with one job, at a plan whose retention is over, and beside an older plan.
use kangal_patch.Prelude.{
  ◌≡◌, refl, ℕ, false, not, true_apart, String, ap, same, true, [], ◌∷◌, some, pos,
}
use kangal_patch.Api.Job.{completed, rebooting}
use kangal_patch.Api.Plan
use kangal_patch.Api.Plan.{PatchPlan, is_auto_update_template}
use kangal_patch.Api.Kube.{ok, err, errorf, wrap}
use kangal_patch.Effect.Trace.{Throughout, history}
use kangal_patch.Effect.Prog.{Handler, run}
use kangal_patch.Effect.Request.{list_all_plans}
use kangal_patch.Libs.{Libs}
use kangal_patch.Samples.{sample_libs, sample_plan, sample_job, worker_node, control_plane_node}
use kangal_patch.Samples.World.{sample_world}
use kangal_patch.Scheduling.{Rollout, rollout_nodes}
use kangal_patch.Plan.Summary.{observe}
use kangal_patch.Plan.Totals.{Tallies, observe-Tallies}
use kangal_patch.Plan.Retention.{apply_retention}
use kangal_patch.Plan.Leases.{sync_leases}
use kangal_patch.Plan.Mirroring.Leased.{Mirrored, AllLeased, OkOf}
use kangal_patch.Plan.Mirroring.Sync.{sync_leases-mirrors}
use kangal_patch.Plan.Preflight.Conflicts.{
  blocks_plan, comes_first, passes_by, check_conflicting_plans,
}
use kangal_patch.Plan.Preflight.Report.{empty_result}
use kangal_patch.Plan.Preflight.Blocked.{check_conflicting_plans-err}
use kangal_patch.Plan.Preflight.Ties.{blocks_plan-ties}
use kangal_patch.Plan.Purging.{Retained, apply_retention-Retained}
use kangal_patch.Samples.Fresh.{fresh_world}
use kangal_patch.Plan.Reconcile.{reconcile}
use kangal_patch.Plan.Creation.Reasons.{Reasoned}
use kangal_patch.Plan.Creation.Reconcile.{reconcile-Reasoned}

reconcile-Reasoned_example :
    Throughout
      (Reasoned sample_libs "kangal" "plan")
      (history fresh_world 0 [] (reconcile sample_libs "kangal" true "plan"))
reconcile-Reasoned_example = reconcile-Reasoned fresh_world sample_libs "kangal" true 0 "plan"

abbrev two_nodes : Rollout
two_nodes = record {
  groups =
      (record { name = "controlPlane"; concurrency = 1; nodes = control_plane_node "c" ∷ [] })
      ∷ (record { name = "workers"; concurrency = 1; nodes = worker_node "a" ∷ [] })
      ∷ [];
  selected = 2;
  unassigned = [];
}

observe-Tallies_example :
    Tallies
      (("a", sample_job completed) ∷ [])
      (rollout_nodes two_nodes)
      (observe sample_plan two_nodes (("a", sample_job completed) ∷ []) []).1
observe-Tallies_example =
    observe-Tallies sample_plan two_nodes (("a", sample_job completed) ∷ []) []

abbrev over : PatchPlan
over = record sample_plan {
  spec = record (sample_plan.spec) { retention = record { history = pos 10 } };
  status = record (sample_plan.status) { phase = Plan.completed; completion_time = some 20 };
}

apply_retention-Retained_example :
    Throughout (Retained over) (history (sample_world completed) 0 [] (apply_retention over))
apply_retention-Retained_example = apply_retention-Retained (sample_world completed) 0 over

sync_leases-mirrors_example :
    Throughout (Mirrored "kangal" sample_plan two_nodes (sample_job rebooting ∷ [])) (
      history
        (sample_world rebooting)
        0
        []
        (sync_leases "kangal" sample_plan two_nodes (sample_job rebooting ∷ [])))
    × OkOf
        (λ active.
          AllLeased "kangal" sample_plan two_nodes
            (sample_job rebooting ∷ [])
            (history
              (sample_world rebooting)
              0
              []
              (sync_leases "kangal" sample_plan two_nodes (sample_job rebooting ∷ [])))
            (sample_job rebooting ∷ []))
        (run
          (sample_world rebooting)
          0
          (sync_leases "kangal" sample_plan two_nodes (sample_job rebooting ∷ []))).0
sync_leases-mirrors_example =
    sync_leases-mirrors (sample_world rebooting) 0 "kangal" sample_plan two_nodes
      (sample_job rebooting ∷ [])

abbrev waiting : String → PatchPlan
waiting name = record sample_plan {
  name = name;
  status = record (sample_plan.status) { phase = Plan.pending };
}

blocks_plan-ties_example :
    blocks_plan (waiting "b") (waiting "a") ≡ not (blocks_plan (waiting "a") (waiting "b"))
blocks_plan-ties_example =
    blocks_plan-ties (waiting "a") (waiting "b") refl refl
      (λ e. true_apart (ap (λ s. same s "a") e))

-- No selector is valid, and an older plan waits.
abbrev strict_libs : Libs
strict_libs = record sample_libs { selector_error = λ s. some (errorf "not a selector") }

abbrev newer : PatchPlan
newer = record (waiting "b") { creation_timestamp = 5 }

abbrev crowded_world : Handler ℕ
crowded_world w list_all_plans = (ok (waiting "a" ∷ []), w)
crowded_world w r = sample_world rebooting w r

older_blocks : passes_by (waiting "a") newer ≡ false
unfolding passes_by blocks_plan comes_first is_auto_update_template
older_blocks = refl

check_conflicting_plans-err_example :
    (run crowded_world 0
      (check_conflicting_plans strict_libs newer (worker_node "a" ∷ []) empty_result)).0
    ≡ err (wrap "invalid nodeSelector" (errorf "not a selector"))
check_conflicting_plans-err_example =
    check_conflicting_plans-err strict_libs newer (waiting "a") (errorf "not a selector")
      older_blocks refl crowded_world 0 [] [] (worker_node "a" ∷ []) empty_result refl tt
