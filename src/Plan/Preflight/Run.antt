-- ===== src/Plan/Preflight/Run.antt =====
-- controllers/preflight.go: runPreflight and ensurePreflight.
use kangal_patch.Prelude.{
  ◌==◌, Bool, true, false, not, ◌&&◌, String, List, [], ◌∷◌, Option, none, some, Dict, map,
  is_empty, concat, join, show_nat, length, if◌then◌else◌,
}
use kangal_patch.Api.Kube.{Node, Result, ok, err}
use kangal_patch.Api.Plan
use kangal_patch.Api.Plan.{PatchPlan, PatchPlanSpec, PatchPhase, Condition}
use kangal_patch.Api.Job.{PatchJob}
use kangal_patch.Effect.Prog.{Prog, ret, ◌>>=◌, on_err}
use kangal_patch.Libs.{Libs}
use kangal_patch.Scheduling.{Rollout, rollout_nodes, order_of}
use kangal_patch.Plan.Status.{update_status}
use kangal_patch.Plan.Policy.{Stop, then_say}
use kangal_patch.Plan.Preflight.Report.{
  PreflightFailure, PreflightResult, empty_result, fail, pass, truncated_list,
  max_names_in_messages,
}
use kangal_patch.Plan.Preflight.Order.{
  describe_rollout, check_upgrade_order, check_quorum, check_api_server_skew, check_kubernetes_api,
}
use kangal_patch.Plan.Preflight.Conflicts.{check_conflicting_plans}
use kangal_patch.Plan.Preflight.Nodes.{check_talos_nodes}
use kangal_patch.Plan.Preflight.Targets.{
  check_no_downgrade, check_talos_images, check_kubernetes_images,
}
use kangal_patch.Plan.Preflight.Versions.{check_version_compatibility}

-- What is reported of a rollout with nodes.
unfoldable pub describe_nodes : Rollout → List Node → PreflightResult
describe_nodes rollout nodes =
    let res = pass ("rollout plan: " ∷ describe_rollout rollout ∷ []) (
      pass
        (show_nat (length nodes)
          ∷ " node(s) selected: "
          ∷ truncated_list (map (λ n. n.name) nodes) max_names_in_messages
          ∷ [])
        empty_result) in
    if is_empty rollout.unassigned
    then res
    else pass
        (show_nat (length rollout.unassigned)
          ∷ " selected node(s) match no group in strategy.order and are left untouched: "
          ∷ truncated_list rollout.unassigned max_names_in_messages
          ∷ [])
        res

-- The first of the failures, for the reason of the condition.
abbrev pub first_reason : List PreflightFailure → String
first_reason [] = "PreflightPassed"
first_reason (f ∷ fs) = f.reason

abbrev pub is_fresh : PatchPhase → Bool
is_fresh Plan.unset = true
is_fresh Plan.pending = true
is_fresh _ = false

-- A condition that holds for this generation of the plan.
abbrev pub already_passed : PatchPlan → Option Condition → Bool
already_passed plan none = false
already_passed plan (some c) = c.status && (c.observed_generation == plan.generation)

-- The result of the checks, as ensurePreflight records it.
unfoldable pub record_result : PatchPlan → PreflightResult → Prog (Result Stop)
record_result plan res =
    let messages = join "; " (map (λ f. f.message) res.failures) in
    let passed = join "; " res.passed in
    let clean = is_empty res.failures in
    do
      updated ← update_status plan (record (plan.status) {
        phase = if clean then Plan.pending else Plan.failed;
        message =
            if clean
            then concat ("Preflight passed: " ∷ passed ∷ [])
            else concat ("Preflight failed: " ∷ messages ∷ []);
        preflight_condition = some (record {
          status = clean;
          reason = first_reason res.failures;
          message = if clean then passed else messages;
          observed_generation = plan.generation;
        });
      })
      ret (then_say clean updated)

unfoldable pub mark_preflighting : PatchPlan → Prog (Result PatchPlan)
mark_preflighting plan =
    if is_fresh plan.status.phase
    then update_status plan
        (record (plan.status) { phase = Plan.preflighting; message = "Running preflight checks" })
    else ret (ok plan)

module _ (lib : Libs) (namespace : String) (discovery : Bool) where
  unfoldable pub no_nodes : PatchPlanSpec → Rollout → PreflightResult
  no_nodes spec rollout =
      if rollout.selected == 0
      then fail "NoNodesSelected"
          ("nodeSelector " ∷ lib.format_selector spec.node_selector ∷ " matched no nodes" ∷ [])
          empty_result
      else fail "NoNodesSelected"
          ("none of the "
            ∷ show_nat rollout.selected
            ∷ " selected node(s) matches a group in strategy.order ["
            ∷ join ", " (order_of spec)
            ∷ "]"
            ∷ [])
          empty_result

  -- The checks of the nodes and of the images, from the API server on.
  unfoldable pub check_world :
      PatchPlan → List Node → PreflightResult → Prog (Result PreflightResult)
  check_world plan nodes res = do
    ready ← check_kubernetes_api discovery res
    (probes, probed) ← check_talos_nodes namespace plan nodes ready
    installers ←
        check_talos_images plan.spec.target probes
          (check_no_downgrade lib plan.spec.target probes probed)
    images ← check_kubernetes_images plan.spec.target installers
    ret (ok (check_version_compatibility lib plan.spec.target probes images))

  -- runPreflight.
  unfoldable pub run_preflight : PatchPlan → Rollout → Prog (Result PreflightResult)
  run_preflight plan rollout =
      let nodes = rollout_nodes rollout in
      if is_empty nodes then ret (ok (no_nodes plan.spec rollout)) else do
        skewed ←
            check_api_server_skew lib discovery plan.spec.target rollout
              (check_upgrade_order plan.spec.target rollout (describe_nodes rollout nodes))
        checked ← check_conflicting_plans lib plan nodes (check_quorum rollout skewed)
        on_err checked (λ e. ret (err e)) λ res. check_world plan nodes res

  -- ensurePreflight: whether scheduling may go on, with the plan.
  unfoldable pub ensure_preflight : PatchPlan → Rollout → Dict PatchJob → Prog (Result Stop)
  ensure_preflight plan rollout jobs =
      if not (is_empty jobs)
      then ret (ok (true, plan))
      else if already_passed plan plan.status.preflight_condition
      then ret (ok (true, plan))
      else do
        marked ← mark_preflighting plan
        on_err marked (λ e. ret (err e))
            λ plan'. do
              checked ← run_preflight plan' rollout
              on_err checked (λ e. ret (err e)) λ res. record_result plan' res
