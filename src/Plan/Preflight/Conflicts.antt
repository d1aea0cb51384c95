-- ===== src/Plan/Preflight/Conflicts.antt =====
-- controllers/preflight.go: other plans on the same nodes.
use Prim.Native.String.{compare}
use Prim.Native.Nat.{Ordering}
use kangal_patch.Prelude.{
  ℕ, suc, ltb, ◌==◌, Bool, true, false, not, ◌||◌, String, List, [], ◌∷◌, same, is_some, is_empty,
  member, map, keep, if◌then◌else◌,
}
use kangal_patch.Api.Kube.{Node, Result, ok, err, wrap}
use kangal_patch.Api.Plan
use kangal_patch.Api.Plan.{PatchPlan, PatchPhase, is_auto_update_template}
use kangal_patch.Effect.Request.{list_all_plans}
use kangal_patch.Effect.Prog.{Prog, ret, ask, ◌>>=◌, on_err}
use kangal_patch.Libs.{Libs}
use kangal_patch.NodeUtil.{list_matching_nodes}
use kangal_patch.Scheduling.{resolve, rollout_nodes}
use kangal_patch.Plan.Preflight.Report.{
  PreflightResult, fail, pass, truncated_list, max_names_in_messages,
}

-- `%s` of a phase.
unfoldable pub phase_text : PatchPhase → String
phase_text Plan.unset = ""
phase_text Plan.pending = "Pending"
phase_text Plan.preflighting = "Preflighting"
phase_text Plan.in_progress = "InProgress"
phase_text Plan.paused = "Paused"
phase_text Plan.cancelled = "Cancelled"
phase_text Plan.completed = "Completed"
phase_text Plan.failed = "Failed"
phase_text Plan.watching = "Watching"

-- `s < t` on strings.
abbrev pub text_less : String → String → Bool
text_less s t = elim (compare s t) [ Ordering.lt ↦ true | _ ↦ false ]

-- The tie of two plans that have not started.
unfoldable pub comes_first : PatchPlan → PatchPlan → Bool
comes_first other plan =
    if not (other.creation_timestamp == plan.creation_timestamp)
    then ltb other.creation_timestamp plan.creation_timestamp
    else text_less other.name plan.name

abbrev pub blocks_in : PatchPhase → PatchPlan → PatchPlan → Bool
blocks_in Plan.in_progress other plan = true
blocks_in Plan.paused other plan = true
blocks_in Plan.unset other plan = comes_first other plan
blocks_in Plan.pending other plan = comes_first other plan
blocks_in Plan.preflighting other plan = comes_first other plan
blocks_in _ other plan = false

-- blocksPlan.
unfoldable pub blocks_plan : PatchPlan → PatchPlan → Bool
blocks_plan other plan = blocks_in other.status.phase other plan

-- The names in `other` that are among mine.
unfoldable pub overlap : List String → List Node → List String
overlap mine nodes = map (λ n. n.name) (keep (λ n. member n.name mine) nodes)

unfoldable pub report_overlap : PatchPlan → List String → ℕ × PreflightResult → ℕ × PreflightResult
report_overlap other names (conflicts, res) = if is_empty names then (conflicts, res) else (
  suc conflicts,
  fail "PlanConflict"
      ("PatchPlan "
        ∷ other.name
        ∷ " is "
        ∷ phase_text other.status.phase
        ∷ " and targets the same node(s): "
        ∷ truncated_list names max_names_in_messages
        ∷ [])
      res,
)

-- A plan that needs no look: itself, one that is going, a template, or one that does not block.
unfoldable pub passes_by : PatchPlan → PatchPlan → Bool
passes_by other plan =
    (same other.name plan.name
      || (is_some other.deletion_timestamp || is_auto_update_template other))
    || not (blocks_plan other plan)

module _ (lib : Libs) where
  -- The loop over the plans, with the number of conflicts.
  unfoldable pub check_plans :
      PatchPlan
      → List String
      → List PatchPlan
      → ℕ × PreflightResult
      → Prog (Result (ℕ × PreflightResult))
  check_plans plan mine [] state = ret (ok state)
  check_plans plan mine (other ∷ others) state =
      if passes_by other plan then check_plans plan mine others state else do
        listed ← list_matching_nodes lib.selector_error other.spec.node_selector
        on_err listed (λ e. ret (err e))
            λ nodes.
              on_err (resolve lib nodes other.spec) (λ _. check_plans plan mine others state)
                λ rollout.
                  check_plans plan mine others
                    (report_overlap other (overlap mine (rollout_nodes rollout)) state)

  abbrev pub no_conflict : ℕ × PreflightResult → PreflightResult
  no_conflict (conflicts, res) =
      if conflicts == 0
      then pass ("no other active PatchPlan targets the same nodes" ∷ []) res
      else res

  -- checkConflictingPlans.
  unfoldable pub check_conflicting_plans :
      PatchPlan → List Node → PreflightResult → Prog (Result PreflightResult)
  check_conflicting_plans plan nodes res = do
    listed ← ask list_all_plans
    on_err listed (λ e. ret (err (wrap "failed to list PatchPlans" e)))
        λ plans. do
          checked ← check_plans plan (map (λ n. n.name) nodes) plans (0, res)
          on_err checked (λ e. ret (err e)) λ state. ret (ok (no_conflict state))
