-- ===== src/Plan/Policy.antt =====
-- controllers/patchplan_controller.go: cancellation, pause, the failure policy and completion. Each
-- says whether scheduling must stop.
use kangal_patch.Prelude.{
  ℕ, ◌+◌, ◌-◌, pos, ltb, Bool, true, false, not, ◌&&◌, ◌∷◌, [], some, concat, show_nat, show_int,
  if◌then◌else◌,
}
use kangal_patch.Api.Kube.{Result, ok, err, wrap}
use kangal_patch.Api.Plan
use kangal_patch.Api.Plan.{
  PatchPlan, PatchPlanStatus, PatchPhase, FailurePolicyType, halt, pause, exceeded,
}
use kangal_patch.Effect.Request.{now, patch_plan}
use kangal_patch.Effect.Prog.{Prog, ret, ask, ◌>>=◌, on_err}
use kangal_patch.Plan.Status.{update_status}
use kangal_patch.Plan.Summary.{JobCounts}

-- Whether to stop, with the plan.
abbrev pub Stop : Type 0
Stop = Bool × PatchPlan

-- `if err := r.updateStatus(…); err != nil { return …, err }` and what follows it.
unfoldable pub then_say : Bool → Result PatchPlan → Result Stop
then_say stop (ok plan) = ok (stop, plan)
then_say stop (err e) = err e

abbrev pub is_paused : PatchPhase → Bool
is_paused Plan.paused = true
is_paused _ = false

abbrev pub is_cancelled : PatchPhase → Bool
is_cancelled Plan.cancelled = true
is_cancelled _ = false

abbrev pub is_failed : PatchPhase → Bool
is_failed Plan.failed = true
is_failed _ = false

abbrev pub is_complete : PatchPhase → Bool
is_complete Plan.completed = true
is_complete _ = false

abbrev pub pauses : FailurePolicyType → Bool
pauses halt = false
pauses pause = true

-- newFailures: the subtraction on ℕ stops at 0, as the source's `max` does.
unfoldable pub new_failures : PatchPlan → ℕ → ℕ
new_failures plan failed = failed - plan.status.failures_acknowledged

-- pauseOnFailures.
unfoldable pub paused_by_policy : PatchPlan → ℕ → PatchPlanStatus
paused_by_policy plan failed_count = record (plan.status) {
  phase = Plan.paused;
  message = concat (
      "Paused by failure policy: "
      ∷ show_nat failed_count
      ∷ " failed node(s). Inspect or delete the failed PatchJobs, then set spec.paused=false to resume"
      ∷ []);
}

abbrev pub with_paused : PatchPlan → PatchPlan
with_paused plan = record plan { spec = record (plan.spec) { paused = true } }

unfoldable pub pause_on_failures : PatchPlan → ℕ → Prog (Result PatchPlan)
pause_on_failures plan failed_count =
    if plan.spec.paused then update_status plan (paused_by_policy plan failed_count) else do
      patched ← ask (patch_plan plan (with_paused plan))
      on_err patched (λ e. ret (err (wrap "failed to pause PatchPlan" e)))
          λ _. update_status (with_paused plan) (paused_by_policy plan failed_count)

-- The Halt policy.
unfoldable pub halt_on_failures : PatchPlan → ℕ → Prog (Result PatchPlan)
halt_on_failures plan failed_count = if is_failed plan.status.phase then ret (ok plan) else do
  t ← ask now
  update_status plan (record (plan.status) {
    phase = Plan.failed;
    message = concat (
        "failure policy Halt: "
        ∷ show_nat failed_count
        ∷ " failed node(s), maxFailures "
        ∷ show_int plan.spec.failure_policy.max_failures
        ∷ []);
    completion_time = some t;
  })

-- failureBudgetExceeded.
unfoldable pub failure_budget_exceeded : PatchPlan → ℕ → Prog (Result Stop)
failure_budget_exceeded plan failed_count =
    if not (exceeded plan.spec.failure_policy (pos (new_failures plan failed_count)))
    then ret (ok (false, plan))
    else do
      updated ←
          (if pauses plan.spec.failure_policy.type
            then pause_on_failures plan failed_count
            else halt_on_failures plan failed_count)
      ret (then_say true updated)

-- ensureCancelledState.
unfoldable pub ensure_cancelled_state : PatchPlan → Prog (Result Stop)
ensure_cancelled_state plan =
    if not plan.spec.cancelled
    then ret (ok (false, plan))
    else if is_cancelled plan.status.phase
    then ret (ok (true, plan))
    else do
      t ← ask now
      updated ← update_status plan (record (plan.status) {
        phase = Plan.cancelled;
        message = "Patching cancelled by user";
        completion_time = some t;
      })
      ret (then_say true updated)

-- Resuming accepts the failures for which the policy has paused the plan.
unfoldable pub acknowledged : PatchPlan → ℕ → ℕ
acknowledged plan failed_count =
    if pauses plan.spec.failure_policy.type
      && exceeded plan.spec.failure_policy (pos (new_failures plan failed_count))
    then failed_count
    else plan.status.failures_acknowledged

unfoldable pub resume : PatchPlan → ℕ → Prog (Result Stop)
resume plan failed_count = do
  updated ← update_status plan (record (plan.status) {
    phase = Plan.in_progress;
    message = "Resuming patching operation";
    failures_acknowledged = acknowledged plan failed_count;
  })
  ret (then_say false updated)

unfoldable pub pause_by_user : PatchPlan → Prog (Result Stop)
pause_by_user plan = if is_paused plan.status.phase then ret (ok (true, plan)) else do
  updated ←
      update_status plan
        (record (plan.status) { phase = Plan.paused; message = "Patching paused by user" })
  ret (then_say true updated)

-- ensurePauseState.
unfoldable pub ensure_pause_state : PatchPlan → ℕ → Prog (Result Stop)
ensure_pause_state plan failed_count =
    if plan.spec.paused
    then pause_by_user plan
    else if is_paused plan.status.phase
    then resume plan failed_count
    else ret (ok (false, plan))

-- allNodesProcessed.
unfoldable pub all_nodes_processed : PatchPlan → JobCounts → ℕ → Prog (Result Stop)
all_nodes_processed plan counts total =
    if ltb (counts.completed + counts.failed) total
    then ret (ok (false, plan))
    else if is_complete plan.status.phase
    then ret (ok (true, plan))
    else do
      t ← ask now
      updated ← update_status plan (record (plan.status) {
        phase = Plan.completed;
        message = "all nodes processed";
        completion_time = some t;
      })
      ret (then_say true updated)
