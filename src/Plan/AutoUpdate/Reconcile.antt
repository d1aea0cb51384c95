-- ===== src/Plan/AutoUpdate/Reconcile.antt =====
-- controllers/autoupdate.go: reconcileAutoUpdate.
use Prim.Native.String
use kangal_patch.Prelude.{
  ℕ, ℤ, pos, sub_ℕ, ◌-ℤ◌, ltb_ℤ, min_ℤ, max_ℤ, add_duration, minutes, Bool, true, false, String,
  List, [], ◌∷◌, Option, none, some, same, concat, show_duration, is_blank, if◌then◌else◌,
}
use kangal_patch.Api.Kube.{Result, ok, err, wrap}
use kangal_patch.Api.Plan
use kangal_patch.Api.Plan.{AutoUpdateSpec, AutoUpdateStatus, PatchPlan, PatchPhase}
use kangal_patch.Effect.Request.{now, list_child_plans}
use kangal_patch.Effect.Prog.{Prog, ret, ask, ◌>>=◌, on_err, Outcome, failed_with, requeue}
use kangal_patch.Libs.{Libs}
use kangal_patch.Release.{Release, Selection}
use kangal_patch.Calendar.{rfc3339_text}
use kangal_patch.Plan.Status.{requeue_when_paused}
use kangal_patch.Plan.Policy.{is_complete}
use kangal_patch.Plan.Preflight.Conflicts.{phase_text}
use kangal_patch.Plan.AutoUpdate.Template.{
  auto_update_or_new, say, update_template_status, create_child_plan, phase_or_pending,
}
use kangal_patch.Plan.AutoUpdate.Check.{check_for_release}

abbrev pub min_auto_update_check_interval : ℤ
min_auto_update_check_interval = minutes 1

abbrev pub requeue_auto_update_retry : ℤ
requeue_auto_update_retry = minutes 5

abbrev pub waiting_message_prefix : String
waiting_message_prefix = "Waiting for PatchPlan"

-- strings.HasPrefix.
unfoldable pub has_prefix : String → String → Bool
has_prefix s p = same (String.slice s 0 (String.len p)) p

-- `return ctrl.Result{RequeueAfter: d}, err`.
unfoldable pub outcome_of : ℤ → Result PatchPlan → Outcome
outcome_of d (ok plan) = requeue d
outcome_of d (err e) = record { requeue_after = d; error = some e }

abbrev pub is_watching : PatchPhase → Bool
is_watching Plan.watching = true
is_watching _ = false

-- The first child that is not Completed.
unfoldable pub unfinished_child : List PatchPlan → Option PatchPlan
unfinished_child [] = none
unfinished_child (c ∷ cs) = if is_complete c.status.phase then unfinished_child cs else some c

abbrev pub last_check_of : Option AutoUpdateStatus → Option ℕ
last_check_of none = none
last_check_of (some s) = s.last_check_time

unfoldable pub watch : PatchPlan → Prog (Result PatchPlan)
watch plan =
    if is_watching plan.status.phase
    then ret (ok plan)
    else say plan Plan.watching "Watching for new Talos releases"

unfoldable pub wait_for_check : PatchPlan → ℤ → ℕ → ℤ → Prog Outcome
wait_for_check plan interval last wait =
    if has_prefix plan.status.message waiting_message_prefix
    then (do
      updated ←
          say plan Plan.watching
            (concat ("Next release check at " ∷ rfc3339_text (add_duration last interval) ∷ []))
      ret (outcome_of wait updated))
    else ret (requeue wait)

module _ (lib : Libs) where
  open lib use {Version}

  -- Version.String.
  unfoldable pub version_string : Version → String
  version_string v = concat ("v" ∷ lib.version_text v ∷ [])

  -- versionString.
  unfoldable pub release_string : Option (Release lib) → String
  release_string none = ""
  release_string (some r) = version_string r.version

  -- The last status patch of a check; `created` is blank if no plan was.
  unfoldable pub record_check :
      PatchPlan → ℤ → Version → Selection lib → String → String → Prog Outcome
  record_check plan interval current result created message = do
    t ← ask now
    let old = auto_update_or_new plan.status.auto_update
    updated ← update_template_status plan Plan.watching message (record old {
      last_check_time = some t;
      current_version = version_string current;
      latest_version = release_string result.latest;
      pending_version = release_string result.pending;
      last_created_plan = if is_blank created then old.last_created_plan else created;
    })
    ret (outcome_of interval updated)

  unfoldable pub pending_message : AutoUpdateSpec → Version → Option (Release lib) → String
  pending_message spec current none = "Up to date"
  pending_message spec current (some r) = concat (
      "Talos "
      ∷ version_string r.version
      ∷ " is newer than "
      ∷ version_string current
      ∷ " but not eligible until "
      ∷ rfc3339_text (add_duration r.published_at spec.min_release_age)
      ∷ " (minReleaseAge "
      ∷ show_duration spec.min_release_age
      ∷ ")"
      ∷ [])

  unfoldable pub created_message : String → Bool → Version → String → String
  created_message name true current version =
      concat ("Created PatchPlan " ∷ name ∷ " for Talos " ∷ version ∷ [])
  created_message name false current version = concat (
      "PatchPlan "
      ∷ name
      ∷ " already exists but nodes still run Talos "
      ∷ version_string current
      ∷ [])

  -- The switch on the result of the check, by its target.
  unfoldable pub apply_selection :
      PatchPlan → AutoUpdateSpec → ℤ → Version → Selection lib → Option (Release lib) → Prog Outcome
  apply_selection plan spec interval current result none =
      record_check plan interval current result "" (pending_message spec current result.pending)
  apply_selection plan spec interval current result (some r) = do
    made ← create_child_plan plan (version_string r.version)
    on_err made (λ e. ret (failed_with e))
        λ child.
          record_check plan interval current result (if child.1 then child.0 else "")
            (created_message child.0 child.1 current (version_string r.version))

  unfoldable pub run_check : String → PatchPlan → AutoUpdateSpec → ℤ → Prog Outcome
  run_check namespace plan spec interval = do
    checked ← check_for_release lib namespace plan spec
    on_err checked
        (λ e. do
          updated ← say plan Plan.watching (concat ("Release check failed: " ∷ e.text ∷ []))
          ret (outcome_of (min_ℤ interval requeue_auto_update_retry) updated))
        λ found. apply_selection plan spec interval found.0 found.1 found.1.target

  -- The wait for the next check, by the time of the last one.
  unfoldable pub check_when_due : String → PatchPlan → AutoUpdateSpec → ℤ → Option ℕ → Prog Outcome
  check_when_due namespace plan spec interval none = run_check namespace plan spec interval
  check_when_due namespace plan spec interval (some last) = do
    t ← ask now
    if ltb_ℤ (pos 0) (interval -ℤ sub_ℕ t last)
        then wait_for_check plan interval last (interval -ℤ sub_ℕ t last)
        else run_check namespace plan spec interval

  unfoldable pub after_children :
      String → PatchPlan → AutoUpdateSpec → ℤ → Option PatchPlan → Prog Outcome
  after_children namespace plan spec interval none =
      check_when_due namespace plan spec interval (last_check_of plan.status.auto_update)
  after_children namespace plan spec interval (some child) = do
    updated ← say plan Plan.watching (
        concat (
          waiting_message_prefix
          ∷ " "
          ∷ child.name
          ∷ " ("
          ∷ phase_text (phase_or_pending child.status.phase)
          ∷ ") to complete before creating another"
          ∷ []))
    ret (outcome_of interval updated)

  -- reconcileAutoUpdate.
  unfoldable pub reconcile_auto_update : String → PatchPlan → AutoUpdateSpec → Prog Outcome
  reconcile_auto_update namespace plan spec =
      let interval = max_ℤ spec.check_interval min_auto_update_check_interval in
      if plan.spec.cancelled
      then (do
        updated ← say plan Plan.cancelled "Auto-update cancelled by user"
        ret (outcome_of (pos 0) updated))
      else if plan.spec.paused
      then (do
        updated ← say plan Plan.paused "Auto-update paused by user"
        ret (outcome_of requeue_when_paused updated))
      else do
        watching ← watch plan
        on_err watching (λ e. ret (failed_with e))
            λ plan'. do
              listed ← ask (list_child_plans plan'.name)
              on_err listed (λ e. ret (failed_with (wrap "failed to list child PatchPlans" e)))
                  λ children.
                    after_children namespace plan' spec interval (unfinished_child children)
