-- ===== src/Plan/AutoUpdate/Template.antt =====
-- controllers/autoupdate.go: the status of a template, and the plans that it creates.
use kangal_patch.Prelude.{
  ℕ, ◌==◌, Bool, true, false, ◌&&◌, String, [], ◌∷◌, Option, none, some, same, concat,
  if◌then◌else◌,
}
use kangal_patch.Api.Kube.{Error, ErrorKind, already_exists, Result, ok, err, wrap}
use kangal_patch.Api.Plan
use kangal_patch.Api.Plan.{AutoUpdateStatus, PatchPlan, PatchPlanStatus, PatchPhase}
use kangal_patch.Effect.Request.{create_plan, set_controller_reference}
use kangal_patch.Effect.Prog.{Prog, ret, ask, ◌>>=◌, on_err}
use kangal_patch.Plan.Status.{update_status}
use kangal_patch.Plan.Preflight.Conflicts.{phase_text}

abbrev pub new_auto_update_status : AutoUpdateStatus
new_auto_update_status = record {
  last_check_time = none;
  current_version = "";
  latest_version = "";
  pending_version = "";
  last_created_plan = "";
}

abbrev pub auto_update_or_new : Option AutoUpdateStatus → AutoUpdateStatus
auto_update_or_new none = new_auto_update_status
auto_update_or_new (some s) = s

abbrev same_time : Option ℕ → Option ℕ → Bool
same_time none none = true
same_time (some t) (some u) = t == u
same_time _ _ = false

abbrev same_auto_update : Option AutoUpdateStatus → AutoUpdateStatus → Bool
same_auto_update none t = false
same_auto_update (some s) t =
    same_time s.last_check_time t.last_check_time
    && (same s.current_version t.current_version
        && (same s.latest_version t.latest_version
            && (same s.pending_version t.pending_version
                && same s.last_created_plan t.last_created_plan)))

-- equality.Semantic.DeepEqual, of the fields that updateTemplateStatus sets.
unfoldable pub template_unchanged : PatchPlanStatus → PatchPhase → String → AutoUpdateStatus → Bool
template_unchanged s phase message auto =
    same (phase_text s.phase) (phase_text phase)
    && (same s.message message && same_auto_update s.auto_update auto)

-- updateTemplateStatus, for the autoUpdate status that the mutation leaves.
unfoldable pub update_template_status :
    PatchPlan → PatchPhase → String → AutoUpdateStatus → Prog (Result PatchPlan)
update_template_status plan phase message auto =
    if template_unchanged plan.status phase message auto
    then ret (ok plan)
    else update_status plan
        (record (plan.status) { phase = phase; message = message; auto_update = some auto })

-- The same with nothing to mutate.
abbrev pub say : PatchPlan → PatchPhase → String → Prog (Result PatchPlan)
say plan phase message =
    update_template_status plan phase message (auto_update_or_new plan.status.auto_update)

abbrev pub new_status : PatchPlanStatus
new_status = record {
  phase = Plan.unset;
  auto_update = none;
  target_talos_version = "";
  target_kubernetes_version = "";
  kube_proxy_upgraded = false;
  total_nodes = 0;
  pending_nodes = 0;
  running_nodes = 0;
  completed_nodes = 0;
  failed_nodes = 0;
  groups = [];
  failures_acknowledged = 0;
  history_purged = false;
  last_node_scheduled_at = none;
  message = "";
  start_time = none;
  completion_time = none;
  preflight_condition = none;
}

-- LabelParentPlan.
abbrev pub label_parent_plan : String
label_parent_plan = "kangalpatch.ozalp.dk/parent"

-- The child of createChildPlan.
unfoldable pub child_plan : PatchPlan → String → PatchPlan
child_plan parent version = record {
  name = concat (parent.name ∷ "-" ∷ version ∷ []);
  generation = 0;
  creation_timestamp = 0;
  deletion_timestamp = none;
  labels = (label_parent_plan, parent.name) ∷ [];
  spec = record (parent.spec) {
    target = record (parent.spec.target) { auto_update = none; talos_version = version };
    paused = false;
    cancelled = false;
  };
  status = new_status;
}

unfoldable pub child_refused : String → Error → ErrorKind → Result (String × Bool)
child_refused name e already_exists = ok (name, false)
child_refused name e _ = err (wrap (concat ("failed to create PatchPlan " ∷ name ∷ [])) e)

-- createChildPlan: the child's name, and whether it is new.
unfoldable pub create_child_plan : PatchPlan → String → Prog (Result (String × Bool))
create_child_plan parent version =
    let child = child_plan parent version in
    do
      owned ← ask (set_controller_reference parent.name child.name)
      on_err owned (λ e. ret (err e))
          λ _. do
            created ← ask (create_plan child)
            on_err created (λ e. ret (child_refused child.name e e.kind))
                λ _. ret (ok (child.name, true))

-- phaseOrPending.
unfoldable pub phase_or_pending : PatchPhase → PatchPhase
phase_or_pending Plan.unset = Plan.pending
phase_or_pending p = p
