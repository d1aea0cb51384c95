-- ===== src/Samples.antt =====
-- A small cluster on which the theorems are tried out: one plan, one node, one job, and a world that
-- answers every request in the same way.
pub mod World
pub mod Fresh
use kangal_patch.Prelude.{
  ℕ, zero, suc, ◌+◌, pos, Bool, true, false, String, List, [], ◌∷◌, Option, none, some, Dict,
  lookup, ltb, minutes,
}
use kangal_patch.Api.Kube.{Node, Error, Result, ok, err, errorf, internal_ip, LabelSelector}
use kangal_patch.Api.Plan
use kangal_patch.Api.Plan.{TargetSpec, PatchPlanSpec, PatchPlanStatus, PatchPlan, GroupSpec, halt}
use kangal_patch.Api.Job.{PatchJob, JobPhase, PatchJobSpec, PatchJobStatus}
use kangal_patch.Libs.{Libs}

-- Versions by number: the table holds the versions that the samples name.
abbrev sample_versions : Dict ℕ
sample_versions = ("v1.12.0", 1) ∷ ("v1.13.0", 2) ∷ ("v1.31.0", 3) ∷ ("v1.32.0", 4) ∷ []

abbrev sample_parse : String → Result ℕ
sample_parse s = elim (lookup s sample_versions) [
  | none ↦ err (errorf "no version")
  | some v ↦ ok v
]

abbrev pub sample_libs : Libs
sample_libs = record {
  Version = ℕ;
  parse_semantic = sample_parse;
  parse_generic = sample_parse;
  less_than = λ a b. ltb a b;
  greater_than = λ a b. ltb b a;
  major = λ v. 1;
  minor = λ v. v;
  pre_release = λ v. "";
  version_text = λ v. "1";
  selector_error = λ s. none;
  selects = λ s labels. true;
  format_selector = λ o. "<none>";
  label_value_problems = λ s. [];
  retry_steps = 4;
}

abbrev pub worker_node : String → Node
worker_node name = record {
  name = name;
  labels = [];
  annotations = [];
  unschedulable = false;
  addresses = (record { type = internal_ip; address = "10.0.0.1" }) ∷ [];
  conditions = (record { is_ready_type = true; is_true = true }) ∷ [];
  kubelet_version = "v1.31.0";
  boot_id = "boot-2";
}

abbrev pub control_plane_node : String → Node
control_plane_node name = record (worker_node name) {
  labels = ("node-role.kubernetes.io/control-plane", "") ∷ [];
}

abbrev pub sample_target : TargetSpec
sample_target = record {
  auto_update = none;
  talos_version = "v1.13.0";
  kubernetes_version = "";
  allow_talos_downgrade = false;
  source = "ghcr";
  installer = "";
  schematic_id = "";
  secure_boot = false;
}

abbrev pub sample_plan_spec : PatchPlanSpec
sample_plan_spec = record {
  target = sample_target;
  node_selector = none;
  groups = [];
  strategy = record { order = [] };
  failure_policy = record { type = halt; max_failures = pos 1 };
  retention = record { history = pos 0 };
  delay_between_nodes = pos 0;
  respect_pdbs = true;
  evict_unmanaged_pods = false;
  drain_timeout = pos 0;
  reboot_timeout = pos 0;
  kubernetes_upgrade_timeout = pos 0;
  paused = false;
  cancelled = false;
  talos_config = record {
    endpoints = [];
    secret_ref = some (record { name = "talos"; namespace = "kangal" });
  };
  maintenance = none;
}

abbrev pub sample_plan : PatchPlan
sample_plan = record {
  name = "plan";
  generation = 1;
  creation_timestamp = 0;
  deletion_timestamp = none;
  labels = [];
  spec = sample_plan_spec;
  status = record {
    phase = Plan.in_progress;
    auto_update = none;
    target_talos_version = "";
    target_kubernetes_version = "";
    kube_proxy_upgraded = false;
    total_nodes = 1;
    pending_nodes = 0;
    running_nodes = 1;
    completed_nodes = 0;
    failed_nodes = 0;
    groups = [];
    failures_acknowledged = 0;
    history_purged = false;
    last_node_scheduled_at = none;
    message = "";
    start_time = none;
    completion_time = none;
    preflight_condition = none;
  };
}

abbrev pub sample_job : JobPhase → PatchJob
sample_job phase = record {
  name = "plan-node";
  deletion_timestamp = none;
  labels = [];
  spec = record {
    node_name = "node";
    target = sample_target;
    patch_plan_ref = "plan";
    group = "workers";
  };
  status = record {
    phase = phase;
    message = "";
    start_time = some 1;
    completion_time = none;
    drain_start_time = none;
    reboot_start_time = none;
    kubernetes_upgrade_start_time = none;
    pre_upgrade_boot_id = "boot-1";
    current_talos_version = "v1.12.0";
    target_talos_version = "v1.13.0";
    current_kubernetes_version = "v1.31.0";
    target_kubernetes_version = "v1.31.0";
  };
}
