-- ===== src/Api/Plan.antt =====
-- api/v1alpha1/patchplan_types.go: the PatchPlan resource. Fields that a CRD schema restricts to an
-- enumeration are data types; `unset` is the empty phase of a plan that was never reconciled.
use kangal_patch.Prelude.{
  ℕ, ◌*◌, ℤ, pos, Bool, false, String, List, Option, none, some, Dict, leb_ℤ, max_ℤ, if◌then◌else◌,
}
use kangal_patch.Api.Kube.{LabelSelector}

pub record AutoUpdateSpec : Type 0 where
  pub enabled : Bool
  pub allow : String
  pub check_interval : ℤ
  pub min_release_age : ℤ

pub record AutoUpdateStatus : Type 0 where
  pub last_check_time : Option ℕ
  pub current_version : String
  pub latest_version : String
  pub pending_version : String
  pub last_created_plan : String

pub record TargetSpec : Type 0 where
  pub auto_update : Option AutoUpdateSpec
  pub talos_version : String
  pub kubernetes_version : String
  pub allow_talos_downgrade : Bool
  pub source : String
  pub installer : String
  pub schematic_id : String
  pub secure_boot : Bool

pub record GroupSpec : Type 0 where
  pub selector : Option LabelSelector
  pub concurrency : ℤ

pub record StrategySpec : Type 0 where
  pub order : List String

pub data FailurePolicyType : Type 0 where
  halt pause : FailurePolicyType

pub record FailurePolicySpec : Type 0 where
  pub type : FailurePolicyType
  pub max_failures : ℤ

-- FailurePolicySpec.Exceeded.
unfoldable pub exceeded : FailurePolicySpec → ℤ → Bool
exceeded f new_failures = leb_ℤ (max_ℤ f.max_failures (pos 1)) new_failures

abbrev pub default_history_retention : ℤ
default_history_retention = pos (7 * 86400000000000)

pub record RetentionSpec : Type 0 where
  pub history : ℤ

pub record MaintenanceWindow : Type 0 where
  pub days : List String
  pub start_time : String
  pub end_time : String
  pub disabled : Bool

pub record MaintenanceSpec : Type 0 where
  pub exclude_dates : List String
  pub windows : List MaintenanceWindow

pub record SecretReference : Type 0 where
  pub name : String
  pub namespace : String

pub record TalosConfig : Type 0 where
  pub endpoints : List String
  pub secret_ref : Option SecretReference

pub record PatchPlanSpec : Type 0 where
  pub target : TargetSpec
  pub node_selector : Option LabelSelector
  pub groups : Dict GroupSpec
  pub strategy : StrategySpec
  pub failure_policy : FailurePolicySpec
  pub retention : RetentionSpec
  pub delay_between_nodes : ℤ
  pub respect_pdbs : Bool
  pub evict_unmanaged_pods : Bool
  pub drain_timeout : ℤ
  pub reboot_timeout : ℤ
  pub kubernetes_upgrade_timeout : ℤ
  pub paused : Bool
  pub cancelled : Bool
  pub talos_config : TalosConfig
  pub maintenance : Option MaintenanceSpec

pub data PatchPhase : Type 0 where
  unset pending preflighting in_progress paused cancelled completed failed watching : PatchPhase

pub record GroupStatus : Type 0 where
  pub name : String
  pub concurrency : ℕ
  pub active : ℕ
  pub total : ℕ
  pub pending : ℕ
  pub running : ℕ
  pub completed : ℕ
  pub failed : ℕ

-- The PreflightPassed condition, the only one that the operator sets.
pub record Condition : Type 0 where
  pub status : Bool
  pub reason : String
  pub message : String
  pub observed_generation : ℕ

pub record PatchPlanStatus : Type 0 where
  pub phase : PatchPhase
  pub auto_update : Option AutoUpdateStatus
  pub target_talos_version : String
  pub target_kubernetes_version : String
  pub kube_proxy_upgraded : Bool
  pub total_nodes : ℕ
  pub pending_nodes : ℕ
  pub running_nodes : ℕ
  pub completed_nodes : ℕ
  pub failed_nodes : ℕ
  pub groups : List GroupStatus
  pub failures_acknowledged : ℕ
  pub history_purged : Bool
  pub last_node_scheduled_at : Option ℕ
  pub message : String
  pub start_time : Option ℕ
  pub completion_time : Option ℕ
  pub preflight_condition : Option Condition

pub record PatchPlan : Type 0 where
  pub name : String
  pub generation : ℕ
  pub creation_timestamp : ℕ
  pub deletion_timestamp : Option ℕ
  pub labels : Dict String
  pub spec : PatchPlanSpec
  pub status : PatchPlanStatus

-- PatchPlan.HistoryRetention.
unfoldable pub history_retention : PatchPlan → ℤ
history_retention p =
    if leb_ℤ p.spec.retention.history (pos 0)
    then default_history_retention
    else p.spec.retention.history

-- PatchPlan.IsAutoUpdateTemplate.
unfoldable pub is_auto_update_template : PatchPlan → Bool
is_auto_update_template p = elim p.spec.target.auto_update [ none ↦ false | some a ↦ a.enabled ]
