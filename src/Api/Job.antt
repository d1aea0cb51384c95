-- ===== src/Api/Job.antt =====
-- api/v1alpha1/patchjob_types.go: the PatchJob resource. `unset` is the empty phase of a new job.
use kangal_patch.Prelude.{ℕ, Bool, true, false, String, Option, Dict}
use kangal_patch.Api.Plan.{TargetSpec}

pub data JobPhase : Type 0 where
  unset pending draining upgrading rebooting upgrading_kubernetes : JobPhase
  validating_kubernetes completed failed : JobPhase

-- PatchJobPhase.IsTerminal.
unfoldable pub is_terminal : JobPhase → Bool
is_terminal completed = true
is_terminal failed = true
is_terminal _ = false

pub record PatchJobSpec : Type 0 where
  pub node_name : String
  pub target : TargetSpec
  pub patch_plan_ref : String
  pub group : String

pub record PatchJobStatus : Type 0 where
  pub phase : JobPhase
  pub message : String
  pub start_time : Option ℕ
  pub completion_time : Option ℕ
  pub drain_start_time : Option ℕ
  pub reboot_start_time : Option ℕ
  pub kubernetes_upgrade_start_time : Option ℕ
  pub pre_upgrade_boot_id : String
  pub current_talos_version : String
  pub target_talos_version : String
  pub current_kubernetes_version : String
  pub target_kubernetes_version : String

pub record PatchJob : Type 0 where
  pub name : String
  pub deletion_timestamp : Option ℕ
  pub labels : Dict String
  pub spec : PatchJobSpec
  pub status : PatchJobStatus
