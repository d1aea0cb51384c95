-- ===== src/Job/Recovery/Recovered.antt =====
-- controllers/patchjob_controller.go: when a node that was upgraded has recovered.
use kangal_patch.Prelude.{
  ◌≡◌, ◌⊎◌, inl, inr, ◌==◌, Bool, true, false, String, List, [], length, same, is_blank,
}
use kangal_patch.Api.Kube.{Node, Pod, ok}
use kangal_patch.Api.Job.{PatchJob, JobPhase, rebooting, failed}
use kangal_patch.Effect.Request.{
  Request, Client, patch_node, patch_job_status, talos_version, get_node, list_pods_in_namespace,
}
use kangal_patch.Effect.Trace.{Event, Answered, Answered-Later, Later}
use kangal_patch.NodeUtil.{is_control_plane}
use kangal_patch.Job.Common.{found_components}
use kangal_patch.Job.Upgrading.{is_ready}
use kangal_patch.Job.Recovery.Reached.{Reached, Reached-Later}

-- The pods of the node were listed, and the three components of a control plane are ready.
pub record ComponentsUp (name version : String) (h : List Event) : Type 0 where
  pub pods : List Pod
  pub listed : Answered (list_pods_in_namespace "kube-system" name) (ok pods) h
  pub all_up : (length (found_components version pods []) == 3) ≡ true

pub ComponentsUp-Later :
    {name version : String} {h h' : List Event}
    → Later h h'
    → ComponentsUp name version h
    → ComponentsUp name version h'
ComponentsUp-Later l c = record {
  pods = c.pods;
  listed = Answered-Later l c.listed;
  all_up = c.all_up;
}

-- The node was read in a good state after the reboot: with another boot id than before the upgrade,
-- if that is known, ready, and with its control plane up.
pub record Healthy (name boot_id : String) (h : List Event) : Type 0 where
  pub node : Node
  pub read : Answered (get_node name) (ok node) h
  pub rebooted : (is_blank boot_id ≡ true) ⊎ (same node.boot_id boot_id ≡ false)
  pub ready : is_ready node.conditions false ≡ true
  pub components : (is_control_plane node ≡ false) ⊎ ComponentsUp node.name "" h

-- The node of the job, asked at its own address with the Talos client of the job's plan, answered with
-- the target version of Talos, and is healthy.
pub record Recovered (j : PatchJob) (h : List Event) : Type 0 where
  pub client : Client
  pub address : String
  pub asked : Node
  pub reached : Reached j client asked address h
  pub at_target : Answered (talos_version client address) (ok j.status.target_talos_version) h
  pub healthy : Healthy j.spec.node_name j.status.pre_upgrade_boot_id h

pub Recovered-Later :
    {j : PatchJob} {h h' : List Event} → Later h h' → Recovered j h → Recovered j h'
Recovered-Later l r = record {
  client = r.client;
  address = r.address;
  asked = r.asked;
  reached = Reached-Later l r.reached;
  at_target = Answered-Later l r.at_target;
  healthy = record {
    node = r.healthy.node;
    read = Answered-Later l r.healthy.read;
    rebooted = r.healthy.rebooted;
    ready = r.healthy.ready;
    components = components_later l r.healthy.components;
  };
}
  where
    components_later :
        {A : Type 0} {name version : String} {h h' : List Event}
        → Later h h'
        → A ⊎ ComponentsUp name version h
        → A ⊎ ComponentsUp name version h'
    components_later l (inl a) = inl a
    components_later l (inr c) = inr (ComponentsUp-Later l c)

-- The phases that a job may be recorded in while its node is still to recover.
abbrev pub unrecovered : JobPhase → Bool
unrecovered rebooting = true
unrecovered failed = true
unrecovered _ = false

-- A node is written to, and the job leaves Rebooting other than by a failure, only after recovery.
abbrev pub Guarded : PatchJob → List Event → Request → Type 0
Guarded j h (patch_node a b) = Recovered j h
Guarded j h (patch_job_status o m) = unrecovered m.status.phase ≡ false → Recovered j h
Guarded j h _ = Unit
