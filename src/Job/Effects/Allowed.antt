-- ===== src/Job/Effects/Allowed.antt =====
-- controllers/patchjob_controller.go: the phases of a job as a diagram, and the requests that a
-- reconcile of a job may make in each of them.
use kangal_patch.Prelude.{◌≡◌, ◌⊎◌, true, false, String, is_some, has_key}
use kangal_patch.Api.Kube.{Node, ok}
use kangal_patch.Api.Job.{
  PatchJob, JobPhase, unset, pending, draining, upgrading, rebooting, upgrading_kubernetes,
  validating_kubernetes, completed, failed, is_terminal,
}
use kangal_patch.Effect.Request.{
  Request, now, load_or_store, forget, get_job, get_plan, get_node, get_secret, list_pods_on_node,
  list_pods_in_namespace, patch_node, patch_job_status, evict_pod, delete_pod, new_talos_client,
  close_talos_client, talos_version, talos_schematic_id, talos_upgrade, patch_kubelet,
  patch_control_plane,
}
use kangal_patch.Images.{
  build_installer_image, build_kubelet_image, build_api_server_image,
  build_controller_manager_image, build_scheduler_image,
}
use kangal_patch.Drain.{cordoned_by_annotation, cordoned, uncordoned}
use kangal_patch.Drain.Pods.{should_evict_pod}

-- The diagram of the phases. A job is finished at once, drained and rebooted for a Talos upgrade,
-- and patched in place for a Kubernetes upgrade; `stays` is a new message or start time.
pub data Moves (a b : JobPhase) : Type 0 where
  finished_at_once : a ≡ unset → b ≡ completed → Moves a b
  needs_drain : a ≡ unset → b ≡ pending → Moves a b
  needs_no_drain : a ≡ unset → b ≡ upgrading_kubernetes → Moves a b
  drain_begun : a ≡ pending → b ≡ draining → Moves a b
  drained : a ≡ draining → b ≡ upgrading → Moves a b
  upgrade_begun : a ≡ upgrading → b ≡ rebooting → Moves a b
  rebooted : a ≡ rebooting → b ≡ completed → Moves a b
  kubernetes_next : a ≡ rebooting → b ≡ upgrading_kubernetes → Moves a b
  kubernetes_patched : a ≡ upgrading_kubernetes → b ≡ validating_kubernetes → Moves a b
  kubernetes_finished : a ≡ validating_kubernetes → b ≡ completed → Moves a b
  gave_up : is_terminal a ≡ false → b ≡ failed → Moves a b
  stays : (a ≡ pending) ⊎ ((a ≡ rebooting) ⊎ (a ≡ validating_kubernetes)) → b ≡ a → Moves a b

-- The two are versions of one job: a reconcile changes nothing but the status.
abbrev pub SameJob : PatchJob → PatchJob → Type 0
SameJob a b = (a.name ≡ b.name) × (a.spec ≡ b.spec)

-- A status patch from `o` to `m` while the job `j` is reconciled.
pub record StatusWrite (j o m : PatchJob) : Type 0 where
  pub of_job : SameJob j o
  pub from : o.status.phase ≡ j.status.phase
  pub keeps : SameJob o m
  pub moves : Moves o.status.phase m.status.phase
  pub dated : is_terminal m.status.phase ≡ true → is_some m.status.completion_time ≡ true

-- The phases in which a node may be given back: no reboot is under way that it would cut short.
abbrev pub MayRelease : JobPhase → Type 0
MayRelease p =
    (p ≡ unset) ⊎ ((p ≡ rebooting) ⊎ ((p ≡ pending) ⊎ ((p ≡ draining) ⊎ (p ≡ upgrading))))

-- A node is cordoned only if it was schedulable, and then marked; it is made schedulable only if it
-- bears the mark. Cordons of an administrator are kept.
pub data NodeWrite (phase : JobPhase) (n m : Node) : Type 0 where
  cordons : phase ≡ pending → n.unschedulable ≡ false → m ≡ cordoned n → NodeWrite phase n m
  releases :
      MayRelease phase
      → has_key cordoned_by_annotation n.annotations ≡ true
      → m ≡ uncordoned n
      → NodeWrite phase n m

-- What a reconcile of the job `j` may ask for, the operator running in `namespace`.
abbrev pub Allowed : String → PatchJob → Request → Type 0
Allowed namespace j now = Unit
Allowed namespace j (load_or_store k t) = k ≡ j.name
Allowed namespace j (forget k) = k ≡ j.name
Allowed namespace j (get_job k) = k ≡ j.name
Allowed namespace j (get_plan n) = n ≡ j.spec.patch_plan_ref
Allowed namespace j (get_node n) = n ≡ j.spec.node_name
Allowed namespace j (get_secret ns n) = ns ≡ namespace
Allowed namespace j (list_pods_on_node n) = n ≡ j.spec.node_name
Allowed namespace j (list_pods_in_namespace ns n) = ns ≡ "kube-system"
Allowed namespace j (patch_node n m) = NodeWrite j.status.phase n m
Allowed namespace j (patch_job_status o m) = StatusWrite j o m
Allowed namespace j (evict_pod p) = (j.status.phase ≡ pending) × (should_evict_pod p ≡ true)
Allowed namespace j (delete_pod p) = (j.status.phase ≡ pending) × (should_evict_pod p ≡ true)
Allowed namespace j (new_talos_client c) = Unit
Allowed namespace j (close_talos_client c) = Unit
Allowed namespace j (talos_version c a) = Unit
Allowed namespace j (talos_schematic_id c a) = j.spec.target.source ≡ "factory"
Allowed namespace j (talos_upgrade c a image) =
    (j.status.phase ≡ upgrading)
    × ((schematic : String) × (build_installer_image j.spec.target schematic ≡ ok image))
Allowed namespace j (patch_kubelet c a image) =
    (j.status.phase ≡ upgrading_kubernetes)
    × (image ≡ build_kubelet_image j.spec.target.kubernetes_version)
Allowed namespace j (patch_control_plane c a api_server manager scheduler) =
    (j.status.phase ≡ upgrading_kubernetes)
    × (api_server ≡ build_api_server_image j.spec.target.kubernetes_version)
    × (manager ≡ build_controller_manager_image j.spec.target.kubernetes_version)
    × (scheduler ≡ build_scheduler_image j.spec.target.kubernetes_version)
Allowed namespace j _ = ⊥
