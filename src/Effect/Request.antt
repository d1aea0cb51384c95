-- ===== src/Effect/Request.antt =====
-- What the operator asks of the world: the clock, the Kubernetes API, the Talos API, and the
-- in-memory map of the PatchJob controller. Each has its type of answers, and the theorems hold for
-- all of them.
use kangal_patch.Prelude.{ℕ, String, List}
use kangal_patch.Api.Kube.{Node, Pod, Secret, DaemonSet, Lease, LabelSelector, Result}
use kangal_patch.Api.Plan.{PatchPlan}
use kangal_patch.Api.Job.{PatchJob}
use kangal_patch.Release.{GithubRelease}

-- talos.Config.
pub record ClientConfig : Type 0 where
  pub endpoints : List String
  pub ca_cert : String
  pub client_cert : String
  pub client_key : String

-- A connected Talos client.
pub record Client : Type 0 where
  pub handle : ℕ

pub data Request : Type 0 where
  -- time.Now, as nanoseconds since Go's zero time
  now : Request
  -- sync.Map of PatchJobReconciler: LoadOrStore with the instant to store, and Delete
  load_or_store : String → ℕ → Request
  forget : String → Request
  -- reads, by name, or by namespace and name, or by selector
  get_job get_plan get_node : String → Request
  get_secret get_daemon_set : String → String → Request
  list_nodes : LabelSelector → Request
  list_pods_on_node : String → Request
  list_pods_in_namespace : String → String → Request
  list_jobs_of_plan list_child_plans : String → Request
  list_leases : String → String → Request
  list_all_plans : Request
  -- writes: a patch carries the object before and after
  patch_node : Node → Node → Request
  patch_job_status : PatchJob → PatchJob → Request
  patch_plan patch_plan_status : PatchPlan → PatchPlan → Request
  patch_daemon_set : DaemonSet → DaemonSet → Request
  evict_pod delete_pod : Pod → Request
  create_job delete_job : PatchJob → Request
  create_lease delete_lease : Lease → Request
  create_plan : PatchPlan → Request
  -- ctrl.SetControllerReference, by the names of the owner and of the owned object
  set_controller_reference : String → String → Request
  -- the API server's version and its /readyz
  server_version readyz : Request
  -- the release list of GitHub, and the manifest of an image in its registry
  list_releases : Request
  check_image : String → Request
  -- the Talos API: node addresses, then image references
  new_talos_client : ClientConfig → Request
  close_talos_client check_connection : Client → Request
  talos_version talos_schematic_id : Client → String → Request
  talos_upgrade patch_kubelet : Client → String → String → Request
  patch_control_plane : Client → String → String → String → String → Request

abbrev pub Response : Request → Type 0
Response now = ℕ
Response (load_or_store k t) = ℕ
Response (forget k) = Unit
Response (get_job n) = Result PatchJob
Response (get_plan n) = Result PatchPlan
Response (get_node n) = Result Node
Response (get_secret ns n) = Result Secret
Response (get_daemon_set ns n) = Result DaemonSet
Response (list_nodes s) = Result (List Node)
Response (list_pods_on_node n) = Result (List Pod)
Response (list_pods_in_namespace ns n) = Result (List Pod)
Response (list_jobs_of_plan p) = Result (List PatchJob)
Response (list_child_plans p) = Result (List PatchPlan)
Response (list_leases ns p) = Result (List Lease)
Response list_all_plans = Result (List PatchPlan)
Response server_version = Result String
Response list_releases = Result (List GithubRelease)
Response (new_talos_client c) = Result Client
Response (talos_version c a) = Result String
Response (talos_schematic_id c a) = Result String
Response _ = Result (Unit {0})
