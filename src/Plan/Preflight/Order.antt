-- ===== src/Plan/Preflight/Order.antt =====
-- controllers/preflight.go: the checks of the rollout and of the API server.
use kangal_patch.Prelude.{
  ltb, ◌==◌, Bool, not, ◌&&◌, ◌||◌, String, List, [], ◌∷◌, concat, join, show_nat, length, is_blank,
  is_empty, if◌then◌else◌,
}
use kangal_patch.Api.Plan.{TargetSpec}
use kangal_patch.Effect.Request.{server_version, readyz}
use kangal_patch.Effect.Prog.{Prog, ret, ask, ◌>>=◌, on_err}
use kangal_patch.Libs.{Libs}
use kangal_patch.Scheduling.{Group, Rollout, control_plane_nodes}
use kangal_patch.Scheduling.Checks.{check_control_plane_quorum, check_control_plane_first}
use kangal_patch.Plan.Preflight.Report.{PreflightResult, fail, pass}

unfoldable pub describe_groups : List Group → List String
describe_groups [] = []
describe_groups (g ∷ gs) =
    concat (
      g.name
      ∷ ": "
      ∷ show_nat (length g.nodes)
      ∷ " node(s), concurrency "
      ∷ show_nat g.concurrency
      ∷ [])
    ∷ describe_groups gs

-- describeRollout.
unfoldable pub describe_rollout : Rollout → String
describe_rollout r = join "; " (describe_groups r.groups)

-- checkUpgradeOrder.
unfoldable pub check_upgrade_order : TargetSpec → Rollout → PreflightResult → PreflightResult
check_upgrade_order target rollout res =
    if is_blank target.kubernetes_version
    then res
    else on_err (check_control_plane_first rollout)
        (λ e.
          fail "ControlPlaneOrderRequired"
            ("the requested Kubernetes upgrade requires control plane nodes to be upgraded before worker nodes, but "
              ∷ e.text ∷ "; no PatchJobs have been created" ∷ [])
            res)
        λ _. pass ("strategy.order upgrades control plane nodes before worker nodes" ∷ []) res

-- CheckControlPlaneQuorum in runPreflight.
unfoldable pub check_quorum : Rollout → PreflightResult → PreflightResult
check_quorum rollout res =
    on_err (check_control_plane_quorum rollout)
      (λ e. fail "ControlPlaneQuorumRisk" (e.text ∷ []) res) λ _. res

module _ (lib : Libs) where
  open lib use {Version, parse_generic, major, minor}

  -- The minor version of the kubelet would be newer than that of the API server.
  unfoldable pub outruns : Version → Version → Bool
  outruns target server =
      ltb (major server) (major target)
      || ((major target == major server) && ltb (minor server) (minor target))

  -- checkKubeletSkew.
  unfoldable pub check_kubelet_skew : String → String → PreflightResult → PreflightResult
  check_kubelet_skew target_version server res =
      on_err (parse_generic target_version)
        (λ e.
          fail "InvalidTarget"
            ("invalid kubernetesVersion \"" ∷ target_version ∷ "\": " ∷ e.text ∷ []) res)
        λ t.
          on_err (parse_generic server)
            (λ e.
              fail "KubernetesAPIUnhealthy"
                ("unparsable API server version \"" ∷ server ∷ "\": " ∷ e.text ∷ []) res)
            λ s.
              if outruns t s
              then fail "KubeletNewerThanAPIServer"
                  ("target Kubernetes " ∷ target_version ∷ " is newer than the running API server "
                    ∷ server ∷ " and no control plane node is in the rollout to upgrade it first"
                    ∷ [])
                  res
              else pass
                  ("target Kubernetes " ∷ target_version ∷ " does not outrun the API server "
                    ∷ server ∷ [])
                  res

  -- checkAPIServerSkew; `discovery` tells whether there is a discovery client.
  unfoldable pub check_api_server_skew :
      Bool → TargetSpec → Rollout → PreflightResult → Prog PreflightResult
  check_api_server_skew discovery target rollout res =
      if is_blank target.kubernetes_version
        || (not discovery || not (is_empty (control_plane_nodes rollout)))
      then ret res
      else do
        got ← ask server_version
        ret (
            on_err got
              (λ e.
                fail "KubernetesAPIUnhealthy"
                  ("unable to read the Kubernetes API server version: " ∷ e.text ∷ []) res)
              λ v. check_kubelet_skew target.kubernetes_version v res)

-- checkKubernetesAPI.
unfoldable pub check_kubernetes_api : Bool → PreflightResult → Prog PreflightResult
check_kubernetes_api discovery res = if not discovery then ret res else do
  got ← ask readyz
  ret (
      on_err got
        (λ e.
          fail "KubernetesAPIUnhealthy" ("Kubernetes API /readyz check failed: " ∷ e.text ∷ []) res)
        λ _. pass ("Kubernetes API /readyz is healthy" ∷ []) res)
