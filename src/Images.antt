-- ===== src/Images.antt =====
-- internal/patchutil/version.go: the image references of a target.
use kangal_patch.Prelude.{String, ◌||◌, ◌∷◌, [], same, is_blank, concat, if◌then◌else◌}
use kangal_patch.Api.Kube.{Result, ok, err, errorf}
use kangal_patch.Api.Plan.{TargetSpec}

-- BuildInstallerImage.
unfoldable pub build_installer_image : TargetSpec → String → Result String
build_installer_image t node_schematic_id =
    let schematic_id = if is_blank t.schematic_id then node_schematic_id else t.schematic_id in
    let suffix = if t.secure_boot then "-secureboot" else "" in
    if same t.source "ghcr" || is_blank t.source
    then ok (concat ("ghcr.io/siderolabs/installer:" ∷ t.talos_version ∷ []))
    else if is_blank schematic_id
    then err (
        errorf
          "schematicID is required when source=factory and the node's current schematic is unknown")
    else if is_blank t.installer
    then err (errorf "installer is required when source=factory")
    else ok (
        concat (
          "factory.talos.dev/" ∷ t.installer ∷ "-installer" ∷ suffix ∷ "/" ∷ schematic_id ∷ ":"
          ∷ t.talos_version ∷ []))

unfoldable pub build_kubelet_image : String → String
build_kubelet_image v = concat ("ghcr.io/siderolabs/kubelet:" ∷ v ∷ [])

unfoldable pub build_api_server_image : String → String
build_api_server_image v = concat ("registry.k8s.io/kube-apiserver:" ∷ v ∷ [])

unfoldable pub build_controller_manager_image : String → String
build_controller_manager_image v = concat ("registry.k8s.io/kube-controller-manager:" ∷ v ∷ [])

unfoldable pub build_scheduler_image : String → String
build_scheduler_image v = concat ("registry.k8s.io/kube-scheduler:" ∷ v ∷ [])

unfoldable pub build_kube_proxy_image : String → String
build_kube_proxy_image v = concat ("registry.k8s.io/kube-proxy:" ∷ v ∷ [])
