-- ===== src/Plan/Preflight/Targets.antt =====
-- controllers/preflight.go: the checks of the target against the nodes: downgrades and images.
use kangal_patch.Prelude.{
  Bool, true, false, not, ◌&&◌, String, List, [], ◌∷◌, ◌++◌, Option, none, some, Dict, lookup,
  insert, remove, map, is_blank, is_empty, concat, if◌then◌else◌,
}
use kangal_patch.Api.Kube.{Error, ErrorKind, image_missing, Result, ok, err}
use kangal_patch.Api.Plan.{TargetSpec}
use kangal_patch.Effect.Request.{check_image}
use kangal_patch.Effect.Prog.{Prog, ret, ask, ◌>>=◌, on_err}
use kangal_patch.Libs.{Libs, is_downgrade}
use kangal_patch.Images.{
  build_installer_image, build_kubelet_image, build_api_server_image,
  build_controller_manager_image, build_scheduler_image,
}
use kangal_patch.Job.Init.{needs_talos_upgrade}
use kangal_patch.Plan.Preflight.Report.{
  PreflightResult, fail, pass, truncated_list, max_names_in_messages, sort_texts,
}
use kangal_patch.Plan.Preflight.Nodes.{NodeProbe}

module _ (lib : Libs) where
  -- The nodes that the target would downgrade, with their versions.
  unfoldable pub talos_older : TargetSpec → List NodeProbe → List String
  talos_older target [] = []
  talos_older target (p ∷ ps) =
      let rest = talos_older target ps in
      if not (is_blank target.talos_version) && is_downgrade lib p.version target.talos_version
      then concat (p.node ∷ " (" ∷ p.version ∷ ")" ∷ []) ∷ rest
      else rest

  unfoldable pub kubernetes_older : TargetSpec → List NodeProbe → List String
  kubernetes_older target [] = []
  kubernetes_older target (p ∷ ps) =
      let rest = kubernetes_older target ps in
      if not (is_blank target.kubernetes_version)
        && is_downgrade lib p.kubernetes_version target.kubernetes_version
      then concat (p.node ∷ " (" ∷ p.kubernetes_version ∷ ")" ∷ []) ∷ rest
      else rest

unfoldable pub report_talos_older : TargetSpec → List String → PreflightResult → PreflightResult
report_talos_older target older res =
    let list = truncated_list older max_names_in_messages in
    if is_empty older
    then res
    else if target.allow_talos_downgrade
    then pass
        ("Talos downgrade to " ∷ target.talos_version ∷ " explicitly allowed for: " ∷ list ∷ []) res
    else fail "DowngradeNotSupported"
        ("target Talos " ∷ target.talos_version ∷ " is older than the running version on: " ∷ list
          ∷ "; set target.allowTalosDowngrade: true to roll back" ∷ [])
        res

unfoldable pub report_kubernetes_older :
    TargetSpec → List String → PreflightResult → PreflightResult
report_kubernetes_older target older res =
    if is_empty older
    then res
    else fail "DowngradeNotSupported"
        ("target Kubernetes "
          ∷ target.kubernetes_version
          ∷ " is older than the running version on: "
          ∷ truncated_list older max_names_in_messages
          ∷ "; Kubernetes downgrades are never allowed"
          ∷ [])
        res

-- checkNoDowngrade.
unfoldable pub check_no_downgrade :
    Libs → TargetSpec → List NodeProbe → PreflightResult → PreflightResult
check_no_downgrade lib target probes res =
    report_kubernetes_older target (kubernetes_older lib target probes)
      (report_talos_older target (talos_older lib target probes) res)

-- The installer images with the nodes that need them.
pub record Installers : Type 0 where
  pub images : Dict (List String)
  pub invalid : Bool
  pub report : PreflightResult

abbrev nodes_of : Option (List String) → List String
nodes_of none = []
nodes_of (some names) = names

-- `images[image] = append(images[image], node)`.
unfoldable pub add_image : String → String → Dict (List String) → Dict (List String)
add_image image node images =
    insert image (nodes_of (lookup image images) ++ node ∷ []) (remove image images)

unfoldable pub add_installer : NodeProbe → Result String → Installers → Installers
add_installer p (ok image) s = record s { images = add_image image p.node s.images }
add_installer p (err e) s = record s {
  invalid = true;
  report = fail "InvalidTarget" ("node " ∷ p.node ∷ ": " ∷ e.text ∷ []) s.report;
}

unfoldable pub collect_installers : TargetSpec → List NodeProbe → Installers → Installers
collect_installers target [] s = s
collect_installers target (p ∷ ps) s = collect_installers target ps (
    if not (needs_talos_upgrade target p.version p.schematic_id)
    then s
    else add_installer p (build_installer_image target p.schematic_id) s)

-- The switch on the error of a registry.
unfoldable pub installer_missing :
    String → List String → Error → ErrorKind → PreflightResult → PreflightResult
installer_missing image nodes e image_missing res =
    fail "TalosImageUnavailable"
      ("installer image "
        ∷ image
        ∷ " does not exist (needed by "
        ∷ truncated_list nodes max_names_in_messages
        ∷ ")"
        ∷ [])
      res
installer_missing image nodes e _ res =
    fail "TalosImageUnavailable" ("unable to verify installer image " ∷ image ∷ ": " ∷ e.text ∷ [])
      res

unfoldable pub check_installers :
    Dict (List String) → List String → PreflightResult → Prog PreflightResult
check_installers images [] res = ret res
check_installers images (image ∷ rest) res = do
  got ← ask (check_image image)
  check_installers images rest (
      on_err got (λ e. installer_missing image (nodes_of (lookup image images)) e e.kind res)
        λ _. pass ("installer image " ∷ image ∷ " exists" ∷ []) res)

abbrev image_names : Dict (List String) → List String
image_names images = sort_texts (map (λ entry. entry.0) images)

unfoldable pub report_installers : TargetSpec → Installers → Prog PreflightResult
report_installers target s =
    if not (is_empty s.images)
    then check_installers s.images (image_names s.images) s.report
    else if s.invalid
    then ret s.report
    else ret (pass ("no node needs the Talos upgrade to " ∷ target.talos_version ∷ []) s.report)

-- checkTalosImages.
unfoldable pub check_talos_images :
    TargetSpec → List NodeProbe → PreflightResult → Prog PreflightResult
check_talos_images target probes res =
    if is_blank target.talos_version
    then ret res
    else report_installers target
        (collect_installers target probes (record { images = []; invalid = false; report = res }))

unfoldable pub kubernetes_image_missing :
    String → Error → ErrorKind → PreflightResult → PreflightResult
kubernetes_image_missing image e image_missing res =
    fail "KubernetesImageUnavailable" ("Kubernetes image " ∷ image ∷ " does not exist" ∷ []) res
kubernetes_image_missing image e _ res =
    fail "KubernetesImageUnavailable"
      ("unable to verify Kubernetes image " ∷ image ∷ ": " ∷ e.text ∷ []) res

unfoldable pub check_images : List String → PreflightResult → Prog PreflightResult
check_images [] res = ret res
check_images (image ∷ rest) res = do
  got ← ask (check_image image)
  check_images rest (
      on_err got (λ e. kubernetes_image_missing image e e.kind res)
        λ _. pass ("Kubernetes image " ∷ image ∷ " exists" ∷ []) res)

-- checkKubernetesImages.
unfoldable pub check_kubernetes_images : TargetSpec → PreflightResult → Prog PreflightResult
check_kubernetes_images target res =
    let v = target.kubernetes_version in
    if is_blank v
    then ret res
    else check_images
        (build_kubelet_image v
          ∷ build_api_server_image v
          ∷ build_controller_manager_image v
          ∷ build_scheduler_image v
          ∷ [])
        res
