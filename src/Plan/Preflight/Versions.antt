-- ===== src/Plan/Preflight/Versions.antt =====
-- controllers/preflight.go: checkVersionCompatibility.
use kangal_patch.Prelude.{
  Bool, ◌&&◌, ◌||◌, String, List, [], ◌∷◌, any, same, is_blank, concat, if◌then◌else◌,
}
use kangal_patch.Api.Kube.{Error, ErrorKind, unknown_talos}
use kangal_patch.Api.Plan.{TargetSpec}
use kangal_patch.Effect.Prog.{on_err}
use kangal_patch.Libs.{Libs}
use kangal_patch.SupportMatrix.{validate_kubernetes_version}
use kangal_patch.Job.Init.{first_non_empty}
use kangal_patch.Plan.Preflight.Report.{PreflightResult, fail, pass, text_first}
use kangal_patch.Plan.Preflight.Nodes.{NodeProbe}

-- versionPair.
pub record VersionPair : Type 0 where
  pub talos : String
  pub kubernetes : String

-- versionPair.String.
unfoldable pub pair_text : VersionPair → String
pair_text v = concat ("Talos " ∷ v.talos ∷ " + Kubernetes " ∷ v.kubernetes ∷ [])

pub record Transition : Type 0 where
  pub current : VersionPair
  pub desired : VersionPair

abbrev pub same_pair : VersionPair → VersionPair → Bool
same_pair v w = same v.talos w.talos && same v.kubernetes w.kubernetes

abbrev pub same_transition : Transition → Transition → Bool
same_transition s t = same_pair s.current t.current && same_pair s.desired t.desired

unfoldable pub transition_of : TargetSpec → NodeProbe → Transition
transition_of target p = record {
  current = record { talos = p.version; kubernetes = p.kubernetes_version };
  desired = record {
    talos = first_non_empty target.talos_version p.version;
    kubernetes = first_non_empty target.kubernetes_version p.kubernetes_version;
  };
}

-- Each transition once, without those that miss a version.
unfoldable pub transitions_of : TargetSpec → List NodeProbe → List Transition → List Transition
transitions_of target [] seen = []
transitions_of target (p ∷ ps) seen =
    let t = transition_of target p in
    let skip =
      any (same_transition t) seen || (is_blank t.desired.kubernetes || is_blank t.desired.talos) in
    let rest = transitions_of target ps (if skip then seen else t ∷ seen) in
    if skip then rest else t ∷ rest

abbrev transition_text : Transition → String
transition_text t = concat (pair_text t.current ∷ pair_text t.desired ∷ [])

-- slices.SortFunc, by insertion.
abbrev insert_transition : Transition → List Transition → List Transition
insert_transition t [] = t ∷ []
insert_transition t (u ∷ us) =
    let rest = insert_transition t us in
    if text_first (transition_text t) (transition_text u) then t ∷ u ∷ us else u ∷ rest

unfoldable pub sort_transitions : List Transition → List Transition
sort_transitions [] = []
sort_transitions (t ∷ ts) = insert_transition t (sort_transitions ts)

-- A Talos version that the matrix does not know says nothing.
unfoldable pub report_current : Transition → Error → ErrorKind → PreflightResult → PreflightResult
report_current t e unknown_talos res = res
report_current t e _ res =
    pass
      ("current combination "
        ∷ pair_text t.current
        ∷ " is outside the support matrix ("
        ∷ e.text
        ∷ ")"
        ∷ [])
      res

unfoldable pub report_desired : Transition → Error → ErrorKind → PreflightResult → PreflightResult
report_desired t e unknown_talos res =
    pass
      ("target combination "
        ∷ pair_text t.desired
        ∷ " not verified (Talos version missing from the matrix)"
        ∷ [])
      res
report_desired t e _ res =
    fail "UnsupportedVersionCombination"
      ("target combination "
        ∷ pair_text t.desired
        ∷ " is invalid (from "
        ∷ pair_text t.current
        ∷ "): "
        ∷ e.text
        ∷ [])
      res

module _ (lib : Libs) where
  unfoldable pub check_current : Transition → PreflightResult → PreflightResult
  check_current t res =
      if is_blank t.current.kubernetes
      then res
      else on_err (validate_kubernetes_version lib t.current.talos t.current.kubernetes)
          (λ e. report_current t e e.kind res) λ _. res

  unfoldable pub check_desired : Transition → PreflightResult → PreflightResult
  check_desired t res =
      if same_pair t.current t.desired
      then res
      else on_err (validate_kubernetes_version lib t.desired.talos t.desired.kubernetes)
          (λ e. report_desired t e e.kind res)
          λ _.
            pass
              ("target combination "
                ∷ pair_text t.desired
                ∷ " is supported (from "
                ∷ pair_text t.current
                ∷ ")"
                ∷ [])
              res

  unfoldable pub check_transitions : List Transition → PreflightResult → PreflightResult
  check_transitions [] res = res
  check_transitions (t ∷ ts) res = check_transitions ts (check_desired t (check_current t res))

  -- checkVersionCompatibility.
  unfoldable pub check_version_compatibility :
      TargetSpec → List NodeProbe → PreflightResult → PreflightResult
  check_version_compatibility target probes res =
      check_transitions (sort_transitions (transitions_of target probes [])) res
