-- ===== src/Witnesses/Matrices.antt =====
-- The theorem of the support matrix at Talos 1.13 and Kubernetes 1.31.
use kangal_patch.Prelude.{◌≡◌, ◌↔◌, refl, same, if◌then◌else◌}
use kangal_patch.Api.Kube.{ok}
use kangal_patch.Libs.{Libs}
use kangal_patch.SupportMatrix.{
  InMatrix, validate_kubernetes_version, validate_kubernetes_version-ok,
}
use kangal_patch.Samples.{sample_libs}

abbrev matrix_libs : Libs
matrix_libs = record sample_libs { parse_generic = λ s. if same s "v1.13.0" then ok 13 else ok 31 }

validate_kubernetes_version-ok_example :
    (validate_kubernetes_version matrix_libs "v1.13.0" "v1.31.0" ≡ ok tt)
    ↔ ((matrix_libs.major 13 ≡ 1) × (matrix_libs.major 31 ≡ 1) × InMatrix 13 31)
validate_kubernetes_version-ok_example =
    validate_kubernetes_version-ok matrix_libs "v1.13.0" "v1.31.0" 13 31 refl refl
