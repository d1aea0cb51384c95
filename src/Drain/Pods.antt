-- ===== src/Drain/Pods.antt =====
-- internal/drain/drain.go: which pods a drain concerns.
use kangal_patch.Prelude.{Bool, false, not, ◌&&◌, String, any, same, has_key, none, some}
use kangal_patch.Api.Kube.{Pod, pod_succeeded, pod_failed}

-- corev1.MirrorPodAnnotationKey.
abbrev pub mirror_pod_annotation_key : String
mirror_pod_annotation_key = "kubernetes.io/config.mirror"

-- isDaemonSetPod.
unfoldable pub is_daemon_set_pod : Pod → Bool
is_daemon_set_pod pod = any (λ o. same o.kind "DaemonSet") pod.owners

-- isMirrorPod.
unfoldable pub is_mirror_pod : Pod → Bool
is_mirror_pod pod = has_key mirror_pod_annotation_key pod.annotations

-- blocksDrain.
unfoldable pub blocks_drain : Pod → Bool
blocks_drain pod = elim pod.phase [
  | pod_succeeded ↦ false
  | pod_failed ↦ false
  | _ ↦ not (is_daemon_set_pod pod) && not (is_mirror_pod pod)
]

-- shouldEvictPod.
unfoldable pub should_evict_pod : Pod → Bool
should_evict_pod pod = elim pod.deletion_timestamp [ none ↦ blocks_drain pod | some _ ↦ false ]

-- metav1.GetControllerOf(pod) == nil: no owner is its controller.
unfoldable pub is_unmanaged : Pod → Bool
is_unmanaged pod = not (any (λ o. o.controller) pod.owners)
