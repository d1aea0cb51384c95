-- ===== src/Drain.antt =====
-- internal/drain/drain.go: cordon, uncordon, evict. The pod predicates are in `Pods`.
pub mod Pods
pub mod Evictions
use kangal_patch.Prelude.{
  ℤ, pos, Bool, true, false, not, ◌||◌, String, List, [], ◌∷◌, keep, is_empty, insert, remove,
  has_key, concat, join, map, leb_ℤ, minutes, if◌then◌else◌,
}
use kangal_patch.Api.Kube.{
  ErrorKind, Node, Pod, Error, Result, ok, err, wrap, not_found, already_exists, too_many_requests,
  unmanaged_pods, unknown_talos, image_missing, other,
}
use kangal_patch.Effect.Request.{get_node, patch_node, list_pods_on_node, evict_pod, delete_pod}
use kangal_patch.Effect.Prog.{Prog, ret, ask, ◌>>=◌, on_err}
use Pods.{should_evict_pod, blocks_drain, is_unmanaged}

-- CordonedByAnnotation.
abbrev pub cordoned_by_annotation : String
cordoned_by_annotation = "kangalpatch.ozalp.dk/cordoned-by"

abbrev pub Done : Type 0
Done = Result (Unit {0})

-- The node that CordonNode sends: unschedulable, and marked as ours.
abbrev pub cordoned : Node → Node
cordoned node = record node {
  unschedulable = true;
  annotations = insert cordoned_by_annotation "true" node.annotations;
}

-- The node that UncordonNode sends.
abbrev pub uncordoned : Node → Node
uncordoned node = record node {
  unschedulable = false;
  annotations = remove cordoned_by_annotation node.annotations;
}

-- Drainer.CordonNode.
unfoldable pub cordon_node : String → Prog (Result (Unit {0}))
cordon_node node_name = do
  got ← ask (get_node node_name)
  on_err got (λ e. ret (err (wrap "failed to get node" e)))
      λ node. if node.unschedulable then ret (ok tt) else do
        patched ← ask (patch_node node (cordoned node))
        on_err patched (λ e. ret (err (wrap "failed to cordon node" e))) λ _. ret (ok tt)

-- Drainer.UncordonNode.
unfoldable pub uncordon_node : String → Prog (Result (Unit {0}))
uncordon_node node_name = do
  got ← ask (get_node node_name)
  on_err got (λ e. ret (err (wrap "failed to get node" e)))
      λ node. if not (has_key cordoned_by_annotation node.annotations) then ret (ok tt) else do
        patched ← ask (patch_node node (uncordoned node))
        on_err patched (λ e. ret (err (wrap "failed to uncordon node" e))) λ _. ret (ok tt)

-- DefaultTimeout.
abbrev pub default_timeout : ℤ
default_timeout = minutes 5

-- DrainOptions. The deadline that DrainNode puts on its context is the API client's to keep.
pub record DrainOptions : Type 0 where
  pub respect_pdbs : Bool
  pub evict_unmanaged : Bool
  pub timeout : ℤ

-- listPods.
unfoldable pub list_pods : String → (Pod → Bool) → Prog (Result (List Pod))
list_pods node_name wanted = do
  got ← ask (list_pods_on_node node_name)
  on_err got (λ e. ret (err e)) λ pods. ret (ok (keep wanted pods))

-- client.IgnoreNotFound.
abbrev pub ignore_not_found : Done → Done
ignore_not_found (ok _) = ok tt
ignore_not_found (err e) = elim e.kind [ not_found ↦ ok tt | _ ↦ err e ]

-- deletePod.
unfoldable pub force_delete_pod : Pod → Prog (Result (Unit {0}))
force_delete_pod pod = do
  deleted ← ask (delete_pod pod)
  on_err (ignore_not_found deleted) (λ e. ret (err (wrap "failed to delete pod" e)))
      λ _. ret (ok tt)

-- The error branches of evictPod.
unfoldable pub eviction_refused : Pod → DrainOptions → Error → ErrorKind → Prog (Result Bool)
eviction_refused pod opts e not_found = ret (ok false)
eviction_refused pod opts e too_many_requests =
    if opts.respect_pdbs
    then ret (ok true)
    else do deleted ← force_delete_pod pod; on_err deleted (λ f. ret (err f)) λ _. ret (ok false)
eviction_refused pod opts e _ = ret (err e)

-- evictPod: whether a PodDisruptionBudget refused.
unfoldable pub evict : Pod → DrainOptions → Prog (Result Bool)
evict pod opts = do
  evicted ← ask (evict_pod pod)
  on_err evicted (λ e. eviction_refused pod opts e e.kind) λ _. ret (ok false)

-- The loop of DrainNode over its pods.
unfoldable pub evict_all : List Pod → DrainOptions → Bool → Prog (Result Bool)
evict_all [] opts blocked = ret (ok blocked)
evict_all (pod ∷ pods) opts blocked = do
  evicted ← evict pod opts
  on_err evicted
      (λ e.
        ret (err (wrap (concat ("failed to evict pod " ∷ pod.namespace ∷ "/" ∷ pod.name ∷ [])) e)))
      λ pod_blocked. evict_all pods opts (blocked || pod_blocked)

-- The refusal of DrainNode: it wraps ErrUnmanagedPods.
unfoldable pub unmanaged_error : List Pod → Error
unmanaged_error bare = record {
  kind = unmanaged_pods;
  text = concat (
      "pods without a controller would be lost: "
      ∷ join ", " (map (λ p. concat (p.namespace ∷ "/" ∷ p.name ∷ [])) bare)
      ∷ " (set evictUnmanagedPods to evict them anyway)"
      ∷ []);
}

-- Drainer.DrainNode: whether a PodDisruptionBudget refused an eviction.
unfoldable pub drain_node : String → DrainOptions → Prog (Result Bool)
drain_node node_name opts = do
  listed ← list_pods node_name should_evict_pod
  on_err listed (λ e. ret (err (wrap "failed to list pods" e)))
      λ pods.
        let bare = keep is_unmanaged pods in
        let timeout = if leb_ℤ opts.timeout (pos 0) then default_timeout else opts.timeout in
        if is_empty pods
        then ret (ok false)
        else if not opts.evict_unmanaged
        then (if is_empty bare
            then evict_all pods (record opts { timeout = timeout }) false
            else ret (err (unmanaged_error bare)))
        else evict_all pods (record opts { timeout = timeout }) false

-- Drainer.IsDrained.
unfoldable pub is_drained : String → Prog (Result Bool)
is_drained node_name = do
  listed ← list_pods node_name blocks_drain
  on_err listed (λ e. ret (err e)) λ pods. ret (ok (is_empty pods))
