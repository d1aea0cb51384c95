-- ===== src/Witnesses/Rollouts.antt =====
-- The theorems of the rollout at a control plane node and two workers, one of them listed twice.
use mathlib.Core.List.{Mem, Nodup}
use kangal_patch.Scheduling.Groups.{name_of, IsUsable, compile_groups-IsUsable}
use kangal_patch.Prelude.{
  ◌≡◌, ◌↔◌, refl, List, [], ◌∷◌, All, length, map, keep, not, Dict, none, some, pos, String,
}
use kangal_patch.Api.Kube.{Node, LabelSelector, ok}
use kangal_patch.Api.Plan.{GroupSpec}
use kangal_patch.NodeUtil.{is_control_plane}
use kangal_patch.Samples.{sample_libs, sample_plan_spec, worker_node, control_plane_node}
use kangal_patch.Scheduling.{
  Rollout, GroupMatcher, order_of, is_builtin, unique_nodes, node_before, insert_node, sort_nodes,
  matches, check_declared, check_selector, compile_group, builtin_errors, compile_order,
  compile_groups, claim_nodes, claim_groups, assign_nodes, resolve, control_plane_nodes,
}
use kangal_patch.Scheduling.Checks.{
  taken_down, check_control_plane_quorum, check_control_plane_first,
}
use kangal_patch.Scheduling.Sorting.{selected_nodes}
use kangal_patch.Scheduling.Assignment.{owned, first_matches, resolve-first_matches}
use kangal_patch.Scheduling.Cover.{names, resolve-cover}
use kangal_patch.Scheduling.Quorum.{KeepsQuorum, check_control_plane_quorum-ok}
use kangal_patch.Scheduling.ControlPlaneFirst.{ControlPlaneFirst, check_control_plane_first-ok}

abbrev listed : List Node
listed = worker_node "b" ∷ control_plane_node "c" ∷ worker_node "a" ∷ worker_node "b" ∷ []

abbrev divided : Rollout
divided = record {
  groups =
      (record { name = "controlPlane"; concurrency = 1; nodes = control_plane_node "c" ∷ [] })
      ∷ (record {
        name = "workers";
        concurrency = 1;
        nodes = worker_node "a" ∷ worker_node "b" ∷ [];
      })
      ∷ [];
  selected = 3;
  unassigned = [];
}

-- What Resolve computes for these nodes.
listed-divided : resolve sample_libs listed sample_plan_spec ≡ ok divided
unfolding resolve order_of compile_groups compile_order builtin_errors compile_group is_builtin
    unique_nodes sort_nodes insert_node node_before assign_nodes claim_groups claim_nodes matches
    is_control_plane
listed-divided = refl

resolve-first_matches_example :
    (ms : List GroupMatcher) × (compile_groups sample_libs (order_of sample_plan_spec) [] ≡ ok ms)
    × (divided ≡ record {
      groups = first_matches sample_libs [] ms (selected_nodes listed);
      selected = length (selected_nodes listed);
      unassigned =
          map (λ n. n.name) (keep (λ n. not (owned sample_libs ms n)) (selected_nodes listed));
    })
resolve-first_matches_example =
    resolve-first_matches sample_libs listed sample_plan_spec divided listed-divided

resolve-cover_example :
    Nodup (names divided)
    × All (λ n. Mem n.name (names divided)) listed
    × (divided.selected ≡ length (names divided))
resolve-cover_example = resolve-cover sample_libs listed sample_plan_spec divided listed-divided

check_control_plane_quorum-ok_example :
    (check_control_plane_quorum divided ≡ ok tt)
    ↔ All (λ g. KeepsQuorum (length (control_plane_nodes divided)) (taken_down g)) divided.groups
check_control_plane_quorum-ok_example = check_control_plane_quorum-ok divided

check_control_plane_first-ok_example :
    (check_control_plane_first divided ≡ ok tt) ↔ ControlPlaneFirst divided.groups
check_control_plane_first-ok_example = check_control_plane_first-ok divided

abbrev gpu_selector : LabelSelector
gpu_selector = record { match_labels = ("gpu", "true") ∷ []; match_expressions = [] }

abbrev gpu_groups : Dict GroupSpec
gpu_groups = ("gpu", record { selector = some gpu_selector; concurrency = pos 2 }) ∷ []

abbrev gpu_order : List String
gpu_order = "gpu" ∷ "workers" ∷ []

abbrev gpu_matchers : List GroupMatcher
gpu_matchers =
    (record { name = "gpu"; concurrency = 2; selector = some gpu_selector })
    ∷ (record { name = "workers"; concurrency = 1; selector = none })
    ∷ []

gpu_compiled : compile_groups sample_libs gpu_order gpu_groups ≡ ok gpu_matchers
unfolding compile_groups compile_order compile_group check_declared check_selector is_builtin
    builtin_errors
gpu_compiled = refl

compile_groups-IsUsable_example :
    (map name_of gpu_matchers ≡ gpu_order)
    × Nodup gpu_order
    × All (IsUsable sample_libs) gpu_matchers
compile_groups-IsUsable_example =
    compile_groups-IsUsable sample_libs gpu_order gpu_groups gpu_matchers gpu_compiled
