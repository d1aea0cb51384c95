-- ===== src/Scheduling/Checks.antt =====
-- internal/scheduling/scheduling.go: CheckControlPlaneQuorum and CheckControlPlaneFirst.
use kangal_patch.Prelude.{
  ℕ, zero, suc, ◌+◌, ◌/◌, ◌&&◌, List, [], ◌∷◌, Option, none, some, ltb, leb, length, concat,
  show_nat, if◌then◌else◌, keep, min_nat, ◌==◌,
}
use kangal_patch.Api.Kube.{Node, Result, ok, err, errorf}
use kangal_patch.NodeUtil.{is_control_plane}
use kangal_patch.Scheduling.{Group, Rollout, control_plane_nodes}

-- How many control plane nodes the group takes down at once.
unfoldable pub taken_down : Group → ℕ
taken_down g = min_nat g.concurrency (length (keep is_control_plane g.nodes))

-- The loop of CheckControlPlaneQuorum, for `n` control plane nodes and the limit.
unfoldable pub check_groups : ℕ → ℕ → List Group → Result (Unit {0})
check_groups n limit [] = ok tt
check_groups n limit (g ∷ gs) =
    if ltb 1 (taken_down g) && leb limit (taken_down g)
    then err (
        errorf (
          concat (
            "group \""
            ∷ g.name
            ∷ "\" upgrades "
            ∷ show_nat (taken_down g)
            ∷ " of "
            ∷ show_nat n
            ∷ " control plane nodes at once, which can break etcd quorum; use concurrency below "
            ∷ show_nat limit
            ∷ [])))
    else check_groups n limit gs

-- Rollout.CheckControlPlaneQuorum.
unfoldable pub check_control_plane_quorum : Rollout → Result (Unit {0})
check_control_plane_quorum r =
    let n = length (control_plane_nodes r) in check_groups n ((n + 1) / 2) r.groups

-- lastControlPlane and firstWorker of CheckControlPlaneFirst: `none` is the -1 of the one, and the
-- number of groups of the other.
pub record Seen : Type 0 where
  pub last_control_plane : Option ℕ
  pub first_worker : Option ℕ

-- `if i < firstWorker { firstWorker = i }`.
abbrev pub lower : ℕ → Option ℕ → Option ℕ
lower i none = some i
lower i (some k) = if ltb i k then some i else some k

abbrev pub see_node : ℕ → Node → Seen → Seen
see_node i n seen =
    if is_control_plane n
    then record seen { last_control_plane = some i }
    else record seen { first_worker = lower i seen.first_worker }

unfoldable pub see_nodes : ℕ → List Node → Seen → Seen
see_nodes i [] seen = seen
see_nodes i (n ∷ ns) seen = see_nodes i ns (see_node i n seen)

unfoldable pub see_groups : ℕ → List Group → Seen → Seen
see_groups i [] seen = seen
see_groups i (g ∷ gs) seen = see_groups (suc i) gs (see_nodes i g.nodes seen)

-- The name of a group, by its index.
unfoldable pub name_at : List Group → ℕ → Group → Group
name_at [] i other = other
name_at (g ∷ gs) zero other = g
name_at (g ∷ gs) (suc i) other = name_at gs i other

-- The cases behind the loops: the last control plane group and the first worker group.
unfoldable pub judge : List Group → Option ℕ → Option ℕ → Result (Unit {0})
judge gs none first = ok tt
judge gs (some last) none = ok tt
judge gs (some last) (some first) =
    let unnamed : Group = record { name = ""; concurrency = 1; nodes = [] } in
    if ltb first last
    then err (
        errorf (
          concat (
            "strategy.order schedules group \""
            ∷ (name_at gs first unnamed).name
            ∷ "\" (worker nodes) before group \""
            ∷ (name_at gs last unnamed).name
            ∷ "\" (control plane nodes)"
            ∷ [])))
    else if first == last
    then err (
        errorf (
          concat (
            "group \""
            ∷ (name_at gs first unnamed).name
            ∷ "\" schedules both control plane and worker nodes"
            ∷ [])))
    else ok tt

-- Rollout.CheckControlPlaneFirst.
unfoldable pub check_control_plane_first : Rollout → Result (Unit {0})
check_control_plane_first r =
    let seen = see_groups 0 r.groups (record { last_control_plane = none; first_worker = none }) in
    judge r.groups seen.last_control_plane seen.first_worker
