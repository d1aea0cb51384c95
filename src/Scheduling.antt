-- ===== src/Scheduling.antt =====
-- internal/scheduling/scheduling.go: which group schedules each node of a plan. `Checks` holds the
-- checks of the strategy, and the proofs are in the modules below.
pub mod Checks
pub mod Sorting
pub mod Assignment
pub mod Groups
pub mod Cover
pub mod Quorum
pub mod ControlPlaneFirst
use Prim.Native.Nat.{Ordering}
use Prim.Native.String.compare
use Prim.Native.String.{compare}
use kangal_patch.Prelude.{
  ℕ, ◌+◌, ℤ, pos, pos_part, max_ℤ, Bool, true, false, not, ◌&&◌, ◌||◌, String, List, [], ◌∷◌, ◌++◌,
  Option, none, some, Dict, lookup, has_key, member, same, is_some, is_empty, concat, join, map,
  keep, length, if◌then◌else◌,
}
use kangal_patch.Api.Kube.{Node, LabelSelector, Error, Result, ok, err, errorf, wrap}
use kangal_patch.Api.Plan.{GroupSpec, PatchPlanSpec}
use kangal_patch.Libs.{Libs}
use kangal_patch.NodeUtil.{is_control_plane}

-- GroupControlPlane and GroupWorkers (api/v1alpha1/patchplan_types.go).
abbrev pub group_control_plane : String
group_control_plane = "controlPlane"

abbrev pub group_workers : String
group_workers = "workers"

-- DefaultOrder.
abbrev pub default_order : List String
default_order = group_control_plane ∷ group_workers ∷ []

-- Group. The concurrency is at least 1, so it is a natural number.
pub record Group : Type 0 where
  pub name : String
  pub concurrency : ℕ
  pub nodes : List Node

-- Rollout.
pub record Rollout : Type 0 where
  pub groups : List Group
  pub selected : ℕ
  pub unassigned : List String

-- groupMatcher. A built-in group has no selector.
pub record GroupMatcher : Type 0 where
  pub name : String
  pub concurrency : ℕ
  pub selector : Option LabelSelector

-- Order.
unfoldable pub order_of : PatchPlanSpec → List String
order_of spec = if is_empty spec.strategy.order then default_order else spec.strategy.order

-- isBuiltin.
unfoldable pub is_builtin : String → Bool
is_builtin name = same name group_control_plane || same name group_workers

-- The nodes with the first of each name, as the loop over `seen` leaves them.
unfoldable pub unique_nodes : List String → List Node → List Node
unique_nodes seen [] = []
unique_nodes seen (n ∷ ns) =
    let rest = unique_nodes (if member n.name seen then seen else n.name ∷ seen) ns in
    if member n.name seen then rest else n ∷ rest

-- The comparison of Resolve: whether `a` comes before `b` or is its equal.
abbrev pub text_before : String → String → Bool
text_before s t = elim (compare s t) [ Ordering.gt ↦ false | _ ↦ true ]

unfoldable pub node_before : Node → Node → Bool
node_before a b =
    if is_control_plane a && not (is_control_plane b)
    then true
    else if not (is_control_plane a) && is_control_plane b
    then false
    else text_before a.name b.name

-- slices.SortFunc, by insertion: names are unique by then, so every sort gives the same list.
unfoldable pub insert_node : Node → List Node → List Node
insert_node n [] = n ∷ []
insert_node n (m ∷ ms) = if node_before n m then n ∷ m ∷ ms else m ∷ insert_node n ms

unfoldable pub sort_nodes : List Node → List Node
sort_nodes [] = []
sort_nodes (n ∷ ns) = insert_node n (sort_nodes ns)

module _ (lib : Libs) where
  open lib use {selector_error, selects, label_value_problems}

  -- groupMatcher.matches. A group that is not built in has a selector; without one the code panics.
  unfoldable pub matches : GroupMatcher → Node → Bool
  matches m n =
      if same m.name group_control_plane
      then is_control_plane n
      else if same m.name group_workers
      then not (is_control_plane n)
      else elim m.selector [ none ↦ false | some s ↦ selects s n.labels ]

  -- One entry of the strategy's order, its name not seen before: a matcher, or what is wrong.
  unfoldable pub check_selector : String → ℕ → Option LabelSelector → Result GroupMatcher
  check_selector name concurrency none =
      err (errorf (concat ("group \"" ∷ name ∷ "\" needs a selector" ∷ [])))
  check_selector name concurrency (some s) = elim (selector_error s) [
    | some e ↦ err (wrap (concat ("group \"" ∷ name ∷ "\" has an invalid selector" ∷ [])) e)
    | none ↦ ok (record { name = name; concurrency = concurrency; selector = some s })
  ]

  unfoldable pub check_declared : String → Option GroupSpec → Result GroupMatcher
  check_declared name none = err (
      errorf (
        concat (
          "strategy.order lists group \"" ∷ name
          ∷ "\" which is neither built in (controlPlane, workers) nor declared under groups" ∷ [])))
  check_declared name (some spec) =
      if not (is_empty (label_value_problems name))
      then err (
          errorf (
            concat (
              "group name \""
              ∷ name
              ∷ "\" is not usable as a label value: "
              ∷ join "; " (label_value_problems name)
              ∷ [])))
      else check_selector name (pos_part (max_ℤ spec.concurrency (pos 1))) spec.selector

  abbrev pub concurrency_of : Option GroupSpec → ℕ
  concurrency_of none = 1
  concurrency_of (some spec) = pos_part (max_ℤ spec.concurrency (pos 1))

  unfoldable pub compile_group : Dict GroupSpec → String → Result GroupMatcher
  compile_group groups name =
      if is_builtin name
      then ok (record {
        name = name;
        concurrency = concurrency_of (lookup name groups);
        selector = none;
      })
      else check_declared name (lookup name groups)

  -- Built-in groups with a selector, the loop over the map of groups.
  unfoldable pub builtin_errors : Dict GroupSpec → List String
  builtin_errors [] = []
  builtin_errors ((name, g) ∷ rest) =
      let more = builtin_errors rest in
      if is_builtin name && is_some g.selector
      then concat ("group \"" ∷ name ∷ "\" is built in and cannot have a selector" ∷ []) ∷ more
      else more

  -- `append(errs, err)` or `append(matchers, m)`.
  abbrev pub add_outcome :
      Result GroupMatcher → List String × List GroupMatcher → List String × List GroupMatcher
  add_outcome (ok m) (errs, ms) = (errs, m ∷ ms)
  add_outcome (err e) (errs, ms) = (e.text ∷ errs, ms)

  -- The loop over the order: the errors and the matchers, both in order.
  unfoldable pub compile_order :
      Dict GroupSpec → List String → List String → List String × List GroupMatcher
  compile_order groups seen [] = ([], [])
  compile_order groups seen (name ∷ rest) =
      let more = compile_order groups (if member name seen then seen else name ∷ seen) rest in
      let duplicate =
        errorf (concat ("strategy.order lists group \"" ∷ name ∷ "\" more than once" ∷ [])) in
      add_outcome (if member name seen then err duplicate else compile_group groups name) more

  -- errors.Join.
  abbrev pub joined : List String → List GroupMatcher → Result (List GroupMatcher)
  joined [] ms = ok ms
  joined (e ∷ es) ms = err (errorf (join "\n" (e ∷ es)))

  -- compileGroups.
  unfoldable pub compile_groups : List String → Dict GroupSpec → Result (List GroupMatcher)
  compile_groups order groups =
      let (errs, ms) = compile_order groups [] order in joined (builtin_errors groups ++ errs) ms

  -- The inner loop of Resolve: the nodes of one group, and all that is claimed after it.
  unfoldable pub claim_nodes : GroupMatcher → List String → List Node → List Node × List String
  claim_nodes m claimed [] = ([], claimed)
  claim_nodes m claimed (n ∷ ns) =
      let takes = not (member n.name claimed) && matches m n in
      let (rest, after) = claim_nodes m (if takes then n.name ∷ claimed else claimed) ns in
      (if takes then n ∷ rest else rest, after)

  -- The outer loop of Resolve.
  unfoldable pub claim_groups :
      List GroupMatcher → List String → List Node → List Group × List String
  claim_groups [] claimed unique = ([], claimed)
  claim_groups (m ∷ ms) claimed unique =
      let (nodes, mid) = claim_nodes m claimed unique in
      let (rest, after) = claim_groups ms mid unique in
      (record { name = m.name; concurrency = m.concurrency; nodes = nodes } ∷ rest, after)

  -- Resolve from the matchers and the sorted nodes on.
  unfoldable pub assign_nodes : List GroupMatcher → List Node → Rollout
  assign_nodes ms unique =
      let (groups, claimed) = claim_groups ms [] unique in
      record {
        groups = groups;
        selected = length unique;
        unassigned = map (λ n. n.name) (keep (λ n. not (member n.name claimed)) unique);
      }

  abbrev pub rollout_with : List Node → Result (List GroupMatcher) → Result Rollout
  rollout_with nodes (err e) = err e
  rollout_with nodes (ok ms) = ok (assign_nodes ms (sort_nodes (unique_nodes [] nodes)))

  -- Resolve.
  unfoldable pub resolve : List Node → PatchPlanSpec → Result Rollout
  resolve nodes spec = rollout_with nodes (compile_groups (order_of spec) spec.groups)

-- Rollout.Nodes, over the groups.
unfoldable pub group_nodes : List Group → List Node
group_nodes [] = []
group_nodes (g ∷ gs) = g.nodes ++ group_nodes gs

unfoldable pub rollout_nodes : Rollout → List Node
rollout_nodes r = group_nodes r.groups

-- Rollout.Total.
unfoldable pub total_of : List Group → ℕ
total_of [] = 0
total_of (g ∷ gs) = length g.nodes + total_of gs

-- Rollout.ControlPlaneNodes.
unfoldable pub control_plane_of : List Group → List Node
control_plane_of [] = []
control_plane_of (g ∷ gs) = keep is_control_plane g.nodes ++ control_plane_of gs

unfoldable pub control_plane_nodes : Rollout → List Node
control_plane_nodes r = control_plane_of r.groups

-- Rollout.GroupOf, over the groups.
abbrev pub has_node : String → List Node → Bool
has_node name [] = false
has_node name (n ∷ ns) = let rest = has_node name ns in if same n.name name then true else rest

unfoldable pub find_group : String → List Group → Option String
find_group name [] = none
find_group name (g ∷ gs) = if has_node name g.nodes then some g.name else find_group name gs

unfoldable pub group_of : Rollout → String → Option String
group_of r name = find_group name r.groups
