-- ===== src/Plan/Jobs.antt =====
-- controllers/patchplan_controller.go: the jobs of a plan by the name of their node, and the count of
-- each group's leases. An assignment to a Go map replaces the entry of its key.
use kangal_patch.Prelude.{
  ℕ, suc, Bool, true, false, String, List, [], ◌∷◌, Option, none, some, Dict, lookup, insert,
  remove, ltb, if◌then◌else◌,
}
use kangal_patch.Api.Kube.{Node}
use kangal_patch.Api.Job.{PatchJob, JobPhase}
use kangal_patch.Api.Job

abbrev pub assign {ℓ} : {A : Type ℓ} → String → A → Dict A → Dict A
assign k v m = insert k v (remove k m)

-- The loop of Reconcile that fills jobsByNode, from the entries before it.
unfoldable pub index_from : Dict PatchJob → List PatchJob → Dict PatchJob
index_from m [] = m
index_from m (j ∷ js) = index_from (assign j.spec.node_name j m) js

unfoldable pub index_by_node : List PatchJob → Dict PatchJob
index_by_node jobs = index_from [] jobs

-- The loop of syncLeases that fills jobsByName.
unfoldable pub index_names_from : Dict PatchJob → List PatchJob → Dict PatchJob
index_names_from m [] = m
index_names_from m (j ∷ js) = index_names_from (assign j.name j m) js

-- `active[group]`, which is 0 for a group without an entry.
abbrev pub number_or_zero : Option ℕ → ℕ
number_or_zero none = 0
number_or_zero (some n) = n

unfoldable pub count_of : String → Dict ℕ → ℕ
count_of group active = number_or_zero (lookup group active)

-- `active[group]++`.
unfoldable pub increment : String → Dict ℕ → Dict ℕ
increment group active = assign group (suc (count_of group active)) active

-- The later of an instant and an optional one.
abbrev pub later_of : ℕ → Option ℕ → ℕ
later_of last none = last
later_of last (some t) = if ltb last t then t else last

abbrev pub is_completed : JobPhase → Bool
is_completed Job.completed = true
is_completed _ = false

abbrev pub completed_job : Option PatchJob → Bool
completed_job none = false
completed_job (some job) = is_completed job.status.phase

-- allNodesCompleted.
unfoldable pub all_nodes_completed : List Node → Dict PatchJob → Bool
all_nodes_completed [] jobs = true
all_nodes_completed (n ∷ ns) jobs =
    let rest = all_nodes_completed ns jobs in
    if completed_job (lookup n.name jobs) then rest else false
