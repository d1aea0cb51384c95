-- ===== src/Plan/Leases.antt =====
-- controllers/leases.go.
use kangal_patch.Prelude.{
  ℕ, Bool, not, ◌||◌, String, List, [], ◌∷◌, Option, none, some, Dict, lookup, member, is_some,
  is_blank, concat, if◌then◌else◌,
}
use kangal_patch.Api.Kube.{Lease, Error, ErrorKind, already_exists, Result, ok, err, wrap}
use kangal_patch.Api.Plan.{PatchPlan}
use kangal_patch.Api.Job.{PatchJob, is_terminal}
use kangal_patch.Effect.Request.{
  now, list_leases, create_lease, delete_lease, set_controller_reference,
}
use kangal_patch.Effect.Prog.{Prog, ret, ask, ◌>>=◌, on_err}
use kangal_patch.Scheduling.{Rollout, group_of}
use kangal_patch.Drain.{ignore_not_found}
use kangal_patch.Plan.Jobs.{index_names_from, increment}

abbrev pub or_blank : Option String → String
or_blank none = ""
or_blank (some s) = s

-- groupOfJob.
unfoldable pub group_of_job : PatchJob → Rollout → String
group_of_job job rollout =
    if not (is_blank job.spec.group)
    then job.spec.group
    else or_blank (group_of rollout job.spec.node_name)

-- LabelPatchPlan, LabelGroup and LabelNode (api/v1alpha1/patchjob_types.go).
abbrev pub label_patch_plan : String
label_patch_plan = "kangalpatch.ozalp.dk/patchplan"

abbrev pub label_group : String
label_group = "kangalpatch.ozalp.dk/group"

abbrev pub label_node : String
label_node = "kangalpatch.ozalp.dk/node"

-- What Reconcile knows of the held leases: their number by group, and their names.
pub record Held : Type 0 where
  pub active : Dict ℕ
  pub names : List String

module _ (namespace : String) where
  unfoldable pub lease_of : PatchJob → String → ℕ → Lease
  lease_of job group t = record {
    name = job.name;
    namespace = namespace;
    labels =
        (label_patch_plan, job.spec.patch_plan_ref)
        ∷ (label_group, group)
        ∷ (label_node, job.spec.node_name)
        ∷ [];
    holder = job.name;
    acquire_time = t;
  }

  -- A lease that exists is as good as a new one.
  unfoldable pub lease_refused : String → Error → ErrorKind → Result (Unit {0})
  lease_refused name e already_exists = ok tt
  lease_refused name e _ = err (wrap (concat ("failed to create lease " ∷ name ∷ [])) e)

  -- acquireLease.
  unfoldable pub acquire_lease : PatchJob → String → Prog (Result (Unit {0}))
  acquire_lease job group = do
    t ← ask now
    owned ← ask (set_controller_reference job.name job.name)
    on_err owned
        (λ e.
          ret (err (wrap (concat ("failed to set owner reference on lease " ∷ job.name ∷ [])) e)))
        λ _. do
          created ← ask (create_lease (lease_of job group t))
          on_err created (λ e. ret (lease_refused job.name e e.kind)) λ _. ret (ok tt)

  -- One lease of the first loop of syncLeases, with its job, if that is listed.
  unfoldable pub sync_lease : Rollout → Lease → Option PatchJob → Held → Prog (Result Held)
  sync_lease rollout lease none held = ret (ok held)
  sync_lease rollout lease (some job) held =
      if is_terminal job.status.phase
      then (do
        deleted ← ask (delete_lease lease)
        on_err (ignore_not_found deleted)
            (λ e. ret (err (wrap (concat ("failed to release lease " ∷ lease.name ∷ [])) e)))
            λ _. ret (ok held))
      else ret (
          ok (record {
            active = increment (group_of_job job rollout) held.active;
            names = lease.name ∷ held.names;
          }))

  unfoldable pub sync_held : Rollout → Dict PatchJob → List Lease → Held → Prog (Result Held)
  sync_held rollout jobs [] held = ret (ok held)
  sync_held rollout jobs (l ∷ ls) held = do
    synced ← sync_lease rollout l (lookup l.name jobs) held
    on_err synced (λ e. ret (err e)) λ held'. sync_held rollout jobs ls held'

  -- A job that needs no lease, or holds one.
  unfoldable pub needs_no_lease : PatchJob → List String → Bool
  needs_no_lease job names =
      (is_terminal job.status.phase || is_some job.deletion_timestamp) || member job.name names

  -- The second loop of syncLeases.
  unfoldable pub heal_leases :
      Rollout → List String → List PatchJob → Dict ℕ → Prog (Result (Dict ℕ))
  heal_leases rollout names [] active = ret (ok active)
  heal_leases rollout names (j ∷ js) active =
      if needs_no_lease j names then heal_leases rollout names js active else do
        acquired ← acquire_lease j (group_of_job j rollout)
        on_err acquired (λ e. ret (err e))
            λ _. heal_leases rollout names js (increment (group_of_job j rollout) active)

  -- syncLeases.
  unfoldable pub sync_leases : PatchPlan → Rollout → List PatchJob → Prog (Result (Dict ℕ))
  sync_leases plan rollout jobs = do
    listed ← ask (list_leases namespace plan.name)
    on_err listed (λ e. ret (err (wrap "failed to list leases" e)))
        λ leases. do
          synced ←
              sync_held rollout (index_names_from [] jobs) leases
                (record { active = []; names = [] })
          on_err synced (λ e. ret (err e)) λ held. heal_leases rollout held.names jobs held.active
