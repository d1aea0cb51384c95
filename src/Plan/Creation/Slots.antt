-- ===== src/Plan/Creation/Slots.antt =====
-- controllers/leases.go, syncLeases: the slots of a group that its leases and jobs occupy.
use kangal_patch.Prelude.{
  ℕ, ◌+◌, ◌≡◌, Bool, false, not, ◌&&◌, String, List, [], Option, none, some, Dict, lookup, member,
  same, is_some, length, keep, map,
}
use kangal_patch.Api.Kube.{Lease, ok}
use kangal_patch.Api.Plan.{PatchPlan}
use kangal_patch.Api.Job.{PatchJob, is_terminal}
use kangal_patch.Effect.Request.{list_leases}
use kangal_patch.Effect.Trace.{Event, Answered, Answered-Later, Later}
use kangal_patch.Scheduling.{Rollout}
use kangal_patch.Plan.Jobs.{count_of, index_names_from}
use kangal_patch.Plan.Leases.{group_of_job}

-- The job of a lease is listed and has not finished, and the job is of the group.
abbrev pub is_running : Option PatchJob → Bool
is_running none = false
is_running (some job) = not (is_terminal job.status.phase)

abbrev pub is_of_group : Rollout → String → Option PatchJob → Bool
is_of_group rollout g none = false
is_of_group rollout g (some job) = same (group_of_job job rollout) g

-- A lease that occupies a slot of the group.
abbrev pub holds_slot : Rollout → Dict PatchJob → String → Lease → Bool
holds_slot rollout by_name g l =
    is_running (lookup l.name by_name) && is_of_group rollout g (lookup l.name by_name)

-- The names of the leases that occupy any slot.
abbrev pub held_names : Dict PatchJob → List Lease → List String
held_names by_name ls = map (λ l. l.name) (keep (λ l. is_running (lookup l.name by_name)) ls)

-- A job that occupies a slot of the group, though no lease has its name: it has neither finished nor
-- been deleted.
abbrev pub takes_slot : Rollout → (String → Bool) → String → PatchJob → Bool
takes_slot rollout has_lease g j =
    not (is_terminal j.status.phase)
    && (not (is_some j.deletion_timestamp)
        && (not (has_lease j.name) && same (group_of_job j rollout) g))

-- The slots of the group that are occupied, by a lease or by a job without one.
unfoldable pub slots_of : Rollout → List PatchJob → List Lease → String → ℕ
slots_of rollout jobs ls g =
    let by_name = index_names_from [] jobs in
    length (keep (holds_slot rollout by_name g) ls)
    + length (keep (takes_slot rollout (λ n. member n (held_names by_name ls)) g) jobs)

-- What the counts of Reconcile count: the slots by the leases that were listed.
pub record Slots (namespace : String) (plan : PatchPlan) (rollout : Rollout) (jobs : List PatchJob)
    (active : Dict ℕ) (h : List Event) : Type 0 where
  pub leases : List Lease
  pub read_leases : Answered (list_leases namespace plan.name) (ok leases) h
  pub counted : (g : String) → count_of g active ≡ slots_of rollout jobs leases g

pub Slots-Later :
    {namespace : String} {plan : PatchPlan} {rollout : Rollout} {jobs : List PatchJob}
    {active : Dict ℕ} {h h' : List Event}
    → Later h h'
    → Slots namespace plan rollout jobs active h
    → Slots namespace plan rollout jobs active h'
Slots-Later l s = record {
  leases = s.leases;
  read_leases = Answered-Later l s.read_leases;
  counted = s.counted;
}
