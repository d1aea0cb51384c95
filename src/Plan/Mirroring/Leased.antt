-- ===== src/Plan/Mirroring/Leased.antt =====
-- controllers/leases.go: why a lease is deleted or created, and when a job has one.
use mathlib.Core.List.{Mem}
use mathlib.Core.Option.{none-ne-some}
use kangal_patch.Prelude.{
  ℕ, ◌≡◌, sym, ◌∙◌, true, false, List, Option, none, some, All, String, is_some,
}
use kangal_patch.Api.Kube.{Error, already_exists, Lease, Result, ok, err}
use kangal_patch.Api.Plan.{PatchPlan}
use kangal_patch.Api.Job.{PatchJob, is_terminal}
use kangal_patch.Effect.Request.{Request, now, list_leases, create_lease, delete_lease}
use kangal_patch.Effect.Trace.{Event, Answered, Answered-Later, Later}
use kangal_patch.Scheduling.{Rollout}
use kangal_patch.Plan.Leases.{group_of_job, lease_of}

-- The lease that a request deletes, and the one that it creates.
unfoldable pub released_by : Request → Option Lease
released_by (delete_lease l) = some l
released_by _ = none

unfoldable pub acquired_by : Request → Option Lease
acquired_by (create_lease l) = some l
acquired_by _ = none

-- The job has neither finished nor been deleted.
abbrev pub IsUnfinished : PatchJob → Type 0
IsUnfinished j = (is_terminal j.status.phase ≡ false) × (is_some j.deletion_timestamp ≡ false)

-- What a loop knows where it has not failed.
abbrev pub OkOf {ℓ} : {A : Type ℓ} → (A → Type 0) → Result A → Type 0
OkOf P (ok a) = P a
OkOf P (err e) = Unit

module _ (namespace : String) (plan : PatchPlan) (rollout : Rollout) (jobs : List PatchJob) where
  -- A lease of the plan in the answer of a list.
  pub record Listed (h : List Event) (l : Lease) : Type 0 where
    pub leases : List Lease
    pub read : Answered (list_leases namespace plan.name) (ok leases) h
    pub listed : Mem l leases

  -- Why a lease is deleted: it was listed, and its job has finished.
  pub record Released (h : List Event) (l : Lease) : Type 0 where
    pub listed : Listed h l
    pub job : PatchJob
    pub of_plan : Mem job jobs
    pub named : job.name ≡ l.name
    pub finished : is_terminal job.status.phase ≡ true

  -- Why a lease is created: it is that of an unfinished job.
  pub record Acquired (h : List Event) (l : Lease) : Type 0 where
    pub job : PatchJob
    pub of_plan : Mem job jobs
    pub unfinished : IsUnfinished job
    pub clock : ℕ
    pub read_clock : Answered now clock h
    pub is_lease : l ≡ lease_of namespace job (group_of_job job rollout) clock

  abbrev pub Mirrored : List Event → Request → Type 0
  Mirrored h r =
      ((l : Lease) → released_by r ≡ some l → Released h l)
      × ((l : Lease) → acquired_by r ≡ some l → Acquired h l)

  -- The job has its lease: it was listed, created, or found to exist.
  pub data Leased (h : List Event) (j : PatchJob) : Type 0 where
    had : (l : Lease) → Listed h l → l.name ≡ j.name → Leased h j
    given :
        (t : ℕ)
        → Answered (create_lease (lease_of namespace j (group_of_job j rollout) t)) (ok tt) h
        → Leased h j
    existed :
        (t : ℕ) (e : Error)
        → e.kind ≡ already_exists
        → Answered (create_lease (lease_of namespace j (group_of_job j rollout) t)) (err e) h
        → Leased h j

  pub other :
      (h : List Event) (r : Request) → released_by r ≡ none → acquired_by r ≡ none → Mirrored h r
  other h r e f = (
    λ l is. elim (none-ne-some l (sym e ∙ is)) [ ],
    λ l is. elim (none-ne-some l (sym f ∙ is)) [ ],
  )

  pub Listed-Later : {h h' : List Event} (l : Lease) → Later h h' → Listed h l → Listed h' l
  Listed-Later l later p = record {
    leases = p.leases;
    read = Answered-Later later p.read;
    listed = p.listed;
  }

  pub Leased-Later : {h h' : List Event} (j : PatchJob) → Later h h' → Leased h j → Leased h' j
  Leased-Later j later (had l listed named) = had l (Listed-Later l later listed) named
  Leased-Later j later (given t a) = given t (Answered-Later later a)
  Leased-Later j later (existed t e exists a) = existed t e exists (Answered-Later later a)

  -- Each unfinished job has its lease.
  abbrev pub AllLeased : List Event → List PatchJob → Type 0
  AllLeased h js = All (λ j. IsUnfinished j → Leased h j) js
