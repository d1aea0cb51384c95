-- ===== src/Job/Recovery/Failing.antt =====
-- controllers/patchjob_controller.go: failures that leave the node as it is.
use kangal_patch.Prelude.{
  ◌≡◌, refl, not-false, sym, ◌∙◌, false, not, ◌&&◌, String, List, ltb_ℤ, sub_ℕ, is_some, true_apart,
}
use kangal_patch.Api.Kube.{Error}
use kangal_patch.Api.Job.{PatchJob, failed, is_terminal}
use kangal_patch.Effect.Request.{Request, now, load_or_store, patch_job_status}
use kangal_patch.Effect.Prog.{Prog}
use kangal_patch.Effect.Sat.{Sat, Any}
use kangal_patch.Effect.Trace.{
  Event, Later, now_or, after, Trace, stops, asks, Trace-bind, Trace-if, Trace-on_err, Sat-Trace,
}
use kangal_patch.Job.Common.{
  transient_error_deadline, patch_status, releases_cordon, record_failure, fail_job, retry_or_fail,
}
use kangal_patch.Job.Recovery.Reads.{Quiet}

abbrev pub ResultAny {ℓ} : {A : Type ℓ} → List Event → A → Type 0
ResultAny h a = Unit

-- A guard on requests that lets reads pass, and the record of a failure.
pub record Lenient (P : List Event → Request → Type 0) : Type 0 where
  pub reads : (h : List Event) (r : Request) → Quiet r → P h r
  pub failures :
      (h : List Event) (o m : PatchJob) → m.status.phase ≡ failed → P h (patch_job_status o m)

module _ (P : List Event → Request → Type 0) (lenient : Lenient P) where
  pub Quiet-Trace :
      {A : Type 0} {m : Prog A} (h : List Event) → Sat Quiet Any m → Trace P ResultAny h m
  Quiet-Trace h s = Sat-Trace lenient.reads (λ _ _ _. tt) h s

  -- A status patch, with a completion time or without.
  pub patch_status-Trace :
      (h : List Event) (o m : PatchJob)
      → ((h' : List Event) (m' : PatchJob)
          → m'.status.phase ≡ m.status.phase
          → Later h h'
          → P h' (patch_job_status o m'))
      → Trace P ResultAny h (patch_status o m)
  unfolding patch_status
  patch_status-Trace h o m may =
      Trace-if (not (is_terminal m.status.phase && not (is_some m.status.completion_time)))
        (λ _. asks (may _ _ refl now_or) λ _. stops tt)
        (λ _. asks (lenient.reads h now tt) λ t. asks (may _ _ refl (after now_or)) λ _. stops tt)

  module _ (o m : PatchJob) (kept : releases_cordon o.status.phase ≡ false) (message : String)
      (e : Error) where
    record_failure-Trace : (h : List Event) → Trace P ResultAny h (record_failure o m message e)
    unfolding record_failure
    record_failure-Trace h =
        Trace-bind (patch_status-Trace h o _ (λ h' m' is _. lenient.failures h' o m' is))
          λ _ x _ _. Trace-on_err x (λ _ _. stops tt) (λ _ _. stops tt)

    -- A failed job keeps its node: the reboot has begun.
    pub fail_job-Trace : (h : List Event) → Trace P ResultAny h (fail_job o m message e)
    unfolding fail_job
    fail_job-Trace h =
        Trace-if (not (releases_cordon o.status.phase)) (λ _. record_failure-Trace h)
          (λ f. elim (true_apart (sym (not-false _ f) ∙ kept)) [ ])

    pub retry_or_fail-Trace : (h : List Event) → Trace P ResultAny h (retry_or_fail o m message e)
    unfolding retry_or_fail
    retry_or_fail-Trace h = asks (lenient.reads _ now tt) λ t.
        asks (lenient.reads _ (load_or_store m.name t) tt) λ since.
          asks (lenient.reads _ now tt) λ later.
            Trace-if (ltb_ℤ transient_error_deadline (sub_ℕ later since)) (λ _. fail_job-Trace _)
              (λ _. stops tt)
