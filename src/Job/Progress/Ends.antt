-- ===== src/Job/Progress/Ends.antt =====
-- How a reconcile of a PatchJob may end, and the shapes of code that end so.
use kangal_patch.Prelude.{
  ◌≡◌, refl, ℤ, pos, ltb_ℤ, Bool, true, false, List, [], ◌∷◌, is_some, arith,
}
use kangal_patch.Api.Kube.{Error, ErrorKind, Result, ok, err, not_found}
use kangal_patch.Api.Job.{is_terminal}
use kangal_patch.Effect.Request.{get_job, patch_job_status}
use kangal_patch.Effect.Prog.{Prog, ret, ◌>>=◌, on_err, Outcome, failed_with, requeue}
use kangal_patch.Effect.Trace.{
  Event, event, Trace, stops, Trace-bind, Trace-on_err, Trace-all, Anything,
}
use kangal_patch.Job.Upgrading.{check_interval}

unfoldable pub is_gone : ErrorKind → Bool → Bool
is_gone not_found before = true
is_gone kind before = before

unfoldable pub over_after : Event → Bool → Bool
over_after (event (get_job n) (ok job)) before = is_terminal job.status.phase
over_after (event (get_job n) (err e)) before = is_gone e.kind before
over_after (event (patch_job_status o m) (ok x)) before = is_terminal m.status.phase
over_after e before = before

-- Whether the job is over by the last event that tells: it was read or recorded in a terminal
-- phase, or it is gone.
unfoldable pub over : List Event → Bool
over [] = false
over (e ∷ h) = over_after e (over h)

-- A reconcile goes on later, by its error or its requeue, unless the job is over.
pub data Continues (h : List Event) (o : Outcome) : Type 0 where
  retries : is_some o.error ≡ true → Continues h o
  requeues : ltb_ℤ (pos 0) o.requeue_after ≡ true → Continues h o
  finishes : over h ≡ true → Continues h o

abbrev pub Ends : List Event → Prog Outcome → Type 0
Ends h m = Trace Anything Continues h m

pub failed-Ends : (h : List Event) (e : Error) → Ends h (ret (failed_with e))
failed-Ends h e = stops (retries refl)

pub requeue-Ends : (h : List Event) (d : ℤ) → ltb_ℤ (pos 0) d ≡ true → Ends h (ret (requeue d))
requeue-Ends h d later = stops (requeues later)

-- The wait for the next check is positive, however little time is left.
pub check_interval-later :
    (longest remaining : ℤ)
    → ltb_ℤ (pos 0) longest ≡ true
    → ltb_ℤ (pos 0) (check_interval longest remaining) ≡ true
check_interval-later longest remaining later = ground arith

-- Whatever is asked first, only what follows counts.
pub after-Ends :
    {A : Type 0} (h : List Event) (m : Prog A) {f : A → Prog Outcome}
    → ((h' : List Event) (a : A) → Ends h' (f a))
    → Ends h (m >>= f)
after-Ends h m k = Trace-bind (Trace-all h m) λ h' a _ _. k h' a

-- The shape of most steps: ask for a write, then requeue.
pub then-Ends :
    {A : Type 0} (h : List Event) (m : Prog (Result A)) (d : ℤ)
    → ltb_ℤ (pos 0) d ≡ true
    → Ends h (m >>= λ x. on_err x (λ e. ret (failed_with e)) (λ _. ret (requeue d)))
then-Ends h m d later =
    after-Ends h m λ h' x. Trace-on_err x (λ e _. failed-Ends h' e) (λ _ _. requeue-Ends h' d later)
