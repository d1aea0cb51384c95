-- ===== src/Plan/Creation/Kept.antt =====
-- controllers/scheduler.go: the steps that create no job and change no more of the plan than its
-- status.
use kangal_patch.Prelude.{
  ℕ, ◌≤◌, ◌≡◌, refl, subst, String, Option, none, some, List, ◌∷◌, same, not, arith,
}
use kangal_patch.Api.Kube.{Error, Result, ok, err, ok-injective, err-ne-ok}
use kangal_patch.Api.Plan.{PatchPlan, PatchPlanStatus}
use kangal_patch.Effect.Request.{Request}
use kangal_patch.Effect.Prog.{Prog}
use kangal_patch.Effect.Sat.{Sat, returns, calls, Sat-bind, Sat-if, Sat-on_err, Any}
use kangal_patch.Effect.Trace.{Event, event, Trace, stops, asks}
use kangal_patch.Plan.Status.{update_status, set_message}
use kangal_patch.Plan.Schedule.{started, is_resting, mark_in_progress}
use kangal_patch.Plan.Creation.Starts.{creation_of, created_in}

-- The two differ at most in their status.
abbrev pub SamePlan : PatchPlan → PatchPlan → Type 0
SamePlan a b = (a.name ≡ b.name) × (a.spec ≡ b.spec)

abbrev pub CreatesNothing : Request → Type 0
CreatesNothing r = creation_of r ≡ none

-- A result that is a version of the plan, if it is one.
abbrev pub Keeps : PatchPlan → Result PatchPlan → Type 0
Keeps plan r = (plan' : PatchPlan) → r ≡ ok plan' → SamePlan plan plan'

pub ok-Keeps : (plan : PatchPlan) (plan' : PatchPlan) → SamePlan plan plan' → Keeps plan (ok plan')
ok-Keeps plan plan' kept q e = subst (SamePlan plan) (ok-injective e) kept

pub err-Keeps : (plan : PatchPlan) (e : Error) → Keeps plan (err e)
err-Keeps plan e q f = elim (err-ne-ok f) [ ]

module _ (plan : PatchPlan) where
  pub update_status-Keeps :
      (p : PatchPlan) (s : PatchPlanStatus)
      → SamePlan plan p
      → Sat CreatesNothing (Keeps plan) (update_status p s)
  unfolding update_status creation_of
  update_status-Keeps p s kept =
      calls refl λ x.
        Sat-on_err x (λ e _. returns (err-Keeps plan e)) (λ _ _. returns (ok-Keeps plan _ kept))

  pub set_message-Keeps :
      (p : PatchPlan) (msg : String)
      → SamePlan plan p
      → Sat CreatesNothing (Keeps plan) (set_message p msg)
  unfolding set_message
  set_message-Keeps p msg kept =
      Sat-if (same p.status.message msg) (λ _. returns (ok-Keeps plan p kept))
        (λ _. update_status-Keeps p _ kept)

  started-Sat : (o : Option ℕ) → Sat CreatesNothing Any (started o)
  unfolding started creation_of
  started-Sat none = calls refl (λ _. returns tt)
  started-Sat (some t) = returns tt

  pub mark_in_progress-Keeps :
      (p : PatchPlan) → SamePlan plan p → Sat CreatesNothing (Keeps plan) (mark_in_progress p)
  unfolding mark_in_progress
  mark_in_progress-Keeps p kept =
      Sat-if (not (is_resting p.status.phase)) (λ _. returns (ok-Keeps plan p kept))
        (λ _. Sat-bind (started-Sat p.status.start_time) (λ _ _. update_status-Keeps p _ kept))

-- A guard on the creation of jobs alone lets a step pass that creates none, and counts none.
module _ {A : Type 0} {P : List Event → Request → Type 0} {Q : A → Type 0}
    (lenient : (h : List Event) (r : Request) → CreatesNothing r → P h r) where
  pub Uncounted :
      {m : Prog A} (h : List Event) (n : ℕ)
      → created_in h ≤ n
      → Sat CreatesNothing Q m
      → Trace P (λ h' a. (created_in h' ≤ n) × Q a) h m
  unfolding created_in
  Uncounted h n e (returns q) = stops (e, q)
  Uncounted h n e (calls {r} p s) =
      asks (lenient h r p) (λ x. Uncounted (event r x ∷ h) n (rw p (omega (arith, e))) (s x))
