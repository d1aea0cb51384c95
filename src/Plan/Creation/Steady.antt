-- ===== src/Plan/Creation/Steady.antt =====
-- controllers/patchplan_controller.go: what the steps of a reconcile leave of the plan before it
-- schedules anything.
use kangal_patch.Prelude.{◌≡◌, refl, ap, ◌∙◌, subst, true, false, String, same, true_apart}
use kangal_patch.Api.Kube.{Error, Result, ok, err, ok-injective, err-ne-ok}
use kangal_patch.Api.Plan.{PatchPlan, PatchPlanStatus}
use kangal_patch.Effect.Prog.{Prog, ret, ◌>>=◌}
use kangal_patch.Effect.Sat.{Sat, returns, calls, Sat-bind, Sat-if, Sat-on_err, Any}
use kangal_patch.Plan.Status.{with_status, update_status, set_message}
use kangal_patch.Plan.Policy.{Stop, then_say}
use kangal_patch.Plan.Creation.Starts.{creation_of}
use kangal_patch.Plan.Creation.Kept.{CreatesNothing}

-- The two differ at most in their status; no node was scheduled between them, and no failure accepted.
abbrev pub Steady : PatchPlan → PatchPlan → Type 0
Steady a b =
    (a.name ≡ b.name)
    × (a.spec ≡ b.spec)
    × (a.status.last_node_scheduled_at ≡ b.status.last_node_scheduled_at)
    × (a.status.failures_acknowledged ≡ b.status.failures_acknowledged)

-- A result that holds of the plan in it, if it is one.
abbrev pub IfOk : {A : Type 0} → (A → Type 0) → Result A → Type 0
IfOk P r = (a : _) → r ≡ ok a → P a

pub ok-IfOk : {A : Type 0} (P : A → Type 0) (a : A) → P a → IfOk P (ok a)
ok-IfOk P a p b e = subst P (ok-injective e) p

pub err-IfOk : {A : Type 0} (P : A → Type 0) (e : Error) → IfOk P (err e)
err-IfOk P e b f = elim (err-ne-ok f) [ ]

-- A step that lets the reconcile go on leaves a steady plan with the property.
abbrev pub GoesOn : (PatchPlan → Type 0) → Result Stop → Type 0
GoesOn P r = IfOk (λ (s : Stop). s.0 ≡ false → P s.1) r

pub stop-GoesOn : (P : PatchPlan → Type 0) (r : Result PatchPlan) → GoesOn P (then_say true r)
unfolding then_say
stop-GoesOn P (ok p) s e f = elim (true_apart (ap (λ (t : Stop). t.0) (ok-injective e) ∙ f)) [ ]
stop-GoesOn P (err x) s e f = elim (err-ne-ok e) [ ]

pub go-GoesOn :
    (P : PatchPlan → Type 0) (r : Result PatchPlan) → IfOk P r → GoesOn P (then_say false r)
unfolding then_say
go-GoesOn P (ok p) h s e f = subst (λ (t : Stop). P t.1) (ok-injective e) (h p refl)
go-GoesOn P (err x) h s e f = elim (err-ne-ok e) [ ]

pub stopped-GoesOn : (P : PatchPlan → Type 0) (p : PatchPlan) → GoesOn P (ok (true, p))
stopped-GoesOn P p s e f = elim (true_apart (ap (λ (t : Stop). t.0) (ok-injective e) ∙ f)) [ ]

pub going-GoesOn : (P : PatchPlan → Type 0) (p : PatchPlan) → P p → GoesOn P (ok (false, p))
going-GoesOn P p h s e f = subst (λ (t : Stop). P t.1) (ok-injective e) h

-- A status patch that succeeds leaves the plan with that status.
pub update_status-IfOk :
    (P : PatchPlan → Type 0) (p : PatchPlan) (s : PatchPlanStatus)
    → P (with_status s p)
    → Sat CreatesNothing (IfOk P) (update_status p s)
unfolding update_status creation_of
update_status-IfOk P p s holds =
    calls refl
      λ x. Sat-on_err x (λ e _. returns (err-IfOk P e)) (λ _ _. returns (ok-IfOk P _ holds))

module _ (plan : PatchPlan) where
  pub update_status-Steady :
      (p : PatchPlan) (s : PatchPlanStatus)
      → Steady plan p
      → p.status.last_node_scheduled_at ≡ s.last_node_scheduled_at
      → p.status.failures_acknowledged ≡ s.failures_acknowledged
      → Sat CreatesNothing (IfOk (Steady plan)) (update_status p s)
  update_status-Steady p s steady last accepted =
      update_status-IfOk (Steady plan) p s
        (steady.0, steady.1, steady.2 ∙ last, steady.3 ∙ accepted)

  pub set_message-Steady :
      (p : PatchPlan) (msg : String)
      → Steady plan p
      → Sat CreatesNothing (IfOk (Steady plan)) (set_message p msg)
  unfolding set_message
  set_message-Steady p msg steady =
      Sat-if (same p.status.message msg) (λ _. returns (ok-IfOk (Steady plan) p steady))
        (λ _. update_status-Steady p _ steady refl refl)

  pub update_status-Sat :
      (p : PatchPlan) (s : PatchPlanStatus) → Sat CreatesNothing Any (update_status p s)
  unfolding update_status creation_of
  update_status-Sat p s = calls refl λ x. Sat-on_err x (λ e _. returns tt) (λ _ _. returns tt)

  -- A step after which nothing goes on.
  pub then_stop :
      (P : PatchPlan → Type 0) {m : Prog (Result PatchPlan)}
      → Sat CreatesNothing Any m
      → Sat CreatesNothing (GoesOn P) (m >>= λ updated. ret (then_say true updated))
  then_stop P s = Sat-bind s (λ r _. returns (stop-GoesOn P r))
