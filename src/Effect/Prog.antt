-- ===== src/Effect/Prog.antt =====
-- Code that calls the world: a tree of requests that branches on their answers.
use kangal_patch.Prelude.{ℤ, pos, List, [], ◌∷◌, Option, none, some}
use kangal_patch.Api.Kube.{Error, Result, ok, err}
use kangal_patch.Effect.Request.{Request, Response}

pub data Prog {ℓ} (A : Type ℓ) : Type ℓ where
  ret : A → Prog A
  call : (r : Request) → (Response r → Prog A) → Prog A

infixl 5 ◌>>=◌ ◌>>◌
abbrev pub ◌>>=◌ {ℓ κ} : {A : Type ℓ} {B : Type κ} → Prog A → (A → Prog B) → Prog B
ret a >>= f = f a
call r k >>= f = call r (λ x. k x >>= f)

abbrev pub ◌>>◌ {ℓ κ} : {A : Type ℓ} {B : Type κ} → Prog A → Prog B → Prog B
m >> k = m >>= λ _. k

abbrev pub ask : (r : Request) → Prog (Response r)
ask r = call r (λ x. ret x)

-- `if err != nil { … }` and what follows it.
abbrev pub on_err {ℓ κ} : {A : Type ℓ} {B : Type κ} → Result A → (Error → B) → (A → B) → B
on_err (ok a) handle continue = continue a
on_err (err e) handle continue = handle e

-- ctrl.Result with the error that Reconcile returns beside it.
pub record Outcome : Type 0 where
  pub requeue_after : ℤ
  pub error : Option Error

abbrev pub done : Outcome
done = record { requeue_after = pos 0; error = none }

abbrev pub requeue : ℤ → Outcome
requeue d = record { requeue_after = d; error = none }

abbrev pub failed_with : Error → Outcome
failed_with e = record { requeue_after = pos 0; error = some e }

-- An answer for every request, and the state that it leaves: a world in which code can run.
abbrev pub Handler {ℓ} : Type ℓ → Type ℓ
Handler W = W → (r : Request) → Response r × W

unfoldable pub run {ℓ κ} : {W : Type ℓ} {A : Type κ} → Handler W → W → Prog A → A × W
run h w (ret a) = (a, w)
run h w (call r k) = let (x, w') = h w r in run h w' (k x)

-- The requests that a run makes, in order.
unfoldable pub requests {ℓ κ} : {W : Type ℓ} {A : Type κ} → Handler W → W → Prog A → List Request
requests h w (ret a) = []
requests h w (call r k) = let (x, w') = h w r in r ∷ requests h w' (k x)
