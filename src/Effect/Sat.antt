-- ===== src/Effect/Sat.antt =====
-- What holds of code whatever the world answers: of every request it may make, and of its result.
use kangal_patch.Prelude.{◌≡◌, refl, Bool, true, false, All, if◌then◌else◌}
use kangal_patch.Api.Kube.{Error, Result, ok, err}
use kangal_patch.Effect.Request.{Request, Response}
use kangal_patch.Effect.Prog.{Prog, ret, call, ◌>>=◌, on_err, Handler, run, requests}

-- Every request satisfies `P`, and the result `Q`, on every path.
pub data Sat {A : Type 0} (P : Request → Type 0) (Q : A → Type 0) : Prog A → Type 0 where
  returns : {a : A} → Q a → Sat P Q (ret a)
  calls :
      {r : Request} {k : Response r → Prog A}
      → P r
      → ((x : Response r) → Sat P Q (k x))
      → Sat P Q (call r k)

module _ {A B : Type 0} {P : Request → Type 0} {Q : A → Type 0} {R : B → Type 0} where
  pub Sat-bind :
      {m : Prog A} {f : A → Prog B}
      → Sat P Q m
      → ((a : A) → Q a → Sat P R (f a))
      → Sat P R (m >>= f)
  Sat-bind (returns q) k = k _ q
  Sat-bind (calls p h) k = calls p (λ x. Sat-bind (h x) k)

module _ {A : Type 0} {P : Request → Type 0} {Q : A → Type 0} where
  pub Sat-if :
      (b : Bool) {m n : Prog A}
      → (b ≡ true → Sat P Q m)
      → (b ≡ false → Sat P Q n)
      → Sat P Q (if b then m else n)
  Sat-if true f g = f refl
  Sat-if false f g = g refl

  pub Sat-on_err {ℓ} :
      {C : Type ℓ} (r : Result C) {f : Error → Prog A} {g : C → Prog A}
      → ((e : Error) → r ≡ err e → Sat P Q (f e))
      → ((c : C) → r ≡ ok c → Sat P Q (g c))
      → Sat P Q (on_err r f g)
  Sat-on_err (ok c) f g = g c refl
  Sat-on_err (err e) f g = f e refl

  pub Sat-imp :
      {P' : Request → Type 0} {Q' : A → Type 0} {m : Prog A}
      → Sat P Q m
      → ((r : Request) → P r → P' r)
      → ((a : A) → Q a → Q' a)
      → Sat P' Q' m
  Sat-imp (returns q) f g = returns (g _ q)
  Sat-imp (calls p h) f g = calls (f _ p) (λ x. Sat-imp (h x) f g)

-- Any result will do.
abbrev pub Any {ℓ} : {A : Type ℓ} → A → Type 0
Any a = Unit

module _ {A W : Type 0} {P : Request → Type 0} {Q : A → Type 0} (h : Handler W) where
  -- In every world the result of a run satisfies `Q`, and each request that it makes `P`.
  pub Sat-run : {m : Prog A} (w : W) → Sat P Q m → Q (run h w m).0
  unfolding run
  Sat-run w (returns q) = q
  Sat-run w (calls {r} p s) = let (x, w') = h w r in Sat-run w' (s x)

  pub Sat-requests : {m : Prog A} (w : W) → Sat P Q m → All P (requests h w m)
  unfolding requests
  Sat-requests w (returns q) = tt
  Sat-requests w (calls {r} p s) = let (x, w') = h w r in (p, Sat-requests w' (s x))
