-- ===== src/Effect/Trace.antt =====
-- What holds of code along its history: each request may depend on the answers before it, and the
-- result on all of them.
use kangal_patch.Prelude.{◌≡◌, refl, sym, subst, Bool, true, false, List, [], ◌∷◌, if◌then◌else◌}
use kangal_patch.Api.Kube.{Error, Result, ok, err}
use kangal_patch.Effect.Request.{Request, Response}
use kangal_patch.Effect.Prog.{Prog, ret, call, ◌>>=◌, on_err, Handler, run}
use kangal_patch.Effect.Sat.{Sat, returns, calls}

-- A request with its answer.
pub data Event : Type 0 where
  event : (r : Request) → Response r → Event

-- From the history `h`, latest first, every request satisfies `P` and the result `Q`.
pub data Trace {A : Type 0} (P : List Event → Request → Type 0) (Q : List Event → A → Type 0)
    : List Event → Prog A → Type 0 where
  stops : {h : List Event} {a : A} → Q h a → Trace P Q h (ret a)
  asks :
      {h : List Event} {r : Request} {k : Response r → Prog A}
      → P h r
      → ((x : Response r) → Trace P Q (event r x ∷ h) (k x))
      → Trace P Q h (call r k)

-- `Later h h'`: `h'` is `h` with more events.
pub data Later (h : List Event) : List Event → Type 0 where
  now_or : Later h h
  after : {h' : List Event} {e : Event} → Later h h' → Later h (e ∷ h')

pub Later-before : {h : List Event} {e : Event} {h' : List Event} → Later (e ∷ h) h' → Later h h'
Later-before now_or = after now_or
Later-before (after l) = after (Later-before l)

module _ {A B : Type 0} {P : List Event → Request → Type 0} {Q : List Event → A → Type 0}
    {R : List Event → B → Type 0} where
  pub Trace-bind :
      {h : List Event} {m : Prog A} {f : A → Prog B}
      → Trace P Q h m
      → ((h' : List Event) (a : A) → Later h h' → Q h' a → Trace P R h' (f a))
      → Trace P R h (m >>= f)
  Trace-bind (stops q) k = k _ _ now_or q
  Trace-bind (asks p t) k = asks p (λ x. Trace-bind (t x) (λ h' a l q. k h' a (Later-before l) q))

module _ {A : Type 0} {P : List Event → Request → Type 0} {Q : List Event → A → Type 0} where
  pub Trace-if :
      {h : List Event} (b : Bool) {m n : Prog A}
      → (b ≡ true → Trace P Q h m)
      → (b ≡ false → Trace P Q h n)
      → Trace P Q h (if b then m else n)
  Trace-if true f g = f refl
  Trace-if false f g = g refl

  pub Trace-on_err {ℓ} :
      {C : Type ℓ} {h : List Event} (r : Result C) {f : Error → Prog A} {g : C → Prog A}
      → ((e : Error) → r ≡ err e → Trace P Q h (f e))
      → ((c : C) → r ≡ ok c → Trace P Q h (g c))
      → Trace P Q h (on_err r f g)
  Trace-on_err (ok c) f g = g c refl
  Trace-on_err (err e) f g = f e refl

  -- What holds of every request and result holds along every history.
  pub Sat-Trace :
      {P' : Request → Type 0} {Q' : A → Type 0} {m : Prog A}
      → ((h : List Event) (r : Request) → P' r → P h r)
      → ((h : List Event) (a : A) → Q' a → Q h a)
      → (h : List Event) → Sat P' Q' m
      → Trace P Q h m
  Sat-Trace f g h (returns q) = stops (g h _ q)
  Sat-Trace f g h (calls p s) = asks (f h _ p) (λ x. Sat-Trace f g _ (s x))

-- A trace under a weaker guard, which may use that the history grows.
pub Trace-imp :
    {A : Type 0} {P P' : List Event → Request → Type 0} {Q : List Event → A → Type 0}
    {h : List Event} {m : Prog A}
    → ((h' : List Event) (r : Request) → Later h h' → P h' r → P' h' r)
    → Trace P Q h m
    → Trace P' Q h m
Trace-imp f (stops q) = stops q
Trace-imp f (asks {r} p t) =
    asks (f _ r now_or p) (λ x. Trace-imp (λ h' r' l. f h' r' (Later-before l)) (t x))

-- A trace with a weaker result, which may use that the history grows.
pub Trace-result :
    {A : Type 0} {P : List Event → Request → Type 0} {Q R : List Event → A → Type 0}
    {h : List Event} {m : Prog A}
    → ((h' : List Event) (a : A) → Later h h' → Q h' a → R h' a)
    → Trace P Q h m
    → Trace P R h m
Trace-result f (stops q) = stops (f _ _ now_or q)
Trace-result f (asks p t) = asks p (λ x. Trace-result (λ h' a l. f h' a (Later-before l)) (t x))

-- Nothing is asked of a request.
abbrev pub Anything : List Event → Request → Type 0
Anything h r = Unit

-- Every program has a trace.
pub Trace-all : {A : Type 0} (h : List Event) (m : Prog A) → Trace Anything (λ h' a. Unit) h m
Trace-all h (ret a) = stops tt
Trace-all h (call r k) = asks tt (λ x. Trace-all _ (k x))

-- The history that a run leaves.
unfoldable pub history : {A W : Type 0} → Handler W → W → List Event → Prog A → List Event
history h w past (ret a) = past
history h w past (call r k) = let (x, w') = h w r in history h w' (event r x ∷ past) (k x)

-- In every world, the result of a run satisfies `Q` in the history that the run leaves.
pub Trace-run :
    {A W : Type 0} {P : List Event → Request → Type 0} {Q : List Event → A → Type 0} (h : Handler W)
    (w : W) {past : List Event} {m : Prog A}
    → Trace P Q past m
    → Q (history h w past m) (run h w m).0
unfolding history run
Trace-run h w (stops q) = q
Trace-run h w (asks {r} p t) = let (x, w') = h w r in Trace-run h w' (t x)

-- `r` was answered with `x`.
pub data Answered (r : Request) (x : Response r) : List Event → Type 0 where
  latest : {h : List Event} → Answered r x (event r x ∷ h)
  earlier : {h : List Event} {e : Event} → Answered r x h → Answered r x (e ∷ h)

pub Answered-Later :
    {r : Request} {x : Response r} {h : List Event} {h' : List Event}
    → Later h h'
    → Answered r x h
    → Answered r x h'
Answered-Later now_or a = a
Answered-Later (after l) a = earlier (Answered-Later l a)

-- Every request of a history satisfies `P` in the history before it.
pub data Throughout (P : List Event → Request → Type 0) : List Event → Type 0 where
  at_first : Throughout P []
  and_then :
      {h : List Event} {r : Request} {x : Response r}
      → Throughout P h
      → P h r
      → Throughout P (event r x ∷ h)

pub Trace-history :
    {A W : Type 0} {P : List Event → Request → Type 0} {Q : List Event → A → Type 0} (h : Handler W)
    (w : W) {past : List Event} {m : Prog A}
    → Throughout P past
    → Trace P Q past m
    → Throughout P (history h w past m)
unfolding history
Trace-history h w before (stops q) = before
Trace-history h w before (asks {r} p t) =
    let (x, w') = h w r in Trace-history h w' (and_then before p) (t x)

pub just_answered :
    {r : Request} (x : Response r) {y : Response r} {h : List Event}
    → x ≡ y
    → Answered r y (event r x ∷ h)
just_answered {r} x {y} {h} e = subst (λ z. Answered r z (event r x ∷ h)) e latest

-- The same where the answer to the first request is known.
pub Trace-history_after :
    {A W : Type 0} {P : List Event → Request → Type 0} {Q : List Event → A → Type 0} (h : Handler W)
    (w : W) {past : List Event} {r : Request} (k : Response r → Prog A) (x : Response r)
    → (h w r).0 ≡ x
    → Throughout P past
    → P past r
    → Trace P Q (event r x ∷ past) (k x)
    → Throughout P (history h w past (call r k))
unfolding history
Trace-history_after {P} {Q} h w {past} {r} k x e before p t =
    Trace-history h _ (and_then before p)
      (subst (λ y. Trace P Q (event r y ∷ past) (k y)) (sym e) t)
