-- ===== src/Plan/Preflight/Ties.antt =====
-- controllers/preflight.go, blocksPlan: which of two plans goes first.
use Prim.Native.String.{String, [], ◌∷◌, compare, then}
use Prim.Native.String.compare
use Prim.Native.Char.{code}
use Prim.Native.Nat.{Ordering, compare as compare_ℕ}
use Prim.Native.Nat.compare as compare_ℕ
use text.Mathlib.TextEquality.{path_by_compare}
use kangal_patch.Prelude.{
  ℕ, zero, suc, ◌≡◌, refl, sym, ap, ◌∙◌, Bool, true, false, not, ◌==◌, ltb, if◌then◌else◌, arith,
}
use kangal_patch.Api.Plan
use kangal_patch.Api.Plan.{PatchPlan, PatchPhase}
use kangal_patch.Plan.Preflight.Conflicts.{text_less, comes_first, blocks_in, blocks_plan}

abbrev flip : Ordering → Ordering
flip Ordering.lt = Ordering.gt
flip Ordering.eq = Ordering.eq
flip Ordering.gt = Ordering.lt

flip-then : (o r : Ordering) → (then) (flip o) (flip r) ≡ flip ((then) o r)
flip-then Ordering.lt r = refl
flip-then Ordering.eq r = refl
flip-then Ordering.gt r = refl

compare-flip_ℕ : (m n : ℕ) → compare_ℕ n m ≡ flip (compare_ℕ m n)
compare-flip_ℕ zero zero = refl
compare-flip_ℕ zero (suc n) = compare_ℕ.suc-zero n ∙ ap flip (sym (compare_ℕ.zero-suc n))
compare-flip_ℕ (suc m) zero = compare_ℕ.zero-suc m ∙ ap flip (sym (compare_ℕ.suc-zero m))
compare-flip_ℕ (suc m) (suc n) =
    compare_ℕ.suc-suc n m ∙ compare-flip_ℕ m n ∙ ap flip (sym (compare_ℕ.suc-suc m n))

compare-flip : (s t : String) → compare t s ≡ flip (compare s t)
compare-flip [] [] = compare.nil-nil ∙ ap flip (sym compare.nil-nil)
compare-flip [] (d ∷ t) = compare.cons-nil d t ∙ ap flip (sym (compare.nil-cons d t))
compare-flip (c ∷ s) [] = compare.nil-cons c s ∙ ap flip (sym (compare.cons-nil c s))
compare-flip (c ∷ s) (d ∷ t) =
    compare.cons-cons d c t s
    ∙ ap (λ o. (then) o (compare t s)) (compare-flip_ℕ (code c) (code d))
    ∙ ap (λ r. (then) (flip (compare_ℕ (code c) (code d))) r) (compare-flip s t)
    ∙ flip-then (compare_ℕ (code c) (code d)) (compare s t)
    ∙ ap flip (sym (compare.cons-cons c d s t))

abbrev is_lt : Ordering → Bool
is_lt Ordering.lt = true
is_lt Ordering.eq = false
is_lt Ordering.gt = false

is_lt-flip : (o : Ordering) → ¬ (o ≡ Ordering.eq) → is_lt (flip o) ≡ not (is_lt o)
is_lt-flip Ordering.lt apart = refl
is_lt-flip Ordering.eq apart = elim (apart refl) [ ]
is_lt-flip Ordering.gt apart = refl

text_less-total : (s t : String) → ¬ (s ≡ t) → text_less t s ≡ not (text_less s t)
text_less-total s t apart =
    ap is_lt (compare-flip s t) ∙ is_lt-flip (compare s t) (λ e. apart (path_by_compare s t e))

-- The phases in which a plan has not started.
abbrev pub unstarted : PatchPhase → Bool
unstarted Plan.unset = true
unstarted Plan.pending = true
unstarted Plan.preflighting = true
unstarted _ = false

blocks_in-unstarted :
    (p : PatchPhase) (other plan : PatchPlan)
    → unstarted p ≡ true
    → blocks_in p other plan ≡ comes_first other plan
blocks_in-unstarted Plan.unset other plan e = refl
blocks_in-unstarted Plan.pending other plan e = refl
blocks_in-unstarted Plan.preflighting other plan e = refl
blocks_in-unstarted Plan.in_progress other plan e = cc
blocks_in-unstarted Plan.paused other plan e = cc
blocks_in-unstarted Plan.cancelled other plan e = cc
blocks_in-unstarted Plan.completed other plan e = cc
blocks_in-unstarted Plan.failed other plan e = cc
blocks_in-unstarted Plan.watching other plan e = cc

tie :
    (m n : ℕ) (p q : Bool)
    → q ≡ not p
    → (if not (n == m) then ltb n m else q) ≡ not (if not (m == n) then ltb m n else p)
tie m n p q e = ground (arith, e)

-- Of two plans that have not started, with different names, exactly one blocks the other.
pub blocks_plan-ties :
    (a b : PatchPlan)
    → unstarted a.status.phase ≡ true
    → unstarted b.status.phase ≡ true
    → ¬ (a.name ≡ b.name)
    → blocks_plan b a ≡ not (blocks_plan a b)
unfolding blocks_plan comes_first
blocks_plan-ties a b a_waits b_waits apart =
    blocks_in-unstarted b.status.phase b a b_waits
    ∙ tie a.creation_timestamp b.creation_timestamp _ _ (text_less-total a.name b.name apart)
    ∙ ap not (sym (blocks_in-unstarted a.status.phase a b a_waits))
