-- ===== src/Plan/Creation/Increments.antt =====
-- controllers/leases.go, active[group]++: what the counts are after it.
use kangal_patch.Prelude.{
  ℕ, ◌+◌, ◌≡◌, refl, ap, ◌∙◌, Bool, true, false, String, List, [], ◌∷◌, Dict, lookup, remove, same,
  same-eq, length, keep, Bool-cases, inl, inr, arith,
}
use kangal_patch.Plan.Jobs.{count_of, number_or_zero, increment}

abbrev pub one_if : Bool → ℕ
one_if true = 1
one_if false = 0

pub length-keep :
    {A : Type 0} (p : A → Bool) (x : A) (xs : List A)
    → length (keep p (x ∷ xs)) ≡ one_if (p x) + length (keep p xs)
length-keep p x xs = elim (Bool-cases (p x)) [
  | inl e ↦ rw e (omega arith)
  | inr e ↦ rw e (omega arith)
]

lookup-remove_ne :
    (j k : String) (m : Dict ℕ) → same j k ≡ false → lookup k (remove j m) ≡ lookup k m
lookup-remove_ne j k [] e = refl
lookup-remove_ne j k ((i, n) ∷ m) e = elim (Bool-cases (same i j)) [
  | inl at ↦
      let other : same i k ≡ false = ap (λ s. same s k) (same-eq i j at) ∙ e in
      rw (at, other) (lookup-remove_ne j k m e)
  | inr at ↦ rw (at, lookup-remove_ne j k m e) refl
]

pub count_of-increment :
    (j k : String) (m : Dict ℕ) → count_of k (increment j m) ≡ one_if (same j k) + count_of k m
unfolding count_of increment
count_of-increment j k m = elim (Bool-cases (same j k)) [
  | inl e ↦ rw e (omega (arith, ap (λ s. number_or_zero (lookup s m)) (same-eq j k e)))
  | inr e ↦ rw (e, lookup-remove_ne j k m e) (omega arith)
]
