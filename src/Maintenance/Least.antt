-- ===== src/Maintenance/Least.antt =====
-- internal/maintenance/maintenance.go, NextMaintenanceWindow: the best opening found so far.
use kangal_patch.Prelude.{
  ℕ, ◌≤◌, ◌≡◌, ◌⊎◌, ◌↔◌, refl, inl, inr, ltb, Option, none, some, Bool-cases, arith,
}
use kangal_patch.Maintenance.{earlier_of}

-- The least instant with the property, if there is one.
unfoldable pub Least : (ℕ → Type 0) → Option ℕ → Type 0
Least P none = (s : ℕ) → P s → ⊥
Least P (some t) = P t × ((s : ℕ) → P s → t ≤ s)

pub Least-none : Least (λ s. ⊥) none
unfolding Least
Least-none = λ s f. f

pub Least-iff : (P Q : ℕ → Type 0) (o : Option ℕ) → ((s : ℕ) → P s ↔ Q s) → Least P o → Least Q o
unfolding Least
Least-iff P Q none f h = λ s q. h s ((f s).1 q)
Least-iff P Q (some t) f h = ((f t).0 h.0, λ s q. h.1 s ((f s).1 q))

-- What holds of nothing adds nothing.
pub Least-skip :
    (P Q : ℕ → Type 0) (o : Option ℕ) → ((s : ℕ) → Q s → ⊥) → Least P o → Least (λ s. P s ⊎ Q s) o
Least-skip P Q o never h =
    Least-iff P _ o (λ s. (λ p. inl p, λ e. elim e [ inl p ↦ p | inr q ↦ elim (never s q) [ ] ])) h

-- The earlier of the least and one more.
pub Least-earlier :
    (P : ℕ → Type 0) (o : Option ℕ) (u : ℕ)
    → Least P o
    → Least (λ s. P s ⊎ (u ≡ s)) (earlier_of o u)
unfolding Least
Least-earlier P none u h =
    (inr refl, λ s e. elim e [ inl p ↦ elim (h s p) [ ] | inr q ↦ omega (arith, q) ])
Least-earlier P (some t) u h = elim (Bool-cases (ltb u t)) [
  | inl e ↦
      rw e
        (inr refl, λ s f. elim f [ inl p ↦ ground (arith, e, h.1 s p) | inr q ↦ omega (arith, q) ])
  | inr e ↦ rw e (inl h.0, λ s f. elim f [ inl p ↦ h.1 s p | inr q ↦ ground (arith, e, q) ])
]
