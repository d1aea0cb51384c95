-- ===== src/Plan/Mirroring/Entries.antt =====
-- controllers/leases.go, jobsByName.
use mathlib.Core.List.{Mem}
use mathlib.Core.Option.{none-ne-some, some-injective}
use kangal_patch.Prelude.{
  ◌≡◌, ◌⊎◌, refl, ◌∙◌, subst, Bool, true, false, List, [], ◌∷◌, Option, some, All, Dict, String,
  lookup, remove, same, same-eq, inl, inr, if◌then◌else◌,
}
use kangal_patch.Api.Job.{PatchJob}
use kangal_patch.Plan.Jobs.{assign, index_names_from}

module _ (jobs : List PatchJob) where
  -- The entries of an index of the jobs.
  abbrev pub IsEntry : String × PatchJob → Type 0
  IsEntry (k, j) = Mem j jobs × (j.name ≡ k)

  All-if :
      (b : Bool) (xs ys : Dict PatchJob)
      → All IsEntry xs
      → All IsEntry ys
      → All IsEntry (if b then xs else ys)
  All-if true xs ys p q = p
  All-if false xs ys p q = q

  remove-All : (k : String) (m : Dict PatchJob) → All IsEntry m → All IsEntry (remove k m)
  remove-All k [] p = tt
  remove-All k ((i, j) ∷ m) p =
      let rest = remove-All k m p.1 in All-if (same i k) _ _ rest (p.0, rest)

  pub index_names_from-All :
      (m : Dict PatchJob) (js : List PatchJob)
      → All IsEntry m
      → All (λ j. Mem j jobs) js
      → All IsEntry (index_names_from m js)
  unfolding index_names_from
  index_names_from-All m [] p q = p
  index_names_from-All m (j ∷ js) p q =
      index_names_from-All (assign j.name j m) js ((q.0, refl), remove-All j.name m p) q.1

  found :
      (b : Bool) (v : PatchJob) (o : Option PatchJob) (i : PatchJob)
      → (if b then some v else o) ≡ some i
      → ((b ≡ true) × (v ≡ i)) ⊎ (o ≡ some i)
  found true v o i e = inl (refl, some-injective _ _ e)
  found false v o i e = inr e

  pub lookup-IsEntry :
      (k : String) (m : Dict PatchJob) (i : PatchJob)
      → All IsEntry m
      → lookup k m ≡ some i
      → IsEntry (k, i)
  lookup-IsEntry k [] i p e = elim (none-ne-some i e) [ ]
  lookup-IsEntry k ((n, j) ∷ m) i p e = elim (found (same n k) j (lookup k m) i e) [
    | inl (at, is) ↦ subst (λ x. IsEntry (k, x)) is (p.0.0, p.0.1 ∙ same-eq n k at)
    | inr later ↦ lookup-IsEntry k m i p.1 later
  ]
