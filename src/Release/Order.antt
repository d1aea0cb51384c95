-- ===== src/Release/Order.antt =====
-- internal/release/release.go: the order of releases that Select compares by.
use mathlib.Core.List.{Mem}
use kangal_patch.Prelude.{
  ◌≡◌, refl, sym, ◌∙◌, inl, inr, pos, negsuc, ltb_ℤ, Bool, true, false, Bool-cases, true_apart,
  List, Option, none, some, All, if◌then◌else◌,
}
use kangal_patch.Libs.{Libs, compare_versions}
use kangal_patch.Release.{Release, newer}

-- What the choice relies on: the parsed versions are ordered, up to versions that compare as equal.
pub record VersionOrder (lib : Libs) : Type 0 where
  pub flipped : (a b : lib.Version) → lib.less_than a b ≡ lib.greater_than b a
  pub asymmetric : (a b : lib.Version) → lib.greater_than a b ≡ true → lib.greater_than b a ≡ false
  pub negatively_transitive :
      (a b c : lib.Version)
      → lib.greater_than a b ≡ false
      → lib.greater_than b c ≡ false
      → lib.greater_than a c ≡ false

-- `o` is a newest of the releases that satisfy `P`: none only if there is none.
abbrev pub IsNewest :
    (lib : Libs) → (Release lib → Bool) → List (Release lib) → Option (Release lib) → Type 0
IsNewest lib P rs o =
    ((b : Release lib) → o ≡ some b → Mem b rs × (P b ≡ true))
    × All (λ s. P s ≡ true → newer lib s o ≡ false) rs

module _ (lib : Libs) (order : VersionOrder lib) where
  -- Compare is above 0 exactly for a greater version.
  compare_above :
      (l g : Bool)
      → (l ≡ true → g ≡ false)
      → ltb_ℤ (pos 0) (if l then negsuc 0 else if g then pos 1 else pos 0) ≡ g
  compare_above true g apart = sym (apart refl)
  compare_above false true apart = refl
  compare_above false false apart = refl

  newer-greater : (r b : Release lib) → newer lib r (some b) ≡ lib.greater_than r.version b.version
  unfolding newer compare_versions
  newer-greater r b =
      compare_above _ _ λ e. order.asymmetric b.version r.version (sym (order.flipped _ _) ∙ e)

  pub newer_irrefl : (r : Release lib) → newer lib r (some r) ≡ false
  newer_irrefl r = elim (Bool-cases (lib.greater_than r.version r.version)) [
    | inl e ↦ newer-greater r r ∙ order.asymmetric _ _ e
    | inr e ↦ newer-greater r r ∙ e
  ]

  pub newer_trans :
      (a b : Release lib) (o : Option (Release lib))
      → newer lib a (some b) ≡ false
      → newer lib b o ≡ false
      → newer lib a o ≡ false
  unfolding newer
  newer_trans a b none h k = elim (true_apart k) [ ]
  newer_trans a b (some c) h k =
      newer-greater a c
      ∙ order.negatively_transitive _ _ _ (sym (newer-greater a b) ∙ h)
          (sym (newer-greater b c) ∙ k)

  pub newer_asym : (r b : Release lib) → newer lib r (some b) ≡ true → newer lib b (some r) ≡ false
  newer_asym r b h = newer-greater b r ∙ order.asymmetric _ _ (sym (newer-greater r b) ∙ h)
